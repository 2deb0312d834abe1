-- ===== src/Routes/Native/Stream.antt =====
-- The events that a listener is sent, in order and none twice.
use minimax_music3_webui.Prelude.{
  ℕ, ◌-◌, ◌≤◌, ◌<◌, ◌≡◌, refl, sym, ap, Bool, true, false, Option, none, some, List, [], ◌∷◌, ◌++◌,
  map, leb, ltb, lt→ltb, ltb→lt, ◌||◌, arith, if◌then◌else◌, inl, inr, Bool-cases,
}
use mathlib.Core.List.{append-nil}
use minimax_music3_webui.Jobs.Events.{JobEvent, newer_than, events_since, is_terminal_event}
use minimax_music3_webui.Routes.Native.{Piece, event, heartbeat, Round, send_events, event_stream}

-- The ids go up, from above this one.
abbrev pub Ascends : ℕ → List JobEvent → Type 0
Ascends m [] = Unit {0}
Ascends m (e ∷ es) = (m < e.id) × Ascends e.id es

abbrev pub from_id : Option ℕ → ℕ
from_id none = 0
from_id (some n) = n

newer_than-kept :
    (m k : ℕ) (es : List JobEvent) → m ≤ k → Ascends k es → Ascends k (newer_than m es)
unfolding newer_than
newer_than-kept m k [] h a = tt
newer_than-kept m k (e ∷ es) h (first, rest) =
    rw (lt→ltb m e.id (omega (arith, h, first)))
      (first, newer_than-kept m e.id es (omega (arith, h, first)) rest)

newer_than-Ascends : (m k : ℕ) (es : List JobEvent) → Ascends k es → Ascends m (newer_than m es)
unfolding newer_than
newer_than-Ascends m k [] a = tt
newer_than-Ascends m k (e ∷ es) (first, rest) = elim (Bool-cases (ltb m e.id)) [
  | inl later ↦ rw later (ltb→lt m e.id later, newer_than-kept m e.id es (ground arith) rest)
  | inr seen ↦ rw seen (newer_than-Ascends m e.id es rest)
]

events_since-Ascends :
    (last : Option ℕ) (log : List JobEvent)
    → Ascends 0 log
    → Ascends (from_id last) (events_since log last)
unfolding events_since
events_since-Ascends none log a = a
events_since-Ascends (some m) log a = newer_than-Ascends m 0 log a

-- The events among the pieces.
abbrev pub events_of : List Piece → List JobEvent
events_of [] = []
events_of (event e ∷ pieces) = e ∷ events_of pieces
events_of (heartbeat ∷ pieces) = events_of pieces

events_of-map :
    (es : List JobEvent) (ps : List Piece) → events_of (map event es ++ ps) ≡ es ++ events_of ps
events_of-map [] ps = refl
events_of-map (e ∷ es) ps = ap (λ ys. e ∷ ys) (events_of-map es ps)

events_of-beat :
    (due : Bool) (ps : List Piece)
    → events_of ((if due then heartbeat ∷ [] else []) ++ ps) ≡ events_of ps
events_of-beat true ps = refl
events_of-beat false ps = refl

-- What follows the events of a round follows them in order.
send_events-Ascends :
    (last : Option ℕ) (es : List JobEvent) (rest : List JobEvent)
    → Ascends (from_id last) es
    → Ascends (from_id (send_events last es).0) rest
    → Ascends (from_id last) ((send_events last es).1 ++ rest)
unfolding send_events
send_events-Ascends last [] rest a b = b
send_events-Ascends last (e ∷ es) rest (first, later) b = elim (Bool-cases (is_terminal_event e)) [
  | inl stop ↦ rw stop (first, (rw stop at b))
  | inr go ↦ rw go (first, send_events-Ascends (some e.id) es rest later (rw go at b))
]

-- Every log of the rounds has ascending ids.
abbrev pub AscendingLogs : List Round → Type 0
AscendingLogs [] = Unit {0}
AscendingLogs (round ∷ rounds) = Ascends 0 round.log × AscendingLogs rounds

-- If the ids ascend in each log that the stream finds, then the ids that it sends ascend, and are above the
-- one that the listener has seen: no event is sent twice or out of order.
pub event_stream-Ascends :
    (period last_beat : ℕ) (last : Option ℕ) (rounds : List Round)
    → AscendingLogs rounds
    → Ascends (from_id last) (events_of (event_stream period last_beat last rounds).0)
unfolding event_stream
event_stream-Ascends period last_beat last [] a = tt
event_stream-Ascends period last_beat last (round ∷ rounds) (now, later) =
    let (seen, sent, ended) = send_events last (events_since round.log last) in
    let ascends = events_since-Ascends last round.log now in
    let due = leb period (round.now - last_beat) in
    elim (Bool-cases (ended || round.disconnected)) [
      | inl over ↦
          rw (over, sym (append-nil (map event sent)), events_of-map sent [])
            (send_events-Ascends last (events_since round.log last) [] ascends tt)
      | inr goes_on ↦
          let next = event_stream period (if due then round.now else last_beat) seen rounds in
          rw
            (
              goes_on,
              events_of-map sent ((if due then heartbeat ∷ [] else []) ++ next.0),
              events_of-beat due next.0,
            )
            (send_events-Ascends last (events_since round.log last) (events_of next.0) ascends (
              event_stream-Ascends period (if due then round.now else last_beat) seen rounds later))
    ]
