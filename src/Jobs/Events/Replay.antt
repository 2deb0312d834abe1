-- ===== src/Jobs/Events/Replay.antt =====
-- The event log as a run of consecutive ids, and what a listener's replay gives of it.
use minimax_music3_webui.Prelude.{
  ℕ, zero, suc, ◌+◌, ◌-◌, ◌≤◌, ◌<◌, ◌≡◌, refl, false, List, [], ◌∷◌, ◌++◌, length, drop, arith, ltb,
  subst, Bool-cases, inl, inr,
}
use minimax_music3_webui.Jobs.Events.{JobEvent, newer_than}

-- The ids count up from `next`.
abbrev pub Ascends : ℕ → List JobEvent → Type 0
Ascends next [] = Unit
Ascends next (event ∷ log) = (event.id ≡ next) × Ascends (suc next) log

pub Ascends-drop :
    (d next next' : ℕ) (log : List JobEvent)
    → d ≤ length log
    → next' ≡ next + d
    → Ascends next log
    → Ascends next' (drop d log)
Ascends-drop zero next next' log h e a =
    subst (λ n. Ascends n log) (let p : next ≡ next' = omega arith in p) a
Ascends-drop (suc d) next next' [] h e a = absurd (omega arith)
Ascends-drop (suc d) next next' (event ∷ log) h e a =
    Ascends-drop d (suc next) next' log (omega arith) (omega arith) a.1

pub Ascends-concat :
    (next : ℕ) (log : List JobEvent) (event : JobEvent)
    → event.id ≡ next + length log
    → Ascends next log
    → Ascends next (log ++ event ∷ [])
Ascends-concat next [] event e a = (omega arith, tt)
Ascends-concat next (first ∷ log) event e a =
    (a.0, Ascends-concat (suc next) log event (omega arith) a.1)

-- Every id of the run is newer than what stands before it.
newer_than_before :
    (last_id next : ℕ) (log : List JobEvent)
    → last_id < next
    → Ascends next log
    → newer_than last_id log ≡ log
unfolding newer_than
newer_than_before last_id next [] h a = refl
newer_than_before last_id next (event ∷ log) h a =
    ground (arith, newer_than_before last_id (suc next) log (omega arith) a.1)

pub newer_than-drop :
    (last_id k : ℕ) (log : List JobEvent)
    → Ascends (suc k) log
    → newer_than last_id log ≡ drop (last_id - k) log
unfolding newer_than
newer_than-drop last_id k [] a = elim (last_id - k) as (λ d. newer_than last_id [] ≡ drop d []) [
  | zero ↦ refl
  | suc d ↦ refl
]
newer_than-drop last_id k (event ∷ log) a = elim (Bool-cases (ltb k last_id)) [
  | inl below ↦
      let older : ltb last_id event.id ≡ false = ground arith in
      let count : last_id - k ≡ suc (last_id - suc k) = ground arith in
      rw (older, count) (newer_than-drop last_id (suc k) log a.1)
  | inr above ↦
      let all : last_id - k ≡ 0 = ground arith in
      rw all (newer_than_before last_id (suc k) (event ∷ log) (ground arith) a)
]
