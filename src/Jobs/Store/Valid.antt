-- ===== src/Jobs/Store/Valid.antt =====
-- What holds of the store between two stretches of the event loop: each job has its log and its
-- counter, the log is the newest part of a run of ids that ends at the counter, and its last
-- event names the job's status.
use minimax_music3_webui.Prelude.{
  ℕ, suc, ◌+◌, ◌-◌, ◌≤◌, ◌≡◌, refl, String, Option, none, some, List, [], ◌∷◌, ◌++◌, length, last?,
  length-append, length-drop, last?-drop_concat, arith, str_eq, inl, inr, subst, Bool-cases,
}
use minimax_music3_webui.Prelude.Table.{put, put_self}
use minimax_music3_webui.Prelude.Result.{Result, ok}
use minimax_music3_webui.Json.{Fields, end}
use minimax_music3_webui.Jobs.Events.{JobEvent}
use minimax_music3_webui.Jobs.Events.Replay.{Ascends, Ascends-drop, Ascends-concat}
use minimax_music3_webui.Jobs.Store.{
  JobRecord, JobError, JobStore, Submission, value, append_bounded, append_event, create,
  fresh_record, update, get,
}

-- `limit` bounds the log, `n` is the last id that was given, `type` is the last event's type.
pub record Logged (limit : ℕ) (type : String) (log : List JobEvent) (n : ℕ) : Type 0 where
  pub dropped : ℕ
  pub ascends : Ascends (suc dropped) log
  pub counted : dropped + length log ≡ n
  pub bounded : length log ≤ limit
  pub last : JobEvent
  pub is_last : last? log ≡ some last
  pub last_type : last.type ≡ type

abbrev pub Matches : ℕ → Option JobRecord → Option (List JobEvent) → Option ℕ → Type 0
Matches limit none none none = Unit
Matches limit (some job) (some log) (some n) = Logged limit (value job.status) log n
Matches limit _ _ _ = ⊥

pub record IsValid (s : JobStore) : Type 0 where
  pub positive : 1 ≤ s.event_log_limit
  pub at : (id : String) → Matches s.event_log_limit (s.jobs id) (s.events id) (s.seq id)

-- Appending the next event to a log of at most `limit` entries keeps it the newest part of the run.
pub append_bounded-Logged :
    (limit k n : ℕ) (log : List JobEvent) (event : JobEvent)
    → 1 ≤ limit
    → Ascends (suc k) log
    → k + length log ≡ n
    → length log ≤ limit
    → event.id ≡ n + 1
    → Logged limit event.type (append_bounded limit log event) (n + 1)
unfolding append_bounded
append_bounded-Logged limit k n log event pos a c b e =
    let longer = log ++ event ∷ [] in
    let cut = length longer - limit in
    let size : length longer ≡ length log + 1 = length-append log (event ∷ []) in
    record {
      dropped = k + cut;
      ascends =
          Ascends-drop cut (suc k) (suc (k + cut)) longer (omega arith) (omega arith)
            (Ascends-concat (suc k) log event (omega arith) a);
      counted = omega (arith, length-drop cut longer);
      bounded = omega (arith, length-drop cut longer);
      last = event;
      is_last = last?-drop_concat cut log event (omega arith);
      last_type = refl;
    }

-- The record of `id` is changed by `fn`, and then an event is logged that names its new status.
pub record Advanced (s : JobStore) (id : String) (fn : JobRecord → Result JobError JobRecord)
    (type : String) (payload : Fields) (job' : JobRecord) : Type 0 where
  pub middle : JobStore
  pub event : JobEvent
  pub after : JobStore
  pub updated : update id fn s ≡ ok (job', middle)
  pub appended : append_event id type payload middle ≡ ok (event, after)
  pub jobs_after : after.jobs ≡ put id job' s.jobs
  pub valid_after : IsValid after

-- What a valid store holds for a job that it has.
pub record Entry (s : JobStore) (id : String) (job : JobRecord) : Type 0 where
  pub log : List JobEvent
  pub n : ℕ
  pub log_at : s.events id ≡ some log
  pub seq_at : s.seq id ≡ some n
  pub logged : Logged s.event_log_limit (value job.status) log n

entry_of :
    (limit : ℕ) (job : JobRecord) (events : Option (List JobEvent)) (seq : Option ℕ)
    → Matches limit (some job) events seq
    → (log : List JobEvent) × (n : ℕ) × (events ≡ some log)
      × (seq ≡ some n)
      × Logged limit (value job.status) log n
entry_of limit job none none m = absurd m
entry_of limit job none (some n) m = absurd m
entry_of limit job (some log) none m = absurd m
entry_of limit job (some log) (some n) m = (log, n, refl, refl, m)

pub IsValid-Entry :
    (s : JobStore) (id : String) (job : JobRecord)
    → IsValid s
    → s.jobs id ≡ some job
    → Entry s id job
IsValid-Entry s id job v e =
    let (log, n, log_at, seq_at, logged) =
      entry_of s.event_log_limit job (s.events id) (s.seq id)
        (subst (λ j. Matches s.event_log_limit j (s.events id) (s.seq id)) e (v.at id)) in
    record { log = log; n = n; log_at = log_at; seq_at = seq_at; logged = logged }

-- Changing all three tables at one id to matching values keeps the store valid.
put-Matches :
    (limit : ℕ) (s : JobStore) (id : String) (job' : JobRecord) (log' : List JobEvent) (n' : ℕ)
    → ((j : String) → Matches limit (s.jobs j) (s.events j) (s.seq j))
    → Matches limit (some job') (some log') (some n')
    → (j : String)
    → Matches limit (put id job' s.jobs j) (put id log' s.events j) (put id n' s.seq j)
put-Matches limit s id job' log' n' old new j = elim (Bool-cases (str_eq id j)) [
  | inl same ↦ rw same new
  | inr other ↦ rw other (old j)
]

update_ok :
    (s : JobStore) (id : String) (fn : JobRecord → Result JobError JobRecord) (job job' : JobRecord)
    → s.jobs id ≡ some job
    → fn job ≡ ok job'
    → update id fn s ≡ ok (job', record s { jobs = put id job' s.jobs })
unfolding update
update_ok s id fn job job' at_id moves = rw (at_id, get) (rw moves)

append_event_ok :
    (s : JobStore) (id type : String) (payload : Fields) (log : List JobEvent) (n : ℕ)
    → s.events id ≡ some log
    → s.seq id ≡ some n
    → let event : JobEvent = record { id = n + 1; type = type; payload = payload } in
      append_event id type payload s
      ≡ ok (
        event,
        record s {
          seq = put id (n + 1) s.seq;
          events = put id (append_bounded s.event_log_limit log event) s.events;
        },
      )
unfolding append_event
append_event_ok s id type payload log n log_at seq_at =
    rw (log_at, append_event) (rw (seq_at, append_event))

pub advance :
    (s : JobStore) (id : String) (fn : JobRecord → Result JobError JobRecord) (payload : Fields)
    (job job' : JobRecord)
    → IsValid s
    → s.jobs id ≡ some job
    → fn job ≡ ok job'
    → Advanced s id fn (value job'.status) payload job'
advance s id fn payload job job' v at_id moves =
    let entry = IsValid-Entry s id job v at_id in
    let old = entry.logged in
    let event : JobEvent = record {
      id = entry.n + 1;
      type = value job'.status;
      payload = payload;
    } in
    let logged =
      append_bounded-Logged s.event_log_limit old.dropped entry.n entry.log event v.positive
        old.ascends old.counted old.bounded refl in
    record {
      middle = record s { jobs = put id job' s.jobs };
      event = event;
      after = record s {
        jobs = put id job' s.jobs;
        seq = put id (entry.n + 1) s.seq;
        events = put id (append_bounded s.event_log_limit entry.log event) s.events;
      };
      updated = update_ok s id fn job job' at_id moves;
      appended =
          append_event_ok (record s { jobs = put id job' s.jobs }) id (value job'.status) payload
            entry.log entry.n entry.log_at entry.seq_at;
      jobs_after = refl;
      valid_after = record {
        positive = v.positive;
        at =
            put-Matches s.event_log_limit s id job'
              (append_bounded s.event_log_limit entry.log event) (entry.n + 1) v.at logged;
      };
    }

-- A job is created under an id, and the event `queued` is logged for it.
pub record Created (s : JobStore) (id now : String) (submission : Submission) : Type 0 where
  pub middle : JobStore
  pub event : JobEvent
  pub after : JobStore
  pub created : create submission now none id s ≡ (fresh_record id submission now, middle)
  pub appended : append_event id "queued" end middle ≡ ok (event, after)
  pub jobs_after : after.jobs ≡ put id (fresh_record id submission now) s.jobs
  pub valid_after : IsValid after

pub create_valid :
    (s : JobStore) (id now : String) (submission : Submission)
    → IsValid s
    → Created s id now submission
unfolding create
create_valid s id now submission v =
    let job = fresh_record id submission now in
    let event : JobEvent = record { id = 0 + 1; type = "queued"; payload = end } in
    let log = append_bounded s.event_log_limit [] event in
    let logged =
      append_bounded-Logged s.event_log_limit 0 0 [] event v.positive tt refl
        (let p : 0 ≤ s.event_log_limit = omega arith in p) refl in
    record {
      middle = (create submission now none id s).1;
      created = refl;
      event = event;
      after = record s {
        jobs = put id job s.jobs;
        seq = put id (0 + 1) (put id 0 s.seq);
        events = put id log (put id [] s.events);
      };
      appended =
          append_event_ok (create submission now none id s).1 id "queued" end [] 0
            (put_self id [] s.events) (put_self id 0 s.seq);
      jobs_after = refl;
      valid_after = record {
        positive = v.positive;
        at = λ j. elim (Bool-cases (str_eq id j)) [
          | inl same ↦ rw same logged
          | inr other ↦ rw other (v.at j)
        ];
      };
    }
