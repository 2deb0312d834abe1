-- ===== src/Jobs/Store/Transitions.antt =====
-- The life of a job: which transitions the four functions make, and which they refuse.
use minimax_music3_webui.Prelude.{String, ◌≡◌, refl, some, arith, ◌⊎◌, inl, inr}
use minimax_music3_webui.Prelude.Result.{Result, ok, err}
use minimax_music3_webui.Engine.{EngineResult}
use minimax_music3_webui.Jobs.Store.{
  JobStatus, queued, running, succeeded, failed, cancelled, JobRecord, JobError, job_transition,
  to_running, to_succeeded, to_failed, to_cancelled,
}

-- The diagram.
pub data Moves : JobStatus → JobStatus → Type 0 where
  begin : Moves queued running
  complete : Moves running succeeded
  refuse : Moves queued failed
  fail : Moves running failed
  withdraw : Moves queued cancelled
  abort : Moves running cancelled

-- A call of one of the functions.
pub data Transition : Type 0 where
  run : (now : String) → Transition
  succeed : EngineResult → (now : String) → Transition
  fail_with : (error now : String) → Transition
  cancel : (now : String) → Transition

abbrev pub apply : Transition → JobRecord → Result JobError JobRecord
apply (run now) = to_running now
apply (succeed result now) = to_succeeded result now
apply (fail_with error now) = to_failed error now
apply (cancel now) = to_cancelled now

abbrev pub target : Transition → JobStatus
target (run now) = running
target (succeed result now) = succeeded
target (fail_with error now) = failed
target (cancel now) = cancelled

-- What a transition leaves as it was.
pub record Kept (job job' : JobRecord) : Type 0 where
  pub id : job'.id ≡ job.id
  pub submission : job'.submission ≡ job.submission
  pub submitted_at : job'.submitted_at ≡ job.submitted_at

abbrev pub Made : Transition → JobRecord → Type 0
Made t job = (job' : JobRecord) × (apply t job ≡ ok job') × (job'.status ≡ target t) × Kept job job'

abbrev failed_with : String → String → JobRecord → JobRecord
failed_with error now job = record job { status = failed; ended_at = some now; error = some error }

abbrev cancelled_at : String → JobRecord → JobRecord
cancelled_at now job = record job { status = cancelled; ended_at = some now }

Made-at :
    (t : Transition) (job : JobRecord) (status : JobStatus)
    → job.status ≡ status
    → Moves status (target t)
    → Made t job
unfolding to_running to_succeeded to_failed to_cancelled
Made-at (run now) job queued e m =
    (record job { status = running; started_at = some now }, ground arith, refl, ground arith)
Made-at (succeed result now) job running e m = (
  record job {
    status = succeeded;
    ended_at = some now;
    engine = some result.engine;
    model = some result.model;
    audio = some result.audio;
    content_type = some result.content_type;
    generation_time = some result.generation_time;
  },
  ground arith,
  refl,
  ground arith,
)
Made-at (fail_with error now) job queued e m =
    (failed_with error now job, ground arith, refl, ground arith)
Made-at (fail_with error now) job running e m =
    (failed_with error now job, ground arith, refl, ground arith)
Made-at (cancel now) job queued e m = (cancelled_at now job, ground arith, refl, ground arith)
Made-at (cancel now) job running e m = (cancelled_at now job, ground arith, refl, ground arith)
Made-at _ job _ e m = elim m [ ]

refused_at :
    (t : Transition) (job : JobRecord) (status : JobStatus)
    → job.status ≡ status
    → ¬ Moves status (target t)
    → apply t job ≡ err (job_transition status (target t))
unfolding to_running to_succeeded to_failed to_cancelled
refused_at (run now) job queued e n = absurd (n begin)
refused_at (succeed result now) job running e n = absurd (n complete)
refused_at (fail_with error now) job queued e n = absurd (n refuse)
refused_at (fail_with error now) job running e n = absurd (n fail)
refused_at (cancel now) job queued e n = absurd (n withdraw)
refused_at (cancel now) job running e n = absurd (n abort)
refused_at _ job _ e n = ground arith

Moves-dec : (a b : JobStatus) → Dec (Moves a b)
Moves-dec queued running = yes begin
Moves-dec running succeeded = yes complete
Moves-dec queued failed = yes refuse
Moves-dec running failed = yes fail
Moves-dec queued cancelled = yes withdraw
Moves-dec running cancelled = yes abort
Moves-dec _ _ = no (λ m. elim m [ ])

-- Each of the four functions makes its transition exactly from the statuses from which the diagram
-- leads to its target: there it gives a record with that status and with the id, the submission and
-- the submission time that it had; from any other status it raises the transition error that names
-- the two statuses.
pub transition_exact :
    (t : Transition) (job : JobRecord)
    → (Moves job.status (target t) × Made t job)
      ⊎ ((¬ Moves job.status (target t))
          × (apply t job ≡ err (job_transition job.status (target t))))
transition_exact t job = elim (Moves-dec job.status (target t)) [
  | yes m ↦ inl (m, Made-at t job job.status refl m)
  | no n ↦ inr (n, refused_at t job job.status refl n)
]
