-- ===== src/Jobs/Steps/Cancelling.antt =====
-- `cancel` keeps the invariant.
use minimax_music3_webui.Prelude.{
  ◌≡◌, refl, sym, subst, String, true, false, none, some, ◌∷◌, str_mem, arith, inl, inr, Bool-cases,
  Option-cases, ◌∙◌, ap,
}
use minimax_music3_webui.Prelude.Table.{put_ind, str_mem_cons_ne, str_eq_self}
use minimax_music3_webui.Prelude.Result.{ok}
use minimax_music3_webui.Json.{end}
use minimax_music3_webui.Jobs.Store.{
  cancelled, is_terminal, is_running, is_cancelled, JobRecord, to_cancelled, get,
}
use minimax_music3_webui.Jobs.Store.Valid.{Advanced, advance}
use minimax_music3_webui.Jobs.Slot.{
  Worker, absent, idle, exited, awaiting_ready, awaiting_engine, Slot,
}
use minimax_music3_webui.Jobs.Runner.{cancel, mark_cancelled, abort_call}
use minimax_music3_webui.Jobs.Steps.Invariant.{
  status_is, can_wait, can_run, IsFree, IsBusy, NoneRuns, AtWorker, IsSound, IsFree-cast,
}
use minimax_music3_webui.Jobs.Steps.Change.{
  status_is-put-true, status_is-put-false, Signalled, abort_call-Signalled,
}

cancel_unknown :
    {Disk : Type 0} (s : Slot Disk) (id now : String)
    → s.store.jobs id ≡ none
    → (cancel id now s).1 ≡ s
unfolding cancel get
cancel_unknown s id now e = ground arith

cancel_over :
    {Disk : Type 0} (s : Slot Disk) (id now : String) (job : JobRecord)
    → s.store.jobs id ≡ some job
    → is_terminal job.status ≡ true
    → (cancel id now s).1 ≡ s
unfolding cancel get
cancel_over s id now job e over = ground arith

abbrev pub cancelled_job_of : JobRecord → String → JobRecord
cancelled_job_of job now = record job { status = cancelled; ended_at = some now }

module _ {Disk : Type 0} (s : Slot Disk) (id now : String) (job : JobRecord)
    (at_id : s.store.jobs id ≡ some job) (open_job : is_terminal job.status ≡ false) where
  abbrev cancelled_job : JobRecord
  cancelled_job = cancelled_job_of job now

  module _ (adv : Advanced s.store id (to_cancelled now) "cancelled" end cancelled_job)
      (sig : Signalled (mark_cancelled id s) (abort_call id job.status (mark_cancelled id s))) where
    abbrev after_cancel : Slot Disk
    after_cancel = record s { store = adv.after; cancelled = id ∷ s.cancelled; tasks = sig.tasks }

    cancel_eq : cancel id now s ≡ (ok cancelled_job, after_cancel)
    unfolding cancel get
    cancel_eq = ground (arith, adv.updated, adv.appended, sig.is_state)

    module _ (sound : IsSound s) where
      cancel-IsFree : IsFree s → IsFree after_cancel
      cancel-IsFree = IsFree-cast s after_cancel refl refl sig.same_live

      cancel-NoneRuns : NoneRuns s → NoneRuns after_cancel
      cancel-NoneRuns n j =
          rw adv.jobs_after
            (status_is-put-false is_running s.store.jobs id cancelled_job j refl (λ _. n j))

      cancel-IsBusy : (other : String) → IsBusy other s → IsBusy other after_cancel
      cancel-IsBusy other b = record {
        task = b.task;
        is_current = b.is_current;
        is_task = b.is_task;
        one_lease = b.one_lease;
        only_live = λ i l. b.only_live i (sym (sig.same_live i) ∙ l);
        only_running = λ j r. elim (Bool-cases (status_is is_running (s.store.jobs j))) [
          | inl ran ↦ b.only_running j ran
          | inr not_ran ↦
              let stays =
                status_is-put-false is_running s.store.jobs id cancelled_job j refl
                  (λ _. not_ran) in
              absurd (cc (rw adv.jobs_after at r))
        ];
        may_run =
            rw adv.jobs_after
              (status_is-put-true can_run s.store.jobs id cancelled_job other refl b.may_run);
        left_queue = b.left_queue;
        ended_first = λ m. sig.same_live b.task ∙ b.ended_first m;
      }

      cancel-AtWorker : (w : Worker) → AtWorker w s → AtWorker w after_cancel
      cancel-AtWorker absent (f, n) = (cancel-IsFree f, cancel-NoneRuns n)
      cancel-AtWorker idle (f, n) = (cancel-IsFree f, cancel-NoneRuns n)
      cancel-AtWorker exited f = cancel-IsFree f
      cancel-AtWorker (awaiting_ready other) (f, n, w, q) = (
        cancel-IsFree f,
        cancel-NoneRuns n,
        rw adv.jobs_after (status_is-put-true can_wait s.store.jobs id cancelled_job other refl w),
        q,
      )
      cancel-AtWorker (awaiting_engine other request) b = cancel-IsBusy other b

      after_cancel-IsSound : IsSound after_cancel
      after_cancel-IsSound = record {
        valid = adv.valid_after;
        cancelled_agree = λ j. rw adv.jobs_after (
            put_ind (λ k o. str_mem k (id ∷ s.cancelled) ≡ status_is is_cancelled o) id
              cancelled_job s.store.jobs j (rw (str_eq_self id))
              (λ n. str_mem_cons_ne j id s.cancelled n ∙ sound.cancelled_agree j));
        waiting = λ j m.
            rw adv.jobs_after (
              status_is-put-true can_wait s.store.jobs id cancelled_job j refl (sound.waiting j m));
        distinct = sound.distinct;
        unmade = λ i h. sig.same_none i (sound.unmade i h);
        at_worker = cancel-AtWorker s.worker sound.at_worker;
      }

to_cancelled_ok :
    (job : JobRecord) (now : String)
    → is_terminal job.status ≡ false
    → to_cancelled now job ≡ ok (cancelled_job_of job now)
unfolding to_cancelled
to_cancelled_ok job now h = rw h

pub cancel-IsSound :
    {Disk : Type 0} (s : Slot Disk) (id now : String) → IsSound s → IsSound (cancel id now s).1
cancel-IsSound s id now sound = elim (Option-cases (s.store.jobs id)) [
  | inl unknown ↦ subst IsSound (sym (cancel_unknown s id now unknown)) sound
  | inr (job, at_id) ↦ elim (Bool-cases (is_terminal job.status)) [
    | inl over ↦ subst IsSound (sym (cancel_over s id now job at_id over)) sound
    | inr open_job ↦
        let adv =
          advance s.store id (to_cancelled now) end job (cancelled_job_of job now) sound.valid at_id
            (to_cancelled_ok job now open_job) in
        let sig = abort_call-Signalled id job.status (mark_cancelled id s) in
        subst IsSound (sym (ap (λ r. r.1) (cancel_eq s id now job at_id open_job adv sig)))
          (after_cancel-IsSound s id now job at_id open_job adv sig sound)
  ]
]
