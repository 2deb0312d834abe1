-- ===== src/Jobs/Steps/Settling.antt =====
-- A job that leaves the worker's hands with a final status keeps the invariant.
use minimax_music3_webui.Prelude.{
  ◌≡◌, sym, subst, String, true, false, some, str_mem, inl, inr, Bool-cases, ◌∙◌,
}
use minimax_music3_webui.Prelude.Table.{put, put_ind}
use minimax_music3_webui.Jobs.Store.{is_running, is_cancelled, JobRecord, JobStore}
use minimax_music3_webui.Jobs.Store.Valid.{IsValid}
use minimax_music3_webui.Jobs.Slot.{idle, Slot}
use minimax_music3_webui.Jobs.Steps.Invariant.{
  status_is, can_wait, IsFree, NoneRuns, AtWorker, IsSound,
}
use minimax_music3_webui.Jobs.Steps.Change.{status_is-put-false, status_is-put_same}

-- Nothing but `id` may be running.
abbrev pub OnlyRuns : {Disk : Type 0} → String → Slot Disk → Type 0
OnlyRuns id s = (j : String) → status_is is_running (s.store.jobs j) ≡ true → j ≡ id

pub NoneRuns-OnlyRuns : {Disk : Type 0} (id : String) (s : Slot Disk) → NoneRuns s → OnlyRuns id s
NoneRuns-OnlyRuns id s n j r = absurd (cc (n j))

module _ {Disk : Type 0} (s : Slot Disk) (sound : IsSound s) (id : String) (job job' : JobRecord)
    (at_id : s.store.jobs id ≡ some job) (was : is_cancelled job.status ≡ false)
    (kept : is_cancelled job'.status ≡ false) (ended : is_running job'.status ≡ false)
    (left : str_mem id s.queue ≡ false) (only : OnlyRuns id s) where
  -- The rest of the state is given by what else was assigned.
  pub settled-IsSound :
      (after : JobStore) (t : Slot Disk)
      → after.jobs ≡ put id job' s.store.jobs
      → IsValid after
      → t.store ≡ after
      → t.queue ≡ s.queue
      → t.cancelled ≡ s.cancelled
      → t.tasks ≡ s.tasks
      → t.created ≡ s.created
      → t.worker ≡ idle
      → IsFree t
      → IsSound t
  settled-IsSound after t jobs_after valid store queue cancelled tasks created worker free =
      record {
        valid = rw store valid;
        cancelled_agree = λ j.
            rw (store, cancelled, jobs_after)
              (sound.cancelled_agree j
                ∙ sym (
                    status_is-put_same is_cancelled s.store.jobs id job' job j at_id
                      (kept ∙ sym was)));
        waiting = λ j m.
            let m' = rw queue at m in
            rw (store, jobs_after)
              (put_ind (λ k o. str_mem k s.queue ≡ true → status_is can_wait o ≡ true) id job'
                s.store.jobs j (λ h. absurd (cc left)) (λ _ h. sound.waiting j h) m');
        distinct = rw queue sound.distinct;
        unmade = λ i h. rw tasks (sound.unmade i (rw created at h));
        at_worker =
            subst (λ w. AtWorker w t) (sym worker)
              (
                free,
                λ j.
                    rw (store, jobs_after)
                      (status_is-put-false is_running s.store.jobs id job' j ended (λ n.
                        elim (Bool-cases (status_is is_running (s.store.jobs j))) [
                          | inl r ↦ absurd (n (sym (only j r)))
                          | inr r ↦ r
                        ])),
              );
      }
