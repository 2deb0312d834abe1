-- ===== src/Jobs/Steps/Requests.antt =====
-- Submitting and cancelling keep the invariant.
use minimax_music3_webui.Prelude.{
  ◌≡◌, ◌≢◌, refl, sym, subst, String, Bool, true, false, none, List, [], ◌∷◌, ◌++◌, str_mem, str_eq,
  arith, inl, inr, Bool-cases, ◌∙◌, eq_iff,
}
use minimax_music3_webui.Prelude.Table.{put, put_ind, str_mem_concat, str_eq_ne}
use minimax_music3_webui.Jobs.Store.{
  JobStatus, queued, is_running, is_cancelled, JobRecord, Submission, fresh_record,
}
use minimax_music3_webui.Jobs.Store.Valid.{Created, create_valid}
use minimax_music3_webui.Jobs.Slot.{
  Worker, absent, idle, exited, awaiting_ready, awaiting_engine, Slot,
}
use minimax_music3_webui.Jobs.Runner.{submit}
use minimax_music3_webui.Jobs.Steps.Invariant.{
  status_is, can_wait, can_run, AllDistinct, IsFree, IsBusy, NoneRuns, AtWorker, IsSound,
  IsFree-cast,
}

AllDistinct-concat :
    (id : String) (ids : List String)
    → str_mem id ids ≡ false
    → AllDistinct ids
    → AllDistinct (ids ++ id ∷ [])
AllDistinct-concat id [] m d = (refl, tt)
AllDistinct-concat id (x ∷ xs) m d =
    let (apart, fresh) = parts x id xs m in
    (rw (str_mem_concat x id xs) (rw (apart, d.0)), AllDistinct-concat id xs fresh d.1)
  where
    parts :
        (x id : String) (xs : List String)
        → str_mem id (x ∷ xs) ≡ false
        → (str_eq x id ≡ false) × (str_mem id xs ≡ false)
    parts x id xs m = ground (arith, eq_iff x id, eq_iff id x)

module _ {Disk : Type 0} (s : Slot Disk) (submission : Submission) (now uuid : String)
    (made : Created s.store uuid now submission) where
  abbrev after_submit : Slot Disk
  after_submit = record s { store = made.after; queue = s.queue ++ uuid ∷ [] }

  submit_eq : (submit submission now uuid s).1 ≡ after_submit
  unfolding submit fresh_record
  submit_eq = ground (arith, made.created, made.appended)

  module _ (sound : IsSound s) (fresh : s.store.jobs uuid ≡ none) where
    abbrev made_job : JobRecord
    made_job = fresh_record uuid submission now

    not_waiting : str_mem uuid s.queue ≡ false
    not_waiting = elim (Bool-cases (str_mem uuid s.queue)) [
      | inl m ↦
          let w : status_is can_wait none ≡ true =
            subst (λ o. status_is can_wait o ≡ true) fresh (sound.waiting uuid m) in
          absurd (cc w)
      | inr n ↦ n
    ]

    submitted_waiting :
        (j : String)
        → str_mem j (s.queue ++ uuid ∷ []) ≡ true
        → status_is can_wait (put uuid made_job s.store.jobs j) ≡ true
    unfolding fresh_record
    submitted_waiting j =
        put_ind (λ k o. str_mem k (s.queue ++ uuid ∷ []) ≡ true → status_is can_wait o ≡ true) uuid
          made_job s.store.jobs j (λ _. refl)
          (λ n m.
            sound.waiting j
              (rw (str_mem_concat j uuid s.queue, str_eq_ne j uuid (λ e. n (sym e))) at m))

    -- No job other than those that ran before is running.
    submitted_running :
        (p : JobStatus → Bool)
        → p queued ≡ false
        → (j : String)
        → status_is p (put uuid made_job s.store.jobs j) ≡ status_is p (s.store.jobs j)
    unfolding fresh_record
    submitted_running p q j =
        put_ind (λ k o. status_is p o ≡ status_is p (s.store.jobs k)) uuid made_job s.store.jobs j
          (rw (fresh, q)) (λ _. refl)

    submitted_stays :
        (p : JobStatus → Bool) (id : String)
        → status_is p (s.store.jobs id) ≡ true
        → (status_is p (put uuid made_job s.store.jobs id) ≡ true)
          × (str_mem id (s.queue ++ uuid ∷ []) ≡ str_mem id s.queue)
    submitted_stays p id h = (
      put_ind (λ k o. status_is p (s.store.jobs k) ≡ true → status_is p o ≡ true) uuid made_job
          s.store.jobs id
          (λ k.
            absurd (
              cc
                (let z : status_is p none ≡ true = subst (λ o. status_is p o ≡ true) fresh k in z)))
          (λ _ k. k) h,
      rw (str_mem_concat id uuid s.queue, str_eq_ne id uuid other),
    )
      where
        other : id ≢ uuid
        other e =
            let z : status_is p none ≡ true =
              subst (λ o. status_is p o ≡ true) fresh
                (subst (λ k. status_is p (s.store.jobs k) ≡ true) e h) in
            cc z

    submit-IsFree : IsFree s → IsFree after_submit
    submit-IsFree = IsFree-cast s after_submit refl refl (λ _. refl)

    submit-NoneRuns : NoneRuns s → NoneRuns after_submit
    submit-NoneRuns n j = rw made.jobs_after (submitted_running is_running refl j ∙ n j)

    submit-IsBusy : (id : String) → IsBusy id s → IsBusy id after_submit
    submit-IsBusy id b =
        let (runs, queued_as) = submitted_stays can_run id b.may_run in
        record {
          task = b.task;
          is_current = b.is_current;
          is_task = b.is_task;
          one_lease = b.one_lease;
          only_live = b.only_live;
          only_running = λ j r.
              b.only_running j
                (sym (submitted_running is_running refl j) ∙ (rw made.jobs_after at r));
          may_run = rw made.jobs_after runs;
          left_queue = queued_as ∙ b.left_queue;
          ended_first = b.ended_first;
        }

    submit-AtWorker : (w : Worker) → AtWorker w s → AtWorker w after_submit
    submit-AtWorker absent (f, n) = (submit-IsFree f, submit-NoneRuns n)
    submit-AtWorker idle (f, n) = (submit-IsFree f, submit-NoneRuns n)
    submit-AtWorker exited f = submit-IsFree f
    submit-AtWorker (awaiting_ready id) (f, n, w, q) =
        let (waits, queued_as) = submitted_stays can_wait id w in
        (submit-IsFree f, submit-NoneRuns n, rw made.jobs_after waits, queued_as ∙ q)
    submit-AtWorker (awaiting_engine id request) b = submit-IsBusy id b

    pub after_submit-IsSound : IsSound after_submit
    after_submit-IsSound = record {
      valid = made.valid_after;
      cancelled_agree = λ j.
          rw made.jobs_after
            (sound.cancelled_agree j ∙ sym (submitted_running is_cancelled refl j));
      waiting = λ j m. rw made.jobs_after (submitted_waiting j m);
      distinct = AllDistinct-concat uuid s.queue not_waiting sound.distinct;
      unmade = sound.unmade;
      at_worker = submit-AtWorker s.worker sound.at_worker;
    }

pub submit-IsSound :
    {Disk : Type 0} (s : Slot Disk) (submission : Submission) (now uuid : String)
    → s.store.jobs uuid ≡ none
    → IsSound s
    → IsSound (submit submission now uuid s).1
submit-IsSound s submission now uuid fresh sound =
    let made = create_valid s.store uuid now submission sound.valid in
    subst IsSound (sym (submit_eq s submission now uuid made))
      (after_submit-IsSound s submission now uuid made sound fresh)
