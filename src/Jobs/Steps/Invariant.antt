-- ===== src/Jobs/Steps/Invariant.antt =====
-- What holds between any two steps.
use minimax_music3_webui.Prelude.{
  ℕ, ◌≤◌, ◌≡◌, String, Bool, true, false, Option, none, some, List, [], ◌∷◌, str_mem, ◌∙◌,
}
use minimax_music3_webui.Jobs.Store.{
  JobStatus, queued, running, cancelled, is_running, is_cancelled, JobRecord,
}
use minimax_music3_webui.Jobs.Store.Valid.{IsValid}
use minimax_music3_webui.Jobs.Slot.{
  Worker, absent, idle, exited, awaiting_ready, awaiting_engine, Slot,
}
use minimax_music3_webui.Jobs.Steps.{is_live}

-- Tests on the record that an id may have.
abbrev pub status_is : (JobStatus → Bool) → Option JobRecord → Bool
status_is p none = false
status_is p (some job) = p job.status

abbrev pub can_wait : JobStatus → Bool
can_wait queued = true
can_wait cancelled = true
can_wait _ = false

abbrev pub can_run : JobStatus → Bool
can_run running = true
can_run cancelled = true
can_run _ = false

abbrev pub AllDistinct : List String → Type 0
AllDistinct [] = Unit
AllDistinct (id ∷ ids) = (str_mem id ids ≡ false) × AllDistinct ids

module _ {Disk : Type 0} where
  -- No call is under way.
  pub record IsFree (s : Slot Disk) : Type 0 where
    pub no_lease : s.leases ≡ 0
    pub calm : s.must_cancel ≡ false
    pub none_live : (i : ℕ) → is_live s i ≡ false

  -- `id` holds the slot with the task that was created last.
  pub record IsBusy (id : String) (s : Slot Disk) : Type 0 where
    pub task : ℕ
    pub is_current : s.current ≡ some id
    pub is_task : s.current_task ≡ some task
    pub one_lease : s.leases ≡ 1
    pub only_live : (i : ℕ) → is_live s i ≡ true → i ≡ task
    pub only_running : (j : String) → status_is is_running (s.store.jobs j) ≡ true → j ≡ id
    pub may_run : status_is can_run (s.store.jobs id) ≡ true
    pub left_queue : str_mem id s.queue ≡ false
    pub ended_first : s.must_cancel ≡ true → is_live s task ≡ false

  abbrev pub NoneRuns : Slot Disk → Type 0
  NoneRuns s = (j : String) → status_is is_running (s.store.jobs j) ≡ false

  abbrev pub AtWorker : Worker → Slot Disk → Type 0
  AtWorker absent s = IsFree s × NoneRuns s
  AtWorker idle s = IsFree s × NoneRuns s
  AtWorker exited s = IsFree s
  AtWorker (awaiting_ready id) s =
      IsFree s
      × NoneRuns s
      × (status_is can_wait (s.store.jobs id) ≡ true)
      × (str_mem id s.queue ≡ false)
  AtWorker (awaiting_engine id request) s = IsBusy id s

  pub record IsSound (s : Slot Disk) : Type 0 where
    pub valid : IsValid s.store
    pub cancelled_agree :
        (id : String) → str_mem id s.cancelled ≡ status_is is_cancelled (s.store.jobs id)
    pub waiting :
        (id : String) → str_mem id s.queue ≡ true → status_is can_wait (s.store.jobs id) ≡ true
    pub distinct : AllDistinct s.queue
    pub unmade : (i : ℕ) → s.created ≤ i → s.tasks i ≡ none
    pub at_worker : AtWorker s.worker s

  -- `IsFree` reads three fields only.
  pub IsFree-cast :
      (s t : Slot Disk)
      → t.leases ≡ s.leases
      → t.must_cancel ≡ s.must_cancel
      → ((i : ℕ) → is_live t i ≡ is_live s i)
      → IsFree s
      → IsFree t
  IsFree-cast s t l m live f = record {
    no_lease = l ∙ f.no_lease;
    calm = m ∙ f.calm;
    none_live = λ i. live i ∙ f.none_live i;
  }
