-- ===== src/Jobs/Steps/Waking.antt =====
-- The worker takes a job, and goes on when readiness answers: both keep the invariant.
use minimax_music3_webui.Prelude.{
  ◌≡◌, refl, sym, ap, subst, String, Bool, true, false, Option, none, some, List, [], ◌∷◌, str_mem,
  arith, inl, inr, Bool-cases, ◌∙◌,
}
use minimax_music3_webui.Prelude.Table.{str_eq_self}
use minimax_music3_webui.Prelude.Result.{ok}
use minimax_music3_webui.Jobs.Store.{
  JobStatus, cancelled, is_terminal, is_cancelled, JobRecord, get,
}
use minimax_music3_webui.Jobs.Slot.{
  Worker, absent, idle, exited, awaiting_ready, awaiting_engine, Slot, M, pure,
}
use minimax_music3_webui.Jobs.Runner.{Next, finished, await_ready, unless_cancelled}
use minimax_music3_webui.Jobs.Loop.{take, take_from, settle}
use minimax_music3_webui.Jobs.Steps.Invariant.{
  status_is, can_wait, AllDistinct, IsFree, NoneRuns, AtWorker, IsSound, IsFree-cast,
}

-- The record that a test was read from.
pub status_is-some :
    (p : JobStatus → Bool) (o : Option JobRecord)
    → status_is p o ≡ true
    → (job : JobRecord) × (o ≡ some job) × (p job.status ≡ true)
status_is-some p none h = absurd (cc h)
status_is-some p (some job) h = (job, refl, h)

cancelled_over : (status : JobStatus) → is_cancelled status ≡ true → is_terminal status ≡ true
cancelled_over cancelled h = refl
cancelled_over _ h = absurd (cc h)

module _ {Disk : Type 0} where
  unless_over :
      (id now : String) (rest : M Disk Next) (s : Slot Disk) (job : JobRecord)
      → str_mem id s.cancelled ≡ true
      → s.store.jobs id ≡ some job
      → is_terminal job.status ≡ true
      → unless_cancelled id now rest s ≡ (ok finished, s)
  unfolding unless_cancelled get
  unless_over id now rest s job m e over = ground arith

  -- A job in the cancelled set is cancelled already: the stretch ends and changes nothing.
  pub unless_cancelled_stop :
      (id now : String) (rest : M Disk Next) (s : Slot Disk)
      → str_mem id s.cancelled ≡ true
      → str_mem id s.cancelled ≡ status_is is_cancelled (s.store.jobs id)
      → unless_cancelled id now rest s ≡ (ok finished, s)
  unless_cancelled_stop id now rest s m agree =
      let (job, e, c) = status_is-some is_cancelled (s.store.jobs id) (sym agree ∙ m) in
      unless_over id now rest s job m e (cancelled_over job.status c)

  pub unless_cancelled_go :
      (id now : String) (rest : M Disk Next) (s : Slot Disk)
      → str_mem id s.cancelled ≡ false
      → unless_cancelled id now rest s ≡ rest s
  unfolding unless_cancelled
  unless_cancelled_go id now rest s m = rw m

  -- The two ways in which `begin` ends.
  take_stop :
      (id now : String) (rest : List String) (s : Slot Disk)
      → str_mem id s.cancelled ≡ true
      → str_mem id s.cancelled ≡ status_is is_cancelled (s.store.jobs id)
      → take_from (id ∷ rest) now s ≡ record s { queue = rest; worker = idle }
  unfolding take_from
  take_stop id now rest s m agree =
      ap (settle id)
        (unless_cancelled_stop id now (pure await_ready) (record s { queue = rest }) m agree)

  take_go :
      (id now : String) (rest : List String) (s : Slot Disk)
      → str_mem id s.cancelled ≡ false
      → take_from (id ∷ rest) now s ≡ record s { queue = rest; worker = awaiting_ready id }
  unfolding take_from
  take_go id now rest s m =
      ap (settle id) (unless_cancelled_go id now (pure await_ready) (record s { queue = rest }) m)

  module _ (s : Slot Disk) (sound : IsSound s) (free : IsFree s) (quiet : NoneRuns s) (id : String)
      (rest : List String) (line : s.queue ≡ id ∷ rest) where
    in_queue : (j : String) → str_mem j rest ≡ true → str_mem j s.queue ≡ true
    in_queue j m = rw line (ground arith)

    distinct_line : AllDistinct (id ∷ rest)
    distinct_line = subst AllDistinct line sound.distinct

    waits : status_is can_wait (s.store.jobs id) ≡ true
    waits = sound.waiting id (rw line (rw (str_eq_self id)))

    taken-IsSound :
        (w : Worker)
        → AtWorker w (record s { queue = rest; worker = w })
        → IsSound (record s { queue = rest; worker = w })
    taken-IsSound w at = record {
      valid = sound.valid;
      cancelled_agree = sound.cancelled_agree;
      waiting = λ j m. sound.waiting j (in_queue j m);
      distinct = distinct_line.1;
      unmade = sound.unmade;
      at_worker = at;
    }

    take_from-IsSound : (now : String) → IsSound (take_from (id ∷ rest) now s)
    take_from-IsSound now = elim (Bool-cases (str_mem id s.cancelled)) [
      | inl m ↦
          subst IsSound (sym (take_stop id now rest s m (sound.cancelled_agree id)))
            (taken-IsSound idle (IsFree-cast s _ refl refl (λ _. refl) free, quiet))
      | inr m ↦ subst IsSound (sym (take_go id now rest s m)) (
          taken-IsSound (awaiting_ready id)
            (IsFree-cast s _ refl refl (λ _. refl) free, quiet, waits, distinct_line.0))
    ]

  take_line :
      (now : String) (line : List String) (s : Slot Disk)
      → IsSound s
      → IsFree s
      → NoneRuns s
      → s.queue ≡ line
      → IsSound (take_from line now s)
  unfolding take_from
  take_line now [] s sound free quiet e = sound
  take_line now (id ∷ rest) s sound free quiet e =
      take_from-IsSound s sound free quiet id rest e now

  take_at :
      (now : String) (w : Worker) (s : Slot Disk)
      → IsSound s
      → s.worker ≡ w
      → AtWorker w s
      → IsSound (take now s)
  unfolding take
  take_at now idle s sound e (free, quiet) =
      rw (e, take) (take_line now s.queue s sound free quiet refl)
  take_at now absent s sound e at = rw (e, take) sound
  take_at now exited s sound e at = rw (e, take) sound
  take_at now (awaiting_ready id) s sound e at = rw (e, take) sound
  take_at now (awaiting_engine id request) s sound e at = rw (e, take) sound

  pub take-IsSound : (now : String) (s : Slot Disk) → IsSound s → IsSound (take now s)
  take-IsSound now s sound = take_at now s.worker s sound refl sound.at_worker
