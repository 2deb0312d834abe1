-- ===== src/Jobs/Steps/Kept.antt =====
-- Every step keeps the invariant, so it holds of all that can be reached.
use minimax_music3_webui.Prelude.{
  ℕ, ◌≤◌, ltb, ◌≡◌, refl, sym, ap, subst, String, true, false, Option, none, some, arith, inl, inr,
  Bool-cases, Option-cases, ◌∙◌, if◌then◌else◌,
}
use minimax_music3_webui.Prelude.Table.{is_some, empty}
use minimax_music3_webui.Engine.{EngineRequest}
use minimax_music3_webui.Jobs.Store.{JobStore, new_store}
use minimax_music3_webui.Jobs.Slot.{
  Outcome, Task, done, Worker, absent, idle, exited, awaiting_ready, awaiting_engine, Settings,
  Slot, put_task, new_runner,
}
use minimax_music3_webui.Jobs.Runner.{abort_task}
use minimax_music3_webui.Jobs.Loop.{
  ended, task_at, awaited, end_call, resume_engine, start, stop, settle,
}
use minimax_music3_webui.Jobs.Runner.{after_engine}
use minimax_music3_webui.Jobs.Steps.{
  task_live, is_live, Step, submits, cancels, takes, answers, ends, resumes, starts, stops, Reach,
  initial, next,
}
use minimax_music3_webui.Jobs.Steps.Invariant.{IsFree, IsBusy, AtWorker, IsSound}
use minimax_music3_webui.Jobs.Steps.Change.{abort_task-Signalled}
use minimax_music3_webui.Jobs.Steps.Requests.{submit-IsSound}
use minimax_music3_webui.Jobs.Steps.Cancelling.{cancel-IsSound}
use minimax_music3_webui.Jobs.Steps.Waking.{take-IsSound}
use minimax_music3_webui.Jobs.Steps.Starting.{
  resume_ready-IsSound, exited_after as exited_state, idle_after as idle_state,
}
use minimax_music3_webui.Jobs.Steps.Outcomes.{outcome-IsSound}

-- A call with an outcome is not under way.
ended-not_live : (o : Option Task) → is_some (ended o) ≡ true → task_live o ≡ false
ended-not_live none h = refl
ended-not_live (some t) h = ground arith

module _ {Disk : Type 0} where
  awaited-not_live :
      (s : Slot Disk) (id : String) (busy : IsBusy id s) (outcome : Outcome)
      → awaited s ≡ some outcome
      → is_live s busy.task ≡ false
  unfolding awaited
  awaited-not_live s id busy outcome h = elim (Bool-cases s.must_cancel) [
    | inl m ↦ busy.ended_first m
    | inr m ↦ ended-not_live (s.tasks busy.task) (ground arith)
  ]

  -- Where nothing of a state but its worker, its tasks and its flag changes.
  moved-IsSound :
      (s t : Slot Disk)
      → IsSound s
      → t.store ≡ s.store
      → t.queue ≡ s.queue
      → t.cancelled ≡ s.cancelled
      → t.created ≡ s.created
      → ((i : ℕ) → s.tasks i ≡ none → t.tasks i ≡ none)
      → AtWorker t.worker t
      → IsSound t
  moved-IsSound s t sound store queue cancelled created tasks at = record {
    valid = rw store sound.valid;
    cancelled_agree = λ j. rw (store, cancelled) (sound.cancelled_agree j);
    waiting = λ j m. rw store (sound.waiting j (rw queue at m));
    distinct = rw queue sound.distinct;
    unmade = λ i h. tasks i (sound.unmade i (rw created at h));
    at_worker = at;
  }

  -- A task that ends.
  module _ (i : ℕ) (outcome : Outcome) (s : Slot Disk) (t : Task) (at_i : s.tasks i ≡ some t)
      (l : is_live s i ≡ true) where
    abbrev tasks' : ℕ → Option Task
    tasks' = put_task i (record t { state = done outcome }) s.tasks

    end_call_eq : end_call i outcome s ≡ record s { tasks = tasks' }
    unfolding end_call
    end_call_eq = rw (at_i, end_call)

    fewer_live : (j : ℕ) → task_live (tasks' j) ≡ true → is_live s j ≡ true
    fewer_live j h = ground arith

    still_none : (j : ℕ) → s.tasks j ≡ none → tasks' j ≡ none
    still_none j h = ground arith

    not_free : IsFree s → ⊥
    not_free f = cc (f.none_live i)

    end-AtWorker : (w : Worker) → AtWorker w s → AtWorker w (record s { tasks = tasks' })
    end-AtWorker absent (f, n) = absurd (not_free f)
    end-AtWorker idle (f, n) = absurd (not_free f)
    end-AtWorker exited f = absurd (not_free f)
    end-AtWorker (awaiting_ready id) (f, n, w, q) = absurd (not_free f)
    end-AtWorker (awaiting_engine id request) b = record {
      task = b.task;
      is_current = b.is_current;
      is_task = b.is_task;
      one_lease = b.one_lease;
      only_live = λ j h. b.only_live j (fewer_live j h);
      only_running = b.only_running;
      may_run = b.may_run;
      left_queue = b.left_queue;
      ended_first = λ m. elim (Bool-cases (task_live (tasks' b.task))) [
        | inl h ↦ absurd (cc (fewer_live b.task h, b.ended_first m))
        | inr h ↦ h
      ];
    }

  end_call-IsSound :
      (i : ℕ) (outcome : Outcome) (s : Slot Disk)
      → is_live s i ≡ true
      → IsSound s
      → IsSound (end_call i outcome s)
  end_call-IsSound i outcome s l sound = elim (Option-cases (s.tasks i)) [
    | inl no_task ↦ absurd (cc (ap task_live no_task))
    | inr (t, at_i) ↦ subst IsSound (sym (end_call_eq i outcome s t at_i l)) (
        moved-IsSound s _ sound refl refl refl refl (still_none i outcome s t at_i l)
          (end-AtWorker i outcome s t at_i l s.worker sound.at_worker))
  ]

  start_at :
      (w : Worker) (s : Slot Disk) → IsSound s → s.worker ≡ w → AtWorker w s → IsSound (start s)
  unfolding start
  start_at absent s sound e (f, n) = rw (e, start) (idle_state s sound f n)
  start_at idle s sound e at = rw (e, start) sound
  start_at exited s sound e at = rw (e, start) sound
  start_at (awaiting_ready id) s sound e at = rw (e, start) sound
  start_at (awaiting_engine id request) s sound e at = rw (e, start) sound

  -- At the engine call the child is cancelled, or the wait is made to raise.
  stop_busy :
      (s : Slot Disk) (id : String) (request : EngineRequest)
      → IsSound s
      → s.worker ≡ awaiting_engine id request
      → (b : IsBusy id s)
      → IsSound (
          if is_some (ended (task_at s.current_task s))
          then record s { must_cancel = true }
          else abort_task s.current_task s)
  stop_busy s id request sound e b =
      elim (Bool-cases (is_some (ended (task_at s.current_task s)))) [
        | inl over ↦ rw over (
            moved-IsSound s _ sound refl refl refl refl (λ _ h. h)
              (subst (λ w. AtWorker w (record s { must_cancel = true })) (sym e) (raising over)))
        | inr going ↦
            let sig = abort_task-Signalled s.current_task s in
            rw going (
              subst IsSound (sym sig.is_state) (
                moved-IsSound s _ sound refl refl refl refl sig.same_none (
                  subst (λ w. AtWorker w (record s { tasks = sig.tasks })) (sym e)
                    (signalled sig.tasks sig.same_live))))
      ]
    where
      raising :
          is_some (ended (task_at s.current_task s)) ≡ true
          → IsBusy id (record s { must_cancel = true })
      raising over = record {
        task = b.task;
        is_current = b.is_current;
        is_task = b.is_task;
        one_lease = b.one_lease;
        only_live = b.only_live;
        only_running = b.only_running;
        may_run = b.may_run;
        left_queue = b.left_queue;
        ended_first = λ _. ended-not_live (s.tasks b.task) (ground arith);
      }

      signalled :
          (tasks : ℕ → Option Task)
          → ((i : ℕ) → task_live (tasks i) ≡ task_live (s.tasks i))
          → IsBusy id (record s { tasks = tasks })
      signalled tasks same = record {
        task = b.task;
        is_current = b.is_current;
        is_task = b.is_task;
        one_lease = b.one_lease;
        only_live = λ i l. b.only_live i (sym (same i) ∙ l);
        only_running = b.only_running;
        may_run = b.may_run;
        left_queue = b.left_queue;
        ended_first = λ m. same b.task ∙ b.ended_first m;
      }

  stop_at :
      (w : Worker) (s : Slot Disk) → IsSound s → s.worker ≡ w → AtWorker w s → IsSound (stop s)
  unfolding stop
  stop_at absent s sound e at = rw (e, stop) sound
  stop_at idle s sound e (f, n) = rw (e, stop) (exited_state s sound f)
  stop_at exited s sound e at = rw (e, stop) sound
  stop_at (awaiting_ready id) s sound e (f, n, w, q) = rw (e, stop) (exited_state s sound f)
  stop_at (awaiting_engine id request) s sound e b = rw (e, stop) (stop_busy s id request sound e b)

  resume_at :
      (settings : Settings Disk) (now later : String) (w : Worker) (s : Slot Disk)
      → IsSound s
      → s.worker ≡ w
      → AtWorker w s
      → IsSound (resume_engine settings now later s)
  unfolding resume_engine
  resume_at settings now later (awaiting_engine id request) s sound e b =
      rw (e, resume_engine) (woken (awaited s) refl)
    where
      woken :
          (o : Option Outcome)
          → awaited s ≡ o
          → IsSound (elim (awaited s) as (λ _. Slot Disk) [
            | none ↦ s
            | some outcome ↦ settle id (
                after_engine settings id request outcome now later
                  (record s { must_cancel = false }))
          ])
      woken none h = rw h sound
      woken (some outcome) h = rw h (
          outcome-IsSound settings id request now later s sound b
            (awaited-not_live s id b outcome h) outcome)
  resume_at settings now later absent s sound e at = rw (e, resume_engine) sound
  resume_at settings now later idle s sound e at = rw (e, resume_engine) sound
  resume_at settings now later exited s sound e at = rw (e, resume_engine) sound
  resume_at settings now later (awaiting_ready id) s sound e at = rw (e, resume_engine) sound

abbrev empty_store : ℕ → JobStore
empty_store limit = record { jobs = empty; events = empty; seq = empty; event_log_limit = limit }

new_store_lem :
    (limit : ℕ) (store : JobStore)
    → new_store limit ≡ some store
    → (empty_store limit ≡ store) × (1 ≤ limit)
unfolding new_store
new_store_lem limit store e = elim (Bool-cases (ltb limit 1)) [
  | inl low ↦ absurd (cc)
  | inr high ↦ let made : some (empty_store limit) ≡ some store = rw high at e in (cc, ground arith)
]

new_runner-IsSound :
    {Disk : Type 0} (limit : ℕ) (store : JobStore) (disk : Disk)
    → new_store limit ≡ some store
    → IsSound (new_runner store disk)
unfolding new_runner
new_runner-IsSound limit store disk e =
    let (is_empty, positive) = new_store_lem limit store e in
    subst (λ st. IsSound (new_runner st disk)) is_empty
      (record {
        valid = record { positive = positive; at = λ id. tt };
        cancelled_agree = λ id. refl;
        waiting = λ id m. absurd (cc);
        distinct = tt;
        unmade = λ i h. refl;
        at_worker = (record { no_lease = refl; calm = refl; none_live = λ i. refl }, λ j. refl);
      })

module _ {Disk : Type 0} (settings : Settings Disk) where
  pub Step-IsSound : {s t : Slot Disk} → Step settings s t → IsSound s → IsSound t
  Step-IsSound {s} (submits submission now uuid fresh) h =
      submit-IsSound s submission now uuid fresh h
  Step-IsSound {s} (cancels id now) h = cancel-IsSound s id now h
  Step-IsSound {s} (takes now) h = take-IsSound now s h
  Step-IsSound {s} (answers answer now) h = resume_ready-IsSound settings now answer s h
  Step-IsSound {s} (ends i outcome l) h = end_call-IsSound i outcome s l h
  Step-IsSound {s} (resumes now later) h =
      resume_at settings now later s.worker s h refl h.at_worker
  Step-IsSound {s} starts h = start_at s.worker s h refl h.at_worker
  Step-IsSound {s} stops h = stop_at s.worker s h refl h.at_worker

  pub Reach-IsSound : {s : Slot Disk} → Reach settings s → IsSound s
  Reach-IsSound (initial limit store disk e) = new_runner-IsSound limit store disk e
  Reach-IsSound (next r step) = Step-IsSound step (Reach-IsSound r)
