-- ===== src/Jobs/SingleFlight.antt =====
-- What holds of every state that the runner reaches: one call at a time, and one lease.
use minimax_music3_webui.Prelude.{ℕ, ◌≤◌, ◌≡◌, sym, ap, String, true, some, arith, ◌∙◌}
use minimax_music3_webui.Jobs.Slot.{
  Worker, absent, idle, exited, awaiting_ready, awaiting_engine, Settings, Slot,
}
use minimax_music3_webui.Jobs.Steps.{is_live, Reach}
use minimax_music3_webui.Jobs.Steps.Invariant.{IsBusy, AtWorker}
use minimax_music3_webui.Jobs.Steps.Kept.{Reach-IsSound}

module _ {Disk : Type 0} where
  live-IsBusy :
      (w : Worker) (s : Slot Disk) (i : ℕ)
      → AtWorker w s
      → is_live s i ≡ true
      → (id : String) × IsBusy id s
  live-IsBusy absent s i (f, n) l = absurd (cc (f.none_live i))
  live-IsBusy idle s i (f, n) l = absurd (cc (f.none_live i))
  live-IsBusy exited s i f l = absurd (cc (f.none_live i))
  live-IsBusy (awaiting_ready id) s i (f, n, w, q) l = absurd (cc (f.none_live i))
  live-IsBusy (awaiting_engine id request) s i b l = (id, b)

  at_most_one : (w : Worker) (s : Slot Disk) → AtWorker w s → s.leases ≤ 1
  at_most_one absent s (f, n) = omega (arith, f.no_lease)
  at_most_one idle s (f, n) = omega (arith, f.no_lease)
  at_most_one exited s f = omega (arith, f.no_lease)
  at_most_one (awaiting_ready id) s (f, n, w, q) = omega (arith, f.no_lease)
  at_most_one (awaiting_engine id request) s b = omega (arith, b.one_lease)

  -- In every state that can be reached from a new runner, whatever the order of submissions,
  -- cancellations, readiness answers, engine results and shutdowns: if the engine calls `i` and `j`
  -- are both under way, they are the same call, it is the runner's current task, and exactly one
  -- readiness lease is held.
  pub single_flight :
      (settings : Settings Disk) (s : Slot Disk) (i j : ℕ)
      → Reach settings s
      → is_live s i ≡ true
      → is_live s j ≡ true
      → (i ≡ j) × (s.current_task ≡ some i) × (s.leases ≡ 1)
  single_flight settings s i j r li lj =
      let (id, b) = live-IsBusy s.worker s i (Reach-IsSound settings r).at_worker li in
      let at_i : i ≡ b.task = b.only_live i li in
      (at_i ∙ sym (b.only_live j lj), b.is_task ∙ ap some (sym at_i), b.one_lease)
