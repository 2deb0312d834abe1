-- ===== src/Jobs/Frozen/Cancels.antt =====
-- A cancellation that has returned, and what may follow it.
use minimax_music3_webui.Prelude.{
  ◌≡◌, String, Bool, true, false, some, if◌then◌else◌, arith, inl, inr,
}
use minimax_music3_webui.Prelude.Table.{put_self}
use minimax_music3_webui.Prelude.Result.{ok, err, Result-cases}
use minimax_music3_webui.Json.{end}
use minimax_music3_webui.Jobs.Store.{
  cancelled, JobRecord, JobStore, to_cancelled, update, append_event,
}
use minimax_music3_webui.Jobs.Slot.{Settings, Slot, Exc, M, throw, pure, with_store, ◌>>=◌, ◌>>◌}
use minimax_music3_webui.Jobs.Runner.{cancel, emit}
use minimax_music3_webui.Jobs.Frozen.{update_parts}
use minimax_music3_webui.Jobs.Frozen.Runs.{Run, Run-Kept}

updated_jobs :
    (id now : String) (s s' : JobStore) (job : JobRecord)
    → update id (to_cancelled now) s ≡ ok (job, s')
    → (s'.jobs id ≡ some job) × (job.status ≡ cancelled)
unfolding to_cancelled
updated_jobs id now s s' job e =
    let (first, at_id, moved, written) = update_parts id (to_cancelled now) s s' job e in
    (rw written (put_self id job s.jobs), ground arith)

module _ {Disk : Type 0} where
  -- What a call that returns a record leaves of it.
  record Gives (id : String) (m : M Disk JobRecord) : Type 0 where
    at :
        (s : Slot Disk) (job : JobRecord)
        → (m s).0 ≡ ok job
        → ((m s).1.store.jobs id ≡ some job) × (job.status ≡ cancelled)

  Gives-throw : (id : String) (e : Exc) → Gives id (throw e)
  Gives-throw id e = record { at = λ s job h. absurd (cc) }

  Gives-bind :
      {A : Type 0} (id : String) (m : M Disk A) (f : A → M Disk JobRecord)
      → ((a : A) → Gives id (f a))
      → Gives id (m >>= f)
  Gives-bind id m f k = record {
    at = λ s job h. elim (Result-cases (m s).0) [
      | inl (a, e) ↦ rw (e, ◌>>=◌) ((k a).at (m s).1 job (rw (e, ◌>>=◌) at h))
      | inr (x, e) ↦ let h' : err x ≡ ok job = rw (e, ◌>>=◌) at h in absurd (cc)
    ];
  }

  Gives-if :
      (id : String) (b : Bool) (m n : M Disk JobRecord)
      → Gives id m
      → Gives id n
      → Gives id (if b then m else n)
  Gives-if id true m n km kn = km
  Gives-if id false m n km kn = kn

  Gives-last :
      (id now : String)
      → Gives id (do
        updated ← with_store (update id (to_cancelled now))
        emit id cancelled end
        pure updated)
  unfolding append_event
  Gives-last id now = record {
    at = λ s job h. elim (Result-cases (update id (to_cancelled now) s.store)) [
      | inl ((new, s'), e) ↦
          let (at_id, over) = updated_jobs id now s.store s' new e in ground (arith)
      | inr (x, e) ↦ absurd (ground arith)
    ];
  }

  cancel-Gives : (id now : String) → Gives id (cancel id now)
  unfolding cancel
  cancel-Gives id now = search (Gives-throw, Gives-bind, Gives-if, Gives-last) depth 9

  -- When a cancellation has returned, its record has the status cancelled, and no steps after it
  -- replace that record: neither the engine's result nor its failure wins over the cancellation.
  pub cancel_is_final :
      (settings : Settings Disk) (s t : Slot Disk) (id now : String) (job : JobRecord)
      → (cancel id now s).0 ≡ ok job
      → Run settings (cancel id now s).1 t
      → (t.store.jobs id ≡ some job) × (job.status ≡ cancelled)
  cancel_is_final settings s t id now job e r =
      let (at_id, is_cancelled) = (cancel-Gives id now).at s job e in
      (Run-Kept r id job at_id (rw is_cancelled), is_cancelled)
