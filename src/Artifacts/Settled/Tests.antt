-- ===== src/Artifacts/Settled/Tests.antt =====
-- The runner with the disk of artifacts at a concrete run.
use minimax_music3_webui.Prelude.{str_mem, ◌≡◌, refl, true, false, none, some}
use minimax_music3_webui.Lifecycle.Readiness.{ready}
use minimax_music3_webui.Jobs.Store.{create, update, append_event, to_running, fresh_record}
use minimax_music3_webui.Jobs.Slot.{Settings, Slot, new_runner, awaiting_engine, returned}
use minimax_music3_webui.Jobs.Runner.{submit, reported}
use minimax_music3_webui.Jobs.Loop.{take, resume_ready, start, end_call, awaited, resume_engine}
use minimax_music3_webui.Jobs.Steps.{
  is_live, Reach, initial, next, submits, takes, answers, ends, starts,
}
use minimax_music3_webui.Jobs.Tests.{submission, store, new_store_eq, request, running_job, result}
use minimax_music3_webui.Artifacts.Disk.{World}
use minimax_music3_webui.Artifacts.Settled.{disk_settings, IsSettled, resume_engine-IsSettled}
use minimax_music3_webui.Artifacts.Tests.{outside, no_env, failing}

-- A run of the runner with this disk up to the end of the engine's call.
abbrev settings : Settings World
settings = disk_settings outside no_env "music3" "/a"

abbrev new : Slot World
new = new_runner store failing

abbrev submitted : Slot World
submitted = (submit submission "t1" "a" (start new)).1

abbrev calling : Slot World
calling = resume_ready settings (reported ready "") "t2" (take "t2" submitted)

unused : (start new).store.jobs "a" ≡ none
unfolding start new_runner
unused = refl

calling-Reach : Reach settings calling
calling-Reach =
    next
      (next
        (next (next (initial 2 store failing new_store_eq) starts)
          (submits submission "t1" "a" unused))
        (takes "t2"))
      (answers (reported ready "") "t2")

calling_live : is_live calling 0 ≡ true
unfolding resume_ready take submit start new_runner append_event create update to_running
    disk_settings
calling_live = refl

abbrev over : Slot World
over = end_call 0 (returned result) calling

over_at : over.worker ≡ awaiting_engine "a" request
unfolding end_call resume_ready take submit start new_runner append_event create update to_running
    disk_settings
over_at = refl

awaited-over : awaited over ≡ some (returned result)
unfolding awaited end_call resume_ready take submit start new_runner append_event create update
    to_running disk_settings
awaited-over = refl

not_cancelled : str_mem "a" over.cancelled ≡ false
unfolding end_call resume_ready take submit start new_runner append_event create update to_running
    disk_settings
not_cancelled = refl

over_job : over.store.jobs "a" ≡ some running_job
unfolding end_call resume_ready take submit start new_runner append_event create update to_running
    fresh_record disk_settings
over_job = refl

resume_engine-IsSettled_example :
    IsSettled outside no_env "/a" "music3" "a" request "t3" "t4" result running_job over
      (resume_engine settings "t3" "t4" over)
resume_engine-IsSettled_example =
    resume_engine-IsSettled outside no_env "/a" "music3" "a" request "t3" "t4" result running_job
      over (next calling-Reach (ends 0 (returned result) calling_live)) over_at awaited-over
      not_cancelled over_job
