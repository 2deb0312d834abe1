-- ===== src/Lib.antt =====
-- A model of the backend of minimax-music3-webui, which serves a local music engine behind a job queue
-- and behind an edge that speaks the MiniMax cloud's protocol.
--
-- The parts, and the files that model them:
--   Jobs.Events      api/jobs/events.py: events, `events_since`, `render_sse`.
--   Jobs.Store       api/jobs/store.py: `JobStatus`, `JobRecord`, `to_running`, `to_succeeded`,
--                    `to_failed`, `to_cancelled`, and `JobStore` as a record that its methods change.
--   Jobs.Slot        the fields of `JobRunner` (api/jobs/runner.py), with the tasks that the event loop
--                    holds for it, and the monad of its statements: state and exceptions.
--   Jobs.Runner      `submit`, `cancel`, `_ensure_cancelled`, `_persist_and_succeed`, and `_process`, which
--                    is cut at its two waits into `begin`, `after_ready` and `after_engine`.
--   Jobs.Loop        `_loop`, `start` and `stop`; `settle` is the loop's handling of how `_process` ends.
--   Jobs.Steps       one step of the event loop at a time, in any order, and what can be reached.
--   Engine           api/engines/sglang/client.py: `build_body`, the client and `generate`.
--   Compat           api/compat/errors.py and api/compat/minimax.py: `translate` with all its refusals.
--   Transcode        api/transcode/ffmpeg.py: `resolve_transcode`, the command, `measure`, `extra_info`.
--   Lifecycle        api/lifecycle/controller.py: the three verbs and the settings;
--                    api/lifecycle/readiness.py: the states, the probe, the cache, the lease and the idle
--                    loop's decisions; ColdStart is the drive with its polling, Lock the shared lock.
--   Artifacts        api/jobs/artifacts.py: Ids and Paths the gates, Sidecar the measured facts, Disk the
--                    system calls, Writing `write_artifact`, Serving `open_member`, Listing `scan_listing`;
--                    Crash puts the writing and the serving together, Settled the runner and the
--                    writing.
--   Routes           api/app/routes/music.py: Body the reading of a body and the hex text, Cloud the two
--                    routes; api/app/routes/jobs.py: Native the views, the status codes and the event
--                    stream, Header the `Last-Event-ID`; Files the routes of artifacts.py there, Health
--                    api/app/health.py.
--   App              api/app/main.py: the configuration, the startup line, the store.
--   Json, Prelude    the values that `json.loads` makes, and what the files share.
--
-- How they interact. A request becomes a `Submission` (through `translate` at the cloud edge), `submit`
-- puts it into the store and the queue, and the worker takes it: it waits for readiness, makes the
-- engine call under a lease, writes the artifact and marks the record. `cancel` may come between any two
-- stretches of the worker. A stretch runs without interruption, since a coroutine gives up control only at
-- an `await`; the steps of Jobs.Steps are these stretches, the requests, the ends of engine calls, and the
-- shutdown.
--
-- The artifact that the worker writes is served by Artifacts.Serving, and the cloud routes find in its
-- sidecar the setting of the request again. `caught` of Artifacts.Writing is what the runner's handler makes
-- of the end of a write.
--
-- Bounds. The structures are unbounded. Every function is structurally recursive but two: the polling of a
-- cold start runs on fuel, of which one more than the deadline's number of clock steps is enough; the hex
-- text is cut into as many chunks as the file has bytes, at most. Clock readings, drawn ids, readiness
-- answers and engine outcomes are arguments of the steps; a drawn id is assumed new. In the model of the
-- runner the artifact writer is an argument; Artifacts.Settled gives it the modelled one. Times are whole
-- nanoseconds. A float is a parameter with laws, which a model of whole numbers satisfies. A system call of
-- the artifacts but `os.close` may raise an OSError wherever the list of faults says so; a crash is a call
-- that raises and that nothing follows. A client takes as many pieces of a stream as an argument says.
--
-- Not modelled: a second start of a runner after its shutdown, other processes that change the artifacts
-- directory during a call, an `os.close` that raises, `validate_artifacts_root`, the task of the idle
-- loop, the framework's validation of a native submission, the rest of the application's wiring, the
-- web page, and whatever the HTTP library, ffmpeg and Docker do inside.
pub mod Prelude
pub mod Json
pub mod Engine
pub mod Lifecycle
pub mod Compat
pub mod Transcode
pub mod Jobs
pub mod Artifacts
pub mod Routes
pub mod App
