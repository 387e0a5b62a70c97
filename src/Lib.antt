-- ===== src/Lib.antt =====
-- Models of pullbackup, a scheduler of pull backups in Python, and proofs about them.
--
-- A cron tick, or the reconciliation of a schedule, records an obligation in the table of due work
-- (services/due.py). The dispatcher (services/dispatcher.py) walks the obligations, the oldest first,
-- and admits runs within the limits on sources, destinations and number. The runner builds the
-- command of a run behind the boundary on destinations (services/fs.py), and its outcome settles
-- the obligation. Freshness and cadence (services/freshness.py, services/cadence.py) derive from the
-- tables whether a backup is late. In front of the API stand sessions and a throttle on failed logins
-- (http_auth.py). Paths are below backend/pullbackup/ in the repository.
--
-- Base, Base/Tests, Base/Lists, Base/Text, Base/Words: shared names, Boolean tests, lists, text.
-- Models, Models/Tables, Models/Store, Models/Query: models.py, with a table as the list of its rows,
--   the session's get, add and delete by primary key, and the queries.
-- Schedule, Schedule/Scan: next_occurrence and _latest_occurrence of services/due.py.
-- Due: services/due.py. Due/Rows has backoff_seconds, apply_run_outcome; Due/Settle _settle_row,
--   settle_all, derive_baseline, last_success_at; Due/Reconcile reconcile_task, reconcile_all,
--   record_tick; Due/Edit on_task_edited, forget_task. Proofs: Due/Retry (backoff and outcomes),
--   Due/Invariant and Due/Preservation (the invariant of a row), Due/Debt (the debt after a tick).
-- Names: the syntax of datasets, hosts and users, and their validators, of services/runner.py.
-- Destination: services/fs.py, _resolve_with_root, walk_destination, open_destination;
--   Destination/Keys: _destination_key and _conflicts of services/runner.py. Proofs:
--   Destination/Containment (the root), Destination/Walk (what is opened), Destination/Accept.
-- Commands: build_rsync_args, build_syncoid_args, validate_destination of services/runner.py;
--   Commands/Boundary has the proofs on syncoid.
-- Dispatch: dispatch_due of services/dispatcher.py with _new_pending_run. Proofs: Dispatch/Step (the
--   branches of a row), Dispatch/Apart, Dispatch/Fits and Dispatch/Exclusion, Dispatch/Capacity,
--   Dispatch/Order, Dispatch/Rows, and Dispatch/Owners (the runs that obligations name).
-- Cadence: services/cadence.py, with Cadence/Missed. Freshness: services/freshness.py, with
--   Freshness/Load (project_task), Freshness/Grace and Freshness/Project.
-- Lifecycle: admission by hand, the start, the ends and the reclaiming of runs in services/runner.py,
--   with Lifecycle/Cancel (cancel_run), Lifecycle/World (the steps of a process in any order),
--   Lifecycle/Restart, and the proofs Lifecycle/History, Lifecycle/Finality.
-- Slots: _destination_exclusion and what else an execution waits for in _execute_run, with
--   Slots/Apart, Slots/Exclusive and Slots/Progress.
-- Prune: _run_deadline, _await_bounded, _communicate_bounded and _prune_zfs_hourly of
--   services/runner.py, with the cleanup of _terminate_process_group, and how _execute_run puts them
--   together; Prune/Retention and Prune/Deadline have the proofs.
-- Auth: http_auth.py. Auth/Store is _ExpiringStore, with Auth/Store/Invariant, Calls, Place, Lookup,
--   Flood, Eviction, Work, Tiers and Sub. Auth/Store/Memory says what a client may rely on, without
--   tiers or a cap, and Auth/Store/Known, Refine, Take and Spec relate the store
--   to it. Auth/Session the sessions, with Auth/Session/Issue and Auth/Session/Logout; Auth/Throttle
--   the throttle, with Auth/Throttle/Lockout; Auth/Identity resolve_client_identity, with
--   Auth/Identity/Walk.
--   Auth/Gate is HttpBasicAuthMiddleware with _is_public_shell, _cookie_value, _authorized and
--   _valid_configuration, with Auth/Gate/Shell (the paths of the shell) and Auth/Gate/Present;
--   Auth/Login is api/auth.py, with Auth/Login/Attempt, Lock, Enter and Leave, which compose the
--   throttle, the sessions and the middleware. Base/Fields and Base/Plain split texts.
-- Kuma: services/kuma_sync.py. Kuma/Push is push_heartbeat, with Kuma/Push/Retries; Kuma/Sync is
--   sync_task and the sweep, with Kuma/Sync/Told, Debts and Failures; Kuma/Monitor is _sync_kuma of
--   api/tasks.py, with Kuma/Monitor/Owed, Repair and Rows.
-- Scheduler: services/scheduler.py, with Scheduler/Stale, Scheduler/Dead and Scheduler/Register.
-- Api: Api/Payload the schemas, Api/Tasks and Api/Sources the handlers of api/tasks.py and
--   api/sources.py, Api/Requests sequences of requests. Proofs: Api/Linked and Api/Integrity (the
--   references between the tables), Api/Locked (what may change while a run is in flight).
-- Samples and the Examples modules have concrete inputs.
--
-- An instant is a number of microseconds since the epoch, so a float of seconds is read as exact. A
-- function that reads the clock takes the instant, and one that reads settings takes them. What runs
-- under one lock or in one transaction is one step. A function that raises answers none, or a value
-- that names the error. Columns that are only shown (log files, statistics) are left out.
--
-- Parameters stand for code that is not in the repository: Calendar for the cron trigger of
-- APScheduler, Croniter for croniter, Signer for the serializer of itsdangerous, Addresses for
-- ipaddress, Paths and Disk for pathlib and the kernel's directories, Registry for the job store of
-- APScheduler, Crypto for base64 and the encodings of text, KumaClient and the replies of a push for
-- the network, Zfs and Process for the subprocesses of a run, with how they react to signals. The laws of a Signer are that it reads
-- what it writes and writes no empty token. A Disk changes by mkdir alone while it is walked.
--
-- Loops are structural recursion. Two have a bound, and it is the source's own: the scan for the
-- latest occurrence has MAX_OCCURRENCE_SCAN of 20000 rounds, at which the code answers now as the
-- model does, and a push has PUSH_ATTEMPTS tries.
--
-- Not modelled: the inside of processes, logs, notifications, the routing of HTTP and the migrations
-- (main.py, db.py, services/notify.py, services/kuma.py, services/ssh.py), api/runs.py, api/system.py
-- and the views of tasks for display, the asyncio loops around the modelled steps, and, so far, the
-- validation of config.py.
mod Base
pub mod Models
pub mod Schedule
pub mod Due
pub mod Auth
pub mod Names
pub mod Prune
pub mod Destination
pub mod Commands
pub mod Dispatch
pub mod Cadence
pub mod Freshness
pub mod Lifecycle
pub mod Kuma
pub mod Scheduler
pub mod Api
pub mod Slots
mod Samples
