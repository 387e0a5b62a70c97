-- ===== src/Prune.antt =====
-- backend/pullbackup/services/runner.py: the subprocesses of a run under its one deadline, and the prune
-- of hourly snapshots that may follow a replication. What a subprocess does is a parameter.
pub mod Retention
pub mod Deadline
mod Examples
use pullbackup.Base.{
  ℕ, ◌+◌, ◌-◌, String, Bool, true, false, not, ◌&&◌, List, [], ◌∷◌, Option, none, some, ltb, ◌==◌,
  nat_comparable, text_comparable, if◌then◌else◌, keep, length, take,
}
use pullbackup.Base.Text.{◌+s◌, starts_with}
use pullbackup.Base.Words.{split_by, is_line_break, strip}
use pullbackup.Models.{Instant, seconds, ℤ, pos, negsuc, Task}
use pullbackup.Names.{validate_zfs_destination}
use pullbackup.Lifecycle.{Ended, exited, was_cancelled, timed_out, is_zero}

-- `_run_deadline`
unfoldable pub run_deadline : ℕ → Instant → Option Instant
run_deadline timeout now = if timeout == 0 then none else some (now + seconds timeout)

-- How a subprocess goes on while it is awaited: it ends by itself after some time, with a result; or a
-- cancellation of the run arrives; or it never ends.
pub data Course (A : Type 0) : Type 0 where
  ends : ℕ → A → Course A
  interrupted : ℕ → Course A
  hangs : Course A

-- A subprocess, with the time that its group takes to be reaped after SIGTERM and after SIGKILL, `none`
-- if it outlives the signal.
pub record Process (A : Type 0) : Type 0 where
  pub course : Course A
  pub stops_after : Option ℕ
  pub dies_after : Option ℕ

-- What awaiting it gives: its result, `RunTimeout`, `CancelledError`, or nothing, ever.
pub data Waited (A : Type 0) : Type 0 where
  result : A → Instant → Waited A
  late : Instant → Waited A
  stopped : Instant → Waited A
  forever : Waited A

abbrev pub term_seconds : ℕ
term_seconds = 5

-- SIGKILL, after SIGTERM was given its time.
abbrev pub killed : Option ℕ → Option ℕ
killed none = none
killed (some lasts) = some (seconds term_seconds + lasts)

module _ {A : Type 0} where
  -- `_terminate_process_group` on a subprocess that is alive, which `_shield_process_cleanup` awaits: how
  -- long it takes, `none` if it never returns.
  unfoldable pub terminate : Process A → Option ℕ
  terminate p = elim p.stops_after [
    | none ↦ killed p.dies_after
    | some lasts ↦ if ltb lasts (seconds term_seconds) then some lasts else killed p.dies_after
  ]

  -- The exception that is raised behind the cleanup, which begins at an instant.
  abbrev pub late_after : Option ℕ → Instant → Waited A
  late_after none at = forever
  late_after (some lasts) at = late (at + lasts)

  abbrev pub stopped_after : Option ℕ → Instant → Waited A
  stopped_after none at = forever
  stopped_after (some lasts) at = stopped (at + lasts)

  unfoldable pub wait_course : Option ℕ → Course A → Option Instant → Instant → Waited A
  wait_course cleanup (ends lasts a) none now = result a (now + lasts)
  wait_course cleanup (interrupted lasts) none now = stopped_after cleanup (now + lasts)
  wait_course cleanup hangs none now = forever
  wait_course cleanup (ends lasts a) (some deadline) now =
      let remaining = deadline - now in
      if ltb lasts remaining then result a (now + lasts) else late_after cleanup (now + remaining)
  wait_course cleanup (interrupted lasts) (some deadline) now =
      let remaining = deadline - now in
      if ltb lasts remaining
      then stopped_after cleanup (now + lasts)
      else late_after cleanup (now + remaining)
  wait_course cleanup hangs (some deadline) now =
      let remaining = deadline - now in late_after cleanup (now + remaining)

  -- `_remaining` and `asyncio.wait_for`, as `_await_bounded` and `_communicate_bounded` use them, and
  -- the cleanup after a timeout or a cancellation.
  unfoldable pub wait_bounded : Process A → Option Instant → Instant → Waited A
  unfolding terminate wait_course
  wait_bounded p deadline now = wait_course (terminate p) p.course deadline now

-- The command `zfs`, at an instant: the listing of the snapshots under a dataset, the oldest first,
-- and the destruction of one, with its return code and output. Where it cannot be started there is no
-- process.
pub record Zfs : Type 0 where
  pub list : String → Instant → Option (Process String)
  pub destroy : String → Instant → Option (Process (ℤ × String))

-- How a prune ends: it is done, or it raises `RunTimeout`, another `Exception` or `CancelledError`, or
-- it never ends.
pub data Stop : Type 0 where
  complete overdue broken cancelled endless : Stop

-- The snapshots for which `zfs destroy` was started, in order; the log's lines on those of them that
-- ended, with the return code and the output; the end of the prune and its instant.
pub record Pruned : Type 0 where
  pub asked : List String
  pub log : List (String × ℤ × String)
  pub stop : Stop
  pub at : Instant

abbrev pub pruned : List String → Stop → Instant → Pruned
pruned asked stop at = record { asked = asked; log = []; stop = stop; at = at }

-- One destruction, and the loop over the rest if it ends: its return code is only logged.
unfoldable pub after_destroy : String → (Instant → Pruned) → Waited (ℤ × String) → Instant → Pruned
unfolding strip
after_destroy s go_on (result (code, output) later) now =
    let rest = go_on later in
    record rest { asked = s ∷ rest.asked; log = (s, code, strip output) ∷ rest.log }
after_destroy s go_on (late later) now = pruned (s ∷ []) overdue later
after_destroy s go_on (stopped later) now = pruned (s ∷ []) cancelled later
after_destroy s go_on forever now = pruned (s ∷ []) endless now

-- The loop over the snapshots to destroy.
unfoldable pub destroy_all : Zfs → Option Instant → List String → Instant → Pruned
unfolding after_destroy wait_bounded
destroy_all zfs deadline [] now = pruned [] complete now
destroy_all zfs deadline (s ∷ snaps) now = elim (zfs.destroy s now) [
  | none ↦ pruned [] broken now
  | some process ↦
      after_destroy s (λ later. destroy_all zfs deadline snaps later)
        (wait_bounded process deadline now) now
]

abbrev pub hourly_prefix : String → String
hourly_prefix dataset = dataset +s "@zfs-auto-snap_hourly-"

-- The lines of `splitlines()` with the prefix. Empty lines, which it may not give, have no prefix.
unfoldable pub hourly_snaps : String → String → List String
unfolding split_by is_line_break
hourly_snaps dataset output =
    keep (λ line. starts_with line (hourly_prefix dataset)) (split_by is_line_break "" output)

-- The prune from the end of its listing on.
unfoldable pub prune_listed : Zfs → String → ℕ → Option Instant → Instant → Waited String → Pruned
unfolding hourly_snaps destroy_all
prune_listed zfs dataset retention deadline now (result output later) =
    let snaps = hourly_snaps dataset output in
    let excess = length snaps - retention in destroy_all zfs deadline (take excess snaps) later
prune_listed zfs dataset retention deadline now (late later) = pruned [] overdue later
prune_listed zfs dataset retention deadline now (stopped later) = pruned [] cancelled later
prune_listed zfs dataset retention deadline now forever = pruned [] endless now

-- `_prune_zfs_hourly`
unfoldable pub prune_zfs_hourly : List String → Zfs → String → ℕ → Option Instant → Instant → Pruned
unfolding prune_listed
prune_zfs_hourly roots zfs name retention deadline now =
    if ltb retention 1 then pruned [] broken now else elim (validate_zfs_destination roots name) [
      | none ↦ pruned [] broken now
      | some dataset ↦ elim (zfs.list dataset now) [
        | none ↦ pruned [] broken now
        | some process ↦
            prune_listed zfs dataset retention deadline now (wait_bounded process deadline now)
      ]
    ]

-- How `_execute_run` leaves its subprocesses: with an outcome that it stores, by a `CancelledError` of
-- the prune, which it does not catch, or never.
pub data Left : Type 0 where
  stores : Ended → Instant → Left
  escapes : Instant → Left
  never : Left

-- The transfer, which may not start at all.
unfoldable pub await_transfer : Option (Process ℤ) → Option Instant → ℕ → Instant → Left
await_transfer none deadline timeout now = stores (exited (negsuc 0)) now
await_transfer (some process) deadline timeout now = elim (wait_bounded process deadline now) [
  | result code later ↦ stores (exited code) later
  | late later ↦ stores (timed_out timeout) later
  | stopped later ↦ stores was_cancelled later
  | forever ↦ never
]

-- The end of the prune as an outcome of the run: only a timeout changes it.
abbrev pub after_prune : Pruned → ℕ → Left
after_prune p timeout = elim p.stop [
  | complete ↦ stores (exited (pos 0)) p.at
  | overdue ↦ stores (timed_out timeout) p.at
  | broken ↦ stores (exited (pos 0)) p.at
  | cancelled ↦ escapes p.at
  | endless ↦ never
]

-- `task.task_type == "syncoid" and task.prune_keep_hourly`
abbrev pub prune_kept : Task → ℕ
prune_kept task =
    if task.task_type == "syncoid"
    then elim task.syncoid.prune_keep_hourly [ none ↦ 0 | some n ↦ n ]
    else 0

-- What follows the transfer.
unfoldable pub then_prune : List String → Zfs → Task → ℕ → Option Instant → Left → Left
unfolding prune_zfs_hourly
then_prune roots zfs task timeout deadline (stores (exited code) later) =
    if is_zero code && not (prune_kept task == 0)
    then after_prune (prune_zfs_hourly roots zfs task.local_path (prune_kept task) deadline later)
        timeout
    else stores (exited code) later
then_prune roots zfs task timeout deadline (stores was_cancelled later) = stores was_cancelled later
then_prune roots zfs task timeout deadline (stores (timed_out limit) later) =
    stores (timed_out limit) later
then_prune roots zfs task timeout deadline (escapes later) = escapes later
then_prune roots zfs task timeout deadline never = never

-- The subprocesses of `_execute_run`, from the start of the run to what its last transaction stores.
unfoldable pub run_processes : List String → Zfs → Task → Option (Process ℤ) → ℕ → Instant → Left
unfolding await_transfer then_prune run_deadline
run_processes roots zfs task transfer timeout now =
    let deadline = run_deadline timeout now in
    then_prune roots zfs task timeout deadline (await_transfer transfer deadline timeout now)
