-- ===== src/Lifecycle.antt =====
-- backend/pullbackup/services/runner.py: how a run begins and ends. `_run_owners` is the list of the
-- runs that this process executes, each with whether its cancellation was requested. A function that
-- commits once is one step.
pub mod History
pub mod World
pub mod Restart
pub mod Cancel
pub mod Finality
mod Examples
use pullbackup.Base.{
  ℕ, ◌+◌, String, Bool, true, false, not, ◌&&◌, ◌||◌, List, [], ◌∷◌, Option, none, some, any, ltb,
  leb, ◌==◌, nat_comparable, text_comparable, if◌then◌else◌, keep, length, is_some, is_none,
}
use pullbackup.Models.{
  Instant, seconds, ℤ, pos, negsuc, RunState, Run, Task, TaskDue, Db, find_by, put_by, delete_by,
  is_active,
}
use pullbackup.Due.Settle.{get_task, get_run}
use pullbackup.Due.Rows.{apply_run_outcome}
use pullbackup.Dispatch.{new_pending_run}
use pullbackup.Base.Text.{◌+s◌}
use pullbackup.Base.Words.{decimal}

-- An entry of `_run_owners`.
pub record Owner : Type 0 where
  pub run_id : ℕ
  pub cancel_requested : Bool

abbrev pub put_run : Db → Run → Db
put_run db run = record db { runs = put_by (λ r. r.id) run db.runs }

-- `run_id in _run_owners`
unfoldable pub is_owned : ℕ → List Owner → Bool
is_owned id owners = any (λ (o : Owner). o.run_id == id) owners

-- `RunAdmission`, and `ValueError` for a task that is gone.
pub data Admission : Type 0 where
  accepted : ℕ → Admission
  task_active source_active no_task : Admission

-- Whether an active run belongs to a task of the source.
unfoldable pub runs_for_source : Db → ℕ → Run → Bool
runs_for_source db source_id run =
    is_active run.state
    && elim (get_task db run.task_id) [ none ↦ false | some task ↦ task.source_id == source_id ]

-- `admit_run`
unfoldable pub admit_run : Db → ℕ → Instant → Db × Admission
unfolding runs_for_source new_pending_run
admit_run db task_id now = elim (get_task db task_id) [
  | none ↦ (db, no_task)
  | some task ↦
      if any (λ (r : Run). r.task_id == task.id && is_active r.state) db.runs
      then (db, task_active)
      else if any (runs_for_source db task.source_id) db.runs
      then (db, source_active)
      else (let (after, run) = new_pending_run db task now in (after, accepted run.id))
]

-- A run that has failed with the exit code -1.
abbrev pub interrupted : Run → RunState → String → Instant → Run
interrupted run state message now = record run {
  state = state;
  finished_at = some now;
  exit_code = some (negsuc 0);
  error_message = message;
}

-- `reconcile_stale_runs` on the run table, and how many runs it failed.
unfoldable pub fail_active : List Run → Instant → List Run
fail_active [] now = []
fail_active (r ∷ rs) now =
    (if is_active r.state
      then interrupted r RunState.failed "interrupted by application restart" now
      else r)
    ∷ fail_active rs now

unfoldable pub reconcile_stale_runs : Db → Instant → Db × ℕ
unfolding fail_active
reconcile_stale_runs db now = (
  record db { runs = fail_active db.runs now },
  length (keep (λ (r : Run). is_active r.state) db.runs),
)

-- `ORPHAN_GRACE_SECONDS`
abbrev pub orphan_grace_seconds : ℕ
orphan_grace_seconds = 300

-- The run is active, no execution owns it, and its grace is over.
unfoldable pub is_orphan : List Owner → Instant → Run → Bool
unfolding is_owned
is_orphan owners now run =
    is_active run.state
    && not (is_owned run.id owners)
    && leb (run.started_at + seconds orphan_grace_seconds) now

unfoldable pub reclaim : List Owner → Instant → List Run → List Run
unfolding is_orphan
reclaim owners now [] = []
reclaim owners now (r ∷ rs) =
    (if is_orphan owners now r
      then interrupted r RunState.failed
          "run reclaimed by the watchdog: no execution owns it in this process, so it cannot be running"
          now
      else r)
    ∷ reclaim owners now rs

-- `sweep_orphaned_runs`: the tables, and the runs reclaimed.
unfoldable pub sweep_orphaned_runs : Db → List Owner → Instant → Db × List Run
unfolding reclaim is_orphan
sweep_orphaned_runs db owners now =
    (record db { runs = reclaim owners now db.runs }, keep (is_orphan owners now) db.runs)

-- `_cancel_was_requested`
unfoldable pub cancel_was_requested : List Owner → ℕ → Bool
cancel_was_requested owners id = any (λ (o : Owner). o.run_id == id && o.cancel_requested) owners

-- `_terminalize_owned_run`
unfoldable pub terminalize_owned_run : Db → List Owner → ℕ → String → Instant → Db × Bool
unfolding cancel_was_requested
terminalize_owned_run db owners id message now = elim (get_run db id) [
  | none ↦ (db, false)
  | some run ↦ if not (is_active run.state) then (db, false) else (
    put_run db (
        interrupted run
          (if message == "run cancelled" && cancel_was_requested owners id
            then RunState.cancelled
            else RunState.failed)
          message now),
    true,
  )
]

abbrev pub is_pending : RunState → Bool
is_pending RunState.pending = true
is_pending _ = false

abbrev pub claimed : Run → Instant → Run
claimed run now = record run { state = RunState.running; started_at = now }

-- The step of `_execute_run` that takes a pending row; `none` is `RunNotOwnedError` or `ValueError`.
unfoldable pub claim_run : Db → ℕ → Instant → Option Db
claim_run db id now = elim (get_run db id) [
  | none ↦ none
  | some run ↦ if is_pending run.state then some (put_run db (claimed run now)) else none
]

-- How an execution ended: by itself with its exit code, by a cancellation, or at the timeout, which is
-- in seconds. The last two set the exit code -1.
pub data Ended : Type 0 where
  exited : ℤ → Ended
  was_cancelled : Ended
  timed_out : ℕ → Ended

-- `f"{n}"` on an integer.
unfoldable pub integer_text : ℤ → String
integer_text (pos n) = decimal n
integer_text (negsuc n) = "-" +s decimal (n + 1)

abbrev pub is_zero : ℤ → Bool
is_zero (pos n) = n == 0
is_zero (negsuc n) = false

abbrev pub ended_with : Run → RunState → ℤ → String → Instant → Run
ended_with run state code message now = record run {
  state = state;
  finished_at = some now;
  exit_code = some code;
  error_message = message;
}

-- The row that `_execute_run` writes at its end.
unfoldable pub final_run : Run → Ended → Bool → Instant → Run
unfolding integer_text
final_run run (exited code) requested now =
    if is_zero code
    then ended_with run RunState.success code run.error_message now
    else ended_with run RunState.failed code ("rsync exited " +s integer_text code) now
final_run run was_cancelled requested now =
    ended_with run (if requested then RunState.cancelled else RunState.failed) (negsuc 0)
      "run cancelled" now
final_run run (timed_out timeout) requested now =
    ended_with run RunState.failed (negsuc 0)
      ("run exceeded the "
        +s decimal timeout
        +s "s execution timeout and its process group was terminated")
      now

-- `select(TaskDue).where(TaskDue.run_id == run_id)).first()`
unfoldable pub find_owed : ℕ → List TaskDue → Option TaskDue
find_owed id [] = none
find_owed id (row ∷ rows) = if names_run id row.run_id then some row else find_owed id rows
  where
    names_run : ℕ → Option ℕ → Bool
    names_run id none = false
    names_run id (some n) = n == id

-- The obligation of the run, if there is one, takes the outcome.
unfoldable pub settle_outcome : Db → Option TaskDue → Run → Instant → Db
settle_outcome db none run now = db
settle_outcome db (some row) run now = elim (apply_run_outcome row run now) [
  | none ↦ record db { dues = delete_by (λ d. d.task_id) row.task_id db.dues }
  | some after ↦ record db { dues = put_by (λ d. d.task_id) after db.dues }
]

-- The last transaction of `_execute_run`: the run and its obligation.
unfoldable pub finish_run : Db → List Owner → ℕ → Ended → Instant → Db
unfolding cancel_was_requested final_run find_owed settle_outcome
finish_run db owners id ended now = elim (get_run db id) [
  | none ↦ db
  | some run ↦
      let final = final_run run ended (cancel_was_requested owners id) now in
      settle_outcome (put_run db final) (find_owed id db.dues) final now
]
