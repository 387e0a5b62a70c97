-- ===== src/Due/Reconcile.antt =====
-- The occurrences against the obligations: `reconcile_task`, `reconcile_all`, `_run_covers` and
-- `record_tick` of backend/pullbackup/services/due.py. Settings and the clock are arguments.
use pullbackup.Base.{
  ℕ, ◌+◌, String, Bool, true, false, ◌&&◌, ◌||◌, not, List, [], ◌∷◌, Option, none, some, ltb, leb,
  ◌==◌, nat_comparable, if◌then◌else◌, any, is_some, is_none, or_else, max2,
}
use pullbackup.Base.Text.{contains, truncate, repr, ◌+s◌}
use pullbackup.Models.{Instant, seconds, Task, Status, TaskDue, Db, put_by, delete_by}
use pullbackup.Schedule.{Calendar, next_occurrence, latest_occurrence}
use pullbackup.Due.Settle.{
  get_task, get_due, derive_baseline, note_occurrence_during_run, rearm, is_exhausted, is_blocked,
  settle_row,
}

abbrev pub put_task : Db → Task → Db
put_task db task = record db { tasks = put_by (λ t. t.id) task db.tasks }

abbrev pub put_due : Db → TaskDue → Db
put_due db row = record db { dues = put_by (λ d. d.task_id) row db.dues }

abbrev pub delete_due : Db → ℕ → Db
delete_due db task_id = record db { dues = delete_by (λ d. d.task_id) task_id db.dues }

-- A row that an operation returned, or its deletion.
abbrev pub write_due : Db → ℕ → Option TaskDue → Db
write_due db task_id none = delete_due db task_id
write_due db task_id (some row) = put_due db row

-- `TaskDue(task_id=task_id, due_at=due_at, status=DUE, updated_at=now)`
abbrev pub new_due : ℕ → Instant → Instant → TaskDue
new_due task_id due_at now = record {
  task_id = task_id;
  due_at = due_at;
  status = Status.due;
  wait_reason = none;
  attempts = 0;
  retry_at = none;
  last_error = "";
  run_id = none;
  newer_due_at = none;
  updated_at = now;
}

-- What `reconcile_task` leaves: the session's view of the tables, the row that it returns, and
-- whether it committed. A caller that does not commit either loses the changes of the view.
pub record Reconciled : Type 0 where
  pub db : Db
  pub row : Option TaskDue
  pub committed : Bool

-- The branch of `reconcile_task` for a cron expression that does not parse.
unfoldable pub block_cron : Task → TaskDue → Instant → TaskDue
block_cron task row now =
    if not (is_blocked row.status) || not (contains "cron" row.last_error)
    then record row {
      status = Status.blocked;
      wait_reason = none;
      retry_at = none;
      last_error =
          truncate 500
            ("invalid cron expression " +s repr task.cron +s ": edit the task to fix its schedule");
      updated_at = now;
    }
    else row

unfoldable pub reconcile_invalid : Db → Task → Instant → Reconciled
reconcile_invalid db task now =
    let row = block_cron task (or_else (get_due db task.id) (new_due task.id now now)) now in
    record { db = put_due db row; row = some row; committed = true }

-- `existing = session.get(TaskDue, task.id); if existing is not None: _settle_row(...)`
unfoldable pub settle_existing : Db → ℕ → Instant → Db
settle_existing db task_id now = elim (get_due db task_id) [
  | none ↦ db
  | some row ↦ write_due db task_id (settle_row db row now)
]

-- Nothing owed: the watermark is stored if it was missing or older.
unfoldable pub keep_watermark : Task → Instant → Task
keep_watermark task baseline = elim task.schedule_baseline_at [
  | none ↦ record task { schedule_baseline_at = some baseline }
  | some at ↦ if ltb at baseline then record task { schedule_baseline_at = some baseline } else task
]

-- The row after occurrences up to `latest`, the earliest of them `first`, are folded into it.
unfoldable pub fold_into : Db → TaskDue → Instant → Instant → Instant → TaskDue
fold_into db row first latest now =
    let (noted, recorded) = note_occurrence_during_run db row first (some latest) in
    record (if recorded then noted else if is_exhausted row.status then rearm row else row) {
      updated_at = now;
    }

unfoldable pub fold_occurrences : Db → Task → Instant → Instant → Instant → Reconciled
fold_occurrences db task first latest now =
    let db' = put_task db (record task { schedule_baseline_at = some latest }) in
    let row : TaskDue = elim (get_due db task.id) [
      | none ↦ new_due task.id first now
      | some row ↦ fold_into db' row first latest now
    ] in
    record { db = put_due db' row; row = some row; committed = true }

module _ (cal : Calendar) where
  -- `reconcile_task` after the row is settled.
  unfoldable pub reconcile_settled : Db → Task → Instant → Reconciled
  reconcile_settled db task now =
      let baseline = or_else task.schedule_baseline_at (derive_baseline db task) in
      let unowed : Reconciled = record {
        db = put_task db (keep_watermark task baseline);
        row = get_due db task.id;
        committed = false;
      } in
      elim (next_occurrence cal task.cron baseline) [
        | none ↦ unowed
        | some first ↦
            if ltb now first
            then unowed
            else fold_occurrences db task first (latest_occurrence cal task.cron first now) now
      ]

  unfoldable pub reconcile_task : Db → Task → Instant → Reconciled
  reconcile_task db task now =
      if not task.enabled
      then record { db = db; row = none; committed = false }
      else if not (cal.parses task.cron)
      then reconcile_invalid db task now
      else reconcile_settled (settle_existing db task.id now) task now

  -- The loop of `reconcile_all` over the enabled tasks, with the count of tasks that owe work.
  unfoldable pub reconcile_each : List Task → Db → Instant → ℕ → Db × ℕ
  reconcile_each [] db now owed = (db, owed)
  reconcile_each (task ∷ tasks) db now owed =
      let result = reconcile_task db task now in
      reconcile_each tasks (if task.enabled then result.db else db) now
        (if task.enabled && is_some result.row then owed + 1 else owed)

  unfoldable pub reconcile_all : Db → Instant → Db × ℕ
  reconcile_all db now = reconcile_each db.tasks db now 0

-- `_run_covers`
unfoldable pub run_covers : Db → ℕ → Option Instant → Bool
run_covers db task_id none = false
run_covers db task_id (some baseline) =
    any (λ r. r.task_id == task_id && leb baseline r.started_at) db.runs

-- `TICK_EARLY_TOLERANCE`
abbrev pub tick_early_tolerance : ℕ
tick_early_tolerance = seconds 1

-- `upcoming is not None and timedelta(0) <= upcoming - now <= TICK_EARLY_TOLERANCE`
abbrev pub is_early : Option Instant → Instant → Bool
is_early none now = false
is_early (some upcoming) now = leb now upcoming && leb upcoming (now + tick_early_tolerance)

module _ (cal : Calendar) where
  -- The next occurrence after the watermark, if there is one.
  unfoldable pub upcoming_after : String → Option Instant → Option Instant
  upcoming_after cron none = none
  upcoming_after cron (some baseline) = next_occurrence cal cron baseline

  -- `record_tick` for a tick a hair before the occurrence `upcoming`.
  unfoldable pub record_early : Db → Task → Option TaskDue → Instant → Instant → Db
  record_early db task row upcoming now =
      let db' = put_task db (record task { schedule_baseline_at = some upcoming }) in
      elim row [
        | none ↦ put_due db' (new_due task.id now now)
        | some r ↦ put_due db' (note_occurrence_during_run db' r upcoming none).0
      ]

  -- `record_tick` for a tick that no occurrence, row or run accounts for.
  unfoldable pub record_late : Db → Task → Instant → Db
  record_late db task now =
      put_due
        (put_task db (record task {
          schedule_baseline_at = some (max2 (or_else task.schedule_baseline_at now) now);
        }))
        (new_due task.id now now)

  -- `record_tick` for a tick that is not early. What is stored if nothing more is committed is
  -- `before`, the tables as they were.
  unfoldable pub record_unforeseen : Db → Reconciled → Task → Instant → Db
  record_unforeseen before r task now =
      if is_none r.row && not (run_covers r.db task.id task.schedule_baseline_at)
      then record_late r.db task now
      else if r.committed
      then r.db
      else before

  -- `record_tick` on an enabled task, after it is reconciled: `task` is the row as the session has it
  -- then.
  unfoldable pub record_reconciled : Db → Reconciled → Task → Instant → Db
  record_reconciled before r task now = elim (upcoming_after task.cron task.schedule_baseline_at) [
    | none ↦ record_unforeseen before r task now
    | some upcoming ↦
        if is_early (some upcoming) now
        then record_early r.db task r.row upcoming now
        else record_unforeseen before r task now
  ]

  unfoldable pub record_tick : Db → ℕ → Instant → Db
  record_tick db task_id now = elim (get_task db task_id) [
    | none ↦ db
    | some task ↦
        if not task.enabled
        then db
        else let r = reconcile_task cal db task now in
          record_reconciled db r (or_else (get_task r.db task_id) task) now
  ]
