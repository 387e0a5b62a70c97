-- ===== src/Due/Debt/Rows.antt =====
-- Lookups in the tables after the writes of services/due.py, and the keys of the rows written.
use pullbackup.Base.{
  ℕ, ◌≡◌, refl, ap, ◌&&◌, Option, none, some, arith, or_else, ◌==◌, nat_comparable, any, leb,
}
use pullbackup.Models.{Instant, Task, TaskDue, Db, find_by-key, find_by-put_by}
use pullbackup.Due.Settle.{get_due, get_task, note_occurrence_during_run, note_behind_active}
use pullbackup.Due.Reconcile.{
  put_task, put_due, write_due, block_cron, keep_watermark, fold_into, run_covers,
}

pub get_due-put_due :
    (db : Db) (row : TaskDue) (id : ℕ) → row.task_id ≡ id → get_due (put_due db row) id ≡ some row
unfolding get_due
get_due-put_due db row id e =
    ground (arith, find_by-put_by (λ (d : TaskDue). d.task_id) id row db.dues)

pub get_due-task_id : (db : Db) (id : ℕ) (d : TaskDue) → get_due db id ≡ some d → d.task_id ≡ id
unfolding get_due
get_due-task_id db id d e = find_by-key (λ (d : TaskDue). d.task_id) id db.dues d e

pub get_task-put_task :
    (db : Db) (task : Task) (id : ℕ) → task.id ≡ id → get_task (put_task db task) id ≡ some task
unfolding get_task
get_task-put_task db task id e =
    ground (arith, find_by-put_by (λ (t : Task). t.id) id task db.tasks)

pub get_task-id : (db : Db) (id : ℕ) (t : Task) → get_task db id ≡ some t → t.id ≡ id
unfolding get_task
get_task-id db id t e = find_by-key (λ (t : Task). t.id) id db.tasks t e

pub fold_into-task_id :
    (db : Db) (row : TaskDue) (first latest now : Instant)
    → (fold_into db row first latest now).task_id ≡ row.task_id
unfolding fold_into note_occurrence_during_run note_behind_active
fold_into-task_id db row first latest now = ground arith

pub note-task_id :
    (db : Db) (row : TaskDue) (at : Instant) (newest : Option Instant)
    → (note_occurrence_during_run db row at newest).0.task_id ≡ row.task_id
unfolding note_occurrence_during_run note_behind_active
note-task_id db row at newest = ground arith

pub block_cron-task_id :
    (task : Task) (row : TaskDue) (now : Instant) → (block_cron task row now).task_id ≡ row.task_id
unfolding block_cron
block_cron-task_id task row now = ground arith

pub keep_watermark_lem :
    (task : Task) (d : Instant)
    → (keep_watermark task (or_else task.schedule_baseline_at d)).schedule_baseline_at
      ≡ some (or_else task.schedule_baseline_at d)
unfolding keep_watermark
keep_watermark_lem task d = ground arith

pub keep_watermark-id : (task : Task) (d : Instant) → (keep_watermark task d).id ≡ task.id
unfolding keep_watermark
keep_watermark-id task d = ground arith

pub write_due-runs : (db : Db) (id : ℕ) (o : Option TaskDue) → (write_due db id o).runs ≡ db.runs
write_due-runs db id none = refl
write_due-runs db id (some d) = refl

pub run_covers-runs :
    (db db' : Db) (id : ℕ) (at : Option Instant)
    → db'.runs ≡ db.runs
    → run_covers db' id at ≡ run_covers db id at
unfolding run_covers
run_covers-runs db db' id none e = refl
run_covers-runs db db' id (some at) e = ap (any λ r. r.task_id == id && leb at r.started_at) e

-- The tables with the watermark at the occurrence of an early tick.
abbrev pub early_task : Db → Task → Instant → Db
early_task db task upcoming = put_task db (record task { schedule_baseline_at = some upcoming })
