-- ===== src/Due/Settle.antt =====
-- The obligations against the run table: `_settle_row`, `settle_all`, `derive_baseline`,
-- `_active_run_started_at`, `_note_occurrence_during_run` and `last_success_at` of
-- backend/pullbackup/services/due.py.
use pullbackup.Base.{
  ℕ, Bool, true, false, ◌&&◌, List, [], ◌∷◌, Option, none, some, leb, ◌==◌, nat_comparable,
  if◌then◌else◌, keep, is_some, is_none, or_else,
}
use pullbackup.Models.{
  Instant, Run, Task, Status, TaskDue, Db, find_by, earliest, latest, is_active, is_success,
}
use pullbackup.Due.Rows.{finish, apply_run_outcome}

unfoldable pub get_task : Db → ℕ → Option Task
get_task db id = find_by (λ t. t.id) id db.tasks

unfoldable pub get_run : Db → ℕ → Option Run
get_run db id = find_by (λ r. r.id) id db.runs

unfoldable pub get_due : Db → ℕ → Option TaskDue
get_due db id = find_by (λ d. d.task_id) id db.dues

-- `derive_baseline`: the end of the newest run, or the creation of the task.
unfoldable pub derive_baseline : Db → Task → Instant
derive_baseline db task =
    elim (latest (λ r. r.started_at) (keep (λ r. r.task_id == task.id) db.runs)) [
      | none ↦ task.created_at
      | some run ↦ or_else run.finished_at run.started_at
    ]

unfoldable pub active_run : Db → ℕ → Option Run
active_run db task_id =
    earliest (λ r. r.started_at) (keep (λ r. r.task_id == task_id && is_active r.state) db.runs)

unfoldable pub active_run_started_at : Db → ℕ → Option Instant
active_run_started_at db task_id = elim (active_run db task_id) [
  | none ↦ none
  | some run ↦ some run.started_at
]

unfoldable pub last_success_at : Db → ℕ → Option Instant
last_success_at db task_id =
    elim (latest (λ r. or_else r.finished_at 0)
      (keep (λ r. r.task_id == task_id && is_success r.state) db.runs)) [
        | none ↦ none
        | some run ↦ some (or_else run.finished_at run.started_at)
      ]

-- `if row.newer_due_at is None: row.newer_due_at = at`
abbrev pub set_newer : TaskDue → Instant → TaskDue
set_newer row at = if is_none row.newer_due_at then record row { newer_due_at = some at } else row

-- The part of `_note_occurrence_during_run` behind an operator's run.
unfoldable pub note_behind_active : Option Instant → TaskDue → Instant → TaskDue × Bool
note_behind_active none row newest = (row, false)
note_behind_active (some started) row newest =
    if leb newest started then (row, false) else (set_newer row newest, true)

-- The row, and whether the occurrence is accounted for by it.
unfoldable pub note_occurrence_during_run : Db → TaskDue → Instant → Option Instant → TaskDue × Bool
note_occurrence_during_run db row at newest = elim row.status [
  | Status.dispatched ↦ (set_newer row at, true)
  | Status.blocked ↦ (row, false)
  | _ ↦ note_behind_active (active_run_started_at db row.task_id) row (or_else newest at)
]

-- A successful run of the task that started at or after the occurrence.
unfoldable pub paid_by : Db → TaskDue → Option Run
paid_by db row =
    latest (λ r. r.started_at)
      (keep (λ r. r.task_id == row.task_id && is_success r.state && leb row.due_at r.started_at)
        db.runs)

-- The follow-up that a paying run leaves: only one that came after its start.
unfoldable pub follow_up_after : Option Instant → Instant → Option Instant
follow_up_after none started = none
follow_up_after (some follow_up) started = if leb follow_up started then none else some follow_up

-- `row.status, row.attempts, row.retry_at, row.last_error = DUE, 0, None, ""`
abbrev pub rearm : TaskDue → TaskDue
rearm row = record row { status = Status.due; attempts = 0; retry_at = none; last_error = "" }

abbrev pub is_exhausted : Status → Bool
is_exhausted Status.exhausted = true
is_exhausted _ = false

abbrev pub is_dispatched : Status → Bool
is_dispatched Status.dispatched = true
is_dispatched _ = false

abbrev pub is_blocked : Status → Bool
is_blocked Status.blocked = true
is_blocked _ = false

-- `_settle_row` on a due, retry or exhausted row.
unfoldable pub settle_owed : Db → TaskDue → Instant → Option TaskDue
settle_owed db row now = elim (paid_by db row) [
  | some run ↦ finish row (follow_up_after row.newer_due_at run.started_at) now
  | none ↦
      if is_some row.newer_due_at && is_none (active_run_started_at db row.task_id)
      then some (record (if is_exhausted row.status then rearm row else row) {
        newer_due_at = none;
        updated_at = now;
      })
      else some row
]

-- `session.get(Run, row.run_id) if row.run_id is not None else None`
unfoldable pub run_of : Db → Option ℕ → Option Run
run_of db none = none
run_of db (some id) = get_run db id

-- `_settle_row` on a dispatched row.
unfoldable pub settle_dispatched : Db → TaskDue → Instant → Option TaskDue
settle_dispatched db row now = elim (run_of db row.run_id) [
  | none ↦ some (record row { status = Status.due; run_id = none })
  | some run ↦ apply_run_outcome row run now
]

unfoldable pub settle_row : Db → TaskDue → Instant → Option TaskDue
settle_row db row now = if is_none (get_task db row.task_id) then none else elim row.status [
  | Status.dispatched ↦ settle_dispatched db row now
  | Status.blocked ↦ some row
  | _ ↦ settle_owed db row now
]

-- A row that is kept, or none.
abbrev pub cons_kept : Option TaskDue → List TaskDue → List TaskDue
cons_kept none rows = rows
cons_kept (some row) rows = row ∷ rows

unfoldable pub settle_rows : Db → Instant → List TaskDue → List TaskDue
settle_rows db now [] = []
settle_rows db now (row ∷ rows) = cons_kept (settle_row db row now) (settle_rows db now rows)

-- No row's settlement reads another row, so the loop of `settle_all` is this map.
unfoldable pub settle_all : Db → Instant → Db
unfolding settle_rows
settle_all db now = record db { dues = settle_rows db now db.dues }
