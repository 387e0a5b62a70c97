-- ===== src/Api/Tasks.antt =====
-- The handlers of backend/pullbackup/api/tasks.py. `id` of a new row is the one that SQLite gives, one
-- more than the largest. Failures of the deletion of a monitor and of a log file are only logged.
use pullbackup.Base.{
  ℕ, suc, String, Bool, true, false, not, ◌&&◌, List, [], ◌∷◌, Option, none, some, any, keep, max2,
  is_none, ◌==◌, nat_comparable, text_comparable, if◌then◌else◌,
}
use pullbackup.Models.{Instant, Run, Task, Db, delete_by, is_active}
use pullbackup.Schedule.{Calendar}
use pullbackup.Cadence.{Croniter}
use pullbackup.Due.Settle.{get_task}
use pullbackup.Due.Edit.{on_task_edited, forget_task}
use pullbackup.Due.Reconcile.{put_task}
use pullbackup.Dispatch.{Environment, get_source}
use pullbackup.Lifecycle.{Admission, accepted, task_active, source_active, no_task, admit_run}
use pullbackup.Kuma.Sync.{Memory, Push}
use pullbackup.Kuma.Monitor.{KumaClient, sync_kuma, is_rescheduled}
use pullbackup.Scheduler.{Registry, Scheduler, upsert_job, remove_task_job}
use pullbackup.Api.Payload.{TaskFields, accepts, fill, unsafe_active_changes}

-- What the handlers use of the process.
pub record Services : Type 0 where
  pub calendar : Calendar
  pub croniter : Croniter
  pub isoformat : Instant → String
  pub push : Push
  pub client : Option KumaClient
  pub environment : Environment

-- What a handler answers.
pub data Reply : Type 0 where
  shown : Task → Reply
  done : Reply
  started : ℕ → Reply
  refused : ℕ → List String → Reply

abbrev pub is_empty_names : List String → Bool
is_empty_names [] = true
is_empty_names (name ∷ names) = false

unfoldable pub next_task_id : List Task → ℕ
next_task_id [] = 1
next_task_id (t ∷ tasks) = max2 (suc t.id) (next_task_id tasks)

-- `Task(**data.model_dump())`
unfoldable pub new_task : ℕ → TaskFields → Instant → Task
new_task id f now = record {
  id = id;
  name = f.name;
  source_id = f.source_id;
  remote_path = f.remote_path;
  local_path = f.local_path;
  cron = f.cron;
  enabled = f.enabled;
  description = f.description;
  task_type = f.task_type;
  rsync = f.rsync;
  syncoid = f.syncoid;
  notify_matrix = f.notify_matrix;
  notify_matrix_on_success = f.notify_matrix_on_success;
  kuma_enabled = f.kuma_enabled;
  kuma_monitor_id = none;
  kuma_push_token = none;
  created_at = now;
  updated_at = now;
  schedule_baseline_at = none;
  schedule_epoch_at = none;
}

-- `_has_active_run`
unfoldable pub has_active_run : Db → ℕ → Bool
has_active_run db task_id = any (λ (r : Run). r.task_id == task_id && is_active r.state) db.runs

-- The row after an edit is flushed, and the tables after `on_task_edited` in the same transaction.
unfoldable pub edit_row : Task → TaskFields → Instant → Task
unfolding fill
edit_row t f now = record (fill t f) { updated_at = now }

unfoldable pub edit_tables : Db → Task → TaskFields → Instant → Db
unfolding on_task_edited edit_row
edit_tables db t f now =
    let edited = edit_row t f now in
    on_task_edited (put_task db edited) edited (is_rescheduled edited t.cron t.enabled) now

-- `session.refresh(t)`
unfoldable pub refreshed : Db → Task → Task
refreshed db t = elim (get_task db t.id) [ none ↦ t | some stored ↦ stored ]

-- The runs of a task are deleted one by one, and then the task.
unfoldable pub delete_rows : Db → ℕ → Db
unfolding forget_task delete_by
delete_rows db task_id =
    let forgotten = forget_task db task_id in
    record forgotten {
      runs = keep (λ (r : Run). not (r.task_id == task_id)) forgotten.runs;
      tasks = delete_by (λ (t : Task). t.id) task_id forgotten.tasks;
    }

-- What `run_now` answers to an admission.
unfoldable pub answer_admission : Admission → Reply
answer_admission (accepted id) = started id
answer_admission task_active = refused 409 ("task" ∷ [])
answer_admission source_active = refused 409 ("source" ∷ [])
answer_admission no_task = refused 404 []

module _ (registry : Registry) where
  -- The state of the process that the handlers change.
  pub record Server : Type 0 where
    pub db : Db
    pub memory : Memory
    pub scheduler : Scheduler registry
    pub woken : Bool

  -- `_sync_kuma` and `upsert_job`, with which a handler ends.
  unfoldable pub publish : Services → Task → String → Bool → Instant → Instant → Server → Server
  unfolding sync_kuma upsert_job
  publish v t prev_cron prev_enabled now clock s =
      let m =
        sync_kuma v.calendar v.croniter v.isoformat v.push v.client now clock s.db t s.memory
          prev_cron prev_enabled in
      record s {
        db = m.db;
        memory = m.memory;
        scheduler = upsert_job registry v.calendar t s.scheduler;
      }

  -- The row as it is after a handler.
  unfoldable pub show : Task → Server → Server × Reply
  unfolding refreshed
  show t s = (s, shown (refreshed s.db t))

  unfoldable pub create_task : Services → TaskFields → Instant → Instant → Server → Server × Reply
  unfolding accepts new_task next_task_id publish show get_source
  create_task v f now clock s =
      if not (accepts v.environment f)
      then (s, refused 422 [])
      else if is_none (get_source s.db f.source_id)
      then (s, refused 400 ("source not found" ∷ []))
      else let t = new_task (next_task_id s.db.tasks) f now in
        show t (publish v t "" true now clock (record s { db = put_task s.db t }))

  -- `update_task` behind its guards.
  unfoldable pub apply_edit :
      Services → Task → TaskFields → Instant → Instant → Server → Server × Reply
  unfolding edit_tables edit_row refreshed publish show
  apply_edit v t f now clock s =
      let db = edit_tables s.db t f now in
      let edited = edit_row t f now in
      let row = refreshed db edited in
      show row (publish v row t.cron t.enabled now clock (record s { db = db; woken = true }))

  unfoldable pub update_task :
      Services → ℕ → TaskFields → Instant → Instant → Server → Server × Reply
  unfolding accepts has_active_run unsafe_active_changes apply_edit
  update_task v task_id f now clock s =
      if not (accepts v.environment f) then (s, refused 422 []) else elim (get_task s.db task_id) [
        | none ↦ (s, refused 404 [])
        | some t ↦
            if has_active_run s.db task_id && not (is_empty_names (unsafe_active_changes t f))
            then (s, refused 409 (unsafe_active_changes t f))
            else apply_edit v t f now clock s
      ]

  unfoldable pub delete_task : ℕ → Server → Server × Reply
  unfolding has_active_run delete_rows remove_task_job
  delete_task task_id s = elim (get_task s.db task_id) [
    | none ↦ (s, refused 404 [])
    | some t ↦ if has_active_run s.db task_id then (s, refused 409 []) else (
      record s {
        db = delete_rows s.db task_id;
        scheduler = remove_task_job registry task_id s.scheduler;
      },
      done,
    )
  ]

  unfoldable pub run_now : ℕ → Instant → Server → Server × Reply
  unfolding admit_run answer_admission
  run_now task_id now s =
      if is_none (get_task s.db task_id)
      then (s, refused 404 [])
      else let (db, admission) = admit_run s.db task_id now in
        (record s { db = db }, answer_admission admission)
