-- ===== src/Dispatch.antt =====
-- backend/pullbackup/services/dispatcher.py, `dispatch_due`, with `_new_pending_run` of runner.py:
-- obligations become runs, the oldest first. A pass holds `_admission_lock` throughout, so it is one
-- step, at one instant, on one state of the disk.
pub mod Step
pub mod Apart
pub mod Fits
pub mod Exclusion
pub mod Capacity
pub mod Order
pub mod Rows
pub mod Owners
mod Examples
use pullbackup.Base.{
  ℕ, ◌+◌, String, Bool, true, false, not, ◌&&◌, ◌||◌, List, [], ◌∷◌, ◌++◌, Option, none, some, any,
  ltb, leb, ◌==◌, nat_comparable, text_comparable, if◌then◌else◌, keep, length, is_some, is_none,
  max2,
}
use pullbackup.Models.{
  Instant, Source, Task, Run, RunState, Status, WaitReason, TaskDue, Db, find_by, put_by, delete_by,
  is_active,
}
use pullbackup.Destination.{Paths, Parts, Disk, canonical_roots}
use pullbackup.Destination.Keys.{destination_key, conflicts}
use pullbackup.Names.{zfs_dest_roots_list}
use pullbackup.Commands.{validate_destination}
use pullbackup.Due.Settle.{get_task, settle_all}

-- The settings that admission reads, and what `pathlib` and the kernel answer during the pass.
pub record Environment : Type 0 where
  pub max_concurrent_runs : ℕ
  pub dest_roots : String
  pub zfs_dest_roots : String
  pub data_dir : String
  pub paths : Paths
  pub disk : Disk

-- What `dispatch_due` has computed so far.
pub record Pass : Type 0 where
  pub db : Db
  pub active_tasks : List ℕ
  pub active_sources : List ℕ
  pub dests : List Parts
  pub count : ℕ
  pub claimed_sources : List ℕ
  pub claimed_dests : List Parts
  pub started : List ℕ

unfoldable pub get_source : Db → ℕ → Option Source
get_source db id = find_by (λ s. s.id) id db.sources

abbrev pub member : ℕ → List ℕ → Bool
member k ks = any (λ n. n == k) ks

-- The integer primary key that the database gives to a new row.
unfoldable pub next_run_id : List Run → ℕ
next_run_id [] = 1
next_run_id (r ∷ runs) = max2 (r.id + 1) (next_run_id runs)

abbrev pub pending_run : ℕ → ℕ → Instant → Run
pending_run id task_id now = record {
  id = id;
  task_id = task_id;
  state = RunState.pending;
  started_at = now;
  finished_at = none;
  exit_code = none;
  error_message = "";
}

-- `_new_pending_run`
unfoldable pub new_pending_run : Db → Task → Instant → Db × Run
new_pending_run db task now =
    let run = pending_run (next_run_id db.runs) task.id now in
    (record db { runs = db.runs ++ run ∷ [] }, run)

-- `order_by(TaskDue.due_at)`
unfoldable pub insert_due : TaskDue → List TaskDue → List TaskDue
insert_due row [] = row ∷ []
insert_due row (r ∷ rows) =
    let rest = insert_due row rows in if leb row.due_at r.due_at then row ∷ r ∷ rows else r ∷ rest

unfoldable pub order_by_due : List TaskDue → List TaskDue
order_by_due [] = []
order_by_due (row ∷ rows) = insert_due row (order_by_due rows)

abbrev pub put_due : Db → TaskDue → Db
put_due db row = record db { dues = put_by (λ d. d.task_id) row db.dues }

abbrev pub cons_key : Option Parts → List Parts → List Parts
cons_key none keys = keys
cons_key (some key) keys = key ∷ keys

-- `key is not None and any(_conflicts(key, held) for held in …)`
unfoldable pub clashes : Option Parts → List Parts → Bool
clashes none held = false
clashes (some key) held = any (λ h. conflicts key h) held

abbrev pub same_reason : WaitReason → WaitReason → Bool
same_reason WaitReason.source_busy WaitReason.source_busy = true
same_reason WaitReason.destination_busy WaitReason.destination_busy = true
same_reason WaitReason.capacity WaitReason.capacity = true
same_reason WaitReason.task_active WaitReason.task_active = true
same_reason _ _ = false

-- `row.wait_reason != reason`
abbrev pub differs : Option WaitReason → WaitReason → Bool
differs none reason = true
differs (some old) reason = not (same_reason old reason)

-- Whether the row may start now, as far as it is concerned itself.
unfoldable pub is_startable : TaskDue → Instant → Bool
is_startable row now = elim row.status [
  | Status.due ↦ true
  | Status.retry ↦ elim row.retry_at [ none ↦ true | some at ↦ leb at now ]
  | Status.dispatched ↦ false
  | Status.exhausted ↦ false
  | Status.blocked ↦ false
]

abbrev pub is_dispatched_row : TaskDue → Bool
is_dispatched_row row = elim row.status [ Status.dispatched ↦ true | _ ↦ false ]

-- A row that has to wait keeps what it needs from younger ones.
unfoldable pub wait_row : Pass → TaskDue → Task → Option Parts → WaitReason → Instant → Pass
wait_row p row task key reason now = record p {
  claimed_sources = task.source_id ∷ p.claimed_sources;
  claimed_dests = cons_key key p.claimed_dests;
  db =
      (if differs row.wait_reason reason
        then put_due p.db (record row { wait_reason = some reason; updated_at = now })
        else p.db);
}

unfoldable pub start_row : Pass → TaskDue → Task → Option Parts → Instant → Pass
start_row p row task key now =
    let (db, run) = new_pending_run p.db task now in
    record p {
      db = put_due db (record row {
        status = Status.dispatched;
        run_id = some run.id;
        wait_reason = none;
        retry_at = none;
        updated_at = now;
      });
      active_tasks = task.id ∷ p.active_tasks;
      active_sources = task.source_id ∷ p.active_sources;
      dests = cons_key key p.dests;
      count = p.count + 1;
      started = p.started ++ run.id ∷ [];
    }

module _ (env : Environment) where
  unfoldable pub task_key : Task → Option Parts
  task_key task =
      destination_key (zfs_dest_roots_list env.zfs_dest_roots) env.paths
        (canonical_roots env.paths env.dest_roots) task

  -- The key that excludes others: none if the destination does not validate.
  unfoldable pub exclusion_key : Task → Source → Option Parts
  unfolding task_key
  exclusion_key task source =
      if validate_destination env.data_dir (zfs_dest_roots_list env.zfs_dest_roots) env.paths
        (canonical_roots env.paths env.dest_roots) env.disk task source
      then task_key task
      else none

  -- The loop over the active runs. One whose task is gone counts, and holds nothing.
  unfoldable pub hold_task : Option Task → Pass → Pass
  hold_task none p = p
  hold_task (some task) p = record p {
    active_tasks = task.id ∷ p.active_tasks;
    active_sources = task.source_id ∷ p.active_sources;
    dests = cons_key (task_key task) p.dests;
  }

  unfoldable pub hold_runs : Db → List Run → Pass → Pass
  hold_runs db [] p = p
  hold_runs db (run ∷ runs) p = hold_task (get_task db run.task_id) (hold_runs db runs p)

  unfoldable pub first_pass : Db → Pass
  first_pass db =
      let active = keep (λ r. is_active r.state) db.runs in
      hold_runs db active (record {
        db = db;
        active_tasks = [];
        active_sources = [];
        dests = [];
        count = length active;
        claimed_sources = [];
        claimed_dests = [];
        started = [];
      })

  unfoldable pub reason_to_wait : Pass → Task → Option Parts → Option WaitReason
  reason_to_wait p task key =
      if member task.id p.active_tasks
      then some WaitReason.task_active
      else if member task.source_id p.active_sources || member task.source_id p.claimed_sources
      then some WaitReason.source_busy
      else if clashes key (p.dests ++ p.claimed_dests)
      then some WaitReason.destination_busy
      else if leb env.max_concurrent_runs p.count
      then some WaitReason.capacity
      else none

  -- A row whose task and source are there.
  unfoldable pub admit_row : Pass → TaskDue → Task → Source → Instant → Pass
  admit_row p row task source now =
      let key = exclusion_key task source in
      elim (reason_to_wait p task key) [
        | some reason ↦ wait_row p row task key reason now
        | none ↦ start_row p row task key now
      ]

  -- The source of the task, and the row if both are there.
  unfoldable pub admit_owned : Pass → TaskDue → Task → Instant → Pass
  admit_owned p row task now = elim (get_source p.db task.source_id) [
    | none ↦ p
    | some source ↦ admit_row p row task source now
  ]

  unfoldable pub dispatch_row : Pass → TaskDue → Instant → Pass
  dispatch_row p row now = elim (get_task p.db row.task_id) [
    | none ↦ p
    | some owner ↦
        if not (is_dispatched_row row) && not owner.enabled
        then record p {
          db = record p.db { dues = delete_by (λ d. d.task_id) row.task_id p.db.dues };
        }
        else if is_startable row now
        then admit_owned p row owner now
        else p
  ]

  unfoldable pub dispatch_rows : Pass → List TaskDue → Instant → Pass
  dispatch_rows p [] now = p
  dispatch_rows p (row ∷ rows) now = dispatch_rows (dispatch_row p row now) rows now

  -- `dispatch_due`: the tables, and the identifiers of the runs started.
  unfoldable pub dispatch_due : Db → Instant → Pass
  dispatch_due db now =
      let settled = settle_all db now in
      dispatch_rows (first_pass settled) (order_by_due settled.dues) now
