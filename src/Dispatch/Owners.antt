-- ===== src/Dispatch/Owners.antt =====
-- The obligations that services/dispatcher.py dispatches, and the runs that they name.
use pullbackup.Base.{◌⊎◌, ℕ, ◌≡◌, ◌≢◌, List, Option, none, some, All}
use pullbackup.Models.{Run, Status, TaskDue, Db}
use pullbackup.Due.Settle.{get_run}
use pullbackup.Dispatch.{Pass}

-- An obligation that is dispatched names a run that is there, of its own task.
abbrev pub NamesRun : Db → TaskDue → Type 0
NamesRun db d =
    (d.status ≢ Status.dispatched)
    ⊎ ((run : Run) × (d.run_id ≡ some run.id)
        × (get_run db run.id ≡ some run)
        × (run.task_id ≡ d.task_id))

abbrev pub AllOwned : Db → Type 0
AllOwned db = All (NamesRun db) db.dues

-- What the tables may gain: a run that is there stays what it is.
abbrev Grows : Db → Db → Type 0
Grows db db' = (id : ℕ) (run : Run) → get_run db id ≡ some run → get_run db' id ≡ some run

abbrev Kept : Db → Option TaskDue → Type 0
Kept db none = Unit {0}
Kept db (some d) = NamesRun db d

-- The obligations of the tables, and those still to be visited.
abbrev Owned : List TaskDue → Pass → Type 0
Owned rows p = AllOwned p.db × All (NamesRun p.db) rows
