-- ===== src/Lifecycle/Examples.antt =====
-- The theorems on the lives of runs at concrete inputs.
use pullbackup.Base.{◌≡◌, refl, false, [], ◌∷◌, some}
use pullbackup.Models.{seconds, RunState, Db, find_by}
use pullbackup.Samples.{busy_db, failed_run, running_music, sample_env}
use pullbackup.Dispatch.{dispatch_due}
use pullbackup.Lifecycle.{sweep_orphaned_runs, is_owned}
use pullbackup.Lifecycle.History.{run_at}
use pullbackup.Lifecycle.Cancel.{IsHonest, cancel_run, cancel_run-IsHonest}
use pullbackup.Lifecycle.World.{World, Reach, swept, dispatched, then_, stay, IsLive}
use pullbackup.Lifecycle.Finality.{reach-IsLive}

-- A failed run, and one that is executed.
abbrev before : World
before = record {
  db = record busy_db { runs = running_music ∷ failed_run ∷ [] };
  owners = record { run_id = 3; cancel_requested = false } ∷ [];
  executing = 3 ∷ [];
}

abbrev swept_db : Db
swept_db = (sweep_orphaned_runs before.db before.owners (seconds 9000)).0

abbrev after : World
after = record before { db = (dispatch_due sample_env swept_db (seconds 9000)).db }

abbrev sweep_then_dispatch : Reach before after
sweep_then_dispatch =
    then_ (swept (seconds 9000)) (then_ (dispatched sample_env (seconds 9000)) stay)

reach-IsLive_example : IsLive after × (run_at 7 after.db.runs ≡ some failed_run)
unfolding find_by is_owned
reach-IsLive_example = reach-IsLive 7 failed_run sweep_then_dispatch ((refl, refl), tt) refl refl

-- A request while the run was executed, after which the row says cancelled.
abbrev cancelled_db : Db
cancelled_db = record busy_db { runs = record running_music { state = RunState.cancelled } ∷ [] }

cancel_run-IsHonest_example :
    IsHonest before.db before.owners cancelled_db 3
      (cancel_run before.db before.owners cancelled_db 3)
cancel_run-IsHonest_example = cancel_run-IsHonest before.db before.owners cancelled_db 3
