-- ===== src/Dispatch/Examples.antt =====
-- The theorems on a pass of the dispatcher at concrete inputs.
use pullbackup.Base.{◌≡◌, ◌≤◌, refl, [], ◌∷◌, max2, All}
use pullbackup.Models.{seconds, find_by, TaskDue, WaitReason}
use pullbackup.Samples.{busy_db, sample_env, due_row, films_row, films, vault}
use pullbackup.Due.Settle.{get_task}
use pullbackup.Dispatch.{
  dispatch_due, dispatch_rows, first_pass, order_by_due, insert_due, hold_runs, hold_task,
  get_source, is_startable, reason_to_wait,
}
use pullbackup.Dispatch.Exclusion.{IsExclusive, dispatch_due-IsExclusive}
use pullbackup.Dispatch.Capacity.{active_count, dispatch_due-limit}
use pullbackup.Dispatch.Order.{runs_of_source, Waits, dispatch_rows-waiting}

dispatch_due-IsExclusive_example :
    IsExclusive sample_env (dispatch_due sample_env busy_db (seconds 7300)).db
dispatch_due-IsExclusive_example =
    dispatch_due-IsExclusive sample_env busy_db (seconds 7300) (tt, tt)

dispatch_due-limit_example :
    active_count (dispatch_due sample_env busy_db (seconds 7300)).db.runs
    ≤ max2 2 (active_count busy_db.runs)
dispatch_due-limit_example = dispatch_due-limit sample_env busy_db (seconds 7300)

films_row-Waits :
    Waits sample_env (first_pass sample_env busy_db) films_row films vault (seconds 7300)
unfolding get_task get_source is_startable first_pass hold_runs hold_task reason_to_wait find_by
films_row-Waits = record {
  owner = refl;
  found = refl;
  enabled = refl;
  startable = refl;
  reason = WaitReason.source_busy;
  waits = refl;
}

dispatch_rows-waiting_example :
    All (λ (r : TaskDue). seconds 3600 ≤ r.due_at) (due_row ∷ [])
    × (runs_of_source 2
          (dispatch_rows sample_env
            (first_pass sample_env busy_db)
            (films_row ∷ due_row ∷ [])
            (seconds 7300)).db
        ≡ runs_of_source 2 (first_pass sample_env busy_db).db)
unfolding order_by_due insert_due
dispatch_rows-waiting_example =
    dispatch_rows-waiting sample_env (first_pass sample_env busy_db) films_row (due_row ∷ [])
      busy_db.dues films vault (seconds 7300) refl films_row-Waits
