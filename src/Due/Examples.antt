-- ===== src/Due/Examples.antt =====
-- The theorems on services/due.py at concrete inputs, and tests by evaluation.
use pullbackup.Base.{◌≡◌, refl, [], ◌∷◌, none, some, String, arith, ◌⊎◌, ◌≢◌}
use pullbackup.Models.{seconds, RunState, TaskDue, find_by}
use pullbackup.Schedule.{next_occurrence}
use pullbackup.Samples.{hourly, photos, failed_run, dispatched_row, quiet_db}
use pullbackup.Due.Rows.{is_infrastructure, is_permanent, apply_run_outcome}
use pullbackup.Due.Settle.{get_task}
use pullbackup.Due.Reconcile.{record_tick, reconcile_task}
use pullbackup.Due.Retry.{IsOrdinary, Charged, failing, retry_budget, apply_run_outcome_keeps}
use pullbackup.Due.Debt.Tick.{Accounted, record_tick_owes}
use pullbackup.Due.Debt.Fold.{Folded, SettledAgain, reconcile_task_folds, reconcile_task-again}

abbrev exit_23 : String
exit_23 = "rsync exited 23"

exit_23-IsOrdinary : IsOrdinary exit_23
unfolding is_infrastructure is_permanent
exit_23-IsOrdinary = (refl, refl)

-- Two failures: the second retry is set for two minutes after the second failure.
retry_budget_example :
    Charged
      (failing dispatched_row ((seconds 400, exit_23) ∷ (seconds 100, exit_23) ∷ []))
      (seconds 400)
      2
retry_budget_example =
    retry_budget dispatched_row ((seconds 100, exit_23) ∷ []) (seconds 400) exit_23 refl
      (exit_23-IsOrdinary, (exit_23-IsOrdinary, tt))

apply_run_outcome_keeps_example :
    (apply_run_outcome dispatched_row failed_run (seconds 7300) ≡ none)
      × ((failed_run.state ≡ RunState.cancelled)
          ⊎ ((failed_run.state ≡ RunState.success) × (dispatched_row.newer_due_at ≡ none)))
    ⊎ ((out : TaskDue) × (apply_run_outcome dispatched_row failed_run (seconds 7300) ≡ some out)
        × (failed_run.state ≢ RunState.cancelled)
        × (out.task_id ≡ 1)
        × ((failed_run.state ≡ RunState.success) × (dispatched_row.newer_due_at ≡ some out.due_at)
            ⊎ (failed_run.state ≢ RunState.success) × (out.due_at ≡ seconds 7200)))
apply_run_outcome_keeps_example = apply_run_outcome_keeps dispatched_row failed_run (seconds 7300)

record_tick_owes_example :
    Accounted hourly (record_tick hourly quiet_db 1 (seconds 7201)) photos (seconds 7201)
unfolding get_task find_by
record_tick_owes_example = record_tick_owes hourly quiet_db 1 (seconds 7201) photos refl refl

reconcile_task_folds_example :
    Folded hourly photos
      (seconds 7200)
      (seconds 7201)
      (reconcile_task hourly quiet_db photos (seconds 7201))
unfolding next_occurrence
reconcile_task_folds_example =
    reconcile_task_folds hourly quiet_db photos (seconds 7201) (seconds 7200) refl refl refl
      (omega arith)

reconcile_task-again_example :
    SettledAgain hourly photos (seconds 7201) (reconcile_task hourly quiet_db photos (seconds 7201))
unfolding next_occurrence
reconcile_task-again_example =
    reconcile_task-again hourly quiet_db photos (seconds 7201) (seconds 7200) refl refl refl
      (omega arith)
