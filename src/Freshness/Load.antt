-- ===== src/Freshness/Load.antt =====
-- The loader of services/freshness.py, which reads the tables for the projection.
use pullbackup.Base.{
  ℕ, ◌-◌, Bool, true, false, ◌&&◌, List, [], ◌∷◌, Option, none, some, leb, if◌then◌else◌, keep,
  or_else, take, ◌==◌, nat_comparable, any,
}
use pullbackup.Models.{Instant, RunState, Run, Task, Db, is_active, is_success, latest}
use pullbackup.Schedule.{Calendar}
use pullbackup.Cadence.{Croniter}
use pullbackup.Due.Settle.{get_due}
use pullbackup.Freshness.{SuccessInfo, Evidence, Freshness, project}

-- `order_by(Run.finished_at.desc())`; a missing end sorts last.
unfoldable pub insert_latest : Run → List Run → List Run
insert_latest r [] = r ∷ []
insert_latest r (x ∷ xs) =
    let rest = insert_latest r xs in
    if leb (or_else x.finished_at 0) (or_else r.finished_at 0) then r ∷ x ∷ xs else x ∷ rest

unfoldable pub latest_first : List Run → List Run
latest_first [] = []
latest_first (r ∷ rs) = insert_latest r (latest_first rs)

-- `DURATION_SAMPLES`
abbrev pub duration_samples : ℕ
duration_samples = 10

unfoldable pub durations_of : List Run → List ℕ
durations_of [] = []
durations_of (r ∷ rs) = (or_else r.finished_at r.started_at - r.started_at) ∷ durations_of rs

unfoldable pub success_of : List Run → Option SuccessInfo
success_of [] = none
success_of (r ∷ rs) = some (record {
  run_id = r.id;
  started_at = r.started_at;
  finished_at = or_else r.finished_at r.started_at;
})

-- The failed and cancelled runs.
abbrev pub is_attempt : RunState → Bool
is_attempt RunState.failed = true
is_attempt RunState.cancelled = true
is_attempt _ = false

unfoldable pub evidence_of : Db → ℕ → Evidence
evidence_of db id = record {
  due_status = elim (get_due db id) [ none ↦ none | some row ↦ some row.status ];
  active_run = any (λ (r : Run). r.task_id == id && is_active r.state) db.runs;
  latest_attempt =
      elim (latest (λ (r : Run). r.started_at)
        (keep (λ (r : Run). r.task_id == id && is_attempt r.state) db.runs)) [
          | none ↦ none
          | some r ↦ some (r.state, r.started_at)
        ];
}

module _ (cal : Calendar) (croniter : Croniter) where
  unfoldable pub project_task : Db → Task → Instant → Instant → Freshness
  unfolding latest_first durations_of success_of evidence_of
  project_task db task now clock =
      let successes =
        take duration_samples
          (latest_first (keep (λ (r : Run). r.task_id == task.id && is_success r.state) db.runs)) in
      project cal croniter task.cron task.enabled now clock
        (or_else task.schedule_epoch_at task.created_at) (success_of successes)
        (durations_of successes) (evidence_of db task.id)
