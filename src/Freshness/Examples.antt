-- ===== src/Freshness/Examples.antt =====
-- The theorems on freshness at concrete inputs.
use pullbackup.Base.{◌+◌, ◌≤◌, ◌≡◌, true, false, [], ◌∷◌, some, none, refl, arith}
use pullbackup.Models.{seconds, Status, RunState}
use pullbackup.Schedule.{next_occurrence}
use pullbackup.Samples.{hourly, hourly_croniter}
use pullbackup.Cadence.{cadence_seconds}
use pullbackup.Freshness.{
  State, SuccessInfo, Evidence, grace_seconds, slack, allowance, longest_sample,
  kuma_expiry_seconds, covered_until, deadline_of, owed, project_first, project,
}
use pullbackup.Freshness.Grace.{kuma_expiry_seconds_covers}
use pullbackup.Freshness.Project.{Justified, project-Justified, project_stale}

-- The last successful run started at one o'clock and took two minutes.
abbrev at_one : SuccessInfo
at_one = record { run_id = 1; started_at = seconds 3600; finished_at = seconds 3720 }

abbrev nothing_known : Evidence
nothing_known = record { due_status = none; active_run = false; latest_attempt = none }

abbrev a_retry : Evidence
a_retry = record {
  due_status = some Status.retry;
  active_run = false;
  latest_attempt = some (RunState.failed, seconds 7300);
}

kuma_expiry_seconds_covers_example :
    cadence_seconds hourly_croniter "0 * * * *" 0
      + grace_seconds (seconds (cadence_seconds hourly_croniter "0 * * * *" 0)) (seconds 120 ∷ [])
      + 3600
    ≤ kuma_expiry_seconds hourly_croniter "0 * * * *" 0
kuma_expiry_seconds_covers_example =
    kuma_expiry_seconds_covers hourly_croniter "0 * * * *" 0 (seconds 120 ∷ [])

project-Justified_example :
    Justified hourly hourly_croniter "0 * * * *"
      (seconds 9000)
      0
      (some at_one)
      (seconds 120 ∷ [])
      true
      (seconds 9000)
      (project hourly hourly_croniter "0 * * * *" true
        (seconds 9000)
        (seconds 9000)
        0
        (some at_one)
        (seconds 120 ∷ [])
        nothing_known).state
project-Justified_example =
    project-Justified hourly hourly_croniter "0 * * * *" (seconds 9000) 0 (some at_one)
      (seconds 120 ∷ []) true (seconds 9000) nothing_known

-- The backup of two o'clock is stale at half past two, and at three.
project_stale_example :
    (project hourly hourly_croniter "0 * * * *" true
      (seconds 10800)
      (seconds 10800)
      0
      (some at_one)
      (seconds 120 ∷ [])
      a_retry).state
    ≡ State.stale
unfolding project project_first owed covered_until deadline_of next_occurrence cadence_seconds
    grace_seconds slack allowance longest_sample
project_stale_example =
    project_stale hourly hourly_croniter "0 * * * *" (seconds 9000) 0 (some at_one)
      (seconds 120 ∷ []) true (seconds 9000) (seconds 10800) (seconds 10800) nothing_known a_retry
      (omega arith) refl refl
