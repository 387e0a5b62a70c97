-- ===== src/Cadence/Examples.antt =====
-- The theorem on missed schedules at a concrete input.
use pullbackup.Base.{◌≡◌, ◌⊎◌, true, false, some}
use pullbackup.Models.{seconds}
use pullbackup.Samples.{hourly_croniter}
use pullbackup.Cadence.{schedule_is_missed}
use pullbackup.Cadence.Missed.{HasCause, InTime, schedule_is_missed_cases}

-- The next run is ten minutes away, and the last activity three hours ago.
schedule_is_missed_cases_example :
    ((schedule_is_missed hourly_croniter "0 * * * *" true
          (some (seconds 14400))
          false
          (some (seconds 3000))
          (seconds 13800)
          (seconds 13800)
        ≡ true)
      × HasCause hourly_croniter "0 * * * *"
          (seconds 13800)
          (some (seconds 14400))
          (some (seconds 3000))
          (seconds 13800))
    ⊎ ((schedule_is_missed hourly_croniter "0 * * * *" true
            (some (seconds 14400))
            false
            (some (seconds 3000))
            (seconds 13800)
            (seconds 13800)
          ≡ false)
        × InTime hourly_croniter "0 * * * *"
            (seconds 13800)
            (some (seconds 14400))
            (some (seconds 3000))
            (seconds 13800))
schedule_is_missed_cases_example =
    schedule_is_missed_cases hourly_croniter "0 * * * *" (seconds 13800) (some (seconds 14400))
      (some (seconds 3000)) (seconds 13800)
