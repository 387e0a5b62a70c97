-- ===== src/Scheduler/Examples.antt =====
-- The theorems on services/scheduler.py at concrete inputs, and tests.
use pullbackup.Base.{◌≡◌, ◌⊎◌, refl, none, some, [], ◌∷◌, true, false, text_comparable, arith}
use pullbackup.Models.{seconds, Task}
use pullbackup.Samples.{hourly, photos, quiet_db, sample_env}
use pullbackup.Scheduler.{
  Scheduler, liveness, start, register_enabled, register, new_generation, beat, upsert_job, execute,
  job_id,
}
use pullbackup.Scheduler.Toy.{table, new_scheduler}
use pullbackup.Scheduler.Stale.{edited, started, apply_changes}
use pullbackup.Scheduler.Dead.{execute_dead}
use pullbackup.Scheduler.Register.{Ticks, upsert_job-Ticks}

-- The scheduler after its start, and the task with another schedule.
abbrev running_scheduler : Scheduler table
running_scheduler = start table hourly quiet_db (seconds 60) new_scheduler

abbrev daily : Task
daily = record photos { cron = "0 0 * * *" }

execute_dead_example :
    execute table hourly sample_env 1
      (some 0)
      (seconds 7200)
      (apply_changes table hourly
        (edited daily ∷ started quiet_db (seconds 90) ∷ [])
        running_scheduler)
      quiet_db
    ≡ quiet_db
unfolding start register_enabled register new_generation beat
execute_dead_example =
    execute_dead table hourly 1 0 (edited daily) (started quiet_db (seconds 90) ∷ [])
      running_scheduler sample_env (seconds 7200) quiet_db refl (omega arith)

upsert_job-Ticks_example :
    ((photos.enabled ≡ true)
      × (hourly.parses photos.cron ≡ true)
      × Ticks table photos (upsert_job table hourly photos new_scheduler))
    ⊎ (((photos.enabled ≡ false) ⊎ (hourly.parses photos.cron ≡ false))
        × (table.get_job (job_id photos.id) (upsert_job table hourly photos new_scheduler).jobs
            ≡ none))
upsert_job-Ticks_example = upsert_job-Ticks table hourly photos new_scheduler

-- The heartbeat is good for three minutes, and for nothing once the scheduler is stopped.
alive : (liveness true (some (seconds 60)) (seconds 239)).alive ≡ true
unfolding liveness
alive = refl

too_late : (liveness true (some (seconds 60)) (seconds 240)).alive ≡ false
unfolding liveness
too_late = refl

shut_down : (liveness false (some (seconds 60)) (seconds 61)).alive ≡ false
unfolding liveness
shut_down = refl
