-- ===== src/Cadence.antt =====
-- backend/pullbackup/services/cadence.py: how often a task runs, and when it is late. croniter is a
-- parameter, and so is the clock that `cadence_seconds` reads.
pub mod Missed
mod Examples
use pullbackup.Base.{
  ℕ, ◌+◌, ◌-◌, ◌*◌, ◌/◌, String, Bool, true, false, not, ◌||◌, Option, none, some, ltb,
  if◌then◌else◌, min2, max2,
}
use pullbackup.Models.{Instant, seconds}

-- The next two firings of an expression after an instant; `none` where croniter raises.
pub record Croniter : Type 0 where
  pub next_two : String → Instant → Option (Instant × Instant)

abbrev pub default_cadence_seconds : ℕ
default_cadence_seconds = 3600

abbrev pub min_cadence_seconds : ℕ
min_cadence_seconds = 60

abbrev pub min_schedule_grace_seconds : ℕ
min_schedule_grace_seconds = 300

abbrev pub max_schedule_grace_seconds : ℕ
max_schedule_grace_seconds = 3600

-- Whether nothing has happened for longer than a cadence and its grace.
unfoldable pub is_silent : Option Instant → ℕ → ℕ → Instant → Bool
is_silent none cadence grace now = false
is_silent (some last_activity_at) cadence grace now =
    ltb (last_activity_at + seconds (cadence + grace)) now

-- Whether the next run is missing, or in the past by more than the grace.
unfoldable pub is_overdue : Option Instant → ℕ → Instant → Bool
is_overdue none grace now = true
is_overdue (some next_run) grace now = ltb (next_run + seconds grace) now

module _ (croniter : Croniter) where
  unfoldable pub cadence_seconds : String → Instant → ℕ
  cadence_seconds cron clock = elim (croniter.next_two cron clock) [
    | none ↦ default_cadence_seconds
    | some (first, second) ↦ max2 ((second - first) / seconds 1) min_cadence_seconds
  ]

  unfoldable pub schedule_grace_seconds : String → Instant → ℕ
  unfolding cadence_seconds
  schedule_grace_seconds cron clock =
      max2 min_schedule_grace_seconds
        (min2 (cadence_seconds cron clock / 2) max_schedule_grace_seconds)

  unfoldable pub schedule_is_missed :
      String → Bool → Option Instant → Bool → Option Instant → Instant → Instant → Bool
  unfolding cadence_seconds schedule_grace_seconds is_silent is_overdue
  schedule_is_missed cron enabled next_run has_active_run last_activity_at now clock =
      if not enabled || has_active_run
      then false
      else if is_silent last_activity_at (cadence_seconds cron clock)
          (schedule_grace_seconds cron clock) now
      then true
      else is_overdue next_run (schedule_grace_seconds cron clock) now
