-- ===== src/Cadence/Missed.antt =====
-- When services/cadence.py flags a schedule, and when it does not.
use pullbackup.Base.{
  ◌+◌, ◌*◌, ◌≤◌, ◌<◌, ◌≡◌, ◌⊎◌, inl, inr, refl, String, true, false, Option, none, some, arith, ltb,
  Bool-cases, Option-cases,
}
use pullbackup.Models.{Instant, seconds}
use pullbackup.Cadence.{
  Croniter, cadence_seconds, schedule_grace_seconds, schedule_is_missed, is_silent, is_overdue,
}

module _ (croniter : Croniter) (cron : String) (clock : Instant) where
  cadence_seconds-ge : 60 ≤ cadence_seconds croniter cron clock
  unfolding cadence_seconds
  cadence_seconds-ge = elim (Option-cases (croniter.next_two cron clock)) [
    | inl e ↦ ground arith
    | inr ((first, second), e) ↦ ground arith
  ]

  grace_bounds :
      (300 ≤ schedule_grace_seconds croniter cron clock)
      × (schedule_grace_seconds croniter cron clock ≤ 3600)
      × (schedule_grace_seconds croniter cron clock ≤ 300 + cadence_seconds croniter cron clock)
  unfolding schedule_grace_seconds
  grace_bounds = ground arith

  -- A reason to flag: no next run, or one that is more than five minutes late, or a last activity that
  -- is known and older than a cadence and five minutes.
  abbrev pub HasCause : Option Instant → Option Instant → Instant → Type 0
  HasCause next_run last now =
      (next_run ≡ none)
      ⊎ ((at : Instant) × (next_run ≡ some at) × (at + seconds 300 < now))
      ⊎ ((at : Instant) × (last ≡ some at)
          × (at + seconds (cadence_seconds croniter cron clock + 300) < now))

  -- The last activity, where it is known, is no older than two cadences and five minutes.
  abbrev pub IsActive : Option Instant → Instant → Type 0
  IsActive none now = Unit {0}
  IsActive (some last) now = now ≤ last + seconds (2 * cadence_seconds croniter cron clock + 300)

  -- The next run is at most an hour late, and the task is active.
  abbrev pub InTime : Option Instant → Option Instant → Instant → Type 0
  InTime next_run last now =
      ((at : Instant) × (next_run ≡ some at) × (now ≤ at + seconds 3600)) × IsActive last now

  overdue_cases :
      (next_run last : Option Instant) (now : Instant)
      → IsActive last now
      → ((is_overdue next_run (schedule_grace_seconds croniter cron clock) now ≡ true)
          × HasCause next_run last now)
        ⊎ ((is_overdue next_run (schedule_grace_seconds croniter cron clock) now ≡ false)
            × InTime next_run last now)
  unfolding is_overdue
  overdue_cases none last now recent = inl (refl, inl refl)
  overdue_cases (some at) last now recent =
      elim (Bool-cases (ltb (at + seconds (schedule_grace_seconds croniter cron clock)) now)) [
        | inl late ↦ inl (late, inr (inl (at, refl, ground (arith, grace_bounds))))
        | inr early ↦ inr (early, ((at, refl, ground (arith, grace_bounds)), recent))
      ]

  -- An enabled task with no run in flight is flagged with a cause: no next run, or one more than five
  -- minutes late, or a last activity that is known and older than a cadence and five minutes. It is not
  -- flagged only while its next run is at most an hour late and its last activity, where it is known, no
  -- older than two cadences and five minutes.
  pub schedule_is_missed_cases :
      (next_run last : Option Instant) (now : Instant)
      → ((schedule_is_missed croniter cron true next_run false last now clock ≡ true)
          × HasCause next_run last now)
        ⊎ ((schedule_is_missed croniter cron true next_run false last now clock ≡ false)
            × InTime next_run last now)
  unfolding schedule_is_missed is_silent
  schedule_is_missed_cases next_run none now = overdue_cases next_run none now tt
  schedule_is_missed_cases next_run (some last) now =
      elim (Bool-cases (
        ltb
          (last
            + seconds
                (cadence_seconds croniter cron clock + schedule_grace_seconds croniter cron clock))
          now)) [
            | inl silent ↦ inl (ground arith, inr (inr (last, refl, ground (arith, grace_bounds))))
            | inr active ↦
                elim (overdue_cases next_run (some last) now (ground (arith, grace_bounds))) [
                  | inl (late, cause) ↦ inl (ground arith, cause)
                  | inr (early, in_time) ↦ inr (ground arith, in_time)
                ]
          ]
