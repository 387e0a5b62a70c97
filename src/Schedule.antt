-- ===== src/Schedule.antt =====
-- Cron occurrences: `_trigger`, `next_occurrence` and `_latest_occurrence` of
-- backend/pullbackup/services/due.py, over APScheduler's trigger, which is a parameter.
pub mod Scan
use pullbackup.Base.{ℕ, zero, suc, String, Option, none, some, Bool, if◌then◌else◌, ltb, leb}
use pullbackup.Models.{Instant}

-- `CronTrigger` of APScheduler in the configured zone: whether `from_crontab` accepts an expression,
-- and `get_next_fire_time(after, after)` of the trigger that it makes.
pub record Calendar : Type 0 where
  pub parses : String → Bool
  pub next_fire : String → Instant → Option Instant

module _ (cal : Calendar) where
  -- First occurrence strictly after `after`; an instant that does not advance is none.
  unfoldable pub next_occurrence : String → Instant → Option Instant
  next_occurrence cron after =
      if cal.parses cron
      then elim (cal.next_fire cron after) [
        | none ↦ none
        | some fire ↦ if leb fire after then none else some fire
      ]
      else none

  -- The loop of `_latest_occurrence`, with the rounds left.
  unfoldable pub scan_occurrences : ℕ → String → Instant → Instant → Instant
  scan_occurrences zero cron latest now = now
  scan_occurrences (suc rounds) cron latest now = elim (next_occurrence cron latest) [
    | none ↦ latest
    | some following ↦
        let rest = scan_occurrences rounds cron following now in
        if ltb now following then latest else rest
  ]

-- `MAX_OCCURRENCE_SCAN`
unfoldable pub max_occurrence_scan : ℕ
max_occurrence_scan = 20000

unfoldable pub latest_occurrence : Calendar → String → Instant → Instant → Instant
latest_occurrence cal cron first now = scan_occurrences cal max_occurrence_scan cron first now
