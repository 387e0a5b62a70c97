-- ===== src/Freshness/Grace.antt =====
-- How long the grace of services/freshness.py is.
use pullbackup.Base.{
  ℕ, ◌+◌, ◌*◌, ◌/◌, ◌≤◌, ◌<◌, String, List, [], ◌∷◌, ltb, leb, arith, if◌then◌else◌, keep,
}
use pullbackup.Models.{Instant, seconds}
use pullbackup.Cadence.{Croniter, cadence_seconds}
use pullbackup.Freshness.{slack, longest_sample, allowance, grace_seconds, kuma_expiry_seconds}

slack_bounds : (gap : ℕ) → (seconds 600 ≤ slack gap) × (slack gap ≤ seconds 7200)
unfolding slack
slack_bounds gap = ground arith

slack_le : (gap : ℕ) → slack gap ≤ gap / 10 + seconds 600
unfolding slack
slack_le gap = ground arith

allowance_le : (gap : ℕ) (durations : List ℕ) → allowance gap durations ≤ gap / 2
unfolding allowance
allowance_le gap durations = go (keep (λ d. ltb 0 d) durations)
  where
    go :
        (samples : List ℕ)
        → (elim samples as (λ _. ℕ) [
          | [] ↦ gap / 2
          | d ∷ ds ↦
              (if leb (3 * longest_sample (d ∷ ds) / 2) (gap / 2)
                then 3 * longest_sample (d ∷ ds) / 2
                else gap / 2)
        ])
          ≤ gap / 2
    go [] = omega arith
    go (d ∷ ds) = ground arith

-- For a cycle of an hour or longer, the grace is ten minutes or more, at most two hours and half a
-- cycle, and below a whole cycle.
pub grace_seconds_bounds :
    (gap : ℕ) (durations : List ℕ)
    → seconds 3600 ≤ gap
    → (600 ≤ grace_seconds gap durations)
      × (seconds (grace_seconds gap durations) ≤ seconds 7200 + gap / 2)
      × (seconds (grace_seconds gap durations) < gap)
unfolding grace_seconds
grace_seconds_bounds gap durations hour = (
  omega (arith, slack_bounds gap),
  omega (arith, slack_bounds gap, allowance_le gap durations),
  omega (arith, slack_le gap, allowance_le gap durations),
)

-- The span of the Kuma monitor is at least a cadence, the grace of a cycle of that length and an
-- hour, however long the last successes took.
pub kuma_expiry_seconds_covers :
    (croniter : Croniter) (cron : String) (clock : Instant) (durations : List ℕ)
    → cadence_seconds croniter cron clock
        + grace_seconds (seconds (cadence_seconds croniter cron clock)) durations
        + 3600
      ≤ kuma_expiry_seconds croniter cron clock
unfolding grace_seconds kuma_expiry_seconds
kuma_expiry_seconds_covers croniter cron clock durations =
    omega (arith, allowance_le (seconds (cadence_seconds croniter cron clock)) durations)
