-- ===== src/Schedule/Scan.antt =====
-- What the scan for the latest occurrence reaches.
use pullbackup.Base.{
  ℕ, if_cases, ltb, none, ◌⊎◌, zero, suc, ◌≤◌, ◌<◌, ◌≡◌, inl, inr, String, some, arith,
  Option-cases,
}
use pullbackup.Models.{Instant}
use pullbackup.Schedule.{
  Calendar, next_occurrence, scan_occurrences, max_occurrence_scan, latest_occurrence,
}

module _ (cal : Calendar) (cron : String) where
  pub next_occurrence-lt :
      (after fire : Instant) → next_occurrence cal cron after ≡ some fire → after < fire
  unfolding next_occurrence
  next_occurrence-lt after fire h = ground arith

  -- No occurrence is left in (at, now].
  abbrev pub CaughtUp : Instant → Instant → Type 0
  CaughtUp at now =
      (next_occurrence cal cron at ≡ none)
      ⊎ ((fire : Instant) × (next_occurrence cal cron at ≡ some fire) × (now < fire))

  scan-bounds :
      (rounds : ℕ) (first now : Instant)
      → first ≤ now
      → (first ≤ scan_occurrences cal rounds cron first now)
        × (scan_occurrences cal rounds cron first now ≤ now)
  unfolding scan_occurrences
  scan-bounds zero first now h = omega arith
  scan-bounds (suc rounds) first now h = elim (Option-cases (next_occurrence cal cron first)) [
    | inl e ↦ rw (e, scan_occurrences) (omega arith)
    | inr (following, e) ↦
        rw (e, scan_occurrences)
          (ground (arith, next_occurrence-lt first following e, scan-bounds rounds following now))
  ]

  scan-CaughtUp :
      (rounds : ℕ) (first now : Instant) → CaughtUp (scan_occurrences cal rounds cron first now) now
  unfolding scan_occurrences
  scan-CaughtUp zero first now = elim (Option-cases (next_occurrence cal cron now)) [
    | inl e ↦ inl e
    | inr (fire, e) ↦ inr (fire, e, next_occurrence-lt now fire e)
  ]
  scan-CaughtUp (suc rounds) first now = elim (Option-cases (next_occurrence cal cron first)) [
    | inl e ↦ rw (e, scan_occurrences) (inl e)
    | inr (following, e) ↦
        rw (e, scan_occurrences)
          (if_cases (λ at. CaughtUp at now) (ltb now following)
            (λ later. inr (following, e, ground arith)) (λ _. scan-CaughtUp rounds following now))
  ]

  -- A scan from an occurrence that is past ends between it and `now`, with nothing left to fold,
  -- whether or not the bound on the rounds is met.
  pub latest_occurrence-CaughtUp :
      (first now : Instant)
      → first ≤ now
      → (first ≤ latest_occurrence cal cron first now)
        × (latest_occurrence cal cron first now ≤ now)
        × CaughtUp (latest_occurrence cal cron first now) now
  unfolding latest_occurrence
  latest_occurrence-CaughtUp first now h =
      let (lower, upper) = scan-bounds max_occurrence_scan first now h in
      (lower, upper, scan-CaughtUp max_occurrence_scan first now)
