-- ===== src/Freshness/Project.antt =====
-- What the projection of services/freshness.py says, what it rests on, and what cannot move it.
use pullbackup.Base.{
  ℕ, ◌≤◌, ◌<◌, ◌≡◌, ◌⊎◌, inl, inr, refl, String, Bool, true, false, not, List, Option, none, some,
  ltb, leb, arith, if_cases, Bool-cases,
}
use pullbackup.Models.{Instant}
use pullbackup.Schedule.{Calendar, next_occurrence}
use pullbackup.Cadence.{Croniter, cadence_seconds}
use pullbackup.Freshness.{
  State, KumaStatus, SuccessInfo, Freshness, Evidence, covered_until, not_owed, deadline_of, owed,
  project_first, project,
}

-- All of a projection but its reason.
abbrev pub verdict :
    Freshness → State × Option KumaStatus × Option Instant × Option Instant × Option SuccessInfo
verdict f = (f.state, f.kuma_status, f.occurrence_at, f.deadline_at, f.last_success)

module _ (cal : Calendar) (croniter : Croniter) (cron : String) (clock epoch : Instant)
    (last_success : Option SuccessInfo) (durations : List ℕ) where
  owed-verdict :
      (now first deadline : Instant) (e e' : Evidence)
      → verdict (owed cal croniter now first deadline last_success e)
        ≡ verdict (owed cal croniter now first deadline last_success e')
  unfolding owed
  owed-verdict now first deadline e e' = elim (Bool-cases (leb now deadline)) [
    | inl early ↦ rw (early, owed) refl
    | inr late ↦ rw (late, owed) refl
  ]

  first-verdict :
      (now : Instant) (first : Option Instant) (e e' : Evidence)
      → verdict (project_first cal croniter cron now clock epoch last_success durations e first)
        ≡ verdict (project_first cal croniter cron now clock epoch last_success durations e' first)
  unfolding project_first
  first-verdict now none e e' = refl
  first-verdict now (some first) e e' = elim (Bool-cases (ltb now first)) [
    | inl before ↦ rw (before, project_first) refl
    | inr after ↦
        rw (after, project_first)
          (owed-verdict now first (deadline_of cal croniter cron first durations clock) e e')
  ]

  -- The queue, active runs and attempts choose the reason alone: the state, what Kuma is told, the
  -- occurrence, its deadline and the last success do not depend on them.
  pub project-verdict :
      (enabled : Bool) (now : Instant) (e e' : Evidence)
      → verdict (project cal croniter cron enabled now clock epoch last_success durations e)
        ≡ verdict (project cal croniter cron enabled now clock epoch last_success durations e')
  unfolding project
  project-verdict false now e e' = refl
  project-verdict true now e e' = elim (Bool-cases (cal.parses cron)) [
    | inr invalid ↦ rw (invalid, project) refl
    | inl valid ↦
        rw (valid, project)
          (first-verdict now (next_occurrence cal cron (covered_until epoch last_success)) e e')
  ]

  -- The earliest occurrence that no success covers.
  abbrev pub Uncovered : Instant → Type 0
  Uncovered first = next_occurrence cal cron (covered_until epoch last_success) ≡ some first

  abbrev pub NothingOwed : Instant → Type 0
  NothingOwed now =
      (cal.parses cron ≡ true)
      × ((next_occurrence cal cron (covered_until epoch last_success) ≡ none)
          ⊎ ((first : Instant) × Uncovered first × (now < first)))

  -- What each state rests on.
  abbrev pub Justified : Bool → Instant → State → Type 0
  Justified enabled now State.disabled = enabled ≡ false
  Justified enabled now State.stale =
      (enabled ≡ true)
      × ((cal.parses cron ≡ false)
          ⊎ ((cal.parses cron ≡ true)
              × (first : Instant) × Uncovered first
              × (first ≤ now)
              × (deadline_of cal croniter cron first durations clock < now)))
  Justified enabled now State.delayed =
      (enabled ≡ true)
      × (cal.parses cron ≡ true)
      × ((first : Instant) × Uncovered first
          × (first ≤ now)
          × (now ≤ deadline_of cal croniter cron first durations clock))
  Justified enabled now State.fresh =
      (enabled ≡ true)
      × ((success : SuccessInfo) × (last_success ≡ some success) × (epoch ≤ success.started_at))
      × NothingOwed now
  Justified enabled now State.not_yet_due =
      (enabled ≡ true)
      × ((last_success ≡ none)
          ⊎ ((success : SuccessInfo) × (last_success ≡ some success)
              × (success.started_at < epoch)))
      × NothingOwed now

  not_owed-Justified :
      (now : Instant) (first : Option Instant) (o : Option SuccessInfo)
      → last_success ≡ o
      → NothingOwed now
      → Justified true now (not_owed epoch first o).state
  unfolding not_owed
  not_owed-Justified now first none e nothing = (refl, inl e, nothing)
  not_owed-Justified now first (some success) e nothing =
      if_cases (λ (f : Freshness). Justified true now f.state) (ltb success.started_at epoch)
        (λ before. (refl, inr (success, e, ground arith), nothing))
        (λ after. (refl, (success, e, ground arith), nothing))

  first-Justified :
      (now : Instant) (e : Evidence) (first : Option Instant)
      → cal.parses cron ≡ true
      → next_occurrence cal cron (covered_until epoch last_success) ≡ first
      → Justified true now
          (project_first cal croniter cron now clock epoch last_success durations e first).state
  unfolding project_first owed
  first-Justified now e none valid h = not_owed-Justified now none last_success refl (valid, inl h)
  first-Justified now e (some first) valid h =
      if_cases (λ (f : Freshness). Justified true now f.state) (ltb now first)
        (λ before.
          not_owed-Justified now (some first) last_success refl
            (valid, inr (first, h, ground arith)))
        (λ after.
          if_cases (λ (f : Freshness). Justified true now f.state)
            (leb now (deadline_of cal croniter cron first durations clock))
            (λ early. (refl, valid, (first, h, ground arith, ground arith)))
            (λ late. (refl, inr (valid, first, h, ground arith, ground arith))))

  -- The state is what the schedule, the occurrences, the successes and the deadline make it. A task is
  -- disabled, or its schedule does not parse and it is stale, or its schedule parses: then it is stale
  -- with an uncovered occurrence whose deadline has passed, delayed with one whose deadline has not, and
  -- fresh or not yet due with none up to now, fresh if it has a success under this schedule.
  pub project-Justified :
      (enabled : Bool) (now : Instant) (e : Evidence)
      → Justified enabled now
          (project cal croniter cron enabled now clock epoch last_success durations e).state
  unfolding project
  project-Justified false now e = refl
  project-Justified true now e =
      if_cases (λ (f : Freshness). Justified true now f.state) (not (cal.parses cron))
        (λ invalid. (refl, inl (ground arith)))
        (λ valid.
          first-Justified now e (next_occurrence cal cron (covered_until epoch last_success))
            (ground arith) refl)

  not_owed-current :
      (first : Option Instant) (o : Option SuccessInfo)
      → (not_owed epoch first o).state ≡ State.stale
      → ⊥
  unfolding not_owed
  not_owed-current first none h = cc
  not_owed-current first (some success) h = ground arith

  deadline-clock :
      (first clock' : Instant)
      → cadence_seconds croniter cron clock' ≡ cadence_seconds croniter cron clock
      → deadline_of cal croniter cron first durations clock'
        ≡ deadline_of cal croniter cron first durations clock
  unfolding deadline_of
  deadline-clock first clock' same = cc

  -- At a later instant, by a clock at which the cadence is the same.
  first-later :
      (now later clock' : Instant) (e e' : Evidence) (first : Option Instant)
      → now ≤ later
      → cadence_seconds croniter cron clock' ≡ cadence_seconds croniter cron clock
      → (project_first cal croniter cron now clock epoch last_success durations e first).state
        ≡ State.stale
      → (project_first cal croniter cron later clock' epoch last_success durations e' first).state
        ≡ State.stale
  unfolding project_first owed
  first-later now later clock' e e' none le same h = absurd (not_owed-current none last_success h)
  first-later now later clock' e e' (some first) le same h = elim (Bool-cases (ltb now first)) [
    | inl before ↦ absurd (not_owed-current (some first) last_success (ground arith))
    | inr after ↦
        elim (Bool-cases (leb now (deadline_of cal croniter cron first durations clock))) [
          | inl early ↦ ground arith
          | inr late ↦ ground (arith, deadline-clock first clock' same)
        ]
  ]

  -- A stale backup is stale at every later instant too, whatever is queued, running or tried, while its
  -- successes and its schedule stay the same and the cadence that is measured is the same as before.
  pub project_stale :
      (enabled : Bool) (now later clock' : Instant) (e e' : Evidence)
      → now ≤ later
      → cadence_seconds croniter cron clock' ≡ cadence_seconds croniter cron clock
      → (project cal croniter cron enabled now clock epoch last_success durations e).state
        ≡ State.stale
      → (project cal croniter cron enabled later clock' epoch last_success durations e').state
        ≡ State.stale
  unfolding project
  project_stale false now later clock' e e' le measured h = cc
  project_stale true now later clock' e e' le measured h = elim (Bool-cases (cal.parses cron)) [
    | inr invalid ↦ rw (invalid, project) refl
    | inl valid ↦
        rw (valid, project)
          (first-later now later clock' e e'
            (next_occurrence cal cron (covered_until epoch last_success)) le measured
            (ground arith))
  ]
