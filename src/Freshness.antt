-- ===== src/Freshness.antt =====
-- backend/pullbackup/services/freshness.py: whether the newest successful backup is recent enough. The
-- floating point of the grace is exact here: spans are in microseconds, and `int` rounds down.
pub mod Load
pub mod Grace
pub mod Project
mod Examples
use pullbackup.Base.{
  ℕ, zero, suc, ◌+◌, ◌-◌, ◌*◌, ◌/◌, String, Bool, true, false, not, ◌&&◌, ◌||◌, List, [], ◌∷◌,
  Option, none, some, ltb, leb, if◌then◌else◌, min2, max2, keep, is_none, is_some, or_else, take,
  ◌==◌, nat_comparable, any,
}
use pullbackup.Models.{
  Instant, seconds, RunState, Run, Status, Task, TaskDue, Db, is_active, is_success, latest,
}
use pullbackup.Schedule.{Calendar, next_occurrence}
use pullbackup.Cadence.{Croniter, cadence_seconds}
use pullbackup.Due.Settle.{get_due}
use pullbackup.Due.Reconcile.{tick_early_tolerance}

pub data State : Type 0 where
  fresh not_yet_due delayed stale disabled : State

-- What Kuma is told.
pub data KumaStatus : Type 0 where
  up down : KumaStatus

pub data Reason : Type 0 where
  disabled_ invalid_schedule no_history schedule_changed covered never_succeeded missed
        awaiting_start queued running retrying retries_exhausted blocked last_attempt_failed
        last_attempt_cancelled :
      Reason

-- `KUMA_STATUS`
unfoldable pub kuma_status_of : State → Option KumaStatus
kuma_status_of State.fresh = some up
kuma_status_of State.not_yet_due = none
kuma_status_of State.delayed = none
kuma_status_of State.stale = some down
kuma_status_of State.disabled = none

pub record SuccessInfo : Type 0 where
  pub run_id : ℕ
  pub started_at : Instant
  pub finished_at : Instant

pub record Freshness : Type 0 where
  pub state : State
  pub reason : Reason
  pub kuma_status : Option KumaStatus
  pub occurrence_at : Option Instant
  pub deadline_at : Option Instant
  pub last_success : Option SuccessInfo

-- `_slack`, of a gap in microseconds.
unfoldable pub slack : ℕ → ℕ
slack gap = min2 (max2 (gap / 10) (seconds 600)) (seconds 7200)

unfoldable pub longest_sample : List ℕ → ℕ
longest_sample [] = 0
longest_sample (d ∷ samples) = max2 d (longest_sample samples)

-- One and a half times the longest success, and never more than half a cycle.
unfoldable pub allowance : ℕ → List ℕ → ℕ
unfolding longest_sample
allowance gap durations = elim (keep (λ d. ltb 0 d) durations) [
  | [] ↦ gap / 2
  | d ∷ samples ↦ min2 (3 * longest_sample (d ∷ samples) / 2) (gap / 2)
]

-- `grace_seconds`, in seconds.
unfoldable pub grace_seconds : ℕ → List ℕ → ℕ
unfolding slack allowance
grace_seconds gap durations = (slack gap + allowance gap durations) / seconds 1

-- `KUMA_DST_MARGIN_SECONDS`
abbrev pub kuma_dst_margin_seconds : ℕ
kuma_dst_margin_seconds = 3600

unfoldable pub kuma_expiry_seconds : Croniter → String → Instant → ℕ
unfolding slack
kuma_expiry_seconds croniter cron clock =
    let gap = seconds (cadence_seconds croniter cron clock) in
    (gap + slack gap + gap / 2 + seconds kuma_dst_margin_seconds) / seconds 1

-- What is known of the queue and of attempts: it explains, and decides nothing.
pub record Evidence : Type 0 where
  pub due_status : Option Status
  pub active_run : Bool
  pub latest_attempt : Option (RunState × Instant)

-- The last part of `_owed_reason`.
unfoldable pub attempt_reason : Option (RunState × Instant) → Instant → Reason → Reason
attempt_reason none occurrence default = default
attempt_reason (some (state, started_at)) occurrence default =
    let recent = leb occurrence (started_at + tick_early_tolerance) in
    elim state [
      | RunState.failed ↦ if recent then last_attempt_failed else default
      | RunState.cancelled ↦ if recent then last_attempt_cancelled else default
      | _ ↦ default
    ]

unfoldable pub owed_reason : Instant → Evidence → Reason → Reason
unfolding attempt_reason
owed_reason occurrence e default = elim e.due_status [
  | none ↦ if e.active_run then running else attempt_reason e.latest_attempt occurrence default
  | some status ↦ elim status [
    | Status.blocked ↦ blocked
    | Status.exhausted ↦ retries_exhausted
    | Status.dispatched ↦ running
    | Status.retry ↦ if e.active_run then running else retrying
    | Status.due ↦ if e.active_run then running else queued
  ]
]

-- `reason in ("never_succeeded", "missed")` becomes "awaiting_start".
unfoldable pub before_deadline : Reason → Reason
before_deadline never_succeeded = awaiting_start
before_deadline missed = awaiting_start
before_deadline reason = reason

abbrev pub projection :
    State → Reason → Option Instant → Option Instant → Option SuccessInfo → Freshness
projection state reason occurrence deadline last_success = record {
  state = state;
  reason = reason;
  kuma_status = kuma_status_of state;
  occurrence_at = occurrence;
  deadline_at = deadline;
  last_success = last_success;
}

-- The instant after which an occurrence is not covered.
unfoldable pub covered_until : Instant → Option SuccessInfo → Instant
covered_until epoch none = epoch
covered_until epoch (some success) = max2 epoch (success.started_at + tick_early_tolerance)

-- With nothing owed.
unfoldable pub not_owed : Instant → Option Instant → Option SuccessInfo → Freshness
not_owed epoch first none = projection State.not_yet_due no_history none none none
not_owed epoch first (some success) =
    if ltb success.started_at epoch
    then projection State.not_yet_due schedule_changed none none (some success)
    else projection State.fresh covered first none (some success)

module _ (cal : Calendar) (croniter : Croniter) where
  -- The deadline of the occurrence that is owed.
  unfoldable pub deadline_of : String → Instant → List ℕ → Instant → Instant
  deadline_of cron first durations clock =
      let spacing : ℕ = elim (next_occurrence cal cron first) [
        | none ↦ 0
        | some following ↦ following - first
      ] in
      let gap = max2 spacing (seconds (cadence_seconds croniter cron clock)) in
      first + seconds (grace_seconds gap durations)

  -- With an occurrence owed.
  unfoldable pub owed : Instant → Instant → Instant → Option SuccessInfo → Evidence → Freshness
  owed now first deadline last_success e =
      let reason = owed_reason first e (if is_none last_success then never_succeeded else missed) in
      if leb now deadline
      then projection State.delayed (before_deadline reason) (some first) (some deadline)
          last_success
      else projection State.stale reason (some first) (some deadline) last_success

  -- From the earliest occurrence that is not covered.
  unfoldable pub project_first :
      String
      → Instant
      → Instant
      → Instant
      → Option SuccessInfo
      → List ℕ
      → Evidence
      → Option Instant
      → Freshness
  project_first cron now clock epoch last_success durations e none =
      not_owed epoch none last_success
  project_first cron now clock epoch last_success durations e (some first) =
      if ltb now first
      then not_owed epoch (some first) last_success
      else owed now first (deadline_of cron first durations clock) last_success e

  unfoldable pub project :
      String
      → Bool
      → Instant
      → Instant
      → Instant
      → Option SuccessInfo
      → List ℕ
      → Evidence
      → Freshness
  unfolding covered_until
  project cron enabled now clock epoch last_success durations e =
      if not enabled
      then projection State.disabled disabled_ none none last_success
      else if not (cal.parses cron)
      then projection State.stale invalid_schedule none none last_success
      else project_first cron now clock epoch last_success durations e
          (next_occurrence cal cron (covered_until epoch last_success))
