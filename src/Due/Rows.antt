-- ===== src/Due/Rows.antt =====
-- One obligation and the outcome of its run: `backoff_seconds`, `apply_run_outcome` and `_finish` of
-- backend/pullbackup/services/due.py. A row that the code deletes is `none`.
use pullbackup.Base.{
  ℕ, ◌+◌, ◌-◌, ◌*◌, ◌^◌, String, Bool, List, [], ◌∷◌, Option, none, some, ltb, min2, any,
  if◌then◌else◌,
}
use pullbackup.Base.Text.{starts_with, contains, truncate}
use pullbackup.Models.{Instant, seconds, RunState, Run, Status, TaskDue}

abbrev pub backoff_initial_seconds : ℕ
backoff_initial_seconds = 60

abbrev pub backoff_ceiling_seconds : ℕ
backoff_ceiling_seconds = 3600

abbrev pub max_automatic_retries : ℕ
max_automatic_retries = 5

unfoldable pub backoff_seconds : ℕ → ℕ
backoff_seconds retry_number =
    min2 (backoff_initial_seconds * 2 ^ (retry_number - 1)) backoff_ceiling_seconds

-- `_INFRASTRUCTURE_FAILURES`
infrastructure_failures : List String
infrastructure_failures =
    "interrupted by application restart" ∷ "run reclaimed by the watchdog" ∷ "run cancelled" ∷ []

-- `_PERMANENT_FAILURES`
permanent_failures : List String
permanent_failures = "run owner failed: PathNotAllowed" ∷ "run owner failed: ValueError" ∷ []

unfoldable pub is_infrastructure : String → Bool
unfolding infrastructure_failures starts_with
is_infrastructure message = any (starts_with message) infrastructure_failures

unfoldable pub is_permanent : String → Bool
unfolding permanent_failures contains
is_permanent message = any (λ marker. contains marker message) permanent_failures

-- `_finish`: the obligation is paid, and a follow-up becomes the next one.
abbrev pub finished : TaskDue → Instant → Instant → TaskDue
finished row follow_up now = record row {
  due_at = follow_up;
  newer_due_at = none;
  status = Status.due;
  attempts = 0;
  retry_at = none;
  run_id = none;
  wait_reason = none;
  last_error = "";
  updated_at = now;
}

unfoldable pub finish : TaskDue → Option Instant → Instant → Option TaskDue
finish row none now = none
finish row (some follow_up) now = some (finished row follow_up now)

-- The branches of `apply_run_outcome` for a failed run.
unfoldable pub requeue : TaskDue → Instant → TaskDue
requeue row now = record row {
  status = Status.due;
  run_id = none;
  wait_reason = none;
  retry_at = none;
  updated_at = now;
}

unfoldable pub block : TaskDue → String → Instant → TaskDue
block row message now = record row {
  status = Status.blocked;
  run_id = none;
  wait_reason = none;
  retry_at = none;
  last_error = truncate 500 message;
  updated_at = now;
}

unfoldable pub charge_retry : TaskDue → String → Instant → TaskDue
charge_retry row message now =
    let attempts = row.attempts + 1 in
    if ltb max_automatic_retries attempts
    then charged attempts Status.exhausted none
    else charged attempts Status.retry (some (now + seconds (backoff_seconds attempts)))
  where
    charged : ℕ → Status → Option Instant → TaskDue
    charged attempts status retry_at = record row {
      attempts = attempts;
      last_error = truncate 500 message;
      run_id = none;
      wait_reason = none;
      status = status;
      retry_at = retry_at;
      updated_at = now;
    }

unfoldable pub after_failure : TaskDue → String → Instant → TaskDue
after_failure row message now =
    if is_infrastructure message
    then requeue row now
    else if is_permanent message
    then block row message now
    else charge_retry row message now

unfoldable pub outcome : RunState → TaskDue → String → Instant → Option TaskDue
outcome RunState.pending row message now = some row
outcome RunState.running row message now = some row
outcome RunState.success row message now = finish row row.newer_due_at now
outcome RunState.cancelled row message now = none
outcome RunState.failed row message now = some (after_failure row message now)

unfoldable pub apply_run_outcome : TaskDue → Run → Instant → Option TaskDue
apply_run_outcome row run now = outcome run.state row run.error_message now
