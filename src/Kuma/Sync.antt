-- ===== src/Kuma/Sync.antt =====
-- `sync_task` and `sweep` of backend/pullbackup/services/kuma_sync.py. The projection is that
-- of services/freshness.py; the three dictionaries of the module are its state.
pub mod Told
pub mod Debts
pub mod Failures
use pullbackup.Base.{
  ℕ, zero, suc, String, Bool, true, false, not, ◌&&◌, ◌||◌, List, [], ◌∷◌, ◌++◌, Option, none, some,
  ltb, leb, is_some, or_else, keep, ◌==◌, nat_comparable, text_comparable, if◌then◌else◌,
}
use mathlib.Core.List.{map}
use pullbackup.Base.Text.{◌+s◌}
use pullbackup.Base.Words.{decimal}
use pullbackup.Models.{Instant, Task, Db, find_by, put_by, delete_by}
use pullbackup.Schedule.{Calendar}
use pullbackup.Cadence.{Croniter}
use pullbackup.Due.Settle.{get_task}
use pullbackup.Freshness.{State, KumaStatus, Reason, SuccessInfo, Freshness}
use pullbackup.Freshness.Load.{project_task}
use pullbackup.Kuma.Push.{Failure, PushResult, safe_error}

unfoldable pub state_text : State → String
state_text State.fresh = "fresh"
state_text State.not_yet_due = "not_yet_due"
state_text State.delayed = "delayed"
state_text State.stale = "stale"
state_text State.disabled = "disabled"

unfoldable pub reason_text : Reason → String
reason_text Reason.disabled_ = "disabled"
reason_text Reason.invalid_schedule = "invalid_schedule"
reason_text Reason.no_history = "no_history"
reason_text Reason.schedule_changed = "schedule_changed"
reason_text Reason.covered = "covered"
reason_text Reason.never_succeeded = "never_succeeded"
reason_text Reason.missed = "missed"
reason_text Reason.awaiting_start = "awaiting_start"
reason_text Reason.queued = "queued"
reason_text Reason.running = "running"
reason_text Reason.retrying = "retrying"
reason_text Reason.retries_exhausted = "retries_exhausted"
reason_text Reason.blocked = "blocked"
reason_text Reason.last_attempt_failed = "last_attempt_failed"
reason_text Reason.last_attempt_cancelled = "last_attempt_cancelled"

pub record SyncOutcome : Type 0 where
  pub task_id : ℕ
  pub state : String
  pub reason : String
  pub status : Option KumaStatus
  pub pushed : Bool
  pub ok : Bool
  pub attempts : ℕ
  pub error : Option String
  pub at : Instant

-- The operations on a monitor that can be owed.
pub data Op : Type 0 where
  create interval active delete : Op

pub record SyncFailure : Type 0 where
  pub task_id : ℕ
  pub error : String

pub record Pending : Type 0 where
  pub task_id : ℕ
  pub ops : List Op

-- `_outcomes`, `_sync_failures` and `_pending_ops`
pub record Memory : Type 0 where
  pub outcomes : List SyncOutcome
  pub sync_failures : List SyncFailure
  pub pending : List Pending

abbrev pub record_outcome : Memory → SyncOutcome → Memory
record_outcome m o = record m { outcomes = put_by (λ (x : SyncOutcome). x.task_id) o m.outcomes }

unfoldable pub record_sync_failure : Memory → ℕ → Failure → List Op → Memory
unfolding put_by
record_sync_failure m task_id e ops = record m {
  sync_failures =
      put_by (λ (x : SyncFailure). x.task_id) (record { task_id = task_id; error = safe_error e })
        m.sync_failures;
  pending = put_by (λ (x : Pending). x.task_id) (record { task_id = task_id; ops = ops }) m.pending;
}

unfoldable pub pending_ops : Memory → ℕ → List Op
unfolding find_by
pending_ops m task_id = elim (find_by (λ (x : Pending). x.task_id) task_id m.pending) [
  | none ↦ []
  | some owed ↦ owed.ops
]

unfoldable pub clear_sync_failure : Memory → ℕ → Memory
unfolding delete_by
clear_sync_failure m task_id = record m {
  sync_failures = delete_by (λ (x : SyncFailure). x.task_id) task_id m.sync_failures;
  pending = delete_by (λ (x : Pending). x.task_id) task_id m.pending;
}

-- What a push answers, or the exception that it raises; the first argument is the task that it is for.
pub data Pushed : Type 0 where
  returned : PushResult → Pushed
  push_raised : Failure → Pushed

abbrev pub Push : Type 0
Push = ℕ → String → KumaStatus → String → Pushed

pub data Synced : Type 0 where
  nothing : Synced
  synced : SyncOutcome → Synced
  sync_raised : Failure → Synced

unfoldable pub message_for : (Instant → String) → Freshness → String
unfolding state_text reason_text
message_for isoformat f =
    let when : String = elim f.last_success [
      | none ↦ "never"
      | some success ↦ isoformat success.finished_at
    ] in
    let run : String = elim f.last_success [ none ↦ "-" | some success ↦ decimal success.run_id ] in
    state_text f.state
    +s ": "
    +s reason_text f.reason
    +s "; last success run "
    +s run
    +s " finished "
    +s when

-- `t.kuma_enabled and t.kuma_push_token`
unfoldable pub token_of : Task → Option String
token_of task =
    if task.kuma_enabled && not (or_else task.kuma_push_token "" == "")
    then task.kuma_push_token
    else none

unfoldable pub silent : ℕ → Freshness → Instant → SyncOutcome
silent task_id f at = record {
  task_id = task_id;
  state = state_text f.state;
  reason = reason_text f.reason;
  status = none;
  pushed = false;
  ok = true;
  attempts = 0;
  error = none;
  at = at;
}

unfoldable pub told : ℕ → Freshness → KumaStatus → PushResult → Instant → SyncOutcome
told task_id f status result at = record {
  task_id = task_id;
  state = state_text f.state;
  reason = reason_text f.reason;
  status = some status;
  pushed = true;
  ok = result.ok;
  attempts = result.attempts;
  error = result.error;
  at = at;
}

unfoldable pub unknown : ℕ → Failure → Instant → SyncOutcome
unknown task_id e at = record {
  task_id = task_id;
  state = "unknown";
  reason = "sweep_error";
  status = none;
  pushed = false;
  ok = false;
  attempts = 0;
  error = some (safe_error e);
  at = at;
}

module _ (isoformat : Instant → String) (push : Push) where
  -- The part of `sync_task` behind the projection.
  unfoldable pub tell : ℕ → String → Freshness → Instant → Synced
  unfolding silent told message_for
  tell task_id token f at = elim f.kuma_status [
    | none ↦ synced (silent task_id f at)
    | some status ↦ elim (push task_id token status (message_for isoformat f)) [
      | returned result ↦ synced (told task_id f status result at)
      | push_raised e ↦ sync_raised e
    ]
  ]

-- What `sync_task` and the handler of `sweep` write down.
unfoldable pub remember : Memory → Synced → Memory
unfolding put_by
remember m nothing = m
remember m (synced o) = record_outcome m o
remember m (sync_raised e) = m

-- One task of a sweep: an exception becomes an outcome too.
unfoldable pub caught : Instant → ℕ → Synced → Synced
unfolding unknown
caught now task_id nothing = nothing
caught now task_id (synced o) = synced o
caught now task_id (sync_raised e) = synced (unknown task_id e now)

unfoldable pub add_outcome : Synced → List SyncOutcome → List SyncOutcome
add_outcome (synced o) out = o ∷ out
add_outcome nothing out = out
add_outcome (sync_raised e) out = out

-- The tasks that a sweep visits.
unfoldable pub monitored : List Task → List ℕ
unfolding token_of
monitored tasks = map (λ (t : Task). t.id) (keep (λ (t : Task). is_some (token_of t)) tasks)

module _ (cal : Calendar) (croniter : Croniter) (isoformat : Instant → String) (push : Push)
    (db : Db) (now clock : Instant) where
  unfoldable pub sync_result : ℕ → Synced
  unfolding tell project_task token_of
  sync_result task_id = elim (get_task db task_id) [
    | none ↦ nothing
    | some task ↦ elim (token_of task) [
      | none ↦ nothing
      | some token ↦
          tell isoformat push task_id token (project_task cal croniter db task now clock) now
    ]
  ]

  unfoldable pub sync_task : ℕ → Memory → Memory × Synced
  unfolding sync_result remember
  sync_task task_id m = (remember m (sync_result task_id), sync_result task_id)

  unfoldable pub sweep_ids : List ℕ → Memory → Memory × List SyncOutcome
  unfolding caught add_outcome remember sync_result
  sweep_ids [] m = (m, [])
  sweep_ids (id ∷ ids) m =
      let result = caught now id (sync_result id) in
      let (after, out) = sweep_ids ids (remember m result) in (after, add_outcome result out)

  unfoldable pub sweep : Memory → Memory × List SyncOutcome
  unfolding sweep_ids monitored
  sweep m = sweep_ids (monitored db.tasks) m
