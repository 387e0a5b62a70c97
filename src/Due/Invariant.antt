-- ===== src/Due/Invariant.antt =====
-- The invariant of an obligation, and the operations on one.
use pullbackup.Base.{
  ℕ, ◌≤◌, ◌≡◌, ◌≢◌, ◌&&◌, ◌⊎◌, inl, inr, refl, String, true, Option, none, some, arith, is_some,
  is_none, All, Bool-cases, Option-cases, List, [], ◌∷◌,
}
use pullbackup.Models.{Instant, RunState, Run, Task, Status, TaskDue, Db}
use pullbackup.Due.Rows.{
  finish, requeue, block, charge_retry, after_failure, outcome, apply_run_outcome,
}
use pullbackup.Due.Settle.{
  get_task, set_newer, note_behind_active, note_occurrence_during_run, settle_owed,
  settle_dispatched, settle_row, cons_kept, settle_rows, active_run_started_at, paid_by, run_of,
  follow_up_after,
}
use pullbackup.Due.Reconcile.{new_due, block_cron, fold_into}

-- A dispatched obligation names its run. A retry is timed, and nothing else is. Five retries are the
-- budget: only an obligation that is exhausted, or was when it was blocked, has six failures.
pub record IsWellFormed (d : TaskDue) : Type 0 where
  pub owned : d.status ≡ Status.dispatched → is_some d.run_id ≡ true
  pub timed : d.status ≡ Status.retry → is_some d.retry_at ≡ true
  pub untimed : is_some d.retry_at ≡ true → d.status ≡ Status.retry
  pub counted : d.status ≡ Status.retry → 1 ≤ d.attempts
  pub budget : d.attempts ≤ 6
  pub spent : d.attempts ≡ 6 → (d.status ≡ Status.exhausted) ⊎ (d.status ≡ Status.blocked)

abbrev pub Keeps : Option TaskDue → Type 0
Keeps none = Unit {0}
Keeps (some d) = IsWellFormed d

pub new_due-IsWellFormed : (id : ℕ) (at now : Instant) → IsWellFormed (new_due id at now)
new_due-IsWellFormed id at now = ground arith

finish-Keeps :
    (d : TaskDue) (follow_up : Option Instant) (now : Instant) → Keeps (finish d follow_up now)
unfolding finish
finish-Keeps d none now = tt
finish-Keeps d (some at) now = ground arith

after_failure-IsWellFormed :
    (d : TaskDue) (message : String) (now : Instant)
    → IsWellFormed d
    → d.status ≡ Status.dispatched
    → IsWellFormed (after_failure d message now)
unfolding after_failure requeue block charge_retry
after_failure-IsWellFormed d message now v e = ground arith

outcome-Keeps :
    (s : RunState) (d : TaskDue) (message : String) (now : Instant)
    → IsWellFormed d
    → d.status ≡ Status.dispatched
    → Keeps (outcome s d message now)
unfolding outcome
outcome-Keeps RunState.pending d message now v e = v
outcome-Keeps RunState.running d message now v e = v
outcome-Keeps RunState.success d message now v e = finish-Keeps d d.newer_due_at now
outcome-Keeps RunState.cancelled d message now v e = tt
outcome-Keeps RunState.failed d message now v e = after_failure-IsWellFormed d message now v e

-- The outcome of a run settles a dispatched obligation.
pub apply_run_outcome-Keeps :
    (d : TaskDue) (run : Run) (now : Instant)
    → IsWellFormed d
    → d.status ≡ Status.dispatched
    → Keeps (apply_run_outcome d run now)
unfolding apply_run_outcome
apply_run_outcome-Keeps d run now = outcome-Keeps run.state d run.error_message now

settle_owed-Keeps :
    (db : Db) (d : TaskDue) (now : Instant)
    → IsWellFormed d
    → d.status ≢ Status.dispatched
    → Keeps (settle_owed db d now)
unfolding settle_owed
settle_owed-Keeps db d now v e = elim (Option-cases (paid_by db d)) [
  | inr (run, paid) ↦
      rw (paid, settle_owed) (finish-Keeps d (follow_up_after d.newer_due_at run.started_at) now)
  | inl unpaid ↦
      rw (unpaid, settle_owed)
        (elim (Bool-cases
          (is_some d.newer_due_at && is_none (active_run_started_at db d.task_id))) [
            | inl stale ↦ rw stale (ground arith)
            | inr held ↦ rw held v
          ])
]

settle_dispatched-Keeps :
    (db : Db) (d : TaskDue) (now : Instant)
    → IsWellFormed d
    → d.status ≡ Status.dispatched
    → Keeps (settle_dispatched db d now)
unfolding settle_dispatched
settle_dispatched-Keeps db d now v e = elim (Option-cases (run_of db d.run_id)) [
  | inl lost ↦ rw (lost, settle_dispatched) (ground arith)
  | inr (run, found) ↦ rw (found, settle_dispatched) (apply_run_outcome-Keeps d run now v e)
]

pub settle_row-Keeps :
    (db : Db) (d : TaskDue) (now : Instant) → IsWellFormed d → Keeps (settle_row db d now)
unfolding settle_row
settle_row-Keeps db d now v = elim (Bool-cases (is_none (get_task db d.task_id))) [
  | inl gone ↦ rw gone tt
  | inr known ↦ rw known (go d.status refl)
]
  where
    go :
        (s : Status)
        → d.status ≡ s
        → Keeps (elim s [
          | Status.dispatched ↦ settle_dispatched db d now
          | Status.blocked ↦ some d
          | _ ↦ settle_owed db d now
        ])
    go Status.dispatched e = settle_dispatched-Keeps db d now v e
    go Status.blocked e = v
    go Status.due e = settle_owed-Keeps db d now v (ground arith)
    go Status.retry e = settle_owed-Keeps db d now v (ground arith)
    go Status.exhausted e = settle_owed-Keeps db d now v (ground arith)

cons_kept-IsWellFormed :
    (o : Option TaskDue) (ds : List TaskDue)
    → Keeps o
    → All IsWellFormed ds
    → All IsWellFormed (cons_kept o ds)
cons_kept-IsWellFormed none ds k vs = vs
cons_kept-IsWellFormed (some d) ds k vs = (k, vs)

pub settle_rows-IsWellFormed :
    (db : Db) (now : Instant) (ds : List TaskDue)
    → All IsWellFormed ds
    → All IsWellFormed (settle_rows db now ds)
unfolding settle_rows
settle_rows-IsWellFormed db now [] v = tt
settle_rows-IsWellFormed db now (d ∷ ds) (v, vs) =
    cons_kept-IsWellFormed (settle_row db d now) (settle_rows db now ds)
      (settle_row-Keeps db d now v) (settle_rows-IsWellFormed db now ds vs)

pub block_cron-IsWellFormed :
    (task : Task) (d : TaskDue) (now : Instant)
    → IsWellFormed d
    → IsWellFormed (block_cron task d now)
unfolding block_cron
block_cron-IsWellFormed task d now v = ground arith

set_newer-IsWellFormed :
    (d : TaskDue) (at : Instant) → IsWellFormed d → IsWellFormed (set_newer d at)
set_newer-IsWellFormed d at v = ground arith

pub note-IsWellFormed :
    (db : Db) (d : TaskDue) (at : Instant) (newest : Option Instant)
    → IsWellFormed d
    → IsWellFormed (note_occurrence_during_run db d at newest).0
unfolding note_occurrence_during_run note_behind_active
note-IsWellFormed db d at newest v = ground (arith, set_newer-IsWellFormed d at v)

pub fold_into-IsWellFormed :
    (db : Db) (d : TaskDue) (first latest now : Instant)
    → IsWellFormed d
    → IsWellFormed (fold_into db d first latest now)
unfolding fold_into
fold_into-IsWellFormed db d first latest now v =
    ground (arith, note-IsWellFormed db d first (some latest) v)
