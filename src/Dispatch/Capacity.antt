-- ===== src/Dispatch/Capacity.antt =====
-- The number of active runs over a pass of services/dispatcher.py.
use pullbackup.Base.{
  ℕ, ◌+◌, ◌≡◌, ◌≤◌, refl, sym, ap, ◌∙◌, subst, true, false, List, [], ◌∷◌, ◌++◌, Option, none, leb,
  if_cases, keep, length, max2, arith, Option-cases, inl, inr,
}
use pullbackup.Models.{Instant, Task, Run, TaskDue, Db, WaitReason, is_active}
use pullbackup.Destination.{Parts}
use pullbackup.Due.Settle.{get_task, settle_all}
use pullbackup.Dispatch.{
  Environment, Pass, pending_run, next_run_id, new_pending_run, hold_task, hold_runs, first_pass,
  reason_to_wait, wait_row, start_row, dispatch_row, dispatch_rows, dispatch_due, order_by_due,
  differs,
}
use pullbackup.Dispatch.Step.{dispatch_row-cases, dispatch_rows-preserve}

-- How many runs are active.
abbrev pub active_count : List Run → ℕ
active_count runs = length (keep (λ (r : Run). is_active r.state) runs)

active_count-snoc :
    (runs : List Run) (run : Run)
    → is_active run.state ≡ true
    → active_count (runs ++ run ∷ []) ≡ active_count runs + 1
active_count-snoc [] run on = ground arith
active_count-snoc (r ∷ runs) run on = ground (arith, active_count-snoc runs run on)

module _ (env : Environment) where
  pub hold_runs-count :
      (db : Db) (runs : List Run) (p : Pass)
      → ((hold_runs env db runs p).count ≡ p.count) × ((hold_runs env db runs p).db ≡ p.db)
  unfolding hold_runs hold_task
  hold_runs-count db [] p = (refl, refl)
  hold_runs-count db (run ∷ runs) p = elim (Option-cases (get_task db run.task_id)) [
    | inl e ↦ rw (e, hold_task) (hold_runs-count db runs p)
    | inr (task, e) ↦ rw (e, hold_task) (hold_runs-count db runs p)
  ]

  module _ (before : ℕ) where
    -- The count is the number of active runs, and within the limit unless it was beyond it before.
    abbrev Bounded : Pass → Type 0
    Bounded p = (p.count ≡ active_count p.db.runs) × (p.count ≤ max2 env.max_concurrent_runs before)

    free_slot :
        (p : Pass) (task : Task) (key : Option Parts)
        → reason_to_wait env p task key ≡ none
        → leb env.max_concurrent_runs p.count ≡ false
    unfolding reason_to_wait
    free_slot p task key free = ground arith

    start_row-Bounded :
        (p : Pass) (row : TaskDue) (task : Task) (key : Option Parts) (now : Instant)
        → reason_to_wait env p task key ≡ none
        → Bounded p
        → Bounded (start_row p row task key now)
    unfolding start_row new_pending_run
    start_row-Bounded p row task key now free (e, le) =
        let slot = free_slot p task key free in
        (
          omega (
            arith,
            active_count-snoc p.db.runs (pending_run (next_run_id p.db.runs) task.id now) refl,
            e,
          ),
          ground arith,
        )

    wait_row-Bounded :
        (p : Pass) (row : TaskDue) (task : Task) (key : Option Parts) (reason : WaitReason)
        (now : Instant)
        → Bounded p
        → Bounded (wait_row p row task key reason now)
    unfolding wait_row
    wait_row-Bounded p row task key reason now bounded =
        if_cases
          (λ (db : Db).
            (p.count ≡ active_count db.runs) × (p.count ≤ max2 env.max_concurrent_runs before))
          (differs row.wait_reason reason) (λ _. bounded) (λ _. bounded)

    dispatch_row-Bounded :
        (now : Instant) (p : Pass) (row : TaskDue)
        → Bounded p
        → Bounded (dispatch_row env p row now)
    dispatch_row-Bounded now p row bounded =
        dispatch_row-cases env Bounded p row now bounded bounded
          (λ task source reason _. wait_row-Bounded p row task _ reason now bounded)
          (λ task source s. start_row-Bounded p row task _ now s.free bounded)

  first_pass-Bounded : (db : Db) → Bounded (active_count db.runs) (first_pass env db)
  unfolding first_pass
  first_pass-Bounded db =
      let active = keep (λ (r : Run). is_active r.state) db.runs in
      let (c, d) = hold_runs-count db active _ in
      (c ∙ ap (λ (x : Db). active_count x.runs) (sym d), ground (arith, c))

  pub settle_all-runs : (db : Db) (now : Instant) → (settle_all db now).runs ≡ db.runs
  unfolding settle_all
  settle_all-runs db now = refl

  -- A pass leaves no more active runs than the limit, or than there were before if those were more.
  pub dispatch_due-limit :
      (db : Db) (now : Instant)
      → active_count (dispatch_due env db now).db.runs
        ≤ max2 env.max_concurrent_runs (active_count db.runs)
  unfolding dispatch_due
  dispatch_due-limit db now =
      let settled = settle_all db now in
      let (e, le) =
        dispatch_rows-preserve env (Bounded (active_count settled.runs)) now
          (dispatch_row-Bounded (active_count settled.runs) now) (first_pass env settled)
          (order_by_due settled.dues) (first_pass-Bounded settled) in
      subst
        (λ runs.
          active_count
            (dispatch_rows env (first_pass env settled) (order_by_due settled.dues) now).db.runs
          ≤ max2 env.max_concurrent_runs (active_count runs))
        (settle_all-runs db now) (omega (arith, e, le))
