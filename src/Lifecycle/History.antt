-- ===== src/Lifecycle/History.antt =====
-- What the steps of services/runner.py and services/dispatcher.py leave of the run table.
pub mod Steps
use pullbackup.Base.{
  ℕ, ◌+◌, ◌≡◌, ◌≢◌, refl, sym, ap, ◌∙◌, subst, String, Bool, true, false, not, ◌&&◌, List, [], ◌∷◌,
  ◌++◌, Option, none, some, any, ltb, leb, ◌==◌, nat_comparable, if◌then◌else◌, if_cases, keep,
  arith, Bool-cases, Option-cases, inl, inr, ◌⊎◌,
}
use pullbackup.Models.{
  Instant, RunState, Run, Task, TaskDue, Db, WaitReason, find_by, find_by-key, find_by-put_by,
  put_by, is_active,
}
use pullbackup.Destination.{Parts}
use pullbackup.Due.Settle.{get_task, get_run, settle_all}
use pullbackup.Dispatch.{
  Environment, Pass, new_pending_run, start_row, wait_row, dispatch_row, dispatch_rows,
  dispatch_due, first_pass, order_by_due, differs,
}
use pullbackup.Dispatch.Capacity.{hold_runs-count, settle_all-runs}
use pullbackup.Dispatch.Step.{Starts, dispatch_row-cases, dispatch_rows-preserve}
use pullbackup.Lifecycle.{
  Owner, put_run, is_owned, Admission, accepted, task_active, source_active, runs_for_source,
  admit_run, interrupted, is_orphan, reclaim, sweep_orphaned_runs, cancel_was_requested,
  terminalize_owned_run, claim_run, Ended, final_run, find_owed, settle_outcome, finish_run,
}

-- The run of that identifier, in a run table.
abbrev pub run_at : ℕ → List Run → Option Run
run_at id runs = find_by (λ (r : Run). r.id) id runs

-- Every run of the first table is in the second.
abbrev pub Extends : List Run → List Run → Type 0
Extends runs later = (id : ℕ) (r : Run) → run_at id runs ≡ some r → run_at id later ≡ some r

snoc-Extends : (runs : List Run) (run : Run) → Extends runs (runs ++ run ∷ [])
unfolding find_by
snoc-Extends [] run id r h = cc
snoc-Extends (x ∷ runs) run id r h = ground (arith, snoc-Extends runs run id r)

module _ (env : Environment) (before : List Run) where
  dispatch_row-Extends :
      (now : Instant) (p : Pass) (row : TaskDue)
      → Extends before p.db.runs
      → Extends before (dispatch_row env p row now).db.runs
  unfolding start_row wait_row new_pending_run
  dispatch_row-Extends now p row h =
      dispatch_row-cases env (λ (q : Pass). Extends before q.db.runs) p row now h h
        (λ task source reason _.
          if_cases (λ (db : Db). Extends before db.runs) (differs row.wait_reason reason) (λ _. h)
            (λ _. h))
        (λ task source s id r e. snoc-Extends p.db.runs _ id r (h id r e))

pub dispatch_due-Extends :
    (env : Environment) (db : Db) (now : Instant)
    → Extends db.runs (dispatch_due env db now).db.runs
unfolding dispatch_due first_pass settle_all
dispatch_due-Extends env db now =
    let settled = settle_all db now in
    dispatch_rows-preserve env (λ (q : Pass). Extends db.runs q.db.runs) now
      (dispatch_row-Extends env db.runs now) (first_pass env settled) (order_by_due settled.dues)
      (subst (λ (d : Db). Extends db.runs d.runs) (sym (hold_runs-count env settled _ _).1)
        (λ id r e. e))

choose-Extends :
    (runs : List Run) (b c : Bool) (x y z : Db × Admission)
    → Extends runs x.0.runs
    → Extends runs y.0.runs
    → Extends runs z.0.runs
    → Extends runs (if b then x else if c then y else z).0.runs
choose-Extends runs true c x y z p q r = p
choose-Extends runs false true x y z p q r = q
choose-Extends runs false false x y z p q r = r

pub admit_run-Extends :
    (db : Db) (task_id : ℕ) (now : Instant) → Extends db.runs (admit_run db task_id now).0.runs
unfolding admit_run new_pending_run
admit_run-Extends db task_id now = elim (Option-cases (get_task db task_id)) [
  | inl e ↦ rw (e, admit_run) (λ id r h. h)
  | inr (task, e) ↦
      rw (e, admit_run)
        (choose-Extends db.runs
          (any (λ (r : Run). r.task_id == task.id && is_active r.state) db.runs)
          (any (runs_for_source db task.source_id) db.runs) (db, task_active) (db, source_active)
          ((new_pending_run db task now).0, accepted (new_pending_run db task now).1.id)
          (λ id r h. h) (λ id r h. h) (snoc-Extends db.runs _))
]

abbrev pub active_state : Option Run → Bool
active_state none = false
active_state (some r) = is_active r.state

-- The run is there and active.
abbrev pub active_at : ℕ → List Run → Bool
active_at id runs = active_state (run_at id runs)

-- A step on the run table: what is over stays, and the other runs that are active, but one, stay active.
pub record Moves (but : Option ℕ) (runs later : List Run) : Type 0 where
  pub over :
      (id : ℕ) (r : Run)
      → run_at id runs ≡ some r
      → is_active r.state ≡ false
      → run_at id later ≡ some r
  pub alive : (id : ℕ) → but ≢ some id → active_at id runs ≡ true → active_at id later ≡ true

pub Extends-Moves : (runs later : List Run) → Extends runs later → Moves none runs later
Extends-Moves runs later h = record {
  over = λ id r e _. h id r e;
  alive = λ id _ on. elim (Option-cases (run_at id runs)) [
    | inl e ↦ ground arith
    | inr (r, e) ↦ ground (arith, h id r e)
  ];
}

one_state :
    (runs : List Run) (run r : Run) (id : ℕ)
    → run_at run.id runs ≡ some run
    → is_active run.state ≡ true
    → run.id ≡ id
    → run_at id runs ≡ some r
    → is_active r.state ≡ false
    → ⊥
one_state runs run r id found on same e off =
    let there : run_at id runs ≡ some run = subst (λ k. run_at k runs ≡ some run) same found in
    let both : some run ≡ some r = sym there ∙ e in cc

skip_over :
    (id : ℕ) (after : Run) (runs : List Run)
    → (after.id == id) ≡ false
    → (if after.id == id then some after else run_at id runs) ≡ run_at id runs
skip_over id after runs miss = rw miss refl

-- Writing over an active run.
put_run-Moves :
    (runs : List Run) (run after : Run)
    → run_at run.id runs ≡ some run
    → is_active run.state ≡ true
    → after.id ≡ run.id
    → Moves (some run.id) runs (put_by (λ (r : Run). r.id) after runs)
put_run-Moves runs run after found on same = record {
  over = λ id r e off.
      find_by-put_by (λ (r : Run). r.id) id after runs ∙ elim (Bool-cases (after.id == id)) [
        | inl hit ↦ absurd (one_state runs run r id found on (ground arith) e off)
        | inr miss ↦ rw miss e
      ];
  alive = λ id other live. elim (Bool-cases (after.id == id)) [
    | inl hit ↦ absurd (other (ap some (ground arith)))
    | inr miss ↦
        ap active_state
          (find_by-put_by (λ (r : Run). r.id) id after runs ∙ skip_over id after runs miss)
        ∙ live
  ];
}
