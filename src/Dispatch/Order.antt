-- ===== src/Dispatch/Order.antt =====
-- The order in which services/dispatcher.py walks the rows, and rows that wait.
use pullbackup.Base.{
  ℕ, ◌≡◌, ◌≤◌, refl, sym, ap, ◌∙◌, subst, Bool, true, false, not, ◌&&◌, List, [], ◌∷◌, ◌++◌, Option,
  none, some, leb, ◌==◌, nat_comparable, if_cases, keep, arith, Bool-cases, inl, inr, All,
}
use pullbackup.Models.{Instant, Source, Task, Run, TaskDue, Db, WaitReason}
use pullbackup.Destination.{Parts}
use pullbackup.Auth.Store.Sub.{All-map}
use pullbackup.Due.Settle.{get_task}
use pullbackup.Dispatch.{
  Environment, Pass, get_source, member, pending_run, next_run_id, new_pending_run, exclusion_key,
  reason_to_wait, wait_row, start_row, admit_row, admit_owned, dispatch_row, dispatch_rows,
  insert_due, order_by_due, is_startable, is_dispatched_row, differs,
}
use pullbackup.Dispatch.Step.{get_task-id, Starts, dispatch_row-cases, dispatch_rows-preserve}

-- No row stands behind one that is due later.
abbrev pub IsOldestFirst : List TaskDue → Type 0
IsOldestFirst [] = Unit {0}
IsOldestFirst (row ∷ rows) = All (λ (r : TaskDue). row.due_at ≤ r.due_at) rows × IsOldestFirst rows

-- The runs of the tasks of a source.
abbrev pub of_source : ℕ → Db → Run → Bool
of_source source db run = elim (get_task db run.task_id) [
  | none ↦ false
  | some task ↦ task.source_id == source
]

abbrev pub runs_of_source : ℕ → Db → List Run
runs_of_source source db = keep (of_source source db) db.runs

module _ (env : Environment) (source_id : ℕ) (runs : List Run) where
  -- The source is claimed, and its runs are these.
  abbrev Claimed : Pass → Type 0
  Claimed p = (member source_id p.claimed_sources ≡ true) × (runs_of_source source_id p.db ≡ runs)

  keep-snoc :
      (test : Run → Bool) (rs : List Run) (r : Run)
      → test r ≡ false
      → keep test (rs ++ r ∷ []) ≡ keep test rs
  keep-snoc test [] r off = ground arith
  keep-snoc test (x ∷ rs) r off = ground (arith, keep-snoc test rs r off)

  unclaimed :
      (p : Pass) (task : Task) (key : Option Parts)
      → reason_to_wait env p task key ≡ none
      → member task.source_id p.claimed_sources ≡ false
  unfolding reason_to_wait
  unclaimed p task key free = ground arith

  other :
      (a b : ℕ) (claims : List ℕ)
      → member a claims ≡ true
      → member b claims ≡ false
      → (b == a) ≡ false
  other a b claims h k = elim (Bool-cases (b == a)) [
    | inl same ↦ let e : b ≡ a = ground arith in ground (arith, ap (λ n. member n claims) e)
    | inr differ ↦ differ
  ]

  new_run-other :
      (db : Db) (task : Task) (id : ℕ) (now : Instant)
      → get_task db task.id ≡ some task
      → (task.source_id == source_id) ≡ false
      → of_source source_id db (pending_run id task.id now) ≡ false
  new_run-other db task id now owner off = ground arith

  start_row-Claimed :
      (p : Pass) (row : TaskDue) (task : Task) (source : Source) (now : Instant)
      → Starts env p row task source now
      → Claimed p
      → Claimed (start_row p row task (exclusion_key env task source) now)
  unfolding start_row new_pending_run get_task
  start_row-Claimed p row task source now s (claimed, same) = (
    claimed,
    keep-snoc (of_source source_id p.db) p.db.runs (pending_run (next_run_id p.db.runs) task.id now)
          (new_run-other p.db task (next_run_id p.db.runs) now
            (get_task-id p.db row.task_id task s.owner)
            (other source_id task.source_id p.claimed_sources claimed (unclaimed p task _ s.free)))
        ∙ same,
  )

  wait_row-Claimed :
      (p : Pass) (row : TaskDue) (task : Task) (key : Option Parts) (reason : WaitReason)
      (now : Instant)
      → member source_id (task.source_id ∷ p.claimed_sources) ≡ true
      → runs_of_source source_id p.db ≡ runs
      → Claimed (wait_row p row task key reason now)
  unfolding wait_row get_task
  wait_row-Claimed p row task key reason now claimed same = (
    claimed,
    if_cases (λ db. runs_of_source source_id db ≡ runs) (differs row.wait_reason reason) (λ _. same)
        (λ _. same),
  )

  dispatch_row-Claimed :
      (now : Instant) (p : Pass) (row : TaskDue) → Claimed p → Claimed (dispatch_row env p row now)
  unfolding get_task
  dispatch_row-Claimed now p row (claimed, same) =
      dispatch_row-cases env Claimed p row now (claimed, same) (claimed, same)
        (λ task source reason _. wait_row-Claimed p row task _ reason now (ground arith) same)
        (λ task source s. start_row-Claimed p row task source now s (claimed, same))

insert_due-IsOldestFirst :
    (row : TaskDue) (rows : List TaskDue)
    → IsOldestFirst rows
    → IsOldestFirst (insert_due row rows)
      × ((at : Instant)
          → at ≤ row.due_at
          → All (λ (r : TaskDue). at ≤ r.due_at) rows
          → All (λ (r : TaskDue). at ≤ r.due_at) (insert_due row rows))
unfolding insert_due
insert_due-IsOldestFirst row [] h = ((tt, tt), λ at le all. (le, tt))
insert_due-IsOldestFirst row (r ∷ rows) h =
    if_cases
      (λ out.
        IsOldestFirst out
        × ((at : Instant)
            → at ≤ row.due_at
            → All (λ (r : TaskDue). at ≤ r.due_at) (r ∷ rows)
            → All (λ (r : TaskDue). at ≤ r.due_at) out))
      (leb row.due_at r.due_at)
      (λ first. (
        (
          (
            ground arith,
            All-map _ _ (λ (x : TaskDue) (le : r.due_at ≤ x.due_at). ground arith) rows h.0,
          ),
          h,
        ),
        λ at le all. (le, all),
      ))
      (λ later.
        let (sorted, bounded) = insert_due-IsOldestFirst row rows h.1 in
        ((bounded r.due_at (ground arith) h.0, sorted), λ at le all. (all.0, bounded at le all.1)))

-- The rows of a pass are walked from the oldest, whatever the order of the table.
order_by_due-IsOldestFirst : (rows : List TaskDue) → IsOldestFirst (order_by_due rows)
unfolding order_by_due
order_by_due-IsOldestFirst [] = tt
order_by_due-IsOldestFirst (row ∷ rows) =
    (insert_due-IsOldestFirst row (order_by_due rows) (order_by_due-IsOldestFirst rows)).0

-- A row that could start, as far as it is concerned itself, but has to wait.
pub record Waits (env : Environment) (p : Pass) (row : TaskDue) (task : Task) (source : Source)
    (now : Instant) : Type 0 where
  pub owner : get_task p.db row.task_id ≡ some task
  pub found : get_source p.db task.source_id ≡ some source
  pub enabled : task.enabled ≡ true
  pub startable : is_startable row now ≡ true
  pub reason : WaitReason
  pub waits : reason_to_wait env p task (exclusion_key env task source) ≡ some reason

module _ (env : Environment) where
  idle_startable :
      (row : TaskDue) (now : Instant)
      → is_startable row now ≡ false
      → is_startable row now ≡ true
      → ⊥
  idle_startable row now h k = cc

  disabled :
      (row : TaskDue) (task : Task)
      → (not (is_dispatched_row row) && not task.enabled) ≡ true
      → task.enabled ≡ true
      → ⊥
  disabled row task h k = ground arith

  admitted :
      (p : Pass) (row : TaskDue) (task : Task) (source : Source) (now : Instant)
      → (w : Waits env p row task source now)
      → admit_owned env p row task now
        ≡ wait_row p row task (exclusion_key env task source) w.reason now
  unfolding admit_owned admit_row
  admitted p row task source now w = rw (w.found, admit_owned) (rw (w.waits, admit_row) refl)

  dispatch_row-Waits :
      (p : Pass) (row : TaskDue) (task : Task) (source : Source) (now : Instant)
      → (w : Waits env p row task source now)
      → dispatch_row env p row now
        ≡ wait_row p row task (exclusion_key env task source) w.reason now
  unfolding dispatch_row admit_owned admit_row
  dispatch_row-Waits p row task source now w =
      let out = wait_row p row task (exclusion_key env task source) w.reason now in
      rw (w.owner, dispatch_row)
        (if_cases (λ q. q ≡ out) (not (is_dispatched_row row) && not task.enabled)
          (λ dropped. absurd (disabled row task dropped w.enabled))
          (λ _.
            if_cases (λ q. q ≡ out) (is_startable row now) (λ _. admitted p row task source now w)
              (λ idle. absurd (idle_startable row now idle w.startable))))

  -- The rows of a pass come from the oldest to the youngest, and where one has to wait, no younger one
  -- starts a run for the same source in that pass.
  pub dispatch_rows-waiting :
      (p : Pass) (row : TaskDue) (rows table : List TaskDue) (task : Task) (source : Source)
      (now : Instant)
      → order_by_due table ≡ row ∷ rows
      → Waits env p row task source now
      → All (λ (r : TaskDue). row.due_at ≤ r.due_at) rows
        × (runs_of_source task.source_id (dispatch_rows env p (row ∷ rows) now).db
            ≡ runs_of_source task.source_id p.db)
  unfolding dispatch_rows
  dispatch_rows-waiting p row rows table task source now walked w = (
    (subst IsOldestFirst walked (order_by_due-IsOldestFirst table)).0,
    (dispatch_rows-preserve env (Claimed env task.source_id (runs_of_source task.source_id p.db))
        now (dispatch_row-Claimed env task.source_id (runs_of_source task.source_id p.db) now)
        (dispatch_row env p row now) rows
        (subst (Claimed env task.source_id (runs_of_source task.source_id p.db))
          (sym (dispatch_row-Waits p row task source now w))
          (wait_row-Claimed env task.source_id (runs_of_source task.source_id p.db) p row task _
            w.reason now (ground arith) refl))).1,
  )
