-- ===== src/Dispatch/Rows.antt =====
-- What a pass of services/dispatcher.py does to the obligations.
use pullbackup.Base.{
  ℕ, ◌≡◌, sym, subst, true, List, [], ◌∷◌, Option, none, some, leb, if_cases, arith, All,
}
use pullbackup.Models.{Instant, Task, Status, TaskDue, Db, WaitReason, put_by-All, delete_by-All}
use pullbackup.Destination.{Parts}
use pullbackup.Due.Settle.{settle_all}
use pullbackup.Due.Invariant.{IsWellFormed}
use pullbackup.Due.Preservation.{AllWellFormed, settle_all-AllWellFormed}
use pullbackup.Dispatch.{
  Environment, Pass, new_pending_run, first_pass, wait_row, start_row, dispatch_row, dispatch_rows,
  dispatch_due, insert_due, order_by_due, is_startable, differs,
}
use pullbackup.Dispatch.Capacity.{hold_runs-count}
use pullbackup.Dispatch.Step.{dispatch_row-cases}

insert_due-All :
    (P : TaskDue → Type 0) (row : TaskDue) (rows : List TaskDue)
    → P row
    → All P rows
    → All P (insert_due row rows)
unfolding insert_due
insert_due-All P row [] p h = (p, tt)
insert_due-All P row (r ∷ rows) p h =
    if_cases (All P) (leb row.due_at r.due_at) (λ _. (p, h))
      (λ _. (h.0, insert_due-All P row rows p h.1))

pub order_by_due-All :
    (P : TaskDue → Type 0) (rows : List TaskDue) → All P rows → All P (order_by_due rows)
unfolding order_by_due
order_by_due-All P [] h = tt
order_by_due-All P (row ∷ rows) h =
    insert_due-All P row (order_by_due rows) h.0 (order_by_due-All P rows h.1)

started-IsWellFormed :
    (row : TaskDue) (id : ℕ) (now : Instant)
    → is_startable row now ≡ true
    → IsWellFormed row
    → IsWellFormed (record row {
      status = Status.dispatched;
      run_id = some id;
      wait_reason = none;
      retry_at = none;
      updated_at = now;
    })
unfolding is_startable
started-IsWellFormed row id now startable w = ground arith

waiting-IsWellFormed :
    (row : TaskDue) (reason : WaitReason) (now : Instant)
    → IsWellFormed row
    → IsWellFormed (record row { wait_reason = some reason; updated_at = now })
waiting-IsWellFormed row reason now w = ground arith

module _ (env : Environment) where
  start_row-AllWellFormed :
      (p : Pass) (row : TaskDue) (task : Task) (key : Option Parts) (now : Instant)
      → is_startable row now ≡ true
      → IsWellFormed row
      → AllWellFormed p.db
      → AllWellFormed (start_row p row task key now).db
  unfolding start_row new_pending_run
  start_row-AllWellFormed p row task key now startable w all =
      put_by-All (λ (d : TaskDue). d.task_id) IsWellFormed _ p.db.dues
        (started-IsWellFormed row _ now startable w) all

  wait_row-AllWellFormed :
      (p : Pass) (row : TaskDue) (task : Task) (key : Option Parts) (reason : WaitReason)
      (now : Instant)
      → IsWellFormed row
      → AllWellFormed p.db
      → AllWellFormed (wait_row p row task key reason now).db
  unfolding wait_row
  wait_row-AllWellFormed p row task key reason now w all =
      if_cases AllWellFormed (differs row.wait_reason reason)
        (λ _.
          put_by-All (λ (d : TaskDue). d.task_id) IsWellFormed _ p.db.dues
            (waiting-IsWellFormed row reason now w) all)
        (λ _. all)

  dispatch_row-AllWellFormed :
      (p : Pass) (row : TaskDue) (now : Instant)
      → IsWellFormed row
      → AllWellFormed p.db
      → AllWellFormed (dispatch_row env p row now).db
  dispatch_row-AllWellFormed p row now w all =
      dispatch_row-cases env (λ (q : Pass). AllWellFormed q.db) p row now all
        (delete_by-All (λ (d : TaskDue). d.task_id) IsWellFormed row.task_id p.db.dues all)
        (λ task source reason _. wait_row-AllWellFormed p row task _ reason now w all)
        (λ task source s. start_row-AllWellFormed p row task _ now s.startable w all)

  dispatch_rows-AllWellFormed :
      (p : Pass) (rows : List TaskDue) (now : Instant)
      → All IsWellFormed rows
      → AllWellFormed p.db
      → AllWellFormed (dispatch_rows env p rows now).db
  unfolding dispatch_rows
  dispatch_rows-AllWellFormed p [] now ws all = all
  dispatch_rows-AllWellFormed p (row ∷ rows) now ws all =
      dispatch_rows-AllWellFormed (dispatch_row env p row now) rows now ws.1
        (dispatch_row-AllWellFormed p row now ws.0 all)

  -- A pass keeps every obligation well formed: one that it dispatches names its run and has no retry
  -- set.
  pub dispatch_due-AllWellFormed :
      (db : Db) (now : Instant) → AllWellFormed db → AllWellFormed (dispatch_due env db now).db
  unfolding dispatch_due first_pass
  dispatch_due-AllWellFormed db now w =
      let settled = settle_all db now in
      let all = settle_all-AllWellFormed db now w in
      dispatch_rows-AllWellFormed (first_pass env settled) (order_by_due settled.dues) now
        (order_by_due-All IsWellFormed settled.dues all)
        (subst AllWellFormed (sym (hold_runs-count env settled _ _).1) all)
