-- ===== src/Dispatch/Exclusion.antt =====
-- Sources and destinations of the active runs over a pass of services/dispatcher.py.
use pullbackup.Base.{
  ◌≡◌, ◌⊎◌, inl, inr, sym, subst, Bool, true, false, List, [], ◌∷◌, Option, none, some,
  nat_comparable, text_comparable, if◌then◌else◌, if_cases, keep, All, arith, Bool-cases,
  Option-cases,
}
use pullbackup.Models.{Instant, Source, Task, Run, WaitReason, TaskDue, Db, is_active}
use pullbackup.Destination.{Parts}
use pullbackup.Due.Settle.{get_task, settle_all}
use pullbackup.Auth.Store.Sub.{All-map, All-snoc}
use pullbackup.Dispatch.Step.{drop_row, get_task-id, dispatch_row-cases, dispatch_rows-preserve}
use pullbackup.Dispatch.{
  Environment, Pass, get_source, pending_run, next_run_id, new_pending_run, cons_key, task_key,
  exclusion_key, hold_task, hold_runs, first_pass, reason_to_wait, wait_row, start_row,
  dispatch_row, dispatch_due, order_by_due, differs,
}
use pullbackup.Dispatch.Capacity.{hold_runs-count}
use pullbackup.Dispatch.Apart.{
  run_key, AllApart, AllApart-snoc, KeyAmong, Covered, CoveredRun, KeyAmong-head, Covered-more,
  CoveredRun-more, HeldIn, Held,
}
use pullbackup.Dispatch.Fits.{run_key-found, run_fits}

module _ (env : Environment) where
  start_row-Held :
      (p : Pass) (row : TaskDue) (task : Task) (source : Source) (now : Instant)
      → reason_to_wait env p task (exclusion_key env task source) ≡ none
      → get_source p.db task.source_id ≡ some source
      → get_task p.db task.id ≡ some task
      → Held env p
      → Held env (start_row p row task (exclusion_key env task source) now)
  unfolding start_row new_pending_run run_key get_source get_task
  start_row-Held p row task source now free found owner (covered, apart) =
      let key = exclusion_key env task source in
      let newer = pending_run (next_run_id p.db.runs) task.id now in
      let known : run_key env p.db task ≡ key = run_key-found env p task source found in
      (
        All-snoc _ p.db.runs newer
            (All-map _ _
              (λ (run : Run) (h : CoveredRun env p.db p.active_sources p.dests run).
                CoveredRun-more env p.db p.active_sources p.dests task.source_id key run h)
              p.db.runs covered)
            (inr (
              subst (Covered env p.db (task.source_id ∷ p.active_sources) (cons_key key p.dests))
                (sym owner)
                (
                  ground arith,
                  subst (λ k. KeyAmong env p.db k (cons_key key p.dests)) (sym known)
                      (KeyAmong-head env p.db key p.dests),
                ))),
        AllApart-snoc env p.db p.db.runs newer apart (
            All-map _ _
              (λ (run : Run) (h : CoveredRun env p.db p.active_sources p.dests run).
                run_fits env p task source run newer free found owner h)
              p.db.runs covered),
      )

  wait_row-Held :
      (p : Pass) (row : TaskDue) (task : Task) (key : Option Parts) (reason : WaitReason)
      (now : Instant)
      → Held env p
      → Held env (wait_row p row task key reason now)
  unfolding wait_row get_task get_source run_key
  wait_row-Held p row task key reason now held =
      if_cases (λ db. HeldIn env db p.active_sources p.dests) (differs row.wait_reason reason)
        (λ _. held) (λ _. held)

  drop_row-Held : (p : Pass) (row : TaskDue) → Held env p → Held env (drop_row p row)
  unfolding get_task get_source run_key
  drop_row-Held p row held = held

  dispatch_row-Held :
      (p : Pass) (row : TaskDue) (now : Instant)
      → Held env p
      → Held env (dispatch_row env p row now)
  dispatch_row-Held p row now held =
      dispatch_row-cases env (Held env) p row now held (drop_row-Held p row held)
        (λ task source reason _. wait_row-Held p row task _ reason now held)
        (λ task source s.
          start_row-Held p row task source now s.free s.found
            (get_task-id p.db row.task_id task s.owner) held)

  part_of_key :
      (db : Db) (b : Bool) (key : Option Parts) (dests : List Parts)
      → KeyAmong env db (if b then key else none) (cons_key key dests)
  part_of_key db true key dests = KeyAmong-head env db key dests
  part_of_key db false key dests = tt

  run_key-KeyAmong :
      (db : Db) (task : Task) (dests : List Parts)
      → KeyAmong env db (run_key env db task) (cons_key (task_key env task) dests)
  unfolding run_key exclusion_key
  run_key-KeyAmong db task dests = elim (Option-cases (get_source db task.source_id)) [
    | inl e ↦ rw (e, run_key) tt
    | inr (source, e) ↦ rw (e, run_key) (part_of_key db _ (task_key env task) dests)
  ]

  hold_task-Covered :
      (db : Db) (o : Option Task) (q : Pass)
      → Covered env db (hold_task env o q).active_sources (hold_task env o q).dests o
  unfolding hold_task
  hold_task-Covered db none q = tt
  hold_task-Covered db (some task) q = (ground arith, run_key-KeyAmong db task q.dests)

  hold_task-more :
      (db : Db) (o other : Option Task) (q : Pass)
      → Covered env db q.active_sources q.dests other
      → Covered env db (hold_task env o q).active_sources (hold_task env o q).dests other
  unfolding hold_task
  hold_task-more db none other q h = h
  hold_task-more db (some task) other q h =
      Covered-more env db q.active_sources q.dests task.source_id (task_key env task) other h

  -- At the start of a pass, what the active runs need is known.
  hold_runs-Covered :
      (db : Db) (runs : List Run) (p : Pass)
      → All
          (λ (run : Run).
            Covered env db
              (hold_runs env db runs p).active_sources
              (hold_runs env db runs p).dests
              (get_task db run.task_id))
          runs
  unfolding hold_runs
  hold_runs-Covered db [] p = tt
  hold_runs-Covered db (run ∷ runs) p =
      let q = hold_runs env db runs p in
      (
        hold_task-Covered db (get_task db run.task_id) q,
        All-map _ _
            (λ (r : Run) (h : Covered env db q.active_sources q.dests (get_task db r.task_id)).
              hold_task-more db (get_task db run.task_id) (get_task db r.task_id) q h)
            runs (hold_runs-Covered db runs p),
      )

  kept_or_over :
      (Q : Run → Type 0) (runs : List Run)
      → All Q (keep (λ (r : Run). is_active r.state) runs)
      → All (λ (r : Run). (is_active r.state ≡ false) ⊎ Q r) runs
  kept_or_over Q [] h = tt
  kept_or_over Q (r ∷ runs) h = elim (Bool-cases (is_active r.state)) [
    | inl on ↦
        let both =
          subst
            (λ b. All Q (
              if b
              then r ∷ keep (λ (r : Run). is_active r.state) runs
              else keep (λ (r : Run). is_active r.state) runs))
            on h in
        (inr both.0, kept_or_over Q runs both.1)
    | inr off ↦ (
      inl off,
      kept_or_over Q runs (
          subst
            (λ b. All Q (
              if b
              then r ∷ keep (λ (r : Run). is_active r.state) runs
              else keep (λ (r : Run). is_active r.state) runs))
            off h),
    )
  ]

  first_pass-Held : (db : Db) → AllApart env db db.runs → Held env (first_pass env db)
  unfolding first_pass
  first_pass-Held db apart =
      let p = first_pass env db in
      subst (λ d. HeldIn env d p.active_sources p.dests)
        (sym ((hold_runs-count env db (keep (λ (r : Run). is_active r.state) db.runs) _).1))
        (
          kept_or_over _ db.runs
              (hold_runs-Covered db (keep (λ (r : Run). is_active r.state) db.runs) _),
          apart,
        )

  -- The active runs of the tables have different sources, and destinations apart.
  abbrev pub IsExclusive : Db → Type 0
  IsExclusive db = AllApart env db db.runs

  settle_all-IsExclusive :
      (db : Db) (now : Instant) → IsExclusive db → IsExclusive (settle_all db now)
  unfolding settle_all get_task get_source run_key
  settle_all-IsExclusive db now h = h

  -- A pass of the dispatcher keeps the active runs apart: no two of them have the same source, or
  -- destinations of which one contains the other.
  pub dispatch_due-IsExclusive :
      (db : Db) (now : Instant) → IsExclusive db → IsExclusive (dispatch_due env db now).db
  unfolding dispatch_due
  dispatch_due-IsExclusive db now h =
      let settled = settle_all db now in
      (dispatch_rows-preserve env (Held env) now (λ p row held. dispatch_row-Held p row now held)
        (first_pass env settled) (order_by_due settled.dues)
        (first_pass-Held settled (settle_all-IsExclusive db now h))).1
