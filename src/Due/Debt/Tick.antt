-- ===== src/Due/Debt/Tick.antt =====
-- The debt after `record_tick` of services/due.py.
use pullbackup.Base.{
  ℕ, ◌≡◌, ◌⊎◌, inl, inr, refl, sym, ap, ◌∙◌, subst, true, not, ◌&&◌, Option, none, some, arith,
  is_some, is_none, or_else, Option-cases, if_cases, nat_comparable,
}
use pullbackup.Models.{Instant, Task, TaskDue, Db}
use pullbackup.Schedule.{Calendar}
use pullbackup.Schedule.Scan.{CaughtUp}
use pullbackup.Due.Settle.{get_due, get_task, note_occurrence_during_run}
use pullbackup.Due.Reconcile.{
  new_due, Reconciled, reconcile_task, run_covers, is_early, upcoming_after, record_early,
  record_late, record_unforeseen, record_reconciled, record_tick,
}
use pullbackup.Due.Debt.Rows.{
  get_due-put_due, get_due-task_id, get_task-id, note-task_id, run_covers-runs, early_task,
}
use pullbackup.Due.Debt.Accounts.{Accounts, reconcile_task-Accounts, owed, covered}

module _ (cal : Calendar) where
  -- What a tick must leave: an obligation, or a run that started no earlier than a watermark after
  -- which no occurrence has come.
  abbrev pub Accounted : Db → Task → Instant → Type 0
  Accounted db task now =
      (is_some (get_due db task.id) ≡ true)
      ⊎ ((at : Instant) × CaughtUp cal task.cron at now × (run_covers db task.id (some at) ≡ true))

  record_early-owed :
      (db : Db) (t : Task) (id : ℕ) (row : Option TaskDue) (upcoming now : Instant)
      → t.id ≡ id
      → ((d : TaskDue) → row ≡ some d → d.task_id ≡ id)
      → is_some (get_due (record_early cal db t row upcoming now) id) ≡ true
  unfolding record_early
  record_early-owed db t id none upcoming now e known =
      rw (get_due-put_due (early_task db t upcoming) (new_due t.id now now) id e)
  record_early-owed db t id (some d) upcoming now e known =
      let db' = early_task db t upcoming in
      rw (
        get_due-put_due db' (note_occurrence_during_run db' d upcoming none).0 id
          (note-task_id db' d upcoming none ∙ known d refl))

  record_unforeseen-owed :
      (db : Db) (id : ℕ) (t : Task) (now : Instant) (r : Reconciled) (d : TaskDue)
      → r.row ≡ some d
      → get_due r.db id ≡ some d
      → (is_some (get_due db id) ≡ true) ⊎ (r.committed ≡ true)
      → is_some (get_due (record_unforeseen cal db r t now) id) ≡ true
  unfolding record_unforeseen
  record_unforeseen-owed db id t now r d row stored kept =
      if_cases (λ x. is_some (get_due x id) ≡ true)
        (is_none r.row && not (run_covers r.db t.id t.schedule_baseline_at))
        (λ absent. ground arith)
        (λ _.
          if_cases (λ x. is_some (get_due x id) ≡ true) r.committed (λ _. ap is_some stored)
            (λ lost. elim kept [ inl before ↦ before | inr done ↦ cc ]))

  record_unforeseen-covered :
      (db : Db) (task t : Task) (now : Instant) (r : Reconciled) (at : Instant)
      → t.id ≡ task.id
      → r.row ≡ none
      → t.schedule_baseline_at ≡ some at
      → CaughtUp cal task.cron at now
      → r.db.runs ≡ db.runs
      → Accounted (record_unforeseen cal db r t now) task now
  unfolding record_unforeseen record_late
  record_unforeseen-covered db task t now r at id row mark up runs =
      if_cases (λ x. Accounted x task now)
        (is_none r.row && not (run_covers r.db t.id t.schedule_baseline_at))
        (λ _. inl (ap is_some (get_due-put_due _ (new_due t.id now now) task.id id)))
        (λ refused.
          let paid : run_covers r.db task.id (some at) ≡ true = ground arith in
          if_cases (λ x. Accounted x task now) r.committed (λ _. inr (at, up, paid))
            (λ _. inr (at, up, sym (run_covers-runs db r.db task.id (some at) runs) ∙ paid)))

  record_unforeseen-Accounted :
      (db : Db) (task : Task) (now : Instant) (r : Reconciled)
      → Accounts cal db task now r
      → Accounted (record_unforeseen cal db r (or_else (get_task r.db task.id) task) now) task now
  record_unforeseen-Accounted db task now r (owed d row stored kept) =
      inl (record_unforeseen-owed db task.id _ now r d row stored kept)
  record_unforeseen-Accounted db task now r (covered t row stored at mark up runs) = rw stored (
      record_unforeseen-covered db task t now r at (get_task-id r.db task.id t stored) row mark up
        runs)

  Accounts-task_id :
      (db : Db) (task : Task) (now : Instant) (r : Reconciled)
      → Accounts cal db task now r
      → (d : TaskDue) → r.row ≡ some d
      → d.task_id ≡ task.id
  Accounts-task_id db task now r (owed d row stored kept) d' e =
      get_due-task_id r.db task.id d' (stored ∙ sym row ∙ e)
  Accounts-task_id db task now r (covered t row stored at mark up runs) d' e = cc

  stored-id : (db : Db) (task : Task) → (or_else (get_task db task.id) task).id ≡ task.id
  stored-id db task = elim (Option-cases (get_task db task.id)) [
    | inl e ↦ ap (λ (o : Option Task). (or_else o task).id) e
    | inr (t, e) ↦ ap (λ (o : Option Task). (or_else o task).id) e ∙ get_task-id db task.id t e
  ]

  record_reconciled-Accounted :
      (db : Db) (task : Task) (now : Instant) (r : Reconciled)
      → Accounts cal db task now r
      → Accounted (record_reconciled cal db r (or_else (get_task r.db task.id) task) now) task now
  unfolding record_reconciled
  record_reconciled-Accounted db task now r a =
      let t = or_else (get_task r.db task.id) task in
      elim (Option-cases (upcoming_after cal t.cron t.schedule_baseline_at)) [
        | inl e ↦ rw (e, record_reconciled) (record_unforeseen-Accounted db task now r a)
        | inr (upcoming, e) ↦
            rw (e, record_reconciled)
              (if_cases (λ x. Accounted x task now) (is_early (some upcoming) now)
                (λ _. inl (
                  record_early-owed r.db t task.id r.row upcoming now (stored-id r.db task)
                    (Accounts-task_id db task now r a)))
                (λ _. record_unforeseen-Accounted db task now r a))
      ]

  -- A cron tick of an enabled task leaves an obligation of the task in the tables, or else no
  -- occurrence has come after an instant at or after which a run of the task started.
  pub record_tick_owes :
      (db : Db) (id : ℕ) (now : Instant) (task : Task)
      → get_task db id ≡ some task
      → task.enabled ≡ true
      → Accounted (record_tick cal db id now) task now
  unfolding record_tick
  record_tick_owes db id now task found on =
      rw (found, record_tick)
        (if_cases (λ x. Accounted x task now) (not task.enabled) (λ off. cc)
          (λ _.
            let r = reconcile_task cal db task now in
            subst
              (λ k.
                Accounted (record_reconciled cal db r (or_else (get_task r.db k) task) now) task
                  now)
              (get_task-id db id task found)
              (record_reconciled-Accounted db task now r
                (reconcile_task-Accounts cal db task now on))))
