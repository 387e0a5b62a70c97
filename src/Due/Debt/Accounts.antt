-- ===== src/Due/Debt/Accounts.antt =====
-- The occurrences up to now after `reconcile_task` of services/due.py.
use pullbackup.Base.{
  ℕ, ◌≡◌, ◌⊎◌, inl, inr, refl, ◌∙◌, true, false, not, Option, none, some, arith, is_some, or_else,
  Option-cases, if_cases, ltb, nat_comparable,
}
use pullbackup.Models.{Instant, Task, TaskDue, Db}
use pullbackup.Schedule.{Calendar, next_occurrence, latest_occurrence}
use pullbackup.Schedule.Scan.{CaughtUp}
use pullbackup.Due.Settle.{get_due, get_task, settle_row, derive_baseline}
use pullbackup.Due.Reconcile.{
  put_task, put_due, new_due, Reconciled, block_cron, reconcile_invalid, settle_existing,
  keep_watermark, fold_into, fold_occurrences, reconcile_settled, reconcile_task,
}
use pullbackup.Due.Debt.Rows.{
  get_due-put_due, get_due-task_id, get_task-put_task, fold_into-task_id, block_cron-task_id,
  keep_watermark_lem, keep_watermark-id, write_due-runs,
}

module _ (cal : Calendar) where
  -- Every occurrence up to `now` is accounted for: by an obligation that is stored, or because none
  -- came after the watermark.
  pub data Accounts (db : Db) (task : Task) (now : Instant) (r : Reconciled) : Type 0 where
    owed :
        (d : TaskDue)
        → r.row ≡ some d
        → get_due r.db task.id ≡ some d
        → (is_some (get_due db task.id) ≡ true) ⊎ (r.committed ≡ true)
        → Accounts db task now r
    covered :
        (t : Task)
        → r.row ≡ none
        → get_task r.db task.id ≡ some t
        → (at : Instant) → t.schedule_baseline_at ≡ some at
        → CaughtUp cal task.cron at now
        → r.db.runs ≡ db.runs
        → Accounts db task now r

  pub put_due-Accounts :
      (db₀ db : Db) (task : Task) (now : Instant) (d : TaskDue)
      → d.task_id ≡ task.id
      → Accounts db₀ task now (record { db = put_due db d; row = some d; committed = true })
  put_due-Accounts db₀ db task now d e = owed d refl (get_due-put_due db d task.id e) (inr refl)

  pub reconcile_invalid-Accounts :
      (db : Db) (task : Task) (now : Instant) → Accounts db task now (reconcile_invalid db task now)
  unfolding reconcile_invalid
  reconcile_invalid-Accounts db task now =
      put_due-Accounts db db task now (block_cron task row now)
        (block_cron-task_id task row now ∙ known (get_due db task.id) refl)
    where
      row : TaskDue
      row = or_else (get_due db task.id) (new_due task.id now now)

      known :
          (o : Option TaskDue)
          → get_due db task.id ≡ o
          → (or_else o (new_due task.id now now)).task_id ≡ task.id
      known none e = refl
      known (some d) e = get_due-task_id db task.id d e

  pub fold_occurrences-Accounts :
      (db₀ db : Db) (task : Task) (first latest now : Instant)
      → Accounts db₀ task now (fold_occurrences db task first latest now)
  unfolding fold_occurrences
  fold_occurrences-Accounts db₀ db task first latest now =
      let db' = put_task db (record task { schedule_baseline_at = some latest }) in
      elim (Option-cases (get_due db task.id)) [
        | inl e ↦
            rw (e, fold_occurrences)
              (put_due-Accounts db₀ db' task now (new_due task.id first now) refl)
        | inr (d, e) ↦
            rw (e, fold_occurrences)
              (put_due-Accounts db₀ db' task now (fold_into db' d first latest now)
                (fold_into-task_id db' d first latest now ∙ get_due-task_id db task.id d e))
      ]

  pub settle_existing-get_due :
      (db : Db) (id : ℕ) (now : Instant) (d : TaskDue)
      → get_due (settle_existing db id now) id ≡ some d
      → is_some (get_due db id) ≡ true
  unfolding settle_existing
  settle_existing-get_due db id now d = elim (Option-cases (get_due db id)) [
    | inl e ↦ rw (e, settle_existing) (λ h. cc)
    | inr (d', e) ↦ λ h. rw e
  ]

  pub settle_existing-runs :
      (db : Db) (id : ℕ) (now : Instant) → (settle_existing db id now).runs ≡ db.runs
  unfolding settle_existing
  settle_existing-runs db id now = elim (Option-cases (get_due db id)) [
    | inl e ↦ rw (e, settle_existing)
    | inr (d, e) ↦ rw (e, settle_existing) (write_due-runs db id (settle_row db d now))
  ]

  pub reconcile_settled-Accounts :
      (db : Db) (task : Task) (now : Instant)
      → Accounts db task now (reconcile_settled cal (settle_existing db task.id now) task now)
  unfolding reconcile_settled get_due
  reconcile_settled-Accounts db task now =
      elim (Option-cases (next_occurrence cal task.cron baseline)) [
        | inl e ↦ rw (e, reconcile_settled) (unowed (inl e))
        | inr (first, e) ↦
            rw (e, reconcile_settled)
              (if_cases (Accounts db task now) (ltb now first)
                (λ later. unowed (inr (first, e, ground arith)))
                (λ _.
                  fold_occurrences-Accounts db settled task first
                    (latest_occurrence cal task.cron first now) now))
      ]
    where
      settled : Db
      settled = settle_existing db task.id now

      baseline : Instant
      baseline = or_else task.schedule_baseline_at (derive_baseline settled task)

      unowed :
          CaughtUp cal task.cron baseline now
          → Accounts db task now (record {
            db = put_task settled (keep_watermark task baseline);
            row = get_due settled task.id;
            committed = false;
          })
      unowed up = elim (Option-cases (get_due settled task.id)) [
        | inl e ↦
            covered (keep_watermark task baseline) e
              (get_task-put_task settled _ task.id (keep_watermark-id task baseline)) baseline
              (keep_watermark_lem task (derive_baseline settled task)) up
              (settle_existing-runs db task.id now)
        | inr (d, e) ↦ owed d e e (inl (settle_existing-get_due db task.id now d e))
      ]

  pub reconcile_task-Accounts :
      (db : Db) (task : Task) (now : Instant)
      → task.enabled ≡ true
      → Accounts db task now (reconcile_task cal db task now)
  unfolding reconcile_task
  reconcile_task-Accounts db task now on =
      if_cases (Accounts db task now) (not task.enabled) (λ off. cc)
        λ _.
          if_cases (Accounts db task now) (not (cal.parses task.cron))
            (λ _. reconcile_invalid-Accounts db task now)
            (λ _. reconcile_settled-Accounts db task now)
