-- ===== src/Due/Debt/Fold.antt =====
-- The watermark that `reconcile_task` of services/due.py keeps.
use pullbackup.Base.{
  inl, inr, ◌≤◌, ◌≡◌, inl, inr, refl, sym, ap, ◌∙◌, subst, true, false, not, some, arith, is_some,
  or_else, Option-cases, if_cases, ltb, nat_comparable,
}
use pullbackup.Models.{Instant, Task, Db}
use pullbackup.Schedule.{Calendar, next_occurrence, latest_occurrence}
use pullbackup.Schedule.Scan.{CaughtUp, latest_occurrence-CaughtUp}
use pullbackup.Due.Settle.{get_due, get_task, derive_baseline}
use pullbackup.Due.Reconcile.{
  put_task, Reconciled, settle_existing, keep_watermark, fold_occurrences, reconcile_settled,
  reconcile_task,
}
use pullbackup.Due.Debt.Rows.{get_task-put_task}
use pullbackup.Due.Debt.Accounts.{Accounts, fold_occurrences-Accounts, owed, covered}

module _ (cal : Calendar) where
  -- An obligation of the task is stored, and its watermark lies between `first` and `now`, with no
  -- occurrence left between it and `now`.
  abbrev pub Folded : Task → Instant → Instant → Reconciled → Type 0
  Folded task first now r =
      (is_some (get_due r.db task.id) ≡ true)
      × ((at : Instant) × (get_task r.db task.id
            ≡ some (record task { schedule_baseline_at = some at }))
          × (first ≤ at)
          × (at ≤ now)
          × CaughtUp cal task.cron at now)

  fold_occurrences-Folded :
      (db : Db) (task : Task) (first latest now : Instant)
      → first ≤ latest
      → latest ≤ now
      → CaughtUp cal task.cron latest now
      → Folded task first now (fold_occurrences db task first latest now)
  unfolding fold_occurrences get_task
  fold_occurrences-Folded db task first latest now lower upper up = (
    stored (fold_occurrences-Accounts cal db db task first latest now),
    (latest, get_task-put_task db moved task.id refl, lower, upper, up),
  )
    where
      moved : Task
      moved = record task { schedule_baseline_at = some latest }

      stored :
          Accounts cal db task now (fold_occurrences db task first latest now)
          → is_some (get_due (fold_occurrences db task first latest now).db task.id) ≡ true
      stored (owed d row at kept) = ap is_some at
      stored (covered t row at _ mark up' runs) = cc

  -- Reconciling an enabled task whose schedule parses, with an occurrence after the watermark that is
  -- not in the future, stores an obligation and moves the watermark to an instant between that
  -- occurrence and now after which no occurrence up to now is left.
  pub reconcile_task_folds :
      (db : Db) (task : Task) (now first : Instant)
      → task.enabled ≡ true
      → cal.parses task.cron ≡ true
      → next_occurrence cal task.cron (
          or_else task.schedule_baseline_at (derive_baseline (settle_existing db task.id now) task))
        ≡ some first
      → first ≤ now
      → Folded task first now (reconcile_task cal db task now)
  unfolding reconcile_task reconcile_settled
  reconcile_task_folds db task now first on valid next past =
      if_cases (Folded task first now) (not task.enabled) (λ off. cc)
        λ _.
          if_cases (Folded task first now) (not (cal.parses task.cron)) (λ bad. cc)
            λ _.
              rw (next, reconcile_settled)
                (if_cases (Folded task first now) (ltb now first) (λ later. absurd (ground arith))
                  λ _.
                    let (lower, upper, up) =
                      latest_occurrence-CaughtUp cal task.cron first now past in
                    fold_occurrences-Folded (settle_existing db task.id now) task first
                      (latest_occurrence cal task.cron first now) now lower upper up)

  -- Nothing but the settlement of the obligation has happened.
  abbrev pub Idle : Db → Task → Reconciled → Type 0
  Idle settled task r =
      (get_task r.db task.id ≡ some task)
      × (r.row ≡ get_due settled task.id)
      × (r.db.dues ≡ settled.dues)
      × (r.db.runs ≡ settled.runs)

  keep_watermark_self :
      (task : Task) (at : Instant)
      → task.schedule_baseline_at ≡ some at
      → keep_watermark task (or_else task.schedule_baseline_at at) ≡ task
  unfolding keep_watermark
  keep_watermark_self task at mark = ground arith

  reconcile_settled-Idle :
      (settled : Db) (task : Task) (now at : Instant)
      → task.schedule_baseline_at ≡ some at
      → CaughtUp cal task.cron at now
      → Idle settled task (reconcile_settled cal settled task now)
  unfolding reconcile_settled
  reconcile_settled-Idle settled task now at mark up =
      let b = or_else task.schedule_baseline_at (derive_baseline settled task) in
      let same : b ≡ at = ap (λ o. or_else o (derive_baseline settled task)) mark in
      let stays : keep_watermark task b ≡ task =
        ap (keep_watermark task) (same ∙ sym (ap (λ o. or_else o at) mark))
        ∙ keep_watermark_self task at mark in
      let unowed : Idle settled task (record {
        db = put_task settled (keep_watermark task b);
        row = get_due settled task.id;
        committed = false;
      }) =
        (
          get_task-put_task settled (keep_watermark task b) task.id (ap (λ (t : Task). t.id) stays)
              ∙ ap some stays,
          refl,
          refl,
          refl,
        ) in
      elim (Option-cases (next_occurrence cal task.cron b)) [
        | inl e ↦ rw (e, reconcile_settled) unowed
        | inr (first, e) ↦
            rw (e, reconcile_settled)
              (if_cases (Idle settled task) (ltb now first) (λ _. unowed)
                (λ due.
                  let next : next_occurrence cal task.cron at ≡ some first =
                    subst (λ x. next_occurrence cal task.cron x ≡ some first) same e in
                  absurd (elim up [ inl never ↦ cc | inr (fire, found, later) ↦ ground arith ])))
      ]

  -- Once the watermark is caught up, reconciling an enabled task again only settles its obligation:
  -- no occurrence is folded twice, and the task stays as it is.
  reconcile_task-Idle :
      (db : Db) (task : Task) (now at : Instant)
      → task.enabled ≡ true
      → cal.parses task.cron ≡ true
      → task.schedule_baseline_at ≡ some at
      → CaughtUp cal task.cron at now
      → Idle (settle_existing db task.id now) task (reconcile_task cal db task now)
  unfolding reconcile_task
  reconcile_task-Idle db task now at on valid mark up =
      let P = Idle (settle_existing db task.id now) task in
      if_cases P (not task.enabled) (λ off. cc)
        λ _.
          if_cases P (not (cal.parses task.cron)) (λ bad. cc)
            λ _. reconcile_settled-Idle (settle_existing db task.id now) task now at mark up

  -- The task with its new watermark is stored, and reconciling it does nothing but settle.
  abbrev pub SettledAgain : Task → Instant → Reconciled → Type 0
  SettledAgain task now r =
      (at : Instant) × (get_task r.db task.id
        ≡ some (record task { schedule_baseline_at = some at }))
      × Idle (settle_existing r.db task.id now) (record task { schedule_baseline_at = some at })
          (reconcile_task cal r.db (record task { schedule_baseline_at = some at }) now)

  -- Reconciling an enabled task whose schedule parses, with an occurrence after the watermark that is
  -- not in the future, and then again at the same instant: the second time only settles the obligation,
  -- folds no occurrence, and leaves the task as the first time stored it.
  pub reconcile_task-again :
      (db : Db) (task : Task) (now first : Instant)
      → task.enabled ≡ true
      → cal.parses task.cron ≡ true
      → next_occurrence cal task.cron (
          or_else task.schedule_baseline_at (derive_baseline (settle_existing db task.id now) task))
        ≡ some first
      → first ≤ now
      → SettledAgain task now (reconcile_task cal db task now)
  reconcile_task-again db task now first on valid next past =
      let (stored, (at, there, lower, upper, up)) =
        reconcile_task_folds db task now first on valid next past in
      let moved = record task { schedule_baseline_at = some at } in
      let r = reconcile_task cal db task now in
      (at, there, reconcile_task-Idle r.db moved now at on valid refl up)
