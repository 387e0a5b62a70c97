-- ===== src/Due/Preservation.antt =====
-- The invariant of the obligations over the operations on the tables.
use pullbackup.Base.{
  ℕ, ◌≡◌, refl, Bool, true, not, ◌&&◌, ◌||◌, Option, none, some, arith, All, Option-cases, List, [],
  ◌∷◌, or_else, if◌then◌else◌, ltb, subst, if_cases, is_some, ◌+◌, inl, inr,
}
use pullbackup.Models.{Instant, Task, TaskDue, Db, find_by-All, put_by-All, delete_by-All}
use pullbackup.Schedule.{Calendar, next_occurrence, latest_occurrence}
use pullbackup.Due.Settle.{
  get_due, settle_row, settle_all, rearm, derive_baseline, is_blocked, is_exhausted,
}
use pullbackup.Due.Reconcile.{
  put_task, put_due, write_due, new_due, Reconciled, block_cron, reconcile_invalid, settle_existing,
  fold_into, fold_occurrences, reconcile_settled, reconcile_task, reconcile_each, reconcile_all,
}
use pullbackup.Due.Edit.{new_generation, unblock, on_task_edited, forget_task}
use pullbackup.Due.Invariant.{
  IsWellFormed, Keeps, new_due-IsWellFormed, settle_row-Keeps, settle_rows-IsWellFormed,
  block_cron-IsWellFormed, fold_into-IsWellFormed,
}

abbrev pub AllWellFormed : Db → Type 0
AllWellFormed db = All IsWellFormed db.dues

pub get_due-Keeps : (db : Db) (id : ℕ) → AllWellFormed db → Keeps (get_due db id)
unfolding get_due
get_due-Keeps db id v = go (get_due db id) refl
  where
    go : (o : Option TaskDue) → get_due db id ≡ o → Keeps o
    go none e = tt
    go (some d) e = find_by-All (λ d. d.task_id) IsWellFormed id db.dues d v e

pub write_due-AllWellFormed :
    (db : Db) (id : ℕ) (o : Option TaskDue)
    → Keeps o
    → AllWellFormed db
    → AllWellFormed (write_due db id o)
write_due-AllWellFormed db id none k v = delete_by-All (λ d. d.task_id) IsWellFormed id db.dues v
write_due-AllWellFormed db id (some d) k v = put_by-All (λ d. d.task_id) IsWellFormed d db.dues k v

pub settle_all-AllWellFormed :
    (db : Db) (now : Instant) → AllWellFormed db → AllWellFormed (settle_all db now)
unfolding settle_all
settle_all-AllWellFormed db now v = settle_rows-IsWellFormed db now db.dues v

settle_existing-AllWellFormed :
    (db : Db) (id : ℕ) (now : Instant)
    → AllWellFormed db
    → AllWellFormed (settle_existing db id now)
unfolding settle_existing
settle_existing-AllWellFormed db id now v = elim (Option-cases (get_due db id)) [
  | inl e ↦ rw (e, settle_existing) v
  | inr (d, e) ↦
      rw (e, settle_existing)
        (write_due-AllWellFormed db id (settle_row db d now)
          (settle_row-Keeps db d now (subst Keeps e (get_due-Keeps db id v))) v)
]

-- The tables and the row that `reconcile_task` leaves.
abbrev Sound : Reconciled → Type 0
Sound r = AllWellFormed r.db × Keeps r.row

put_due-Sound :
    (db : Db) (d : TaskDue)
    → IsWellFormed d
    → AllWellFormed db
    → Sound (record { db = put_due db d; row = some d; committed = true })
put_due-Sound db d k v = (put_by-All (λ d. d.task_id) IsWellFormed d db.dues k v, k)

reconcile_invalid-Sound :
    (db : Db) (task : Task) (now : Instant)
    → AllWellFormed db
    → Sound (reconcile_invalid db task now)
unfolding reconcile_invalid
reconcile_invalid-Sound db task now v =
    put_due-Sound db (block_cron task row now)
      (block_cron-IsWellFormed task row now
        (start (get_due db task.id) (get_due-Keeps db task.id v)))
      v
  where
    row : TaskDue
    row = or_else (get_due db task.id) (new_due task.id now now)

    start : (o : Option TaskDue) → Keeps o → IsWellFormed (or_else o (new_due task.id now now))
    start none k = new_due-IsWellFormed task.id now now
    start (some d) k = k

fold_occurrences-Sound :
    (db : Db) (task : Task) (first latest now : Instant)
    → AllWellFormed db
    → Sound (fold_occurrences db task first latest now)
unfolding fold_occurrences
fold_occurrences-Sound db task first latest now v =
    let db' = put_task db (record task { schedule_baseline_at = some latest }) in
    elim (Option-cases (get_due db task.id)) [
      | inl e ↦
          rw (e, fold_occurrences)
            (put_due-Sound db' (new_due task.id first now) (new_due-IsWellFormed task.id first now)
              v)
      | inr (d, e) ↦
          rw (e, fold_occurrences)
            (put_due-Sound db' (fold_into db' d first latest now)
              (fold_into-IsWellFormed db' d first latest now
                (subst Keeps e (get_due-Keeps db task.id v)))
              v)
    ]

-- The tables with the watermark at the occurrence of an early tick.
abbrev early_task : Db → Task → Instant → Db
early_task db task upcoming = put_task db (record task { schedule_baseline_at = some upcoming })

module _ (cal : Calendar) where
  reconcile_settled-Sound :
      (db : Db) (task : Task) (now : Instant)
      → AllWellFormed db
      → Sound (reconcile_settled cal db task now)
  unfolding reconcile_settled
  reconcile_settled-Sound db task now v =
      let baseline = or_else task.schedule_baseline_at (derive_baseline db task) in
      elim (Option-cases (next_occurrence cal task.cron baseline)) [
        | inl e ↦ rw (e, reconcile_settled) (v, get_due-Keeps db task.id v)
        | inr (first, e) ↦
            rw (e, reconcile_settled)
              (if_cases Sound (ltb now first) (λ _. (v, get_due-Keeps db task.id v))
                (λ _.
                  fold_occurrences-Sound db task first (latest_occurrence cal task.cron first now)
                    now v))
      ]

  reconcile_task-Sound :
      (db : Db) (task : Task) (now : Instant)
      → AllWellFormed db
      → Sound (reconcile_task cal db task now)
  unfolding reconcile_task
  reconcile_task-Sound db task now v =
      if_cases Sound (not task.enabled) (λ _. (v, tt))
        λ _.
          if_cases Sound (not (cal.parses task.cron)) (λ _. reconcile_invalid-Sound db task now v)
            (λ _.
              reconcile_settled-Sound (settle_existing db task.id now) task now
                (settle_existing-AllWellFormed db task.id now v))

  reconcile_each-AllWellFormed :
      (tasks : List Task) (db : Db) (now : Instant) (owed : ℕ)
      → AllWellFormed db
      → AllWellFormed (reconcile_each cal tasks db now owed).0
  unfolding reconcile_each
  reconcile_each-AllWellFormed [] db now owed v = v
  reconcile_each-AllWellFormed (task ∷ tasks) db now owed v =
      let r = reconcile_task cal db task now in
      reconcile_each-AllWellFormed tasks (if task.enabled then r.db else db) now
        (if task.enabled && is_some r.row then owed + 1 else owed)
        (if_cases AllWellFormed task.enabled (λ _. (reconcile_task-Sound db task now v).0) (λ _. v))

  pub reconcile_all-AllWellFormed :
      (db : Db) (now : Instant) → AllWellFormed db → AllWellFormed (reconcile_all cal db now).0
  unfolding reconcile_all
  reconcile_all-AllWellFormed db now v = reconcile_each-AllWellFormed db.tasks db now 0 v

unblock-AllWellFormed :
    (db : Db) (o : Option TaskDue) (now : Instant)
    → Keeps o
    → AllWellFormed db
    → AllWellFormed (unblock db o now)
unfolding unblock
unblock-AllWellFormed db none now k v = v
unblock-AllWellFormed db (some d) now k v =
    if_cases AllWellFormed (is_blocked d.status || is_exhausted d.status)
      (λ _.
        put_by-All (λ d. d.task_id) IsWellFormed (record (rearm d) { updated_at = now }) db.dues
          (ground arith) v)
      (λ _. v)

pub on_task_edited-AllWellFormed :
    (db : Db) (task : Task) (schedule_changed : Bool) (now : Instant)
    → AllWellFormed db
    → AllWellFormed (on_task_edited db task schedule_changed now)
unfolding on_task_edited new_generation
on_task_edited-AllWellFormed db task schedule_changed now v =
    if_cases AllWellFormed (schedule_changed || not task.enabled)
      (λ _. delete_by-All (λ d. d.task_id) IsWellFormed task.id db.dues v)
      (λ _. unblock-AllWellFormed db (get_due db task.id) now (get_due-Keeps db task.id v) v)

pub forget_task-AllWellFormed :
    (db : Db) (id : ℕ) → AllWellFormed db → AllWellFormed (forget_task db id)
unfolding forget_task
forget_task-AllWellFormed db id v = delete_by-All (λ d. d.task_id) IsWellFormed id db.dues v
