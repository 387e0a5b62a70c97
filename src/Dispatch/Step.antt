-- ===== src/Dispatch/Step.antt =====
-- The four things that a row of `dispatch_due` of services/dispatcher.py can lead to, as a way to
-- prove what every pass preserves.
use pullbackup.Base.{
  ℕ, ◌≡◌, inl, inr, sym, subst, true, false, not, ◌&&◌, List, [], ◌∷◌, none, some, nat_comparable,
  if_cases, arith, Option-cases,
}
use pullbackup.Models.{Instant, Source, Task, WaitReason, TaskDue, Db, find_by-key, delete_by}
use pullbackup.Due.Settle.{get_task}
use pullbackup.Dispatch.{
  Environment, Pass, get_source, exclusion_key, reason_to_wait, wait_row, start_row, admit_row,
  admit_owned, dispatch_row, dispatch_rows, is_startable, is_dispatched_row,
}

abbrev pub drop_row : Pass → TaskDue → Pass
drop_row p row = record p {
  db = record p.db { dues = delete_by (λ d. d.task_id) row.task_id p.db.dues };
}

pub get_task-id :
    (db : Db) (id : ℕ) (task : Task) → get_task db id ≡ some task → get_task db task.id ≡ some task
unfolding get_task
get_task-id db id task e =
    subst (λ k. get_task db k ≡ some task)
      (sym (find_by-key (λ (t : Task). t.id) id db.tasks task e)) e

module _ (env : Environment) where
  -- The circumstances in which a row starts.
  pub record Starts (p : Pass) (row : TaskDue) (task : Task) (source : Source) (now : Instant)
      : Type 0 where
    pub owner : get_task p.db row.task_id ≡ some task
    pub found : get_source p.db task.source_id ≡ some source
    pub enabled : task.enabled ≡ true
    pub startable : is_startable row now ≡ true
    pub free : reason_to_wait env p task (exclusion_key env task source) ≡ none

  in_force-enabled :
      (row : TaskDue) (task : Task) (now : Instant)
      → (not (is_dispatched_row row) && not task.enabled) ≡ false
      → is_startable row now ≡ true
      → task.enabled ≡ true
  unfolding is_startable
  in_force-enabled row task now in_force startable = ground arith

  module _ {κ} (P : Pass → Type κ) (p : Pass) (row : TaskDue) (now : Instant) where
    pub dispatch_row-cases :
        P p
        → P (drop_row p row)
        → ((task : Task) (source : Source) (reason : WaitReason)
            → reason_to_wait env p task (exclusion_key env task source) ≡ some reason
            → P (wait_row p row task (exclusion_key env task source) reason now))
        → ((task : Task) (source : Source)
            → Starts p row task source now
            → P (start_row p row task (exclusion_key env task source) now))
        → P (dispatch_row env p row now)
    unfolding dispatch_row admit_owned admit_row
    dispatch_row-cases kept dropped waits starts = elim (Option-cases (get_task p.db row.task_id)) [
      | inl e ↦ rw (e, dispatch_row) kept
      | inr (task, e) ↦
          rw (e, dispatch_row)
            (if_cases P (not (is_dispatched_row row) && not task.enabled) (λ _. dropped)
              (λ in_force.
                if_cases P (is_startable row now)
                  (λ startable.
                    owned task e startable (in_force-enabled row task now in_force startable))
                  (λ _. kept)))
    ]
      where
        admitted :
            (task : Task) (source : Source)
            → get_task p.db row.task_id ≡ some task
            → get_source p.db task.source_id ≡ some source
            → is_startable row now ≡ true
            → task.enabled ≡ true
            → P (admit_row env p row task source now)
        admitted task source e f startable enabled =
            elim (Option-cases (reason_to_wait env p task (exclusion_key env task source))) [
              | inl free ↦
                  rw (free, admit_row)
                    (starts task source (record {
                      owner = e;
                      found = f;
                      enabled = enabled;
                      startable = startable;
                      free = free;
                    }))
              | inr (reason, wait) ↦ rw (wait, admit_row) (waits task source reason wait)
            ]

        owned :
            (task : Task)
            → get_task p.db row.task_id ≡ some task
            → is_startable row now ≡ true
            → task.enabled ≡ true
            → P (admit_owned env p row task now)
        owned task e startable enabled = elim (Option-cases (get_source p.db task.source_id)) [
          | inl f ↦ rw (f, admit_owned) kept
          | inr (source, f) ↦ rw (f, admit_owned) (admitted task source e f startable enabled)
        ]

  pub dispatch_rows-preserve {κ} :
      (P : Pass → Type κ) (now : Instant)
      → ((p : Pass) (row : TaskDue) → P p → P (dispatch_row env p row now))
      → (p : Pass) (rows : List TaskDue) → P p
      → P (dispatch_rows env p rows now)
  unfolding dispatch_rows
  dispatch_rows-preserve P now step p [] h = h
  dispatch_rows-preserve P now step p (row ∷ rows) h =
      dispatch_rows-preserve P now step (dispatch_row env p row now) rows (step p row h)
