-- ===== src/Api/Integrity/Handlers.antt =====
-- The handlers of api/tasks.py against the references between the tables.
use pullbackup.Base.{
  ℕ, ◌≡◌, refl, sym, subst, String, Bool, true, false, not, ◌&&◌, ◌||◌, Option, none, some, is_some,
  is_none, nat_comparable, if_cases, Option-cases, inl, inr,
}
use pullbackup.Models.{Instant, Source, Task, TaskDue, Db, find_by, find_by-All, find_by-key}
use pullbackup.Due.Settle.{get_task, get_due, is_exhausted, is_blocked}
use pullbackup.Due.Edit.{new_generation, unblock, on_task_edited}
use pullbackup.Due.Reconcile.{put_task}
use pullbackup.Dispatch.{get_source}
use pullbackup.Kuma.Monitor.{is_rescheduled}
use pullbackup.Kuma.Monitor.Rows.{sync_kuma-Wrote}
use pullbackup.Scheduler.{Registry}
use pullbackup.Api.Linked.{
  HasTask, HasSource, IsLinked, put_task-has, put_task-IsLinked, put_due-IsLinked,
  delete_due-IsLinked,
}
use pullbackup.Api.Integrity.{delete_rows-IsLinked, admit_run-IsLinked}
use pullbackup.Api.Payload.{TaskFields, accepts, fill, unsafe_active_changes}
use pullbackup.Api.Tasks.{
  Services, Reply, Server, edit_row, edit_tables, publish, show, create_task, apply_edit,
  update_task, delete_task, run_now, new_task, next_task_id, has_active_run, is_empty_names,
  refreshed,
}

not_none : {A : Type 0} (o : Option A) → is_none o ≡ false → is_some o ≡ true
not_none none h = cc
not_none (some a) h = refl

unblock-IsLinked :
    (db : Db) (t : Task) (now : Instant)
    → HasTask db t.id
    → IsLinked db
    → IsLinked (unblock db (get_due db t.id) now)
unfolding unblock get_due
unblock-IsLinked db t now has h = elim (Option-cases (get_due db t.id)) [
  | inl e ↦ rw (e, unblock) h
  | inr (row, e) ↦
      let own = find_by-key (λ (d : TaskDue). d.task_id) t.id db.dues row e in
      rw (e, unblock)
        (if_cases IsLinked (is_blocked row.status || is_exhausted row.status)
          (λ _. put_due-IsLinked db _ (subst (HasTask db) (sym own) has) h) (λ _. h))
]

edit_tables-IsLinked :
    (db : Db) (t : Task) (f : TaskFields) (now : Instant)
    → HasSource db f.source_id
    → IsLinked db
    → IsLinked (edit_tables db t f now)
unfolding edit_tables on_task_edited new_generation edit_row fill get_source
edit_tables-IsLinked db t f now source h =
    let edited = edit_row t f now in
    let stored = put_task-IsLinked db edited source h in
    if_cases IsLinked (is_rescheduled edited t.cron t.enabled || not edited.enabled)
      (λ _. delete_due-IsLinked _ t.id (put_task-IsLinked (put_task db edited) _ source stored))
      (λ _. unblock-IsLinked (put_task db edited) edited now (put_task-has db edited) stored)

-- The source of a row that was refreshed.
refreshed_source :
    (db : Db) (t : Task)
    → IsLinked db
    → HasSource db t.source_id
    → HasSource db (refreshed db t).source_id
unfolding refreshed get_task
refreshed_source db t h source = elim (Option-cases (get_task db t.id)) [
  | inl e ↦ rw (e, refreshed) source
  | inr (row, e) ↦
      rw (e, refreshed)
        (find_by-All (λ (x : Task). x.id) (λ (x : Task). HasSource db x.source_id) t.id db.tasks row
          h.tasks e)
]

unblock_sources :
    (db : Db) (o : Option TaskDue) (now : Instant) → (unblock db o now).sources ≡ db.sources
unfolding unblock
unblock_sources db none now = refl
unblock_sources db (some row) now =
    if_cases (λ (d : Db). d.sources ≡ db.sources) (is_blocked row.status || is_exhausted row.status)
      (λ _. refl) (λ _. refl)

edited_source :
    (db : Db) (t : Task) (f : TaskFields) (now : Instant)
    → HasSource db f.source_id
    → HasSource (edit_tables db t f now) (edit_row t f now).source_id
unfolding edit_tables on_task_edited new_generation edit_row fill get_source
edited_source db t f now source =
    let edited = edit_row t f now in
    let stored = put_task db edited in
    if_cases (λ (d : Db). HasSource d f.source_id)
      (is_rescheduled edited t.cron t.enabled || not edited.enabled) (λ _. source)
      (λ _.
        subst (λ l. is_some (find_by (λ (s : Source). s.id) f.source_id l) ≡ true)
          (sym (unblock_sources stored (get_due stored edited.id) now)) source)

module _ (registry : Registry) (v : Services) where
  publish-IsLinked :
      (t : Task) (prev_cron : String) (prev_enabled : Bool) (now clock : Instant)
      (s : Server registry)
      → HasSource s.db t.source_id
      → IsLinked s.db
      → IsLinked (publish registry v t prev_cron prev_enabled now clock s).db
  unfolding publish
  publish-IsLinked t prev_cron prev_enabled now clock s source h =
      elim (sync_kuma-Wrote v.calendar v.croniter v.isoformat v.push v.client now clock s.db t
        s.memory prev_cron prev_enabled) [
          | inl same ↦ subst IsLinked (sym same) h
          | inr (monitor, token, e) ↦ subst IsLinked (sym e) (put_task-IsLinked s.db _ source h)
        ]

  pub create_task-IsLinked :
      (f : TaskFields) (now clock : Instant) (s : Server registry)
      → IsLinked s.db
      → IsLinked (create_task registry v f now clock s).0.db
  unfolding create_task new_task show get_source
  create_task-IsLinked f now clock s h =
      let L : Server registry × Reply → Type 0 = λ r. IsLinked r.0.db in
      let t = new_task (next_task_id s.db.tasks) f now in
      if_cases L (not (accepts v.environment f)) (λ _. h)
        (λ _.
          if_cases L (is_none (get_source s.db f.source_id)) (λ _. h)
            (λ found.
              let source = not_none (get_source s.db f.source_id) found in
              let stored = put_task-IsLinked s.db t source h in
              publish-IsLinked t "" true now clock (record s { db = put_task s.db t }) source
                stored))

  apply_edit-IsLinked :
      (t : Task) (f : TaskFields) (now clock : Instant) (s : Server registry)
      → HasSource s.db f.source_id
      → IsLinked s.db
      → IsLinked (apply_edit registry v t f now clock s).0.db
  unfolding apply_edit show
  apply_edit-IsLinked t f now clock s source h =
      let db = edit_tables s.db t f now in
      let linked = edit_tables-IsLinked s.db t f now source h in
      publish-IsLinked (refreshed db (edit_row t f now)) t.cron t.enabled now clock
        (record s { db = db; woken = true })
        (refreshed_source db (edit_row t f now) linked (edited_source s.db t f now source)) linked

  pub update_task-IsLinked :
      (id : ℕ) (f : TaskFields) (now clock : Instant) (s : Server registry)
      → HasSource s.db f.source_id
      → IsLinked s.db
      → IsLinked (update_task registry v id f now clock s).0.db
  unfolding update_task
  update_task-IsLinked id f now clock s source h = elim (Option-cases (get_task s.db id)) [
    | inl e ↦ rw (e, update_task) (if_cases L (not (accepts v.environment f)) (λ _. h) (λ _. h))
    | inr (t, e) ↦
        rw (e, update_task)
          (if_cases L (not (accepts v.environment f)) (λ _. h)
            (λ _.
              if_cases L
                (has_active_run s.db id && not (is_empty_names (unsafe_active_changes t f)))
                (λ _. h) (λ _. apply_edit-IsLinked t f now clock s source h)))
  ]
    where
      L : Server registry × Reply → Type 0
      L r = IsLinked r.0.db

  pub delete_task-IsLinked :
      (id : ℕ) (s : Server registry) → IsLinked s.db → IsLinked (delete_task registry id s).0.db
  unfolding delete_task
  delete_task-IsLinked id s h = elim (Option-cases (get_task s.db id)) [
    | inl e ↦ rw (e, delete_task) h
    | inr (t, e) ↦
        rw (e, delete_task)
          (if_cases (λ (r : Server registry × Reply). IsLinked r.0.db) (has_active_run s.db id)
            (λ _. h) (λ _. delete_rows-IsLinked s.db id h))
  ]

  pub run_now-IsLinked :
      (id : ℕ) (now : Instant) (s : Server registry)
      → IsLinked s.db
      → IsLinked (run_now registry id now s).0.db
  unfolding run_now
  run_now-IsLinked id now s h =
      if_cases (λ (r : Server registry × Reply). IsLinked r.0.db) (is_none (get_task s.db id))
        (λ _. h) (λ _. admit_run-IsLinked s.db id now h)
