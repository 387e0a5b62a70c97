-- ===== src/Api/Locked/Edit.antt =====
-- An edit through api/tasks.py while a run of the task is active.
use pullbackup.Base.{
  ℕ, ◌≡◌, refl, sym, ◌∙◌, subst, String, Bool, true, false, not, ◌&&◌, ◌||◌, List, [], ◌∷◌, Option,
  none, some, ◌==◌, nat_comparable, if◌then◌else◌, if_cases, arith, Option-cases, inl, inr,
}
use pullbackup.Models.{Instant, Task, TaskDue, Db, find_by, find_by-put_by, find_by-key}
use pullbackup.Due.Settle.{get_task, get_due, is_exhausted, is_blocked}
use pullbackup.Due.Edit.{new_generation, unblock, on_task_edited}
use pullbackup.Due.Reconcile.{put_task}
use pullbackup.Kuma.Monitor.{is_rescheduled}
use pullbackup.Kuma.Monitor.Rows.{sync_kuma-Wrote}
use pullbackup.Scheduler.{Registry}
use pullbackup.Api.Payload.{TaskFields, accepts, unsafe_active_changes}
use pullbackup.Api.Tasks.{
  Services, Reply, Server, has_active_run, is_empty_names, edit_row, edit_tables, refreshed,
  publish, show, apply_edit, update_task,
}
use pullbackup.Api.Locked.{SameRun, fill-SameRun}

-- Any row that is stored for the task makes the same run.
abbrev pub KeepsRun : Task → Db → Type 0
KeepsRun t db = (row : Task) → get_task db t.id ≡ some row → SameRun t row

put_task-KeepsRun : (t u : Task) (db : Db) → SameRun t u → KeepsRun t (put_task db u)
unfolding get_task
put_task-KeepsRun t u db same row e =
    let found = find_by-put_by (λ (x : Task). x.id) t.id u db.tasks in
    let own : (u.id == t.id) ≡ true = (nat_comparable.same_iff u.id t.id).1 same.id in
    subst (SameRun t) (first_found (u.id == t.id) u _ row own (sym found ∙ e)) same
  where
    first_found :
        (b : Bool) (a : Task) (o : Option Task) (row : Task)
        → b ≡ true
        → (if b then some a else o) ≡ some row
        → a ≡ row
    first_found true a o row h e = cc
    first_found false a o row h e = cc

monitored-SameRun :
    (t u : Task) (monitor : Option ℕ) (token : Option String)
    → SameRun t u
    → SameRun t (record u { kuma_monitor_id = monitor; kuma_push_token = token })
monitored-SameRun t u monitor token s = record {
  id = s.id;
  source_id = s.source_id;
  remote_path = s.remote_path;
  local_path = s.local_path;
  task_type = s.task_type;
  rsync = s.rsync;
  syncoid = s.syncoid;
}

rebased-SameRun :
    (t u : Task) (now : Instant)
    → SameRun t u
    → SameRun t (record u { schedule_baseline_at = some now; schedule_epoch_at = some now })
rebased-SameRun t u now s = record {
  id = s.id;
  source_id = s.source_id;
  remote_path = s.remote_path;
  local_path = s.local_path;
  task_type = s.task_type;
  rsync = s.rsync;
  syncoid = s.syncoid;
}

edit_row-SameRun :
    (t : Task) (f : TaskFields) (now : Instant)
    → unsafe_active_changes t f ≡ []
    → SameRun t (edit_row t f now)
unfolding edit_row
edit_row-SameRun t f now h =
    let s = fill-SameRun t f h in
    record {
      id = s.id;
      source_id = s.source_id;
      remote_path = s.remote_path;
      local_path = s.local_path;
      task_type = s.task_type;
      rsync = s.rsync;
      syncoid = s.syncoid;
    }

unblock-KeepsRun :
    (t : Task) (db : Db) (o : Option TaskDue) (now : Instant)
    → KeepsRun t db
    → KeepsRun t (unblock db o now)
unfolding unblock get_task
unblock-KeepsRun t db none now h = h
unblock-KeepsRun t db (some row) now h =
    if_cases (KeepsRun t) (is_blocked row.status || is_exhausted row.status) (λ _. h) (λ _. h)

edit_tables-KeepsRun :
    (db : Db) (t : Task) (f : TaskFields) (now : Instant)
    → unsafe_active_changes t f ≡ []
    → KeepsRun t (edit_tables db t f now)
unfolding edit_tables on_task_edited new_generation get_task
edit_tables-KeepsRun db t f now h =
    let edited = edit_row t f now in
    let same = edit_row-SameRun t f now h in
    if_cases (KeepsRun t) (is_rescheduled edited t.cron t.enabled || not edited.enabled)
      (λ _. put_task-KeepsRun t _ (put_task db edited) (rebased-SameRun t edited now same))
      (λ _.
        unblock-KeepsRun t (put_task db edited) (get_due (put_task db edited) edited.id) now
          (put_task-KeepsRun t edited db same))

refreshed-SameRun :
    (t u : Task) (db : Db) → SameRun t u → KeepsRun t db → SameRun t (refreshed db u)
unfolding refreshed
refreshed-SameRun t u db same keeps = elim (Option-cases (get_task db u.id)) [
  | inl e ↦ rw (e, refreshed) same
  | inr (row, e) ↦ rw (e, refreshed) (keeps row (subst (λ k. get_task db k ≡ some row) same.id e))
]

none_unsafe : (names : List String) → not (is_empty_names names) ≡ false → names ≡ []
none_unsafe [] h = refl
none_unsafe (name ∷ names) h = cc

same_found : {t row : Task} → some t ≡ some row → t ≡ row
same_found h = cc

self-SameRun : (t : Task) → SameRun t t
self-SameRun t = record {
  id = refl;
  source_id = refl;
  remote_path = refl;
  local_path = refl;
  task_type = refl;
  rsync = refl;
  syncoid = refl;
}

module _ (registry : Registry) (v : Services) where
  publish-KeepsRun :
      (t u : Task) (prev_cron : String) (prev_enabled : Bool) (now clock : Instant)
      (s : Server registry)
      → SameRun t u
      → KeepsRun t s.db
      → KeepsRun t (publish registry v u prev_cron prev_enabled now clock s).db
  unfolding publish
  publish-KeepsRun t u prev_cron prev_enabled now clock s same keeps =
      elim (sync_kuma-Wrote v.calendar v.croniter v.isoformat v.push v.client now clock s.db u
        s.memory prev_cron prev_enabled) [
          | inl e ↦ subst (KeepsRun t) (sym e) keeps
          | inr (monitor, token, e) ↦
              subst (KeepsRun t) (sym e)
                (put_task-KeepsRun t _ s.db (monitored-SameRun t u monitor token same))
        ]

  unchanged-KeepsRun : (db : Db) (id : ℕ) (t : Task) → get_task db id ≡ some t → KeepsRun t db
  unfolding get_task
  unchanged-KeepsRun db id t e row h =
      let own = find_by-key (λ (x : Task). x.id) id db.tasks t e in
      subst (SameRun t)
        (same_found (sym e ∙ subst (λ k. find_by (λ (x : Task). x.id) k db.tasks ≡ some row) own h))
        (self-SameRun t)

  apply_edit-KeepsRun :
      (t : Task) (f : TaskFields) (now clock : Instant) (s : Server registry)
      → unsafe_active_changes t f ≡ []
      → KeepsRun t (apply_edit registry v t f now clock s).0.db
  unfolding apply_edit show
  apply_edit-KeepsRun t f now clock s h =
      let db = edit_tables s.db t f now in
      let keeps = edit_tables-KeepsRun s.db t f now h in
      publish-KeepsRun t (refreshed db (edit_row t f now)) t.cron t.enabled now clock
        (record s { db = db; woken = true })
        (refreshed-SameRun t (edit_row t f now) db (edit_row-SameRun t f now h) keeps) keeps

  -- While a run of the task is active, an edit, whether it is accepted or refused, leaves all that a run
  -- is made from as it was: the source, both paths, the type, and the options of rsync and syncoid.
  pub update_task-KeepsRun :
      (id : ℕ) (t : Task) (f : TaskFields) (now clock : Instant) (s : Server registry)
      → get_task s.db id ≡ some t
      → has_active_run s.db id ≡ true
      → KeepsRun t (update_task registry v id f now clock s).0.db
  unfolding update_task
  update_task-KeepsRun id t f now clock s found active =
      let K : Server registry × Reply → Type 0 = λ r. KeepsRun t r.0.db in
      let as_before = unchanged-KeepsRun s.db id t found in
      rw (found, update_task)
        (if_cases K (not (accepts v.environment f)) (λ _. as_before)
          (λ _.
            if_cases K (has_active_run s.db id && not (is_empty_names (unsafe_active_changes t f)))
              (λ _. as_before)
              (λ safe.
                apply_edit-KeepsRun t f now clock s
                  (none_unsafe (unsafe_active_changes t f) (ground arith)))))
