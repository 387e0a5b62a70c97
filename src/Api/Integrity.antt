-- ===== src/Api/Integrity.antt =====
-- The requests of api/tasks.py and api/sources.py against the references between the tables.
pub mod Handlers
use pullbackup.Base.{
  ℕ, ◌≡◌, refl, ap, sym, ◌∙◌, subst, String, Bool, true, false, not, ◌&&◌, ◌||◌, List, [], ◌∷◌,
  Option, none, some, any, keep, is_some, is_none, ◌==◌, nat_comparable, text_comparable,
  if◌then◌else◌, if_cases, All, arith, Bool-cases, Option-cases, inl, inr,
}
use pullbackup.Models.{
  Instant, Source, Task, Run, TaskDue, Db, find_by, put_by, delete_by, find_by-key, is_active,
  find_by-All, delete_by-All,
}
use pullbackup.Due.Settle.{get_task, get_due, rearm, is_exhausted, is_blocked}
use pullbackup.Due.Edit.{new_generation, unblock, on_task_edited, forget_task}
use pullbackup.Due.Reconcile.{put_task, put_due, delete_due}
use pullbackup.Dispatch.{get_source, new_pending_run}
use pullbackup.Lifecycle.{Admission, admit_run, runs_for_source}
use pullbackup.Api.Linked.{
  HasTask, HasSource, IsLinked, All-imp, put_task-has, put_task-IsLinked, put_due-IsLinked,
  delete_due-IsLinked, add_run-IsLinked, put_source-IsLinked, deleted_others, kept_others,
  deleted_present,
}
use pullbackup.Api.Tasks.{delete_rows}
use pullbackup.Api.Sources.{
  SourceFields, accepts_source, source_of, create_source, update_source, delete_source,
}

-- The tables after a task and all that names it are deleted.
pub delete_rows-IsLinked : (db : Db) (id : ℕ) → IsLinked db → IsLinked (delete_rows db id)
unfolding delete_rows forget_task get_task get_source
delete_rows-IsLinked db id h = record {
  runs =
      All-imp (λ (r : Run) w. deleted_present (λ (t : Task). t.id) id r.task_id db.tasks w.1 w.0)
        (keep (λ (r : Run). not (r.task_id == id)) db.runs)
        (kept_others (λ (r : Run). r.task_id) (λ (r : Run). HasTask db r.task_id) id db.runs
          h.runs);
  tasks =
      delete_by-All (λ (t : Task). t.id) (λ (t : Task). HasSource db t.source_id) id db.tasks
        h.tasks;
  dues =
      All-imp
        (λ (d : TaskDue) w. deleted_present (λ (t : Task). t.id) id d.task_id db.tasks w.1 w.0)
        (delete_by (λ (d : TaskDue). d.task_id) id db.dues)
        (deleted_others (λ (d : TaskDue). d.task_id) (λ (d : TaskDue). HasTask db d.task_id) id
          db.dues h.dues);
}

none_of_source :
    (id : ℕ) (tasks : List Task)
    → any (λ (t : Task). t.source_id == id) tasks ≡ false
    → All (λ (t : Task). (id == t.source_id) ≡ false) tasks
none_of_source id [] h = tt
none_of_source id (t ∷ tasks) h = (ground arith, none_of_source id tasks (ground arith))

both : (P Q : Task → Type 0) (ts : List Task) → All P ts → All Q ts → All (λ t. P t × Q t) ts
both P Q [] p q = tt
both P Q (t ∷ ts) p q = ((p.0, q.0), both P Q ts p.1 q.1)

unused_source-IsLinked :
    (db : Db) (id : ℕ)
    → any (λ (t : Task). t.source_id == id) db.tasks ≡ false
    → IsLinked db
    → IsLinked (record db { sources = delete_by (λ (s : Source). s.id) id db.sources })
unfolding get_task get_source
unused_source-IsLinked db id unused h = record {
  runs = h.runs;
  tasks =
      All-imp
        (λ (t : Task) w. deleted_present (λ (s : Source). s.id) id t.source_id db.sources w.1 w.0)
        db.tasks
        (both (λ t. HasSource db t.source_id) (λ t. (id == t.source_id) ≡ false) db.tasks h.tasks
          (none_of_source id db.tasks unused));
  dues = h.dues;
}

pub delete_source-IsLinked : (id : ℕ) (db : Db) → IsLinked db → IsLinked (delete_source id db).0
unfolding delete_source
delete_source-IsLinked id db h =
    let L : Db × ℕ → Type 0 = λ r. IsLinked r.0 in
    if_cases L (is_none (get_source db id)) (λ _. h)
      (λ _.
        if_cases L (any (λ (t : Task). t.source_id == id) db.tasks) (λ _. h)
          (λ unused. unused_source-IsLinked db id unused h))

pub create_source-IsLinked :
    (f : SourceFields) (db : Db) → IsLinked db → IsLinked (create_source f db).0
unfolding create_source
create_source-IsLinked f db h =
    let L : Db × ℕ → Type 0 = λ r. IsLinked r.0 in
    if_cases L (not (accepts_source f)) (λ _. h)
      (λ _.
        if_cases L (any (λ (s : Source). s.name == f.name) db.sources) (λ _. h)
          (λ _. put_source-IsLinked db _ h))

pub update_source-IsLinked :
    (id : ℕ) (f : SourceFields) (db : Db) → IsLinked db → IsLinked (update_source id f db).0
unfolding update_source
update_source-IsLinked id f db h =
    let L : Db × ℕ → Type 0 = λ r. IsLinked r.0 in
    if_cases L (not (accepts_source f)) (λ _. h)
      (λ _.
        if_cases L (is_none (get_source db id)) (λ _. h)
          (λ _.
            if_cases L (any (runs_for_source db id) db.runs) (λ _. h)
              (λ _. put_source-IsLinked db (source_of id f) h)))

pub found_HasTask : (db : Db) (id : ℕ) (t : Task) → get_task db id ≡ some t → HasTask db t.id
unfolding get_task
found_HasTask db id t e =
    let own = find_by-key (λ (x : Task). x.id) id db.tasks t e in
    subst (λ k. is_some (find_by (λ (x : Task). x.id) k db.tasks) ≡ true) (sym own) (rw e refl)

pub admit_run-IsLinked :
    (db : Db) (id : ℕ) (now : Instant) → IsLinked db → IsLinked (admit_run db id now).0
unfolding admit_run new_pending_run
admit_run-IsLinked db id now h = elim (Option-cases (get_task db id)) [
  | inl gone ↦ rw (gone, admit_run) h
  | inr (task, e) ↦
      let L : Db × Admission → Type 0 = λ r. IsLinked r.0 in
      rw (e, admit_run)
        (if_cases L (any (λ (r : Run). r.task_id == task.id && is_active r.state) db.runs) (λ _. h)
          (λ _.
            if_cases L (any (runs_for_source db task.source_id) db.runs) (λ _. h)
              (λ _. add_run-IsLinked db _ (found_HasTask db id task e) h)))
]
