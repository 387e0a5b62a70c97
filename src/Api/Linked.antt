-- ===== src/Api/Linked.antt =====
-- References between the tables: a run and an obligation name a task that is there, a task a source.
-- SQLite does not enforce them here.
use pullbackup.Base.{
  ℕ, ◌≡◌, refl, sym, subst, Bool, true, false, not, List, [], ◌∷◌, ◌++◌, Option, none, some, keep,
  is_some, ◌==◌, nat_comparable, if◌then◌else◌, All, arith, Bool-cases, inl, inr,
}
use pullbackup.Models.{
  Source, Task, Run, TaskDue, Db, find_by, put_by, delete_by, find_by-put_by, find_by-delete_by,
  put_by-All, delete_by-All,
}
use pullbackup.Due.Settle.{get_task}
use pullbackup.Due.Reconcile.{put_task, put_due, delete_due}
use pullbackup.Dispatch.{get_source}

abbrev pub HasTask : Db → ℕ → Type 0
HasTask db id = is_some (get_task db id) ≡ true

abbrev pub HasSource : Db → ℕ → Type 0
HasSource db id = is_some (get_source db id) ≡ true

pub record IsLinked (db : Db) : Type 0 where
  pub runs : All (λ (r : Run). HasTask db r.task_id) db.runs
  pub tasks : All (λ (t : Task). HasSource db t.source_id) db.tasks
  pub dues : All (λ (d : TaskDue). HasTask db d.task_id) db.dues

pub All-imp :
    {A : Type 0} {P Q : A → Type 0} → ((x : A) → P x → Q x) → (xs : List A) → All P xs → All Q xs
All-imp f [] h = tt
All-imp f (x ∷ xs) h = (f x h.0, All-imp f xs h.1)

either_present :
    {A : Type 0} (b : Bool) (a : A) (o : Option A)
    → is_some o ≡ true
    → is_some (if b then some a else o) ≡ true
either_present true a o h = refl
either_present false a o h = h

first_present :
    {A : Type 0} (b : Bool) (a : A) (o : Option A)
    → b ≡ true
    → is_some (if b then some a else o) ≡ true
first_present true a o h = refl
first_present false a o h = cc

put_task-HasTask : (db : Db) (t : Task) (id : ℕ) → HasTask db id → HasTask (put_task db t) id
unfolding get_task
put_task-HasTask db t id h =
    subst (λ (o : Option Task). is_some o ≡ true)
      (sym (find_by-put_by (λ (x : Task). x.id) id t db.tasks)) (either_present (t.id == id) t _ h)

pub put_task-has : (db : Db) (t : Task) → HasTask (put_task db t) t.id
unfolding get_task
put_task-has db t =
    subst (λ (o : Option Task). is_some o ≡ true)
      (sym (find_by-put_by (λ (x : Task). x.id) t.id t db.tasks))
      (first_present (t.id == t.id) t _ (ground arith))

-- A task with a source is stored.
pub put_task-IsLinked :
    (db : Db) (t : Task) → HasSource db t.source_id → IsLinked db → IsLinked (put_task db t)
unfolding get_source
put_task-IsLinked db t source h = record {
  runs = All-imp (λ r. put_task-HasTask db t r.task_id) db.runs h.runs;
  tasks =
      put_by-All (λ (x : Task). x.id) (λ (x : Task). HasSource db x.source_id) t db.tasks source
        h.tasks;
  dues = All-imp (λ d. put_task-HasTask db t d.task_id) db.dues h.dues;
}

pub put_due-IsLinked :
    (db : Db) (d : TaskDue) → HasTask db d.task_id → IsLinked db → IsLinked (put_due db d)
unfolding get_source get_task
put_due-IsLinked db d has h = record {
  runs = h.runs;
  tasks = h.tasks;
  dues =
      put_by-All (λ (x : TaskDue). x.task_id) (λ (x : TaskDue). HasTask db x.task_id) d db.dues has
        h.dues;
}

pub delete_due-IsLinked : (db : Db) (id : ℕ) → IsLinked db → IsLinked (delete_due db id)
unfolding get_source get_task
delete_due-IsLinked db id h = record {
  runs = h.runs;
  tasks = h.tasks;
  dues =
      delete_by-All (λ (x : TaskDue). x.task_id) (λ (x : TaskDue). HasTask db x.task_id) id db.dues
        h.dues;
}

-- A run of a task is added.
pub add_run-IsLinked :
    (db : Db) (r : Run)
    → HasTask db r.task_id
    → IsLinked db
    → IsLinked (record db { runs = db.runs ++ r ∷ [] })
unfolding get_source get_task
add_run-IsLinked db r has h = record { runs = snoc db.runs h.runs; tasks = h.tasks; dues = h.dues }
  where
    snoc :
        (rs : List Run)
        → All (λ (x : Run). HasTask db x.task_id) rs
        → All (λ (x : Run). HasTask db x.task_id) (rs ++ r ∷ [])
    snoc [] a = (has, tt)
    snoc (x ∷ rs) a = (a.0, snoc rs a.1)

-- A source is stored.
pub put_source-IsLinked :
    (db : Db) (s : Source)
    → IsLinked db
    → IsLinked (record db { sources = put_by (λ (x : Source). x.id) s db.sources })
unfolding get_source get_task
put_source-IsLinked db s h = record {
  runs = h.runs;
  tasks =
      All-imp
        (λ (t : Task) (old : HasSource db t.source_id).
          subst (λ (o : Option Source). is_some o ≡ true)
            (sym (find_by-put_by (λ (x : Source). x.id) t.source_id s db.sources))
            (either_present (s.id == t.source_id) s _ old))
        db.tasks h.tasks;
  dues = h.dues;
}

-- The rows that a deletion by key keeps have another key.
pub deleted_others :
    {A : Type 0} (key : A → ℕ) (P : A → Type 0) (id : ℕ) (xs : List A)
    → All P xs
    → All (λ x. P x × ((id == key x) ≡ false)) (delete_by key id xs)
unfolding delete_by
deleted_others key P id [] h = tt
deleted_others key P id (x ∷ xs) h = elim (Bool-cases (key x == id)) [
  | inl same ↦ rw same (deleted_others key P id xs h.1)
  | inr other ↦ rw other ((h.0, ground arith), deleted_others key P id xs h.1)
]

pub kept_others :
    {A : Type 0} (key : A → ℕ) (P : A → Type 0) (id : ℕ) (xs : List A)
    → All P xs
    → All (λ x. P x × ((id == key x) ≡ false)) (keep (λ x. not (key x == id)) xs)
kept_others key P id [] h = tt
kept_others key P id (x ∷ xs) h = elim (Bool-cases (key x == id)) [
  | inl same ↦ rw same (kept_others key P id xs h.1)
  | inr other ↦ rw other ((h.0, ground arith), kept_others key P id xs h.1)
]

still_present :
    {A : Type 0} (b : Bool) (o : Option A)
    → b ≡ false
    → is_some o ≡ true
    → is_some (if b then none else o) ≡ true
still_present true o h p = cc
still_present false o h p = p

-- A row of another key is still there.
pub deleted_present :
    {A : Type 0} (key : A → ℕ) (id k : ℕ) (xs : List A)
    → (id == k) ≡ false
    → is_some (find_by key k xs) ≡ true
    → is_some (find_by key k (delete_by key id xs)) ≡ true
deleted_present {A} key id k xs other h =
    subst (λ (o : Option A). is_some o ≡ true) (sym (find_by-delete_by key k id xs))
      (still_present (id == k) _ other h)
