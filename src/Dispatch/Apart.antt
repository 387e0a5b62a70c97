-- ===== src/Dispatch/Apart.antt =====
-- What it means that active runs are apart, and that a pass of services/dispatcher.py knows what they
-- need.
use pullbackup.Base.{
  ℕ, ◌≡◌, ◌⊎◌, inl, inr, refl, ap, Bool, true, false, not, ◌&&◌, List, [], ◌∷◌, ◌++◌, Option, none,
  some, ◌==◌, nat_comparable, text_comparable, All, arith,
}
use pullbackup.Models.{Task, Run, Db, is_active}
use pullbackup.Destination.{Parts}
use pullbackup.Destination.Keys.{conflicts}
use pullbackup.Destination.Containment.{Among}
use pullbackup.Due.Settle.{get_task}
use pullbackup.Auth.Store.Sub.{All-snoc}
use pullbackup.Dispatch.{Environment, Pass, get_source, member, cons_key, clashes, exclusion_key}

module _ (env : Environment) (db : Db) where
  -- The key by which a run of the task excludes others.
  unfoldable pub run_key : Task → Option Parts
  run_key task = elim (get_source db task.source_id) [
    | none ↦ none
    | some source ↦ exclusion_key env task source
  ]

  -- Runs of these tasks may be active together.
  abbrev pub tasks_apart : Option Task → Option Task → Bool
  tasks_apart none t = true
  tasks_apart (some s) none = true
  tasks_apart (some s) (some t) =
      not (s.source_id == t.source_id) && not (clashes (run_key t) (cons_key (run_key s) []))

  -- One of the runs is over, or they may be active together.
  abbrev pub RunsApart : Run → Run → Type 0
  RunsApart older newer =
      (is_active older.state ≡ false)
      ⊎ (is_active newer.state ≡ false)
      ⊎ (tasks_apart (get_task db older.task_id) (get_task db newer.task_id) ≡ true)

  abbrev pub AllApart : List Run → Type 0
  AllApart [] = Unit {0}
  AllApart (run ∷ runs) = All (RunsApart run) runs × AllApart runs

  pub AllApart-snoc :
      (runs : List Run) (newer : Run)
      → AllApart runs
      → All (λ older. RunsApart older newer) runs
      → AllApart (runs ++ newer ∷ [])
  AllApart-snoc [] newer apart h = (tt, tt)
  AllApart-snoc (run ∷ runs) newer apart h =
      (All-snoc (RunsApart run) runs newer apart.0 h.0, AllApart-snoc runs newer apart.1 h.1)

  -- The key, if there is one, is in the list.
  abbrev pub KeyAmong : Option Parts → List Parts → Type 0
  KeyAmong none keys = Unit {0}
  KeyAmong (some key) keys = Among key keys

  -- What a task needs is marked as taken.
  abbrev pub Covered : List ℕ → List Parts → Option Task → Type 0
  Covered sources dests none = Unit {0}
  Covered sources dests (some task) =
      (member task.source_id sources ≡ true) × KeyAmong (run_key task) dests

  abbrev pub CoveredRun : List ℕ → List Parts → Run → Type 0
  CoveredRun sources dests run =
      (is_active run.state ≡ false) ⊎ Covered sources dests (get_task db run.task_id)

  pub KeyAmong-cons :
      (o more : Option Parts) (keys : List Parts)
      → KeyAmong o keys
      → KeyAmong o (cons_key more keys)
  KeyAmong-cons none more keys h = tt
  KeyAmong-cons (some key) none keys h = h
  KeyAmong-cons (some key) (some k) keys h = inr h

  pub KeyAmong-head : (o : Option Parts) (keys : List Parts) → KeyAmong o (cons_key o keys)
  KeyAmong-head none keys = tt
  KeyAmong-head (some key) keys = inl refl

  pub Covered-more :
      (sources : List ℕ) (dests : List Parts) (source : ℕ) (key : Option Parts) (o : Option Task)
      → Covered sources dests o
      → Covered (source ∷ sources) (cons_key key dests) o
  Covered-more sources dests source key none h = tt
  Covered-more sources dests source key (some task) h =
      (ground (arith, h.0), KeyAmong-cons (run_key task) key dests h.1)

  pub CoveredRun-more :
      (sources : List ℕ) (dests : List Parts) (source : ℕ) (key : Option Parts) (run : Run)
      → CoveredRun sources dests run
      → CoveredRun (source ∷ sources) (cons_key key dests) run
  CoveredRun-more sources dests source key run (inl over) = inl over
  CoveredRun-more sources dests source key run (inr h) =
      inr (Covered-more sources dests source key (get_task db run.task_id) h)

  pub clashes-Among :
      (key : Option Parts) (k : Parts) (held more : List Parts)
      → clashes key (held ++ more) ≡ false
      → Among k held
      → clashes key (k ∷ []) ≡ false
  unfolding clashes
  clashes-Among none k held more h a = refl
  clashes-Among (some key) k [] more h a = absurd a
  clashes-Among (some key) k (x ∷ held) more h (inl same) = ground (arith, ap (conflicts key) same)
  clashes-Among (some key) k (x ∷ held) more h (inr later) =
      clashes-Among (some key) k held more (ground arith) later

-- The pass knows what the active runs need, and they do not overlap.
abbrev pub HeldIn : Environment → Db → List ℕ → List Parts → Type 0
HeldIn env db sources dests =
    All (CoveredRun env db sources dests) db.runs × AllApart env db db.runs

abbrev pub Held : Environment → Pass → Type 0
Held env p = HeldIn env p.db p.active_sources p.dests
