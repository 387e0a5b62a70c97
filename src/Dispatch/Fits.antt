-- ===== src/Dispatch/Fits.antt =====
-- A run that services/dispatcher.py may start, beside those that the pass knows.
use pullbackup.Base.{
  ℕ, ◌≡◌, inl, inr, refl, ap, sym, subst, true, false, List, [], ◌++◌, Option, none, some, ◌==◌,
  nat_comparable, text_comparable, arith, Bool-cases,
}
use pullbackup.Models.{Source, Task, Run, Db}
use pullbackup.Destination.{Parts}
use pullbackup.Due.Settle.{get_task}
use pullbackup.Dispatch.{
  Environment, Pass, get_source, member, cons_key, clashes, exclusion_key, reason_to_wait,
}
use pullbackup.Dispatch.Apart.{
  run_key, tasks_apart, RunsApart, KeyAmong, Covered, CoveredRun, clashes-Among,
}

module _ (env : Environment) where
  free_source :
      (p : Pass) (task : Task) (key : Option Parts)
      → reason_to_wait env p task key ≡ none
      → member task.source_id p.active_sources ≡ false
  unfolding reason_to_wait
  free_source p task key free = ground arith

  free_dest :
      (p : Pass) (task : Task) (key : Option Parts)
      → reason_to_wait env p task key ≡ none
      → clashes key (p.dests ++ p.claimed_dests) ≡ false
  unfolding reason_to_wait
  free_dest p task key free = ground arith

  other_source :
      (a b : ℕ) (sources : List ℕ)
      → member a sources ≡ true
      → member b sources ≡ false
      → (a == b) ≡ false
  other_source a b sources h k = elim (Bool-cases (a == b)) [
    | inl same ↦ let e : a ≡ b = ground arith in ground (arith, ap (λ n. member n sources) e)
    | inr other ↦ other
  ]

  clashes-nil : (key : Option Parts) → clashes key [] ≡ false
  unfolding clashes
  clashes-nil none = refl
  clashes-nil (some k) = refl

  key_apart :
      (db : Db) (key o : Option Parts) (held more : List Parts)
      → clashes key (held ++ more) ≡ false
      → KeyAmong env db o held
      → clashes key (cons_key o []) ≡ false
  key_apart db key none held more free h = clashes-nil key
  key_apart db key (some k) held more free h = clashes-Among env db key k held more free h

  pub run_key-found :
      (p : Pass) (task : Task) (source : Source)
      → get_source p.db task.source_id ≡ some source
      → run_key env p.db task ≡ exclusion_key env task source
  unfolding run_key
  run_key-found p task source found = rw (found, run_key) refl

  fits :
      (p : Pass) (task : Task) (source : Source) (o : Option Task)
      → reason_to_wait env p task (exclusion_key env task source) ≡ none
      → get_source p.db task.source_id ≡ some source
      → Covered env p.db p.active_sources p.dests o
      → tasks_apart env p.db o (some task) ≡ true
  fits p task source none free found h = refl
  fits p task source (some s) free found h =
      let key : run_key env p.db task ≡ exclusion_key env task source =
        run_key-found p task source found in
      let sources =
        other_source s.source_id task.source_id p.active_sources h.0 (free_source p task _ free) in
      let dests =
        key_apart p.db (exclusion_key env task source) (run_key env p.db s) p.dests p.claimed_dests
          (free_dest p task _ free) h.1 in
      let dests_of_task =
        subst (λ k. clashes k (cons_key (run_key env p.db s) []) ≡ false) (sym key) dests in
      ground arith

  pub run_fits :
      (p : Pass) (task : Task) (source : Source) (run newer : Run)
      → reason_to_wait env p task (exclusion_key env task source) ≡ none
      → get_source p.db task.source_id ≡ some source
      → get_task p.db newer.task_id ≡ some task
      → CoveredRun env p.db p.active_sources p.dests run
      → RunsApart env p.db run newer
  run_fits p task source run newer free found owner (inl over) = inl over
  run_fits p task source run newer free found owner (inr h) = inr (
      inr (
        subst (λ o. tasks_apart env p.db (get_task p.db run.task_id) o ≡ true) (sym owner)
          (fits p task source (get_task p.db run.task_id) free found h)))
