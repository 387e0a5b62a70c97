-- ===== src/Scheduler/Stale.antt =====
-- Callbacks of jobs that services/scheduler.py has replaced or removed since.
use pullbackup.Base.{
  ℕ, ◌<◌, ◌≡◌, ◌⊎◌, inl, inr, refl, ap, sym, ◌∙◌, subst, String, Bool, true, false, not, List, [],
  ◌∷◌, Option, none, some, ◌==◌, nat_comparable, if◌then◌else◌, if_cases, arith, Option-cases,
  Bool-cases,
}
use mathlib.Core.Bool.{true≢false}
use pullbackup.Models.{Instant, Task, Db, find_by-put_by, find_by-delete_by}
use pullbackup.Schedule.{Calendar}
use pullbackup.Scheduler.{
  Registry, Scheduler, Generation, generation_of, new_generation, pop_generation, drop_job,
  register, upsert_job, remove_task_job, beat, start, shutdown, is_stale,
}

-- What changes the module's state.
pub data Change : Type 0 where
  edited : Task → Change
  removed : ℕ → Change
  started : Db → Instant → Change
  beaten : Instant → Change
  stopped : Change

module _ (registry : Registry) (cal : Calendar) where
  unfoldable pub apply_change : Change → Scheduler registry → Scheduler registry
  apply_change (edited task) s = upsert_job registry cal task s
  apply_change (removed id) s = remove_task_job registry id s
  apply_change (started db now) s = start registry cal db now s
  apply_change (beaten now) s = beat registry now s
  apply_change stopped s = shutdown registry s

  unfoldable pub apply_changes : List Change → Scheduler registry → Scheduler registry
  unfolding apply_change
  apply_changes [] s = s
  apply_changes (c ∷ cs) s = apply_changes cs (apply_change c s)

module _ (registry : Registry) (id token : ℕ) where
  -- A token that was made and is not the task's.
  abbrev pub IsDead : Scheduler registry → Type 0
  IsDead s = (token < s.tokens) × (is_stale registry id (some token) s ≡ true)

  -- The staleness of a token, from the task's generation.
  abbrev pub other_than : Option ℕ → Bool
  other_than none = true
  other_than (some current) = not (current == token)

  pub is_stale-other :
      (s : Scheduler registry)
      → is_stale registry id (some token) s ≡ other_than (generation_of registry id s)
  unfolding is_stale
  is_stale-other s = elim (Option-cases (generation_of registry id s)) [
    | inl e ↦ rw (e, is_stale) refl
    | inr (g, e) ↦ rw (e, is_stale) refl
  ]

  more_tokens :
      (task_id : ℕ) (s : Scheduler registry)
      → token < s.tokens
      → token < (new_generation registry task_id s).tokens
  unfolding new_generation
  more_tokens task_id s made = omega arith

  pub generation_of-new :
      (task_id : ℕ) (s : Scheduler registry)
      → generation_of registry id (new_generation registry task_id s)
        ≡ (if task_id == id then some s.tokens else generation_of registry id s)
  unfolding generation_of new_generation
  generation_of-new task_id s =
      let g : Generation = record { task_id = task_id; token = s.tokens } in
      rw (find_by-put_by (λ (x : Generation). x.task_id) id g s.generations, generation_of)
        (elim (Bool-cases (task_id == id)) [ inl same ↦ rw same refl | inr other ↦ rw other refl ])

  generation_of-pop :
      (task_id : ℕ) (s : Scheduler registry)
      → generation_of registry id (pop_generation registry task_id s)
        ≡ (if task_id == id then none else generation_of registry id s)
  unfolding generation_of pop_generation
  generation_of-pop task_id s =
      rw (find_by-delete_by (λ (x : Generation). x.task_id) id task_id s.generations, generation_of)
        (elim (Bool-cases (task_id == id)) [ inl same ↦ rw same refl | inr other ↦ rw other refl ])

  -- A generation that is new, or gone, or the one that was, keeps a dead token dead.
  new_generation-IsDead :
      (task_id : ℕ) (s : Scheduler registry) → IsDead s → IsDead (new_generation registry task_id s)
  new_generation-IsDead task_id s (made, stale) = (
    more_tokens task_id s made,
    is_stale-other (new_generation registry task_id s)
        ∙ ap other_than (generation_of-new task_id s)
        ∙ if_cases (λ o. other_than o ≡ true) (task_id == id) (λ _. ground arith)
            (λ _. sym (is_stale-other s) ∙ stale),
  )

  pop_generation-stale :
      (task_id : ℕ) (s : Scheduler registry)
      → ((task_id == id) ≡ true) ⊎ (is_stale registry id (some token) s ≡ true)
      → is_stale registry id (some token) (pop_generation registry task_id s) ≡ true
  pop_generation-stale task_id s h =
      is_stale-other (pop_generation registry task_id s)
      ∙ ap other_than (generation_of-pop task_id s)
      ∙ if_cases (λ o. other_than o ≡ true) (task_id == id) (λ _. refl)
          (λ differ. sym (is_stale-other s) ∙ stale_of h differ)
    where
      stale_of :
          ((task_id == id) ≡ true) ⊎ (is_stale registry id (some token) s ≡ true)
          → (task_id == id) ≡ false
          → is_stale registry id (some token) s ≡ true
      stale_of (inl same) differ = absurd (true≢false (sym same ∙ differ))
      stale_of (inr stale) differ = stale

  -- States with the same generations and as many tokens.
  abbrev pub SameTokens : Scheduler registry → Scheduler registry → Type 0
  SameTokens s s' = (s'.generations ≡ s.generations) × (s'.tokens ≡ s.tokens)

  pub stale_same :
      (s s' : Scheduler registry)
      → s'.generations ≡ s.generations
      → is_stale registry id (some token) s' ≡ is_stale registry id (some token) s
  unfolding is_stale generation_of
  stale_same s s' same = rw (same, is_stale, generation_of) refl

  pub same-IsDead : (s s' : Scheduler registry) → SameTokens s s' → IsDead s → IsDead s'
  same-IsDead s s' (generations, tokens) (made, stale) =
      (subst (λ n. token < n) (sym tokens) made, stale_same s s' generations ∙ stale)

  pub drop_job-SameTokens :
      (job : String) (s : Scheduler registry) → SameTokens s (drop_job registry job s)
  unfolding drop_job
  drop_job-SameTokens job s = elim (Option-cases (registry.get_job job s.jobs)) [
    | inl missing ↦ rw (missing, drop_job) (refl, refl)
    | inr (found, e) ↦ rw (e, drop_job) (refl, refl)
  ]

  pub pop_generation-IsDead :
      (task_id : ℕ) (s : Scheduler registry)
      → token < s.tokens
      → ((task_id == id) ≡ true) ⊎ (is_stale registry id (some token) s ≡ true)
      → IsDead (pop_generation registry task_id s)
  unfolding pop_generation
  pop_generation-IsDead task_id s made h = (made, pop_generation-stale task_id s h)

  pub register-IsDead :
      (task : Task) (s : Scheduler registry) → IsDead s → IsDead (register registry task s)
  unfolding register
  register-IsDead task s dead =
      same-IsDead (new_generation registry task.id s) (register registry task s) (refl, refl)
        (new_generation-IsDead task.id s dead)
