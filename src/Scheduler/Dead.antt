-- ===== src/Scheduler/Dead.antt =====
-- The changes of services/scheduler.py against a token that is dead.
use pullbackup.Base.{
  ℕ, ◌<◌, ◌≡◌, ◌⊎◌, inl, inr, refl, sym, ◌∙◌, subst, String, true, false, not, ◌&&◌, List, [], ◌∷◌,
  some, ◌==◌, nat_comparable, if_cases,
}
use pullbackup.Models.{Instant, Task, Db}
use pullbackup.Schedule.{Calendar}
use pullbackup.Dispatch.{Environment}
use pullbackup.Scheduler.{
  Registry, Scheduler, pop_generation, drop_job, upsert_job, remove_task_job, register_enabled,
  beat, start, shutdown, is_stale, execute, job_id,
}
use pullbackup.Scheduler.Stale.{
  Change, edited, removed, started, beaten, stopped, apply_change, apply_changes, IsDead,
  same-IsDead, drop_job-SameTokens, stale_same, pop_generation-IsDead, register-IsDead,
}

module _ (registry : Registry) (cal : Calendar) (id token : ℕ) where
  abbrev Dead : Scheduler registry → Type 0
  Dead = IsDead registry id token

  -- A token that was made before is dead once its task is edited or removed, as is one that was.
  abbrev Doomed : ℕ → Scheduler registry → Type 0
  Doomed task_id s =
      (token < s.tokens) × (((task_id == id) ≡ true) ⊎ (is_stale registry id (some token) s ≡ true))

  dropped-Doomed :
      (task_id : ℕ) (job : String) (s : Scheduler registry)
      → Doomed task_id s
      → Doomed task_id (drop_job registry job s)
  dropped-Doomed task_id job s (made, why) =
      let same = drop_job-SameTokens registry id token job s in
      (subst (λ n. token < n) (sym same.1) made, still why)
    where
      still :
          ((task_id == id) ≡ true) ⊎ (is_stale registry id (some token) s ≡ true)
          → ((task_id == id) ≡ true)
            ⊎ (is_stale registry id (some token) (drop_job registry job s) ≡ true)
      still (inl own) = inl own
      still (inr stale) = inr (
          stale_same registry id token s (drop_job registry job s)
            (drop_job-SameTokens registry id token job s).0
          ∙ stale)

  upsert_job-Dead :
      (task : Task) (s : Scheduler registry)
      → Doomed task.id s
      → Dead (upsert_job registry cal task s)
  unfolding upsert_job
  upsert_job-Dead task s doomed =
      let dropped = drop_job registry (job_id task.id) s in
      let doom = dropped-Doomed task.id (job_id task.id) s doomed in
      let cleared = pop_generation-IsDead registry id token task.id dropped doom.0 doom.1 in
      if_cases Dead (not task.enabled) (λ _. cleared)
        (λ _.
          if_cases Dead (not (cal.parses task.cron)) (λ _. cleared)
            (λ _.
              register-IsDead registry id token task (pop_generation registry task.id dropped)
                cleared))

  remove_task_job-Dead :
      (task_id : ℕ) (s : Scheduler registry)
      → Doomed task_id s
      → Dead (remove_task_job registry task_id s)
  unfolding remove_task_job
  remove_task_job-Dead task_id s doomed =
      let popped = pop_generation registry task_id s in
      same-IsDead registry id token popped (drop_job registry (job_id task_id) popped)
        (drop_job-SameTokens registry id token (job_id task_id) popped)
        (pop_generation-IsDead registry id token task_id s doomed.0 doomed.1)

  register_enabled-Dead :
      (tasks : List Task) (s : Scheduler registry)
      → Dead s
      → Dead (register_enabled registry cal tasks s)
  unfolding register_enabled
  register_enabled-Dead [] s dead = dead
  register_enabled-Dead (t ∷ tasks) s dead = register_enabled-Dead tasks _ (
      if_cases Dead (t.enabled && cal.parses t.cron)
        (λ _. register-IsDead registry id token t s dead) (λ _. dead))

  start-Dead :
      (db : Db) (now : Instant) (s : Scheduler registry)
      → Dead s
      → Dead (start registry cal db now s)
  unfolding start beat
  start-Dead db now s dead =
      same-IsDead registry id token (register_enabled registry cal db.tasks s)
        (start registry cal db now s) (refl, refl) (register_enabled-Dead db.tasks s dead)

  apply_change-Dead :
      (c : Change) (s : Scheduler registry) → Dead s → Dead (apply_change registry cal c s)
  unfolding apply_change beat shutdown
  apply_change-Dead (edited task) s dead = upsert_job-Dead task s (dead.0, inr dead.1)
  apply_change-Dead (removed task_id) s dead = remove_task_job-Dead task_id s (dead.0, inr dead.1)
  apply_change-Dead (started db now) s dead = start-Dead db now s dead
  apply_change-Dead (beaten now) s dead =
      same-IsDead registry id token s (beat registry now s) (refl, refl) dead
  apply_change-Dead stopped s dead =
      if_cases Dead s.running
        (λ _. same-IsDead registry id token s (record s { running = false }) (refl, refl) dead)
        (λ _. dead)

  apply_changes-Dead :
      (cs : List Change) (s : Scheduler registry) → Dead s → Dead (apply_changes registry cal cs s)
  unfolding apply_changes
  apply_changes-Dead [] s dead = dead
  apply_changes-Dead (c ∷ cs) s dead = apply_changes-Dead cs _ (apply_change-Dead c s dead)

  -- The changes that replace or remove the jobs of the task.
  abbrev pub Replaces : Change → Type 0
  Replaces (edited task) = (task.id == id) ≡ true
  Replaces (removed task_id) = (task_id == id) ≡ true
  Replaces _ = ⊥

  replaced-Dead :
      (c : Change) (s : Scheduler registry)
      → Replaces c
      → token < s.tokens
      → Dead (apply_change registry cal c s)
  unfolding apply_change
  replaced-Dead (edited task) s own made = upsert_job-Dead task s (made, inl own)
  replaced-Dead (removed task_id) s own made = remove_task_job-Dead task_id s (made, inl own)
  replaced-Dead (started db now) s own made = absurd own
  replaced-Dead (beaten now) s own made = absurd own
  replaced-Dead stopped s own made = absurd own

  -- After an edit or a removal of a task, whatever changes follow, a callback of a job with a token that
  -- was made before leaves the tables as they are: no tick is recorded and no run is dispatched.
  pub execute_dead :
      (c : Change) (cs : List Change) (s : Scheduler registry) (env : Environment) (now : Instant)
      (db : Db)
      → Replaces c
      → token < s.tokens
      → execute registry cal env id (some token) now (apply_changes registry cal (c ∷ cs) s) db ≡ db
  unfolding execute apply_changes
  execute_dead c cs s env now db own made =
      rw (apply_changes-Dead cs (apply_change registry cal c s) (replaced-Dead c s own made)).1 refl
