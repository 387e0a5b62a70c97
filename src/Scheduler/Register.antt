-- ===== src/Scheduler/Register.antt =====
-- The job of a task after `upsert_job` of services/scheduler.py.
use pullbackup.Base.{
  ℕ, ◌≡◌, ◌⊎◌, inl, inr, ap, ◌∙◌, String, true, false, not, none, some, ◌==◌, nat_comparable,
  if_cases, arith, Option-cases,
}
use mathlib.Core.Bool.{true≢false}
use pullbackup.Models.{Task}
use pullbackup.Schedule.{Calendar}
use pullbackup.Scheduler.{
  Registry, Scheduler, tick, new_generation, pop_generation, drop_job, register, upsert_job,
  is_stale, job_id,
}
use pullbackup.Scheduler.Stale.{other_than, is_stale-other, generation_of-new}

module _ (registry : Registry) where
  -- The job of the task and its token, which the guard lets through.
  abbrev pub Ticks : Task → Scheduler registry → Type 0
  Ticks task s =
      (token : ℕ) × (registry.get_job (job_id task.id) s.jobs ≡ some (tick task.id token task.cron))
      × (is_stale registry task.id (some token) s ≡ false)

  register-Ticks : (task : Task) (s : Scheduler registry) → Ticks task (register registry task s)
  unfolding register is_stale
  register-Ticks task s = (
    s.tokens,
    registry.get_job-add_job (job_id task.id) (tick task.id s.tokens task.cron) s.jobs,
    is_stale-other registry task.id s.tokens (new_generation registry task.id s)
        ∙ ap (other_than registry task.id s.tokens)
            (generation_of-new registry task.id s.tokens task.id s)
        ∙ if_cases (λ o. other_than registry task.id s.tokens o ≡ false) (task.id == task.id)
            (λ _. ground arith) (λ no_. absurd (true≢false (ground arith))),
  )

  dropped_none :
      (job : String) (s : Scheduler registry)
      → registry.get_job job (drop_job registry job s).jobs ≡ none
  unfolding drop_job
  dropped_none job s = elim (Option-cases (registry.get_job job s.jobs)) [
    | inl missing ↦ rw (missing, drop_job) missing
    | inr (found, e) ↦ rw (e, drop_job) (registry.get_job-remove_job job s.jobs)
  ]

  -- An enabled task whose schedule parses has a job after its registration, for its schedule and with a
  -- token that is not stale; any other task has none.
  pub upsert_job-Ticks :
      (cal : Calendar) (task : Task) (s : Scheduler registry)
      → ((task.enabled ≡ true)
          × (cal.parses task.cron ≡ true)
          × Ticks task (upsert_job registry cal task s))
        ⊎ (((task.enabled ≡ false) ⊎ (cal.parses task.cron ≡ false))
            × (registry.get_job (job_id task.id) (upsert_job registry cal task s).jobs ≡ none))
  unfolding upsert_job pop_generation
  upsert_job-Ticks cal task s =
      let Q : Scheduler registry → Type 0 = λ r.
        ((task.enabled ≡ true) × (cal.parses task.cron ≡ true) × Ticks task r)
        ⊎ (((task.enabled ≡ false) ⊎ (cal.parses task.cron ≡ false))
            × (registry.get_job (job_id task.id) r.jobs ≡ none)) in
      if_cases Q (not task.enabled)
        (λ off. inr (inl (ground arith), dropped_none (job_id task.id) s))
        (λ on.
          if_cases Q (not (cal.parses task.cron))
            (λ bad. inr (inr (ground arith), dropped_none (job_id task.id) s))
            (λ good. inl (ground arith, ground arith, register-Ticks task _)))
