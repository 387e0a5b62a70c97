-- ===== src/Scheduler.antt =====
-- backend/pullbackup/services/scheduler.py: the jobs that tick, and the heartbeat that shows that they do.
-- APScheduler's registry is a parameter, and the identity of an `object()` is a number that is new.
pub mod Stale
pub mod Dead
pub mod Register
pub mod Toy
mod Examples
use pullbackup.Base.{
  ℕ, suc, ◌+◌, ◌-◌, String, Bool, true, false, not, ◌&&◌, List, [], ◌∷◌, Option, none, some, ltb,
  leb, ◌*◌, ◌==◌, nat_comparable, if◌then◌else◌, ◌≡◌,
}
use pullbackup.Base.Text.{◌+s◌}
use pullbackup.Base.Words.{decimal}
use pullbackup.Models.{Instant, ℤ, pos, negsuc, seconds, Task, Db, find_by, put_by, delete_by}
use pullbackup.Schedule.{Calendar}
use pullbackup.Due.Reconcile.{record_tick}
use pullbackup.Dispatch.{Environment, dispatch_due}

-- A job that ticks for a task, with the token of its generation, and the two jobs of the process.
pub data Job : Type 0 where
  tick : ℕ → ℕ → String → Job
  heartbeat : ℕ → Job
  freshness_sweep : ℕ → Job

-- The registry, as APScheduler documents it: a job that is added with `replace_existing` is there, and a
-- job that is removed is not.
pub record Registry : Type 1 where
  pub Jobs : Type 0
  pub get_job : String → Jobs → Option Job
  pub add_job : String → Job → Jobs → Jobs
  pub remove_job : String → Jobs → Jobs
  pub next_run_time : String → Jobs → Option Instant
  pub get_job-add_job :
      (id : String) (job : Job) (jobs : Jobs) → get_job id (add_job id job jobs) ≡ some job
  pub get_job-remove_job : (id : String) (jobs : Jobs) → get_job id (remove_job id jobs) ≡ none

-- An entry of `_generations`.
pub record Generation : Type 0 where
  pub task_id : ℕ
  pub token : ℕ

abbrev pub heartbeat_interval_seconds : ℕ
heartbeat_interval_seconds = 60

abbrev pub stale_heartbeat_multiplier : ℕ
stale_heartbeat_multiplier = 3

abbrev pub sweep_interval_seconds : ℕ
sweep_interval_seconds = 300

-- `_job_id`
unfoldable pub job_id : ℕ → String
job_id task_id = "task-" +s decimal task_id

-- The two measures of `liveness` and the age of the last beat, which is negative for one that lies ahead.
pub record Liveness : Type 0 where
  pub running : Bool
  pub alive : Bool
  pub heartbeat_age : Option ℤ

unfoldable pub span : Instant → Instant → ℤ
span now beat = if leb beat now then pos (now - beat) else negsuc (beat - now - 1)

unfoldable pub liveness : Bool → Option Instant → Instant → Liveness
unfolding span
liveness running none now = record { running = running; alive = false; heartbeat_age = none }
liveness running (some beat) now = record {
  running = running;
  alive =
      running && ltb now (beat + seconds (heartbeat_interval_seconds * stale_heartbeat_multiplier));
  heartbeat_age = some (span now beat);
}

module _ (registry : Registry) where
  open registry use {Jobs, get_job, add_job, remove_job, next_run_time}

  -- The module's state; `tokens` have been made so far.
  pub record Scheduler : Type 0 where
    pub jobs : Jobs
    pub generations : List Generation
    pub tokens : ℕ
    pub running : Bool
    pub last_heartbeat : Option Instant

  unfoldable pub generation_of : ℕ → Scheduler → Option ℕ
  generation_of task_id s = elim (find_by (λ (g : Generation). g.task_id) task_id s.generations) [
    | none ↦ none
    | some g ↦ some g.token
  ]

  -- `_new_generation`, of which the token is `s.tokens`.
  unfoldable pub new_generation : ℕ → Scheduler → Scheduler
  new_generation task_id s = record s {
    generations =
        put_by (λ (g : Generation). g.task_id) (record { task_id = task_id; token = s.tokens })
          s.generations;
    tokens = suc s.tokens;
  }

  -- `_generations.pop(task_id, None)`
  unfoldable pub pop_generation : ℕ → Scheduler → Scheduler
  pop_generation task_id s = record s {
    generations = delete_by (λ (g : Generation). g.task_id) task_id s.generations;
  }

  -- `sched.remove_job(job_id) if sched.get_job(job_id)`
  unfoldable pub drop_job : String → Scheduler → Scheduler
  drop_job id s = elim (get_job id s.jobs) [
    | none ↦ s
    | some job ↦ record s { jobs = remove_job id s.jobs }
  ]

  -- `add_job` with a new generation.
  unfoldable pub register : Task → Scheduler → Scheduler
  unfolding new_generation job_id
  register task s =
      let fresh = new_generation task.id s in
      record fresh { jobs = add_job (job_id task.id) (tick task.id s.tokens task.cron) fresh.jobs }

  unfoldable pub upsert_job : Calendar → Task → Scheduler → Scheduler
  unfolding drop_job pop_generation register
  upsert_job cal task s =
      let cleared = pop_generation task.id (drop_job (job_id task.id) s) in
      if not task.enabled
      then cleared
      else if not (cal.parses task.cron)
      then cleared
      else register task cleared

  -- `remove_job`
  unfoldable pub remove_task_job : ℕ → Scheduler → Scheduler
  unfolding drop_job pop_generation
  remove_task_job task_id s = drop_job (job_id task_id) (pop_generation task_id s)

  -- The loop of `start` over the tasks, and `start`.
  unfoldable pub register_enabled : Calendar → List Task → Scheduler → Scheduler
  unfolding register
  register_enabled cal [] s = s
  register_enabled cal (t ∷ tasks) s =
      register_enabled cal tasks (if t.enabled && cal.parses t.cron then register t s else s)

  unfoldable pub beat : Instant → Scheduler → Scheduler
  beat now s = record s { last_heartbeat = some now }

  unfoldable pub start : Calendar → Db → Instant → Scheduler → Scheduler
  unfolding register_enabled beat
  start cal db now s =
      let s₁ = register_enabled cal db.tasks s in
      let jobs₁ = add_job "scheduler-heartbeat" (heartbeat heartbeat_interval_seconds) s₁.jobs in
      let jobs₂ = add_job "kuma-freshness-sweep" (freshness_sweep sweep_interval_seconds) jobs₁ in
      beat now (record s₁ { jobs = jobs₂; running = true })

  unfoldable pub shutdown : Scheduler → Scheduler
  shutdown s = if s.running then record s { running = false } else s

  -- The guard of `_execute`; without a generation nothing is checked.
  unfoldable pub is_stale : ℕ → Option ℕ → Scheduler → Bool
  unfolding generation_of
  is_stale task_id none s = false
  is_stale task_id (some token) s = elim (generation_of task_id s) [
    | none ↦ true
    | some current ↦ not (current == token)
  ]

  -- `_execute`
  unfoldable pub execute : Calendar → Environment → ℕ → Option ℕ → Instant → Scheduler → Db → Db
  unfolding is_stale
  execute cal env task_id generation now s db =
      if is_stale task_id generation s
      then db
      else (dispatch_due env (record_tick cal db task_id now) now).db

  -- `next_run_at`
  unfoldable pub next_run_at : Task → Scheduler → Option Instant
  unfolding job_id
  next_run_at task s = elim (get_job (job_id task.id) s.jobs) [
    | none ↦ none
    | some job ↦ next_run_time (job_id task.id) s.jobs
  ]
