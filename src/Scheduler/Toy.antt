-- ===== src/Scheduler/Toy.antt =====
-- A registry of jobs that computes, for the examples.
use pullbackup.Base.{
  ◌≡◌, refl, String, Bool, true, false, Option, none, some, [], if◌then◌else◌, ◌==◌,
  text_comparable,
}
use pullbackup.Scheduler.{Registry, Scheduler, Job}

pub itself : (id : String) → (id == id) ≡ true
itself id = (text_comparable.same_iff id id).1 refl

pub present :
    (b : Bool) (job : Job) (other : Option Job)
    → b ≡ true
    → (if b then some job else other) ≡ some job
present true job other h = refl
present false job other h = cc

pub missing : (b : Bool) (other : Option Job) → b ≡ true → (if b then none else other) ≡ none
missing true other h = refl
missing false other h = cc

-- A registry as a function from names.
abbrev pub table : Registry
table = record {
  Jobs = String → Option Job;
  get_job = λ id jobs. jobs id;
  add_job = λ id job jobs other. if id == other then some job else jobs other;
  remove_job = λ id jobs other. if id == other then none else jobs other;
  next_run_time = λ id jobs. none;
  get_job-add_job = λ id job jobs. present (id == id) job (jobs id) (itself id);
  get_job-remove_job = λ id jobs. missing (id == id) (jobs id) (itself id);
}

abbrev pub new_scheduler : Scheduler table
new_scheduler = record {
  jobs = λ id. none;
  generations = [];
  tokens = 0;
  running = false;
  last_heartbeat = none;
}
