-- ===== src/Samples.antt =====
-- Concrete values for the tests and the examples: an hourly schedule, a task, its run and its row.
use pullbackup.Base.{◌+◌, ◌*◌, ◌/◌, [], ◌∷◌, none, some, true, false, ◌==◌, text_comparable}
use pullbackup.Models.{
  seconds, pos, Source, RsyncOptions, SyncoidOptions, Task, Run, RunState, Status, TaskDue, Db,
}
use pullbackup.Schedule.{Calendar}
use pullbackup.Base.{length, if◌then◌else◌, nat_comparable, ◌&&◌}
use pullbackup.Base.Words.{stripped_parts}
use pullbackup.Destination.{Paths, Disk, absent, directory}
use pullbackup.Dispatch.{Environment}
use pullbackup.Cadence.{Croniter}

-- Fires at each full hour; only one expression parses.
abbrev pub hourly : Calendar
hourly = record {
  parses = λ cron. cron == "0 * * * *";
  next_fire = λ cron after. some ((after / seconds 3600 + 1) * seconds 3600);
}

abbrev pub plain_rsync : RsyncOptions
plain_rsync = record {
  archive = true;
  recursive = true;
  times = true;
  compress = true;
  delete = false;
  quiet = false;
  preserve_permissions = false;
  preserve_xattrs = false;
  delay_updates = true;
  use_sudo = false;
  bwlimit_kbps = none;
  exclude_patterns = "";
  aux_args = "";
}

abbrev pub plain_syncoid : SyncoidOptions
plain_syncoid = record {
  syncoid_recursive = true;
  syncoid_no_sync_snap = true;
  syncoid_compress = "";
  syncoid_extra_args = "";
  syncoid_force_full = false;
  prune_keep_hourly = none;
}

abbrev pub photos : Task
photos = record {
  id = 1;
  name = "photos";
  source_id = 1;
  remote_path = "/srv/photos";
  local_path = "/dest/photos";
  cron = "0 * * * *";
  enabled = true;
  description = "";
  task_type = "rsync";
  rsync = plain_rsync;
  syncoid = plain_syncoid;
  notify_matrix = false;
  notify_matrix_on_success = false;
  kuma_enabled = true;
  kuma_monitor_id = some 5;
  kuma_push_token = some "token5";
  created_at = seconds 0;
  updated_at = seconds 0;
  schedule_baseline_at = some (seconds 3600);
  schedule_epoch_at = none;
}

abbrev pub nas : Source
nas = record {
  id = 1;
  name = "nas";
  description = "";
  user = "backup";
  host = "nas";
  port = 22;
  ssh_key_path = "/keys/nas";
}

abbrev pub failed_run : Run
failed_run = record {
  id = 7;
  task_id = 1;
  state = RunState.failed;
  started_at = seconds 7200;
  finished_at = some (seconds 7300);
  exit_code = some (pos 23);
  error_message = "rsync exited 23";
}

abbrev pub dispatched_row : TaskDue
dispatched_row = record {
  task_id = 1;
  due_at = seconds 7200;
  status = Status.dispatched;
  wait_reason = none;
  attempts = 0;
  retry_at = none;
  last_error = "";
  run_id = some 7;
  newer_due_at = none;
  updated_at = seconds 7200;
}

-- The task is due, and nothing has run.
abbrev pub quiet_db : Db
quiet_db = record { sources = nas ∷ []; tasks = photos ∷ []; runs = []; dues = [] }

-- A run of the task failed, and its obligation is not settled yet.
abbrev pub failed_db : Db
failed_db = record {
  sources = nas ∷ [];
  tasks = photos ∷ [];
  runs = failed_run ∷ [];
  dues = dispatched_row ∷ [];
}

-- A second task of another source, and a run of it in flight.
abbrev pub vault : Source
vault = record {
  id = 2;
  name = "vault";
  user = "backup";
  host = "vault";
  port = 2222;
  ssh_key_path = "/keys/vault";
  description = "";
}

abbrev pub music : Task
music = record photos {
  id = 2;
  source_id = 2;
  remote_path = "/srv/music";
  local_path = "/dest/music";
}

abbrev pub running_music : Run
running_music = record failed_run {
  id = 3;
  task_id = 2;
  state = RunState.running;
  finished_at = none;
  exit_code = none;
  error_message = "";
}

-- A third task, of the source of the second.
abbrev pub films : Task
films = record music { id = 3; remote_path = "/srv/films"; local_path = "/dest/films" }

abbrev pub due_row : TaskDue
due_row = record dispatched_row { status = Status.due; run_id = none }

abbrev pub films_row : TaskDue
films_row = record due_row { task_id = 3; due_at = seconds 3600 }

-- Two obligations, of which the older has to wait for the run in flight.
abbrev pub busy_db : Db
busy_db = record {
  sources = nas ∷ vault ∷ [];
  tasks = photos ∷ music ∷ films ∷ [];
  runs = running_music ∷ [];
  dues = due_row ∷ films_row ∷ [];
}

-- A tree with the root /dest, inode 1, and one directory in it.
abbrev pub dest_paths : Paths
dest_paths = record { resolve = λ path. some ("/" ∷ stripped_parts 47 path) }

abbrev pub dest_disk : Disk
dest_disk = record {
  root_inode = λ root. if length root == 2 then some 1 else none;
  entry = λ dir name. if dir == 1 && name == "photos" then directory 2 else absent;
  writable = λ dir. true;
  fresh = 3;
}

abbrev pub sample_env : Environment
sample_env = record {
  max_concurrent_runs = 2;
  dest_roots = "/dest";
  zfs_dest_roots = "tank";
  data_dir = "/data";
  paths = dest_paths;
  disk = dest_disk;
}

abbrev pub replica : Task
replica = record photos { task_type = "syncoid"; remote_path = "pool/app"; local_path = "tank/app" }

-- croniter on the hourly schedule.
abbrev pub hourly_croniter : Croniter
hourly_croniter = record {
  next_two = λ cron after.
      some ((after / seconds 3600 + 1) * seconds 3600, (after / seconds 3600 + 2) * seconds 3600);
}
