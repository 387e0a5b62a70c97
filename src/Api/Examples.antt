-- ===== src/Api/Examples.antt =====
-- The theorems on api/tasks.py and api/sources.py at concrete inputs, and tests.
use pullbackup.Base.{◌≡◌, refl, true, false, some, [], ◌∷◌, none}
use pullbackup.Models.{seconds, Db, find_by, put_by, delete_by}
use pullbackup.Base.Text.{starts_with}
use pullbackup.Destination.{
  walk_destination, resolve_with_root, has_forbidden, bind_root, longest, canonical_roots,
  resolve_roots, contains_path, walk_parts, open_node,
}
use pullbackup.Due.Edit.{new_generation}
use pullbackup.Due.Settle.{get_task}
use pullbackup.Dispatch.{get_source}
use pullbackup.Kuma.Sync.{push_raised}
use pullbackup.Kuma.Push.{exception}
use pullbackup.Scheduler.Toy.{table, new_scheduler}
use pullbackup.Samples.{
  hourly, hourly_croniter, sample_env, running_music, photos, music, vault, nas,
}
use pullbackup.Api.Payload.{TaskFields, accepts}
use pullbackup.Api.Tasks.{
  Services, Server, has_active_run, update_task, create_task, apply_edit, refused, shown,
}
use pullbackup.Api.Linked.{IsLinked}
use pullbackup.Api.Locked.Edit.{KeepsRun, update_task-KeepsRun}
use pullbackup.Api.Requests.{patch_task, remove_task, remove_source, serve_all, serve_all-IsLinked}

abbrev services : Services
services = record {
  calendar = hourly;
  croniter = hourly_croniter;
  isoformat = λ at. "then";
  push = λ task_id token status message. push_raised (exception "ConnectError");
  client = none;
  environment = sample_env;
}

-- The payload of a task with another name and another schedule.
abbrev renamed : TaskFields
renamed = record {
  name = "tunes";
  source_id = music.source_id;
  remote_path = music.remote_path;
  local_path = music.local_path;
  cron = "0 0 * * *";
  enabled = true;
  description = "";
  task_type = music.task_type;
  rsync = music.rsync;
  syncoid = music.syncoid;
  notify_matrix = false;
  notify_matrix_on_success = false;
  kuma_enabled = true;
}

abbrev busy_db : Db
busy_db = record {
  sources = nas ∷ vault ∷ [];
  tasks = photos ∷ music ∷ [];
  runs = running_music ∷ [];
  dues = [];
}

abbrev server : Server table
server = record {
  db = busy_db;
  memory = record { outcomes = []; sync_failures = []; pending = [] };
  scheduler = new_scheduler;
  woken = false;
}

update_task-KeepsRun_example :
    KeepsRun music (update_task table services 2 renamed (seconds 9000) (seconds 9000) server).0.db
unfolding get_task find_by has_active_run
update_task-KeepsRun_example =
    update_task-KeepsRun table services 2 music renamed (seconds 9000) (seconds 9000) server refl
      refl

busy_db-IsLinked : IsLinked busy_db
unfolding get_task get_source find_by
busy_db-IsLinked = record { runs = (refl, tt); tasks = (refl, (refl, tt)); dues = tt }

serve_all-IsLinked_example :
    IsLinked
      (serve_all table services
        ((patch_task 2 renamed, seconds 9000)
          ∷ (remove_task 1, seconds 9060)
          ∷ (remove_source 1, seconds 9120)
          ∷ [])
        server).db
unfolding get_task get_source find_by put_by delete_by
serve_all-IsLinked_example =
    serve_all-IsLinked table services
      ((patch_task 2 renamed, seconds 9000)
        ∷ (remove_task 1, seconds 9060)
        ∷ (remove_source 1, seconds 9120)
        ∷ [])
      server (refl, (tt, (tt, tt))) busy_db-IsLinked

-- An edit to a source that is not there is stored, which the creation of a task would refuse.
abbrev adrift : TaskFields
adrift = record renamed { source_id = 9; local_path = "/dest/photos" }

accepted_adrift : accepts sample_env adrift ≡ true
unfolding accepts walk_destination resolve_with_root has_forbidden starts_with bind_root longest
    canonical_roots resolve_roots contains_path walk_parts open_node
accepted_adrift = refl

created_adrift :
    (create_task table services adrift (seconds 9000) (seconds 9000) server).1
    ≡ refused 400 ("source not found" ∷ [])
unfolding create_task get_source find_by
created_adrift = rw accepted_adrift refl

edited_adrift :
    (update_task table services 1 adrift (seconds 9000) (seconds 9000) server).1
    ≡ shown (record photos {
      name = "tunes";
      source_id = 9;
      remote_path = "/srv/music";
      cron = "0 0 * * *";
      updated_at = seconds 9000;
      schedule_baseline_at = some (seconds 9000);
      schedule_epoch_at = some (seconds 9000);
    })
unfolding update_task apply_edit get_task find_by put_by has_active_run new_generation
edited_adrift = rw accepted_adrift refl
