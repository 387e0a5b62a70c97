-- ===== src/Kuma/Examples.antt =====
-- The theorems on services/kuma_sync.py and `_sync_kuma` at concrete inputs, and tests.
use pullbackup.Base.{
  String, ◌≢◌, ℕ, zero, suc, ◌≤◌, ◌≡◌, ◌⊎◌, refl, true, false, [], ◌∷◌, none, some, All,
}
use mathlib.Core.List.{map}
use pullbackup.Models.{Task, Db, seconds, find_by, put_by}
use pullbackup.Due.Settle.{get_task}
use pullbackup.Samples.{hourly, hourly_croniter, photos, nas}
use pullbackup.Kuma.Push.{
  http_status, exception, Reply, delivered, failing, push_attempts, push_heartbeat, try_push,
  safe_error, retryable, retry_delay, entry_at,
}
use pullbackup.Kuma.Push.Retries.{Unconfigured, Ends, push_heartbeat-Ends}
use pullbackup.Kuma.Sync.{
  Op, Memory, SyncOutcome, Push, push_raised, record_sync_failure, pending_ops, monitored, sweep,
}
use pullbackup.Kuma.Sync.Told.{Reports, sweep-Reports}
use pullbackup.Kuma.Monitor.{
  created, KumaClient, linked, todo, todo_ops, owes, sync_client, sync_linked, delete_monitor,
}
use pullbackup.Kuma.Monitor.Repair.{Repairs, sync_client-Repairs}

-- The first attempt meets an overloaded server.
abbrev overloaded_once : ℕ → Reply
overloaded_once zero = failing (http_status 503)
overloaded_once (suc n) = delivered

abbrev token5 : String
token5 = "token5"

push_heartbeat-Ends_example :
    ((push_heartbeat true "token5" overloaded_once).1 ≤ 4)
    × ((Unconfigured overloaded_once true "token5"
          × ((push_heartbeat true "token5" overloaded_once).0
              ≡ record { ok = false; attempts = 0; error = some "kuma_not_configured" }))
        ⊎ ((true ≡ true)
            × (token5 ≢ "")
            × Ends overloaded_once push_attempts 0 "unknown"
                (push_heartbeat true "token5" overloaded_once).0))
push_heartbeat-Ends_example = push_heartbeat-Ends overloaded_once true "token5"

second_attempt :
    push_heartbeat true "token5" overloaded_once
    ≡ (record { ok = true; attempts = 2; error = none }, 1)
unfolding push_heartbeat try_push retryable retry_delay entry_at safe_error
second_attempt = refl

abbrev db : Db
db = record { sources = nas ∷ []; tasks = photos ∷ []; runs = []; dues = [] }

abbrev empty_memory : Memory
empty_memory = record { outcomes = []; sync_failures = []; pending = [] }

abbrev broken_push : Push
broken_push task_id token status message = push_raised (exception "ConnectError")

sweep-Reports_example :
    (map
        (λ (o : SyncOutcome). o.task_id)
        (sweep hourly hourly_croniter
          (λ at. "then")
          broken_push
          db
          (seconds 9000)
          (seconds 9000)
          empty_memory).1
      ≡ monitored db.tasks)
    × All
        (Reports hourly hourly_croniter (λ at. "then") broken_push db (seconds 9000) (seconds 9000))
        (sweep hourly hourly_croniter
          (λ at. "then")
          broken_push
          db
          (seconds 9000)
          (seconds 9000)
          empty_memory).1
unfolding get_task find_by
sweep-Reports_example =
    sweep-Reports hourly hourly_croniter (λ at. "then") broken_push db (seconds 9000) (seconds 9000)
      empty_memory (refl, tt)

-- A client whose deletions and activations fail.
abbrev weak_client : KumaClient
weak_client = record {
  create_push_monitor = λ name expiry. created 9 "token9";
  update_interval = λ monitor expiry. none;
  set_active = λ monitor enabled. some (exception "TimeoutError");
  delete = λ monitor. some (exception "TimeoutError");
}

sync_client-Repairs_example : Repairs photos (todo empty_memory photos "0 0 * * *" false) (
    sync_client hourly hourly_croniter
      (λ at. "then")
      broken_push
      weak_client
      (seconds 9000)
      (seconds 9000)
      db
      photos
      empty_memory
      "0 0 * * *"
      false)
unfolding linked
sync_client-Repairs_example =
    sync_client-Repairs hourly hourly_croniter (λ at. "then") broken_push weak_client (seconds 9000)
      (seconds 9000) db photos empty_memory "0 0 * * *" false 5 refl refl refl

-- An interval that is owed is forgotten when Kuma is switched off for the task and its deletion fails.
abbrev owing : Memory
owing = record empty_memory { pending = record { task_id = 1; ops = Op.interval ∷ [] } ∷ [] }

abbrev off : Task
off = record photos { kuma_enabled = false }

abbrev switched_off : Memory
switched_off =
    (sync_client hourly hourly_croniter (λ at. "then") broken_push weak_client (seconds 9000)
      (seconds 9000) db off owing "0 * * * *" true).memory

forgotten : todo switched_off photos "0 * * * *" true ≡ []
unfolding sync_client sync_linked linked delete_monitor record_sync_failure pending_ops todo
    todo_ops owes put_by find_by
forgotten = refl
