-- ===== src/Kuma/Monitor.antt =====
-- `_sync_kuma` of backend/pullbackup/api/tasks.py: the monitor of a task after it was created or edited.
-- The client of services/kuma.py is a parameter: an operation answers, or raises.
pub mod Owed
pub mod Repair
pub mod Rows
use pullbackup.Base.{
  ℕ, String, Bool, true, false, not, ◌&&◌, ◌||◌, List, [], ◌∷◌, Option, none, some, ◌==◌, is_some,
  is_none, nat_comparable, text_comparable, if◌then◌else◌,
}
use pullbackup.Base.Text.{◌+s◌}
use pullbackup.Models.{Instant, Task, Db}
use pullbackup.Schedule.{Calendar}
use pullbackup.Cadence.{Croniter}
use pullbackup.Freshness.{kuma_expiry_seconds}
use pullbackup.Due.Reconcile.{put_task}
use pullbackup.Kuma.Push.{Failure}
use pullbackup.Kuma.Sync.{
  Op, interval, active, Memory, Push, record_sync_failure, pending_ops, clear_sync_failure,
  token_of, sync_task,
}

pub data Created : Type 0 where
  created : ℕ → String → Created
  create_raised : Failure → Created

-- The operations of the client; `none` where one returns.
pub record KumaClient : Type 0 where
  pub create_push_monitor : String → ℕ → Created
  pub update_interval : ℕ → ℕ → Option Failure
  pub set_active : ℕ → Bool → Option Failure
  pub delete : ℕ → Option Failure

abbrev pub is_empty : List Op → Bool
is_empty [] = true
is_empty (op ∷ ops) = false

abbrev pub differs : Bool → Bool → Bool
differs true b = not b
differs false b = b

-- `t.kuma_monitor_id`, where it is true.
unfoldable pub linked : Task → Option ℕ
linked t = elim t.kuma_monitor_id [ none ↦ none | some id ↦ if id == 0 then none else some id ]

abbrev pub same_op : Op → Op → Bool
same_op Op.create Op.create = true
same_op Op.interval Op.interval = true
same_op Op.active Op.active = true
same_op Op.delete Op.delete = true
same_op _ _ = false

unfoldable pub owes : Op → List Op → Bool
owes op [] = false
owes op (x ∷ ops) = same_op op x || owes op ops

-- `[op for op in ("interval", "active") if op in owed]`
unfoldable pub todo_ops : List Op → Bool → Bool → List Op
unfolding owes
todo_ops pending rescheduled toggled =
    let rest : List Op = if owes active pending || toggled then active ∷ [] else [] in
    if owes interval pending || rescheduled then interval ∷ rest else rest

-- `t.cron != prev_cron or t.enabled != prev_enabled`
abbrev pub is_rescheduled : Task → String → Bool → Bool
is_rescheduled t prev_cron prev_enabled =
    not (t.cron == prev_cron) || differs t.enabled prev_enabled

unfoldable pub todo : Memory → Task → String → Bool → List Op
unfolding todo_ops pending_ops
todo m t prev_cron prev_enabled =
    todo_ops (pending_ops m t.id) (is_rescheduled t prev_cron prev_enabled)
      (differs t.enabled prev_enabled)

-- The operations that were done, and the error with those that it leaves.
pub record Applied : Type 0 where
  pub done : List Op
  pub stopped : Option (Failure × List Op)

module _ (client : KumaClient) where
  -- The body of the loop over `todo`.
  unfoldable pub apply_op : ℕ → ℕ → Bool → Op → Option Failure
  apply_op monitor expiry enabled Op.interval = client.update_interval monitor expiry
  apply_op monitor expiry enabled _ = client.set_active monitor enabled

  unfoldable pub apply_ops : ℕ → ℕ → Bool → List Op → Applied
  unfolding apply_op
  apply_ops monitor expiry enabled [] = record { done = []; stopped = none }
  apply_ops monitor expiry enabled (op ∷ ops) =
      let rest = apply_ops monitor expiry enabled ops in
      elim (apply_op monitor expiry enabled op) [
        | none ↦ record rest { done = op ∷ rest.done }
        | some e ↦ record { done = []; stopped = some (e, op ∷ ops) }
      ]

-- What `_sync_kuma` leaves: the tables, the memory of the synchronisation, and the operations done.
pub record Monitored : Type 0 where
  pub db : Db
  pub memory : Memory
  pub done : List Op

module _ (cal : Calendar) (croniter : Croniter) (isoformat : Instant → String) (push : Push)
    (client : KumaClient) (now clock : Instant) where
  -- The end of the `else` branch.
  unfoldable pub tell_if_watched : Db → Task → Memory → Memory
  unfolding token_of sync_task
  tell_if_watched db t m =
      if is_some (token_of t)
      then (sync_task cal croniter isoformat push db now clock t.id m).0
      else m

  -- After operations that all succeeded: the failure is cleared, and the task is told.
  unfoldable pub settle : Db → Task → Memory → List Op → Monitored
  unfolding tell_if_watched clear_sync_failure
  settle db t m done = record {
    db = db;
    memory = tell_if_watched db t (clear_sync_failure m t.id);
    done = done;
  }

  unfoldable pub create_monitor : Db → Task → Memory → Monitored
  unfolding settle record_sync_failure
  create_monitor db t m =
      elim (client.create_push_monitor ("pullback: " +s t.name)
        (kuma_expiry_seconds croniter t.cron clock)) [
          | created id token ↦
              let linked_task = record t {
                kuma_monitor_id = some id;
                kuma_push_token = some token;
              } in
              settle (put_task db linked_task) linked_task m (Op.create ∷ [])
          | create_raised e ↦ record {
            db = db;
            memory = record_sync_failure m t.id e [];
            done = [];
          }
        ]

  unfoldable pub update_monitor : Db → Task → Memory → ℕ → List Op → Monitored
  unfolding settle record_sync_failure apply_ops
  update_monitor db t m monitor ops =
      let applied =
        apply_ops client monitor (kuma_expiry_seconds croniter t.cron clock) t.enabled ops in
      elim applied.stopped [
        | none ↦ settle db t m applied.done
        | some (e, left) ↦ record {
          db = db;
          memory = record_sync_failure m t.id e left;
          done = applied.done;
        }
      ]

  unfoldable pub delete_monitor : Db → Task → Memory → ℕ → Monitored
  unfolding settle record_sync_failure
  delete_monitor db t m monitor = elim (client.delete monitor) [
    | none ↦
        let free = record t { kuma_monitor_id = none; kuma_push_token = none } in
        settle (put_task db free) free m (Op.delete ∷ [])
    | some e ↦ record { db = db; memory = record_sync_failure m t.id e []; done = [] }
  ]

  unfoldable pub sync_linked : Db → Task → Memory → String → Bool → ℕ → Monitored
  unfolding update_monitor delete_monitor todo tell_if_watched
  sync_linked db t m prev_cron prev_enabled monitor =
      if not t.kuma_enabled
      then delete_monitor db t m monitor
      else if is_rescheduled t prev_cron prev_enabled || not (is_empty (pending_ops m t.id))
      then update_monitor db t m monitor (todo m t prev_cron prev_enabled)
      else record { db = db; memory = tell_if_watched db t m; done = [] }

  unfoldable pub sync_client : Db → Task → Memory → String → Bool → Monitored
  unfolding create_monitor linked sync_linked
  sync_client db t m prev_cron prev_enabled = elim (linked t) [
    | none ↦
        if t.kuma_enabled
        then create_monitor db t m
        else record { db = db; memory = tell_if_watched db t m; done = [] }
    | some monitor ↦ sync_linked db t m prev_cron prev_enabled monitor
  ]

-- Without a configured client nothing is done.
unfoldable pub sync_kuma :
    Calendar
    → Croniter
    → (Instant → String)
    → Push
    → Option KumaClient
    → Instant
    → Instant
    → Db
    → Task
    → Memory
    → String
    → Bool
    → Monitored
unfolding sync_client
sync_kuma cal croniter isoformat push none now clock db t m prev_cron prev_enabled = record {
  db = db;
  memory = m;
  done = [];
}
sync_kuma cal croniter isoformat push (some client) now clock db t m prev_cron prev_enabled =
    sync_client cal croniter isoformat push client now clock db t m prev_cron prev_enabled
