-- ===== src/Kuma/Monitor/Rows.antt =====
-- The rows that `_sync_kuma` of api/tasks.py writes.
use pullbackup.Base.{
  ℕ, ◌≡◌, ◌⊎◌, inl, inr, refl, String, Bool, not, ◌||◌, List, Option, none, some, if_cases,
  Option-cases,
}
use pullbackup.Base.Text.{◌+s◌}
use pullbackup.Models.{Instant, Task, Db}
use pullbackup.Schedule.{Calendar}
use pullbackup.Cadence.{Croniter}
use pullbackup.Freshness.{kuma_expiry_seconds}
use pullbackup.Due.Reconcile.{put_task}
use pullbackup.Kuma.Push.{Failure}
use pullbackup.Kuma.Sync.{Op, Memory, Push, pending_ops}
use pullbackup.Kuma.Monitor.{
  Created, created, create_raised, KumaClient, Monitored, is_empty, is_rescheduled, linked,
  apply_ops, settle, create_monitor, update_monitor, delete_monitor, sync_linked, sync_client,
  sync_kuma, todo,
}

-- The tables as they were, or with the monitor and the token of the task set anew.
abbrev pub Wrote : Db → Task → Db → Type 0
Wrote db t after =
    (after ≡ db)
    ⊎ ((monitor : Option ℕ) × (token : Option String) × (after
          ≡ put_task db (record t { kuma_monitor_id = monitor; kuma_push_token = token })))

Created-cases :
    (c : Created)
    → ((id : ℕ) × (token : String) × (c ≡ created id token))
      ⊎ ((e : Failure) × (c ≡ create_raised e))
Created-cases (created id token) = inl (id, token, refl)
Created-cases (create_raised e) = inr (e, refl)

module _ (cal : Calendar) (croniter : Croniter) (isoformat : Instant → String) (push : Push)
    (client : KumaClient) (now clock : Instant) where
  create_monitor-Wrote :
      (db : Db) (t : Task) (m : Memory)
      → Wrote db t (create_monitor cal croniter isoformat push client now clock db t m).db
  unfolding create_monitor settle
  create_monitor-Wrote db t m =
      elim (Created-cases (
        client.create_push_monitor ("pullback: " +s t.name)
          (kuma_expiry_seconds croniter t.cron clock))) [
            | inl (id, token, e) ↦ rw (e, create_monitor) (inr (some id, some token, refl))
            | inr (failure, e) ↦ rw (e, create_monitor) (inl refl)
          ]

  update_monitor-Wrote :
      (db : Db) (t : Task) (m : Memory) (monitor : ℕ) (ops : List Op)
      → Wrote db t
          (update_monitor cal croniter isoformat push client now clock db t m monitor ops).db
  unfolding update_monitor settle
  update_monitor-Wrote db t m monitor ops =
      elim (Option-cases
        (apply_ops client monitor (kuma_expiry_seconds croniter t.cron clock) t.enabled
          ops).stopped) [
            | inl e ↦ rw (e, update_monitor) (inl refl)
            | inr ((failure, left), e) ↦ rw (e, update_monitor) (inl refl)
          ]

  delete_monitor-Wrote :
      (db : Db) (t : Task) (m : Memory) (monitor : ℕ)
      → Wrote db t (delete_monitor cal croniter isoformat push client now clock db t m monitor).db
  unfolding delete_monitor settle
  delete_monitor-Wrote db t m monitor = elim (Option-cases (client.delete monitor)) [
    | inl e ↦ rw (e, delete_monitor) (inr (none, none, refl))
    | inr (failure, e) ↦ rw (e, delete_monitor) (inl refl)
  ]

  sync_client-Wrote :
      (db : Db) (t : Task) (m : Memory) (prev_cron : String) (prev_enabled : Bool)
      → Wrote db t
          (sync_client cal croniter isoformat push client now clock db t m prev_cron
            prev_enabled).db
  unfolding sync_client sync_linked
  sync_client-Wrote db t m prev_cron prev_enabled =
      let W : Monitored → Type 0 = λ r. Wrote db t r.db in
      elim (Option-cases (linked t)) [
        | inl e ↦
            rw (e, sync_client)
              (if_cases W t.kuma_enabled (λ _. create_monitor-Wrote db t m) (λ _. inl refl))
        | inr (monitor, e) ↦
            rw (e, sync_client)
              (if_cases W (not t.kuma_enabled) (λ _. delete_monitor-Wrote db t m monitor)
                (λ _.
                  if_cases W
                    (is_rescheduled t prev_cron prev_enabled || not (is_empty (pending_ops m t.id)))
                    (λ _. update_monitor-Wrote db t m monitor (todo m t prev_cron prev_enabled))
                    (λ _. inl refl)))
      ]

pub sync_kuma-Wrote :
    (cal : Calendar) (croniter : Croniter) (isoformat : Instant → String) (push : Push)
    (client : Option KumaClient) (now clock : Instant) (db : Db) (t : Task) (m : Memory)
    (prev_cron : String) (prev_enabled : Bool)
    → Wrote db t
        (sync_kuma cal croniter isoformat push client now clock db t m prev_cron prev_enabled).db
unfolding sync_kuma
sync_kuma-Wrote cal croniter isoformat push none now clock db t m prev_cron prev_enabled = inl refl
sync_kuma-Wrote cal croniter isoformat push (some client) now clock db t m prev_cron prev_enabled =
    sync_client-Wrote cal croniter isoformat push client now clock db t m prev_cron prev_enabled
