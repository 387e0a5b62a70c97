-- ===== src/Kuma/Monitor/Repair.antt =====
-- What `_sync_kuma` of api/tasks.py leaves owed, against what it was to do.
use pullbackup.Base.{
  ℕ, ◌≡◌, inl, inr, refl, sym, ◌∙◌, subst, String, Bool, true, false, not, ◌||◌, List, [], ◌∷◌,
  ◌++◌, Option, none, some, is_some, nat_comparable, text_comparable, if_cases, arith,
}
use mathlib.Core.Bool.{true≢false}
use mathlib.Core.List.{append-nil}
use pullbackup.Models.{Instant, Task, Db}
use pullbackup.Schedule.{Calendar}
use pullbackup.Cadence.{Croniter}
use pullbackup.Freshness.{kuma_expiry_seconds}
use pullbackup.Kuma.Push.{safe_error}
use pullbackup.Kuma.Sync.{
  Op, Memory, SyncFailure, Push, record_sync_failure, pending_ops, clear_sync_failure, token_of,
  sync_result, sync_task,
}
use pullbackup.Kuma.Sync.Debts.{
  failure_of, pending_ops-same, failure_of-same, pending_ops-record, failure_of-record,
  pending_ops-clear, failure_of-clear, SameDebts, remember-SameDebts,
}
use pullbackup.Kuma.Monitor.{
  is_empty, differs, todo_ops, is_rescheduled, todo, KumaClient, apply_ops, Monitored,
  tell_if_watched, settle, update_monitor, sync_linked, sync_client, linked,
}
use pullbackup.Kuma.Monitor.Owed.{IsQueue, idle, todo_ops-IsQueue, queue_todo, apply_ops-Accounted}

-- A failure is recorded exactly if operations are owed.
abbrev pub Visible : List Op → Option SyncFailure → Type 0
Visible [] failure = failure ≡ none
Visible (op ∷ ops) failure = (f : SyncFailure) × (failure ≡ some f)

differs_self : (b : Bool) → differs b b ≡ false
differs_self true = refl
differs_self false = refl

unedited :
    (m : Memory) (t : Task)
    → IsQueue (pending_ops m t.id)
    → todo m t t.cron t.enabled ≡ pending_ops m t.id
unfolding todo
unedited m t queue =
    let p = pending_ops m t.id in
    let still : is_rescheduled t t.cron t.enabled ≡ false =
      rw ((text_comparable.same_iff t.cron t.cron).1 refl) (differs_self t.enabled) in
    subst (λ b. todo_ops p b (differs t.enabled t.enabled) ≡ p) (sym still)
      (subst (λ b. todo_ops p false b ≡ p) (sym (differs_self t.enabled)) (queue_todo queue))

-- The operations done and those still owed are what was to be done, in order; a failure is recorded
-- exactly if some are owed; and the next synchronisation without an edit is to do just those.
abbrev pub Repairs : Task → List Op → Monitored → Type 0
Repairs t ops r =
    (r.done ++ pending_ops r.memory t.id ≡ ops)
    × Visible (pending_ops r.memory t.id) (failure_of r.memory t.id)
    × (todo r.memory t t.cron t.enabled ≡ pending_ops r.memory t.id)

repaired :
    (t : Task) (ops : List Op) (r : Monitored) (owed : List Op)
    → pending_ops r.memory t.id ≡ owed
    → r.done ++ owed ≡ ops
    → IsQueue owed
    → Visible owed (failure_of r.memory t.id)
    → Repairs t ops r
repaired t ops r owed e split queue visible = (
  subst (λ l. r.done ++ l ≡ ops) (sym e) split,
  subst (λ l. Visible l (failure_of r.memory t.id)) (sym e) visible,
  unedited r.memory t (subst IsQueue (sym e) queue),
)

module _ (cal : Calendar) (croniter : Croniter) (isoformat : Instant → String) (push : Push)
    (client : KumaClient) (now clock : Instant) where
  tell_if_watched-SameDebts :
      (db : Db) (t : Task) (m : Memory)
      → SameDebts m (tell_if_watched cal croniter isoformat push client now clock db t m)
  unfolding tell_if_watched sync_task
  tell_if_watched-SameDebts db t m =
      if_cases (SameDebts m) (is_some (token_of t))
        (λ _. remember-SameDebts m (sync_result cal croniter isoformat push db now clock t.id))
        (λ _. (refl, refl))

  settle-Repairs :
      (db : Db) (t : Task) (m : Memory) (done : List Op)
      → Repairs t done (settle cal croniter isoformat push client now clock db t m done)
  unfolding settle
  settle-Repairs db t m done =
      let cleared = clear_sync_failure m t.id in
      let after = tell_if_watched cal croniter isoformat push client now clock db t cleared in
      let same = tell_if_watched-SameDebts db t cleared in
      let none_owed = pending_ops-same cleared after t.id same ∙ pending_ops-clear m t.id in
      repaired t done (settle cal croniter isoformat push client now clock db t m done) [] none_owed
        (append-nil done) idle (failure_of-same cleared after t.id same ∙ failure_of-clear m t.id)

  update_monitor-Repairs :
      (db : Db) (t : Task) (m : Memory) (monitor : ℕ) (ops : List Op)
      → IsQueue ops
      → Repairs t ops
          (update_monitor cal croniter isoformat push client now clock db t m monitor ops)
  unfolding update_monitor
  update_monitor-Repairs db t m monitor ops queue =
      let expiry = kuma_expiry_seconds croniter t.cron clock in
      elim (apply_ops-Accounted client monitor expiry t.enabled ops queue) [
        | inl (finished, done) ↦
            rw (finished, update_monitor)
              (subst
                (λ l. Repairs t l (
                  settle cal croniter isoformat push client now clock db t m
                    (apply_ops client monitor expiry t.enabled ops).done))
                done (settle-Repairs db t m (apply_ops client monitor expiry t.enabled ops).done))
        | inr (e, op, left, stopped, split, rest) ↦
            rw (stopped, update_monitor)
              (repaired t ops
                (record {
                  db = db;
                  memory = record_sync_failure m t.id e (op ∷ left);
                  done = (apply_ops client monitor expiry t.enabled ops).done;
                })
                (op ∷ left) (pending_ops-record m t.id e (op ∷ left)) split rest
                (
                  record { task_id = t.id; error = safe_error e },
                  failure_of-record m t.id e (op ∷ left),
                ))
      ]

  -- Where a task has a monitor and Kuma enabled, and was rescheduled or owes operations, the operations
  -- that are done and those still owed are together the ones that were to be done, in their order; a
  -- failure is recorded exactly if some are still owed; and the next synchronisation without an edit is
  -- to do just those.
  pub sync_client-Repairs :
      (db : Db) (t : Task) (m : Memory) (prev_cron : String) (prev_enabled : Bool) (monitor : ℕ)
      → linked t ≡ some monitor
      → t.kuma_enabled ≡ true
      → is_rescheduled t prev_cron prev_enabled || not (is_empty (pending_ops m t.id)) ≡ true
      → Repairs t
          (todo m t prev_cron prev_enabled)
          (sync_client cal croniter isoformat push client now clock db t m prev_cron prev_enabled)
  unfolding sync_client sync_linked todo
  sync_client-Repairs db t m prev_cron prev_enabled monitor has watched owing =
      let R = Repairs t (todo m t prev_cron prev_enabled) in
      rw (has, sync_client)
        (if_cases R (not t.kuma_enabled) (λ off. absurd (true≢false (sym watched ∙ ground arith)))
          (λ _.
            if_cases R
              (is_rescheduled t prev_cron prev_enabled || not (is_empty (pending_ops m t.id)))
              (λ _. update_monitor-Repairs db t m monitor (todo m t prev_cron prev_enabled) (
                todo_ops-IsQueue (pending_ops m t.id) (is_rescheduled t prev_cron prev_enabled)
                  (differs t.enabled prev_enabled)))
              (λ no_. absurd (true≢false (sym owing ∙ no_)))))
