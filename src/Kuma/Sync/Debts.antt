-- ===== src/Kuma/Sync/Debts.antt =====
-- The operations that are owed and the failures in the memory of services/kuma_sync.py.
use pullbackup.Base.{ℕ, ◌≡◌, refl, true, List, [], Option, none, some, ◌==◌, nat_comparable, arith}
use pullbackup.Models.{find_by, find_by-put_by, find_by-delete_by}
use pullbackup.Kuma.Push.{Failure, safe_error}
use pullbackup.Kuma.Sync.{
  Op, Memory, SyncFailure, Pending, Synced, nothing, synced, sync_raised, remember,
  record_sync_failure, pending_ops, clear_sync_failure,
}

-- The failure that is recorded for a task.
unfoldable pub failure_of : Memory → ℕ → Option SyncFailure
failure_of m task_id = find_by (λ (x : SyncFailure). x.task_id) task_id m.sync_failures

same_id : (n : ℕ) → (n == n) ≡ true
same_id n = ground arith

pub pending_ops-record :
    (m : Memory) (id : ℕ) (e : Failure) (ops : List Op)
    → pending_ops (record_sync_failure m id e ops) id ≡ ops
unfolding pending_ops record_sync_failure
pending_ops-record m id e ops =
    let p : Pending = record { task_id = id; ops = ops } in
    rw (find_by-put_by (λ (x : Pending). x.task_id) id p m.pending, pending_ops, same_id id) refl

pub failure_of-record :
    (m : Memory) (id : ℕ) (e : Failure) (ops : List Op)
    → failure_of (record_sync_failure m id e ops) id
      ≡ some (record { task_id = id; error = safe_error e })
unfolding failure_of record_sync_failure
failure_of-record m id e ops =
    let f : SyncFailure = record { task_id = id; error = safe_error e } in
    rw
      (find_by-put_by (λ (x : SyncFailure). x.task_id) id f m.sync_failures, failure_of, same_id id)
      refl

pub pending_ops-clear : (m : Memory) (id : ℕ) → pending_ops (clear_sync_failure m id) id ≡ []
unfolding pending_ops clear_sync_failure
pending_ops-clear m id =
    rw (find_by-delete_by (λ (x : Pending). x.task_id) id id m.pending, pending_ops, same_id id)
      refl

pub failure_of-clear : (m : Memory) (id : ℕ) → failure_of (clear_sync_failure m id) id ≡ none
unfolding failure_of clear_sync_failure
failure_of-clear m id =
    rw
      (
        find_by-delete_by (λ (x : SyncFailure). x.task_id) id id m.sync_failures,
        failure_of,
        same_id id,
      )
      refl

-- A memory with the owed operations and the failures of another.
abbrev pub SameDebts : Memory → Memory → Type 0
SameDebts m m' = (m'.pending ≡ m.pending) × (m'.sync_failures ≡ m.sync_failures)

pub remember-SameDebts : (m : Memory) (r : Synced) → SameDebts m (remember m r)
unfolding remember
remember-SameDebts m nothing = (refl, refl)
remember-SameDebts m (synced o) = (refl, refl)
remember-SameDebts m (sync_raised e) = (refl, refl)

pub pending_ops-same :
    (m m' : Memory) (id : ℕ) → SameDebts m m' → pending_ops m' id ≡ pending_ops m id
unfolding pending_ops
pending_ops-same m m' id same = rw (same.0, pending_ops) refl

pub failure_of-same : (m m' : Memory) (id : ℕ) → SameDebts m m' → failure_of m' id ≡ failure_of m id
unfolding failure_of
failure_of-same m m' id same = rw (same.1, failure_of) refl
