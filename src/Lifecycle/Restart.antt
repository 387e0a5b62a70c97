-- ===== src/Lifecycle/Restart.antt =====
-- The reconciliation of services/runner.py at startup.
use pullbackup.Base.{
  ℕ, ◌≡◌, refl, false, List, [], ◌∷◌, some, ◌==◌, nat_comparable, if_cases, arith, All, Bool-cases,
  inl, inr,
}
use pullbackup.Models.{Instant, Run, Db, find_by, is_active}
use pullbackup.Dispatch.Capacity.{active_count}
use pullbackup.Lifecycle.{fail_active, reconcile_stale_runs}
use pullbackup.Lifecycle.History.{run_at}
use pullbackup.Lifecycle.History.Steps.{at_odds}
use pullbackup.Lifecycle.Finality.{Over}

fail_active-ended :
    (runs : List Run) (now : Instant)
    → All (λ (r : Run). is_active r.state ≡ false) (fail_active runs now)
unfolding fail_active
fail_active-ended [] now = tt
fail_active-ended (r ∷ runs) now = (
  if_cases (λ (x : Run). is_active x.state ≡ false) (is_active r.state) (λ _. refl) (λ off. off),
  fail_active-ended runs now,
)

fail_active-Over : (runs : List Run) (now : Instant) → Over runs (fail_active runs now)
unfolding fail_active find_by
fail_active-Over [] now id r e off = cc
fail_active-Over (x ∷ runs) now id r e off =
    if_cases (λ (y : Run). run_at id (y ∷ fail_active runs now) ≡ some r) (is_active x.state)
      (λ on. elim (Bool-cases (x.id == id)) [
        | inl hit ↦ let same : x ≡ r = ground arith in absurd (at_odds x r same on off)
        | inr miss ↦ rw (miss, find_by) (fail_active-Over runs now id r (ground arith) off)
      ])
      (λ _. elim (Bool-cases (x.id == id)) [
        | inl hit ↦ ground arith
        | inr miss ↦ rw (miss, find_by) (fail_active-Over runs now id r (ground arith) off)
      ])

-- After the reconciliation at startup, no run is active; a run that was over is as it was; and the
-- answer is the number of runs that were active.
pub reconcile_stale_runs-ended :
    (db : Db) (now : Instant) (id : ℕ) (r : Run)
    → run_at id db.runs ≡ some r
    → is_active r.state ≡ false
    → let out = reconcile_stale_runs db now in
      All (λ (x : Run). is_active x.state ≡ false) out.0.runs
      × (run_at id out.0.runs ≡ some r)
      × (out.1 ≡ active_count db.runs)
unfolding reconcile_stale_runs
reconcile_stale_runs-ended db now id r e off =
    (fail_active-ended db.runs now, fail_active-Over db.runs now id r e off, refl)
