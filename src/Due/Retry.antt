-- ===== src/Due/Retry.antt =====
-- The retry budget, and what the outcome of a run does to the debt.
use pullbackup.Base.{
  inl, inr, Bool-cases, Option-cases, ap, ltb, ℕ, zero, suc, ◌+◌, ◌*◌, ◌^◌, ◌≤◌, ◌<◌, ◌≡◌, ◌≢◌, ◌⊎◌,
  refl, String, false, none, some, arith, min2, List, [], ◌∷◌, length, All, ◌-◌,
}
use native.Mathlib.Nat.{pow-suc}
use pullbackup.Models.{Instant, seconds, RunState, Run, Status, TaskDue}
use pullbackup.Due.Rows.{
  backoff_ceiling_seconds, backoff_seconds, is_infrastructure, is_permanent, finish, requeue, block,
  charge_retry, after_failure, finished, outcome, apply_run_outcome,
}

pow-pos : (n : ℕ) → 1 ≤ 2 ^ n
pow-pos zero = omega arith
pow-pos (suc n) = omega (arith, pow-pos n, pow-suc 2 n)

-- The waits before retries start at one minute and double up to one hour, where they stay.
pub backoff-doubles :
    (n : ℕ)
    → (backoff_seconds 1 ≡ 60)
      × (backoff_seconds (n + 2) ≡ min2 (2 * backoff_seconds (n + 1)) backoff_ceiling_seconds)
      × (60 ≤ backoff_seconds n)
      × (backoff_seconds n ≤ 3600)
unfolding backoff_seconds
backoff-doubles n =
    let more : n + 2 - 1 ≡ suc n = omega arith in
    let one : n + 1 - 1 ≡ n = omega arith in
    (
      refl,
      rw (more, one) (ground (arith, pow-suc 2 n)),
      ground (arith, pow-pos (n - 1)),
      ground arith,
    )

-- A failure that a retry may mend: the process, the watchdog and the configuration had no part in it.
abbrev pub IsOrdinary : String → Type 0
IsOrdinary message = (is_infrastructure message ≡ false) × (is_permanent message ≡ false)

-- A series of failures, the newest first.
abbrev pub failing : TaskDue → List (Instant × String) → TaskDue
failing row [] = row
failing row ((now, message) ∷ earlier) = after_failure (failing row earlier) message now

attempts-failing :
    (row : TaskDue) (es : List (Instant × String))
    → All (λ e. IsOrdinary e.1) es
    → (failing row es).attempts ≡ row.attempts + length es
unfolding after_failure charge_retry
attempts-failing row [] h = omega arith
attempts-failing row ((now, message) ∷ es) h = ground (arith, attempts-failing row es h.1)

after_failure_keeps :
    (row : TaskDue) (message : String) (now : Instant)
    → ((after_failure row message now).task_id ≡ row.task_id)
      × ((after_failure row message now).due_at ≡ row.due_at)
unfolding after_failure requeue block charge_retry
after_failure_keeps row message now = (ground arith, ground arith)

-- A row with k failures: it waits for its retry number k by the backoff of k, or its budget is spent.
abbrev pub Charged : TaskDue → Instant → ℕ → Type 0
Charged out now k =
    (out.attempts ≡ k)
    × (((k ≤ 5)
          × (out.status ≡ Status.retry)
          × (out.retry_at ≡ some (now + seconds (backoff_seconds k))))
        ⊎ ((5 < k) × (out.status ≡ Status.exhausted) × (out.retry_at ≡ none)))

after_failure_ordinary :
    (row : TaskDue) (message : String) (now : Instant) (n : ℕ)
    → row.attempts ≡ n
    → IsOrdinary message
    → Charged (after_failure row message now) now (n + 1)
unfolding after_failure charge_retry
after_failure_ordinary row message now n e h =
    rw (← e) (elim (Bool-cases (ltb 5 (row.attempts + 1))) [
      | inl over ↦ (ground arith, inr (ground arith, ground arith, ground arith))
      | inr left ↦ (ground arith, inl (ground arith, ground arith, ground arith))
    ])

-- After k ordinary failures in a row, the last one at `now`, an obligation that had none waits for
-- its retry number k until `now` plus the backoff of k if k is at most five, and is exhausted with no
-- retry set if k is more.
pub retry_budget :
    (row : TaskDue) (es : List (Instant × String)) (now : Instant) (message : String)
    → row.attempts ≡ 0
    → All (λ e. IsOrdinary e.1) ((now, message) ∷ es)
    → Charged (failing row ((now, message) ∷ es)) now (length es + 1)
retry_budget row es now message fresh (h, hs) =
    after_failure_ordinary (failing row es) message now (length es)
      (omega (arith, attempts-failing row es hs)) h

-- The outcome of a run takes an obligation away exactly if the run was cancelled, or succeeded with no
-- follow-up recorded; otherwise the same task still owes, the follow-up if the run succeeded and what
-- it owed before if not.
pub apply_run_outcome_keeps :
    (row : TaskDue) (run : Run) (now : Instant)
    → (apply_run_outcome row run now ≡ none)
        × ((run.state ≡ RunState.cancelled)
            ⊎ ((run.state ≡ RunState.success) × (row.newer_due_at ≡ none)))
      ⊎ ((out : TaskDue) × (apply_run_outcome row run now ≡ some out)
          × (run.state ≢ RunState.cancelled)
          × (out.task_id ≡ row.task_id)
          × ((run.state ≡ RunState.success) × (row.newer_due_at ≡ some out.due_at)
              ⊎ (run.state ≢ RunState.success) × (out.due_at ≡ row.due_at)))
unfolding apply_run_outcome outcome finish
apply_run_outcome_keeps row run now = go run.state refl (Option-cases row.newer_due_at)
  where
    message : String
    message = run.error_message

    go :
        (s : RunState)
        → run.state ≡ s
        → (row.newer_due_at ≡ none) ⊎ ((at : Instant) × (row.newer_due_at ≡ some at))
        → (outcome s row message now ≡ none)
            × ((s ≡ RunState.cancelled) ⊎ ((s ≡ RunState.success) × (row.newer_due_at ≡ none)))
          ⊎ ((out : TaskDue) × (outcome s row message now ≡ some out)
              × (s ≢ RunState.cancelled)
              × (out.task_id ≡ row.task_id)
              × ((s ≡ RunState.success) × (row.newer_due_at ≡ some out.due_at)
                  ⊎ (s ≢ RunState.success) × (out.due_at ≡ row.due_at)))
    go RunState.pending e n = inr (row, refl, (λ h. cc), refl, inr ((λ h. cc), refl))
    go RunState.running e n = inr (row, refl, (λ h. cc), refl, inr ((λ h. cc), refl))
    go RunState.cancelled e n = inl (refl, inl refl)
    go RunState.success e (inl n) = inl (ap (λ o. finish row o now) n, inr (refl, n))
    go RunState.success e (inr (at, n)) =
        inr (finished row at now, ap (λ o. finish row o now) n, (λ h. cc), refl, inl (refl, n))
    go RunState.failed e n =
        let out = after_failure row message now in
        let (same_id, same_due) = after_failure_keeps row message now in
        inr (out, refl, (λ h. cc), same_id, inr ((λ h. cc), same_due))
