-- ===== src/Kuma/Push/Retries.antt =====
-- The attempts that `push_heartbeat` of services/kuma_sync.py makes.
use pullbackup.Base.{
  ℕ, zero, suc, ◌+◌, ◌≤◌, ◌<◌, ◌≡◌, ◌≢◌, ◌⊎◌, inl, inr, refl, subst, String, Bool, true, false, not,
  ◌||◌, ◌==◌, text_comparable, none, some, arith, Bool-cases, if_cases,
}
use pullbackup.Kuma.Push.{
  Failure, Reply, delivered, failing, PushResult, safe_error, retryable, retry_delay, entry_at,
  try_push, push_heartbeat, push_attempts,
}

nat_cases : (a b : ℕ) → (a ≡ b) ⊎ ((a < b) ⊎ (b < a))
nat_cases a b = ground arith

-- The attempts from a number on, up to another: each failed and was worth a retry.
abbrev pub Retried : (ℕ → Reply) → ℕ → ℕ → Type 0
Retried reply from to =
    (i : ℕ) → from ≤ i → i < to → (e : Failure) × (reply i ≡ failing e) × (retryable e ≡ true)

-- The error of a push that runs out of attempts: that of its last one, or the one it began with.
abbrev pub IsLastError : (ℕ → Reply) → ℕ → ℕ → String → PushResult → Type 0
IsLastError reply zero made last result = result.error ≡ some last
IsLastError reply (suc left) made last result =
    (e : Failure) × (reply (made + left) ≡ failing e) × (result.error ≡ some (safe_error e))

Reply-cases : (r : Reply) → (r ≡ delivered) ⊎ ((e : Failure) × (r ≡ failing e))
Reply-cases delivered = inl refl
Reply-cases (failing e) = inr (e, refl)

-- The sleeps before so many attempts from a number on.
abbrev all_delays : ℕ → ℕ → ℕ
all_delays zero made = 0
all_delays (suc left) made = retry_delay made + all_delays left (suc made)

module _ (reply : ℕ → Reply) where
  -- How a push ends that may try `left` more times after `made` attempts: delivered by the last attempt,
  -- given up at one that is not worth a retry, or out of attempts.
  abbrev pub Delivered : ℕ → ℕ → PushResult → Type 0
  Delivered left made result =
      (n : ℕ) × (made ≤ n)
      × (n < made + left)
      × Retried reply made n
      × (reply n ≡ delivered)
      × (result ≡ record { ok = true; attempts = suc n; error = none })

  abbrev pub GivenUp : ℕ → ℕ → PushResult → Type 0
  GivenUp left made result =
      (n : ℕ) × (made ≤ n)
      × (n < made + left)
      × Retried reply made n
      × ((e : Failure) × (reply n ≡ failing e)
          × (retryable e ≡ false)
          × (result ≡ record { ok = false; attempts = suc n; error = some (safe_error e) }))

  abbrev pub UsedUp : ℕ → ℕ → String → PushResult → Type 0
  UsedUp left made last result =
      Retried reply made (made + left)
      × (result.ok ≡ false)
      × (result.attempts ≡ made + left)
      × IsLastError reply left made last result

  abbrev pub Ends : ℕ → ℕ → String → PushResult → Type 0
  Ends left made last result =
      Delivered left made result ⊎ GivenUp left made result ⊎ UsedUp left made last result

  retry_none : (n : ℕ) → Retried reply n n
  retry_none n i a b = absurd (omega arith)

  earlier_retry :
      (n to : ℕ) (e : Failure)
      → reply n ≡ failing e
      → retryable e ≡ true
      → Retried reply (suc n) to
      → Retried reply n to
  earlier_retry n to e h r rest i a b = elim (nat_cases n i) [
    | inl same ↦ (e, subst (λ k. reply k ≡ failing e) same h, r)
    | inr (inl later) ↦ rest i (omega arith) b
    | inr (inr earlier) ↦ absurd (omega arith)
  ]

  last_later :
      (left made : ℕ) (e : Failure) (result : PushResult)
      → reply made ≡ failing e
      → IsLastError reply left (suc made) (safe_error e) result
      → IsLastError reply (suc left) made "" result
  last_later zero made e result h error =
      (e, subst (λ k. reply k ≡ failing e) (omega arith) h, error)
  last_later (suc left) made e result h (f, g, error) =
      (f, subst (λ k. reply k ≡ failing f) (omega arith) g, error)

  one_less :
      (left made : ℕ) (last : String) (e : Failure) (result : PushResult)
      → reply made ≡ failing e
      → retryable e ≡ true
      → Ends left (suc made) (safe_error e) result
      → Ends (suc left) made last result
  one_less left made last e result h r (inl (n, a, b, before, met, same)) =
      inl (n, omega arith, omega arith, earlier_retry made n e h r before, met, same)
  one_less left made last e result h r (inr (inl (n, a, b, before, rest))) =
      inr (inl (n, omega arith, omega arith, earlier_retry made n e h r before, rest))
  one_less left made last e result h r (inr (inr (before, ok, count, error))) = inr (
      inr (
        subst (Retried reply made) (omega arith)
            (earlier_retry made (suc made + left) e h r before),
        ok,
        omega arith,
        last_later left made e result h error,
      ))

  try_push-Ends :
      (left made : ℕ) (last : String) → Ends left made last (try_push reply left made last).0
  unfolding try_push
  try_push-Ends zero made last = inr (inr (λ i a b. absurd (omega arith), refl, omega arith, refl))
  try_push-Ends (suc left) made last = elim (Reply-cases (reply made)) [
    | inl h ↦ inl (made, omega arith, omega arith, retry_none made, h, rw (h, try_push) refl)
    | inr (e, h) ↦ elim (Bool-cases (retryable e)) [
      | inl again ↦
          rw (h, try_push)
            (rw (again, try_push)
              (one_less left made last e (try_push reply left (suc made) (safe_error e)).0 h again
                (try_push-Ends left (suc made) (safe_error e))))
      | inr final ↦ inr (
          inl (
            made,
            omega arith,
            omega arith,
            retry_none made,
            (e, h, final, rw (h, try_push) (rw (final, try_push) refl)),
          ))
    ]
  ]

  sleep_sum :
      (left made : ℕ) (last : String) → (try_push reply left made last).1 ≤ all_delays left made
  unfolding try_push
  sleep_sum zero made last = omega arith
  sleep_sum (suc left) made last = elim (Reply-cases (reply made)) [
    | inl h ↦ rw (h, try_push) (omega arith)
    | inr (e, h) ↦
        rw (h, try_push)
          (if_cases (λ (r : PushResult × ℕ). r.1 ≤ all_delays (suc left) made) (retryable e)
            (λ _. omega (arith, sleep_sum left (suc made) (safe_error e))) (λ _. omega arith))
  ]

  sleep_bound : (try_push reply push_attempts 0 "unknown").1 ≤ 4
  unfolding retry_delay entry_at
  sleep_bound = sleep_sum push_attempts 0 "unknown"

  -- Kuma is switched off, or the task has no token.
  abbrev pub Unconfigured : Bool → String → Type 0
  Unconfigured kuma_enabled token = (kuma_enabled ≡ false) ⊎ (token ≡ "")

  -- Without a configuration or a token, and only then, a push makes no attempt and says so. Otherwise it
  -- ends, whatever the server replies: delivered, by the first attempt that is, at most the third; given
  -- up at the first failure that is not worth a retry, with its error; or after three failures that
  -- were, with the error of the last. All attempts before were failures worth a retry, and the sleeps
  -- take four seconds at most.
  pub push_heartbeat-Ends :
      (kuma_enabled : Bool) (token : String)
      → ((push_heartbeat kuma_enabled token reply).1 ≤ 4)
        × ((Unconfigured kuma_enabled token
              × ((push_heartbeat kuma_enabled token reply).0
                  ≡ record { ok = false; attempts = 0; error = some "kuma_not_configured" }))
            ⊎ ((kuma_enabled ≡ true)
                × (token ≢ "")
                × Ends push_attempts 0 "unknown" (push_heartbeat kuma_enabled token reply).0))
  unfolding push_heartbeat
  push_heartbeat-Ends kuma_enabled token =
      if_cases
        (λ (r : PushResult × ℕ).
          (r.1 ≤ 4)
          × ((Unconfigured kuma_enabled token
                × (r.0 ≡ record { ok = false; attempts = 0; error = some "kuma_not_configured" }))
              ⊎ ((kuma_enabled ≡ true) × (token ≢ "") × Ends push_attempts 0 "unknown" r.0)))
        (not kuma_enabled || token == "")
        (λ off. (omega arith, inl (missing kuma_enabled off, refl)))
        (λ on. (
          sleep_bound,
          inr (
            ground arith,
            λ none_given. absurd (ground (arith, text_comparable.same_iff token "")),
            try_push-Ends push_attempts 0 "unknown",
          ),
        ))
    where
      missing : (enabled : Bool) → (not enabled || token == "") ≡ true → Unconfigured enabled token
      missing false off = inl refl
      missing true off = inr ((text_comparable.same_iff token "").0 off)
