-- ===== src/Auth/Throttle.antt =====
-- backend/pullbackup/http_auth.py: the throttle on failed logins, keyed by client.
pub mod Lockout
use pullbackup.Base.{
  ℕ, false, ◌+◌, ◌-◌, ◌/◌, String, List, [], ◌∷◌, ◌++◌, Option, none, some, ltb, leb, if◌then◌else◌,
  keep, length, drop, max2, or_else,
}
use pullbackup.Models.{Instant, seconds}
use pullbackup.Auth.Store.{Config, Store, get, mutate, pop}

abbrev pub login_max_failures : ℕ
login_max_failures = 5

abbrev pub login_lockout : ℕ
login_lockout = seconds 60

-- The store `_login_attempts`: a client with five failures is protected.
abbrev pub login_config : ℕ → Config (List Instant)
login_config max_entries = record {
  max_entries = max_entries;
  ttl = login_lockout;
  protect = some (λ attempts. leb login_max_failures (length attempts));
  warn_on_live_eviction = false;
}

-- `[t for t in attempts if now - t < LOGIN_LOCKOUT_SECONDS]`
unfoldable pub recent : Instant → List Instant → List Instant
recent now = keep (λ t. ltb now (t + login_lockout))

-- `attempts[-LOGIN_MAX_FAILURES:]`
unfoldable pub last_failures : List Instant → List Instant
last_failures attempts = drop (length attempts - login_max_failures) attempts

-- `append` inside `record_failed_login`
unfoldable pub append_failure : Instant → Option (List Instant) → List Instant
unfolding recent last_failures
append_failure now existing = last_failures (recent now (or_else existing []) ++ now ∷ [])

unfoldable pub record_failed_login :
    ℕ → String → Instant → ℕ → Store (List Instant) → Store (List Instant)
record_failed_login max_entries client now wall attempts =
    (mutate (login_config max_entries) client (append_failure now) now wall attempts).0

-- `recent[-LOGIN_MAX_FAILURES]`, of a list that is long enough.
unfoldable pub fifth_last : List Instant → Instant
fifth_last attempts = elim (drop (length attempts - login_max_failures) attempts) [
  | [] ↦ 0
  | t ∷ _ ↦ t
]

-- The seconds to wait, from the failures that the store holds.
unfoldable pub retry_after : Instant → List Instant → ℕ
unfolding recent fifth_last
retry_after now attempts =
    let failures = recent now attempts in
    if ltb (length failures) login_max_failures
    then 0
    else max2 1 ((fifth_last failures + login_lockout + seconds 1 - now) / seconds 1)

unfoldable pub login_throttle_retry_after :
    String → Instant → Store (List Instant) → Store (List Instant) × ℕ
login_throttle_retry_after client now attempts =
    let (swept, found) = get client now attempts in (swept, retry_after now (or_else found []))

unfoldable pub clear_failed_logins : String → Instant → Store (List Instant) → Store (List Instant)
clear_failed_logins client now attempts = (pop client now attempts).0
