-- ===== src/Kuma/Push.antt =====
-- `push_heartbeat` of backend/pullbackup/services/kuma_sync.py: one heartbeat, with its retries.
pub mod Retries
use pullbackup.Base.{
  ℕ, zero, suc, ◌+◌, ◌-◌, String, Bool, true, false, not, ◌||◌, List, [], ◌∷◌, Option, none, some,
  leb, min2, ◌==◌, text_comparable, if◌then◌else◌,
}
use pullbackup.Base.Text.{◌+s◌}
use pullbackup.Base.Words.{decimal}

-- What the code sees of an exception: the status of an HTTP error, or the name of its class.
pub data Failure : Type 0 where
  http_status : ℕ → Failure
  exception : String → Failure

-- One GET of the push URL.
pub data Reply : Type 0 where
  delivered : Reply
  failing : Failure → Reply

pub record PushResult : Type 0 where
  pub ok : Bool
  pub attempts : ℕ
  pub error : Option String

unfoldable pub safe_error : Failure → String
safe_error (http_status status) = "HTTP " +s decimal status
safe_error (exception name) = name

unfoldable pub retryable : Failure → Bool
retryable (http_status status) = leb 500 status
retryable (exception name) = true

abbrev pub push_attempts : ℕ
push_attempts = 3

-- `PUSH_RETRY_DELAYS`, in seconds.
abbrev pub push_retry_delays : List ℕ
push_retry_delays = 1 ∷ 3 ∷ []

unfoldable pub entry_at : ℕ → List ℕ → ℕ
entry_at i [] = 0
entry_at zero (x ∷ xs) = x
entry_at (suc i) (x ∷ xs) = entry_at i xs

-- The sleep before an attempt, which are numbered from 0.
unfoldable pub retry_delay : ℕ → ℕ
unfolding entry_at
retry_delay zero = 0
retry_delay (suc i) = entry_at (min2 i 1) push_retry_delays

-- The loop, with the attempts that are left, those made and the last error: the result, and the seconds
-- that it sleeps. `reply i` is what attempt number i meets.
unfoldable pub try_push : (ℕ → Reply) → ℕ → ℕ → String → PushResult × ℕ
unfolding safe_error retryable retry_delay
try_push reply zero made last = (record { ok = false; attempts = made; error = some last }, 0)
try_push reply (suc left) made last = elim (reply made) [
  | delivered ↦ (record { ok = true; attempts = suc made; error = none }, retry_delay made)
  | failing e ↦
      let (result, slept) = try_push reply left (suc made) (safe_error e) in
      if retryable e then (result, retry_delay made + slept) else (
        record { ok = false; attempts = suc made; error = some (safe_error e) },
        retry_delay made,
      )
]

-- `settings.kuma_enabled` is an argument.
unfoldable pub push_heartbeat : Bool → String → (ℕ → Reply) → PushResult × ℕ
unfolding try_push
push_heartbeat kuma_enabled token reply =
    if not kuma_enabled || token == ""
    then (record { ok = false; attempts = 0; error = some "kuma_not_configured" }, 0)
    else try_push reply push_attempts 0 "unknown"
