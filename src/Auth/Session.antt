-- ===== src/Auth/Session.antt =====
-- backend/pullbackup/http_auth.py: session tokens and their revocation. itsdangerous is the parameter
-- `Signer`, an instant is in microseconds, and the revocation store is passed along.
pub mod Logout
pub mod Issue
use pullbackup.Base.{
  ℕ, ◌+◌, ◌*◌, ◌/◌, ◌≡◌, String, Bool, true, false, ◌&&◌, Option, none, some, leb, or_else, ◌==◌,
  text_comparable, if◌then◌else◌,
}
use pullbackup.Models.{Instant, seconds}
use pullbackup.Auth.Store.{Config, Store, get, set}

-- What `loads` finds in a token: a dictionary, with its "sid" if that is text, or something else.
pub data Payload : Type 0 where
  object : Option String → Payload
  other : Payload

-- `URLSafeTimedSerializer` with the key of the running configuration: `loads` answers the payload and
-- the instant of issue of a token that carries a correct signature, and `dumps` makes such a token.
pub record Signer : Type 0 where
  pub loads : String → Option (Payload × Instant)
  pub dumps : String → Instant → String
  pub loads-dumps :
      (sid : String) (at : Instant) → loads (dumps sid at) ≡ some (object (some sid), at)
  pub dumps-nonempty : (sid : String) (at : Instant) → (dumps sid at == "") ≡ false

abbrev pub clock_skew_tolerance : ℕ
clock_skew_tolerance = seconds 60

abbrev pub revocation_clock_slack : ℕ
revocation_clock_slack = seconds 61

-- The store `_revoked`, from the session's age limit and the cap.
abbrev pub revoked_config : ℕ → ℕ → Config Bool
revoked_config session_max_age max_entries = record {
  max_entries = max_entries;
  ttl = session_max_age + revocation_clock_slack;
  protect = none;
  warn_on_live_eviction = true;
}

unfoldable pub session_of : Payload × Instant → Option (String × Instant)
session_of (object (some sid), issued_at) = some (sid, issued_at)
session_of (object none, issued_at) = none
session_of (other, issued_at) = none

module _ (signer : Signer) where
  -- `_verified_session`
  unfoldable pub verified_session : String → Option (String × Instant)
  verified_session token =
      if token == ""
      then none
      else elim (signer.loads token) [ none ↦ none | some found ↦ session_of found ]

  -- `issue_session`, for the identifier that `secrets` drew. The stamp is in whole seconds.
  unfoldable pub issue_session : String → Instant → String
  issue_session sid now = signer.dumps sid (seconds (now / seconds 1))

  -- `-60 <= now - issued_at <= session_max_age_seconds`
  unfoldable pub is_fresh : ℕ → Instant → Instant → Bool
  is_fresh session_max_age issued_at now =
      leb issued_at (now + clock_skew_tolerance) && leb now (issued_at + session_max_age)

  -- `session_is_valid` on a verified token: the store after its sweep, and the answer.
  unfoldable pub check_session :
      ℕ → Option (String × Instant) → Instant → Store Bool → Store Bool × Bool
  check_session session_max_age none now revoked = (revoked, false)
  check_session session_max_age (some (sid, issued_at)) now revoked =
      let (swept, found) = get sid now revoked in
      (swept, if or_else found false then false else is_fresh session_max_age issued_at now)

  unfoldable pub session_is_valid : ℕ → String → Instant → Store Bool → Store Bool × Bool
  session_is_valid session_max_age token now revoked =
      check_session session_max_age (verified_session token) now revoked

  -- `_revoked.set(verified[0], True, now=now)`
  unfoldable pub revoke_verified :
      Config Bool → Option (String × Instant) → Instant → ℕ → Store Bool → Store Bool
  revoke_verified c none now wall revoked = revoked
  revoke_verified c (some (sid, issued_at)) now wall revoked = set c sid true now wall revoked

  unfoldable pub revoke_session : ℕ → ℕ → String → Instant → ℕ → Store Bool → Store Bool
  revoke_session session_max_age max_entries token now wall revoked =
      let (swept, valid) = session_is_valid session_max_age token now revoked in
      if valid
      then revoke_verified (revoked_config session_max_age max_entries) (verified_session token) now
          wall swept
      else swept
