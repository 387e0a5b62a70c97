-- ===== src/Auth/Login.antt =====
-- backend/pullbackup/api/auth.py: the login form and logout on the stores of http_auth.py. A request is
-- served at one instant; `wall` is the clock that the store compares with for its warning.
pub mod Enter
pub mod Leave
pub mod Attempt
pub mod Lock
use pullbackup.Base.{
  ℕ, String, Bool, true, false, ◌&&◌, not, List, [], ◌∷◌, Option, none, some, ◌==◌, nat_comparable,
  text_comparable, if◌then◌else◌,
}
use pullbackup.Base.Text.{◌+s◌}
use pullbackup.Base.Words.{decimal}
use pullbackup.Models.{Instant}
use pullbackup.Auth.Store.{Store}
use pullbackup.Auth.Session.{Signer, issue_session, revoke_session}
use pullbackup.Auth.Throttle.{login_throttle_retry_after, record_failed_login, clear_failed_logins}
use pullbackup.Auth.Identity.{Addresses, resolve_client_identity}
use pullbackup.Auth.Gate.{Credential, Crypto, valid_configuration, constant_time_equal}

-- `",".join(lines)`
unfoldable pub join_commas : List String → String
join_commas [] = ""
join_commas (line ∷ []) = line
join_commas (line ∷ next ∷ rest) = line +s "," +s join_commas (next ∷ rest)

-- A login request: its payload, the peer, the lines of X-Forwarded-For and the scheme of its URL.
pub record LoginRequest : Type 0 where
  pub username : String
  pub password : String
  pub peer : Option String
  pub forwarded_for : List String
  pub scheme : String

-- The session cookie as `_set_session_cookie` sets it; it is always for all paths, lax and not for scripts.
pub record SessionCookie : Type 0 where
  pub token : String
  pub max_age : ℕ
  pub secure : Bool

pub data Response : Type 0 where
  signed_in : SessionCookie → Response
  signed_out : Response
  confirmed : Response
  failed : ℕ → String → List (String × String) → Response

-- The stores `_revoked` and `_login_attempts`.
pub record Stores : Type 0 where
  pub revoked : Store Bool
  pub attempts : Store (List Instant)

-- What the handlers read from the settings.
pub record Site : Type 0 where
  pub credential : Credential
  pub session_max_age : ℕ
  pub max_entries : ℕ

abbrev pub unconfigured : Response
unconfigured = failed 503 "authentication is not configured" []

-- `_client_key`
unfoldable pub client_key : (a : Addresses) → LoginRequest → List a.Network → String
unfolding join_commas
client_key a request networks =
    resolve_client_identity a request.peer (join_commas request.forwarded_for) networks

unfoldable pub credentials_match : Crypto → Credential → LoginRequest → Bool
unfolding constant_time_equal
credentials_match crypto c request =
    constant_time_equal crypto request.username c.username
    && constant_time_equal crypto request.password c.password

module _ (signer : Signer) (crypto : Crypto) (site : Site) where
  -- The part of `login` behind the throttle; `sid` is what `secrets` draws for a session.
  unfoldable pub try_login :
      String
      → LoginRequest
      → String
      → Instant
      → ℕ
      → Store (List Instant)
      → Store (List Instant) × Response
  unfolding credentials_match
  try_login client request sid now wall attempts =
      if not (credentials_match crypto site.credential request)
      then (
        record_failed_login site.max_entries client now wall attempts,
        failed 401 "invalid credentials" [],
      )
      else (
        clear_failed_logins client now attempts,
        signed_in (record {
          token = issue_session signer sid now;
          max_age = site.session_max_age;
          secure = request.scheme == "https";
        }),
      )

  -- `login` for a client.
  unfoldable pub login_as :
      String
      → LoginRequest
      → String
      → Instant
      → ℕ
      → Store (List Instant)
      → Store (List Instant) × Response
  unfolding try_login
  login_as client request sid now wall attempts =
      if not (valid_configuration site.credential)
      then (attempts, unconfigured)
      else let (swept, wait) = login_throttle_retry_after client now attempts in
        if not (wait == 0)
        then (
          swept,
          failed 429 "too many failed sign-in attempts" (("Retry-After", decimal wait) ∷ []),
        )
        else try_login client request sid now wall swept

  unfoldable pub login :
      (a : Addresses)
      → List a.Network
      → LoginRequest
      → String
      → Instant
      → ℕ
      → Stores
      → Stores × Response
  unfolding client_key login_as
  login a networks request sid now wall s =
      let (attempts, response) =
        login_as (client_key a request networks) request sid now wall s.attempts in
      (record s { attempts = attempts }, response)

  -- `logout`, with the token of the cookie, "" if there is none.
  unfoldable pub logout : String → Instant → ℕ → Stores → Stores × Response
  logout token now wall s = (
    if token == "" then s else record s {
      revoked =
          revoke_session signer site.session_max_age site.max_entries token now wall s.revoked;
    },
    signed_out,
  )

  -- `session`, which the middleware has let through.
  unfoldable pub session : Response
  session = if valid_configuration site.credential then confirmed else unconfigured
