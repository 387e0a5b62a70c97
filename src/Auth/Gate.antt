-- ===== src/Auth/Gate.antt =====
-- backend/pullbackup/http_auth.py: the middleware, which decides what reaches the application. Headers
-- are as `decode("latin-1")` reads them, with names in lower case as ASGI has them; the hash of hashlib
-- and the decoding of base64 are parameters, and a request is served at one instant.
pub mod Present
pub mod Shell
mod Examples
use pullbackup.Base.{
  ℕ, ◌≡◌, String, Bool, true, false, ◌&&◌, ◌||◌, not, List, [], ◌∷◌, Option, none, some, ltb, leb,
  any, or_else, ◌==◌, nat_comparable, text_comparable, if◌then◌else◌,
}
use Prim.Native.Char.{code}
use pullbackup.Base.Text.{starts_with, contains, ◌+s◌}
use pullbackup.Base.Words.{text_length, split_on, strip}
use pullbackup.Base.Fields.{any_char, has_char, cut, strip_quotes, lower}
use pullbackup.Models.{Instant}
use pullbackup.Auth.Store.{Store}
use pullbackup.Auth.Session.{Signer, session_is_valid}

-- `_UNAUTHENTICATED_PATHS`, `_SHELL_PATHS` and `_SHELL_PREFIXES`
abbrev pub unauthenticated_paths : List String
unauthenticated_paths = "/api/system/health" ∷ "/api/auth/login" ∷ "/api/auth/logout" ∷ []

abbrev pub shell_paths : List String
shell_paths = "/" ∷ "/login" ∷ "/favicon.svg" ∷ []

abbrev pub shell_prefixes : List String
shell_prefixes = "/tasks" ∷ "/sources" ∷ "/runs" ∷ []

unfoldable pub is_public_shell : String → Bool
is_public_shell path =
    any (λ p. path == p) shell_paths
    || any (λ p. path == p || starts_with path (p +s "/")) shell_prefixes
    || starts_with path "/assets/"

-- `dict(headers).get(name)`: of several headers of a name the last one counts.
unfoldable pub header : String → List (String × String) → Option String
header name [] = none
header name ((n, value) ∷ rest) =
    let later = header name rest in
    elim later [ none ↦ if n == name then some value else none | some found ↦ some found ]

abbrev pub header_text : String → List (String × String) → String
header_text name headers = or_else (header name headers) ""

unfoldable pub is_browser_subresource : List (String × String) → Bool
unfolding header strip lower
is_browser_subresource headers =
    lower (strip (header_text "x-pullbackup-client" headers)) == "web"
    || contains "text/event-stream" (lower (header_text "accept" headers))
    || (elim (header "sec-fetch-mode" headers) [
      | none ↦ false
      | some mode ↦ not (lower (strip mode) == "navigate")
    ])

-- The configured credential.
pub record Credential : Type 0 where
  pub username : String
  pub password : String

-- `any(ord(char) < 32 or ord(char) == 127 for char in s)`
unfoldable pub has_control : String → Bool
unfolding any_char
has_control s = any_char (λ c. ltb (code c) 32 || code c == 127) s

unfoldable pub valid_configuration : Credential → Bool
unfolding has_char has_control text_length
valid_configuration c =
    not (c.username == "")
    && not (has_char 58 c.username)
    && not (has_control c.username)
    && leb 32 (text_length c.password)
    && not (has_control c.password)

-- `sha256(s.encode()).digest()`; `b64decode(s, validate=True).decode("utf-8")`, where `none` is the
-- exception, and its inverse, which a client applies.
pub record Crypto : Type 0 where
  pub digest : String → String
  pub decode : String → Option String
  pub encode : String → String
  pub decode-encode : (s : String) → decode (encode s) ≡ some s

unfoldable pub constant_time_equal : Crypto → String → String → Bool
constant_time_equal crypto left right = crypto.digest left == crypto.digest right

-- The part of `_authorized` behind the decoding.
unfoldable pub matches : Crypto → Credential → Option (String × String) → Bool
unfolding constant_time_equal
matches crypto c none = false
matches crypto c (some (supplied_username, supplied_password)) =
    constant_time_equal crypto supplied_username c.username
    && constant_time_equal crypto supplied_password c.password

-- The part of `_authorized` behind the split at the first blank.
unfoldable pub matches_encoded : Crypto → Credential → Option (String × String) → Bool
unfolding lower cut matches
matches_encoded crypto c none = false
matches_encoded crypto c (some (scheme, encoded)) =
    if not (lower scheme == "basic") then false else elim (crypto.decode encoded) [
      | none ↦ false
      | some decoded ↦ matches crypto c (cut 58 decoded)
    ]

unfoldable pub authorized : Crypto → Credential → String → Bool
unfolding cut matches_encoded
authorized crypto c text = matches_encoded crypto c (cut 32 text)

-- One part of the cookie header: its value, if it is the cookie of that name.
unfoldable pub named_value : String → Option (String × String) → Option String
unfolding strip strip_quotes
named_value name none = none
named_value name (some (key, value)) =
    if key == name then some (strip_quotes (strip value)) else none

unfoldable pub first_named : String → List String → String
unfolding named_value cut strip
first_named name [] = ""
first_named name (part ∷ rest) =
    let later = first_named name rest in
    elim (named_value name (cut 61 (strip part))) [ none ↦ later | some value ↦ value ]

unfoldable pub cookie_value : String → String → String
unfolding split_on first_named
cookie_value cookie_header name = first_named name (split_on 59 cookie_header)

abbrev pub session_cookie : String
session_cookie = "pullbackup_session"

-- An ASGI scope.
pub record Scope : Type 0 where
  pub kind : String
  pub path : String
  pub headers : List (String × String)

-- A request reaches the application, or is answered with a status, a detail and headers.
pub data Answer : Type 0 where
  forwarded : Answer
  refused : ℕ → String → List (String × String) → Answer

unfoldable pub is_exempt : Scope → Bool
unfolding is_public_shell
is_exempt scope =
    not (scope.kind == "http")
    || any (λ p. scope.path == p) unauthenticated_paths
    || is_public_shell scope.path

unfoldable pub challenge : List (String × String) → Answer
unfolding is_browser_subresource
challenge headers =
    let login : String × String = ("X-Pullbackup-Login", "/login") in
    refused 401 "authentication required" (
      if is_browser_subresource headers
      then login ∷ []
      else login ∷ ("WWW-Authenticate", "Basic realm=\"Pullback\"") ∷ [])

module _ (signer : Signer) (crypto : Crypto) (c : Credential) (session_max_age : ℕ) where
  -- The check of the session in the cookie: the store of revocations after it, and the answer.
  unfoldable pub check_cookie : List (String × String) → Instant → Store Bool → Store Bool × Bool
  unfolding cookie_value
  check_cookie headers now revoked =
      session_is_valid signer session_max_age
        (cookie_value (header_text "cookie" headers) session_cookie) now revoked

  -- `HttpBasicAuthMiddleware.__call__`
  unfoldable pub middleware : Scope → Instant → Store Bool → Store Bool × Answer
  unfolding check_cookie
  middleware scope now revoked =
      if is_exempt scope
      then (revoked, forwarded)
      else if not (valid_configuration c)
      then (revoked, refused 503 "authentication is not configured" [])
      else let (swept, valid) = check_cookie scope.headers now revoked in
        (
          swept,
          if valid || authorized crypto c (header_text "authorization" scope.headers)
              then forwarded
              else challenge scope.headers,
        )
