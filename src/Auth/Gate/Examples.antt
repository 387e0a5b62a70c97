-- ===== src/Auth/Gate/Examples.antt =====
-- The theorems on the middleware of http_auth.py and on api/auth.py at concrete inputs, and tests.
use pullbackup.Base.{ℕ, zero, suc, List, ◌≡◌, refl, true, false, [], ◌∷◌, some, arith}
use pullbackup.Base.Text.{starts_with, contains}
use pullbackup.Base.Words.{
  text_length, split_on, split_by, strip, strip_left, strip_right, is_space,
}
use pullbackup.Base.Fields.{
  any_char, has_char, cut, strip_quotes, strip_left_of, strip_right_of, lower,
}
use pullbackup.Models.{Instant, seconds}
use pullbackup.Auth.Store.{empty, get, sweep, sweep_tier, find, find_in}
use pullbackup.Auth.Store.Calls.{empty-IsValid}
use pullbackup.Auth.Session.{
  issue_session, session_is_valid, check_session, verified_session, session_of, is_fresh,
  revoked_config,
}
use pullbackup.Auth.Throttle.{login_config, login_throttle_retry_after, retry_after, recent}
use pullbackup.Auth.Gate.{
  is_public_shell, header, is_browser_subresource, has_control, valid_configuration, authorized,
  cookie_value, first_named, named_value, is_exempt, Scope, forwarded, challenge,
  constant_time_equal, middleware,
}
use pullbackup.Auth.Gate.Present.{basic_header, authorized-basic_header}
use pullbackup.Auth.Gate.Shell.{Guarded, middleware-Guarded}
use pullbackup.Auth.Login.{LoginRequest, Site, credentials_match, login_as, logout}
use pullbackup.Auth.Login.Lock.{Answered, five, logins, login_as-LockedOut}
use pullbackup.Auth.Login.Enter.{with_cookie, welcome, middleware-login_as}
use pullbackup.Auth.Login.Leave.{serve_each, middleware-logout}
use pullbackup.Auth.Toy.{toy_signer, toy_crypto, operator}

operator_valid : valid_configuration operator ≡ true
unfolding valid_configuration has_control has_char any_char text_length
operator_valid = refl

authorized-basic_header_example :
    authorized toy_crypto operator (basic_header toy_crypto operator) ≡ true
authorized-basic_header_example = authorized-basic_header toy_crypto operator operator_valid

-- A scripted request with basic credentials.
abbrev scripted : Scope
scripted = record {
  kind = "http";
  path = "/api/tasks";
  headers = ("authorization", basic_header toy_crypto operator) ∷ [];
}

middleware-Guarded_example :
    Guarded toy_signer toy_crypto operator
      (seconds 3600)
      scripted
      9
      empty
      (middleware toy_signer toy_crypto operator (seconds 3600) scripted 9 empty).1
unfolding starts_with
middleware-Guarded_example =
    middleware-Guarded toy_signer toy_crypto operator (seconds 3600) scripted 9 empty refl refl refl

-- The browser's own prompt is for navigation alone.
no_prompt : is_browser_subresource (("sec-fetch-mode", "cors") ∷ []) ≡ true
unfolding is_browser_subresource header contains lower strip strip_left strip_right is_space
no_prompt = refl

prompt :
    is_browser_subresource (("Sec-Fetch-Mode", "cors") ∷ ("sec-fetch-mode", " Navigate") ∷ [])
    ≡ false
unfolding is_browser_subresource header contains lower strip strip_left strip_right is_space
prompt = refl

-- The documents of the API are none of the shell, and a deep link is.
documents_guarded : is_public_shell "/openapi.json" ≡ false
unfolding is_public_shell starts_with
documents_guarded = refl

deep_link : is_public_shell "/tasks/3/edit" ≡ true
unfolding is_public_shell starts_with
deep_link = refl

-- A quoted cookie behind a malformed one.
quoted : cookie_value "junk; pullbackup_session=\"abc\" ; x=1" "pullbackup_session" ≡ "abc"
unfolding cookie_value split_on split_by first_named named_value cut strip strip_left strip_right
    is_space strip_quotes strip_left_of strip_right_of
quoted = refl

abbrev site : Site
site = record { credential = operator; session_max_age = seconds 3600; max_entries = 4 }

abbrev good_login : LoginRequest
good_login = record {
  username = "operator";
  password = "0123456789abcdef0123456789abcdef";
  peer = some "10.0.0.9";
  forwarded_for = [];
  scheme = "https";
}

middleware-login_as_example :
    ((login_as toy_signer toy_crypto site "10.0.0.9" good_login "sid_2" 7 7 empty).1
      ≡ welcome toy_signer toy_crypto site good_login "sid_2" 7)
    × ((middleware toy_signer toy_crypto operator
          (seconds 3600)
          (with_cookie "/api/tasks" (issue_session toy_signer "sid_2" 7))
          (seconds 60)
          empty).1
        ≡ forwarded)
unfolding issue_session login_throttle_retry_after retry_after recent get sweep sweep_tier empty
    any_char has_char is_space find find_in
middleware-login_as_example =
    middleware-login_as toy_signer toy_crypto site "/api/tasks" "10.0.0.9" good_login "sid_2" 7
      (seconds 60) 7 empty empty operator_valid refl refl refl (refl, refl, refl) refl (omega arith)
      (omega arith)

-- The session is tried again before.
abbrev tried_again : List (Scope × Instant)
tried_again = (with_cookie "/api/tasks" ".sid_2", 8) ∷ (with_cookie "/api/runs" ".sid_2", 9) ∷ []

middleware-logout_example :
    (middleware toy_signer toy_crypto operator
      (seconds 3600)
      (with_cookie "/api/tasks" ".sid_2")
      9
      (serve_each toy_signer toy_crypto site tried_again
        (logout toy_signer toy_crypto site ".sid_2" 8 8
          (record { revoked = empty; attempts = empty })).0.revoked)).1
    ≡ challenge (with_cookie "/api/tasks" ".sid_2").headers
unfolding is_exempt is_public_shell starts_with session_is_valid check_session verified_session
    session_of is_fresh get sweep sweep_tier empty find find_in any_char has_char is_space
middleware-logout_example =
    middleware-logout toy_signer toy_crypto site "/api/tasks" ".sid_2" 0 8 9 8
      (record { revoked = empty; attempts = empty }) tried_again operator_valid refl
      (refl, refl, refl) (omega arith) (empty-IsValid (revoked_config (seconds 3600) 4))
      (omega arith) (omega arith, (omega arith, omega arith)) refl

abbrev bad_login : LoginRequest
bad_login = record good_login { password = "guess" }

abbrev guesses : ℕ → LoginRequest
guesses zero = bad_login
guesses (suc k) = record bad_login { username = "admin" }

guesses_fail : (k : ℕ) → credentials_match toy_crypto operator (guesses k) ≡ false
unfolding credentials_match constant_time_equal
guesses_fail zero = refl
guesses_fail (suc k) = refl

-- The right credential comes too late.
login_as-LockedOut_example :
    Answered toy_signer toy_crypto site "10.0.0.9"
      (seconds 1)
      (seconds 2)
      (seconds 3)
      (seconds 4)
      (seconds 5)
      good_login
      "sid_9"
      (seconds 30)
      0
      (logins toy_signer toy_crypto site "10.0.0.9" ((bad_login, "sid_8", seconds 20, 0) ∷ []) (
        logins toy_signer toy_crypto site "10.0.0.9"
          (five toy_signer toy_crypto site "10.0.0.9"
            (seconds 1)
            (seconds 2)
            (seconds 3)
            (seconds 4)
            (seconds 5)
            guesses
            (λ _. "sid_9")
            (λ _. 0))
          empty))
unfolding find sweep empty find_in sweep_tier credentials_match constant_time_equal
login_as-LockedOut_example =
    login_as-LockedOut toy_signer toy_crypto site "10.0.0.9" (seconds 1) (seconds 2) (seconds 3)
      (seconds 4) (seconds 5) guesses (λ _. "sid_9") (λ _. 0) good_login "sid_9" 0 (seconds 30) 0
      ((bad_login, "sid_8", seconds 20, 0) ∷ []) empty operator_valid guesses_fail (omega arith)
      (empty-IsValid (login_config 4)) (omega arith) refl
      (omega arith, omega arith, omega arith, omega arith, omega arith)
      (omega arith, omega arith, omega arith) (omega arith)
