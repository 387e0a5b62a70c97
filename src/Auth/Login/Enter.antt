-- ===== src/Auth/Login/Enter.antt =====
-- A login through api/auth.py, and the requests of its session behind the middleware of http_auth.py.
use Prim.Native.Char.{Char, code}
use pullbackup.Base.{
  ℕ, ◌+◌, ◌/◌, ◌≤◌, ◌≡◌, refl, ap, sym, ◌∙◌, String, Bool, true, false, not, List, [], ◌∷◌, none,
  ◌==◌, nat_comparable, text_comparable, arith, if_cases, inl, inr,
}
use pullbackup.Base.Text.{◌+s◌}
use pullbackup.Base.Words.{is_space, split_by, split_on, strip}
use pullbackup.Base.Fields.{any_char, has_char, cut-append, strip_quotes}
use pullbackup.Base.Plain.{
  split_by-unbroken, strip-unbroken, strip_quotes-unbroken, any_char-append,
}
use mathlib.Core.Bool.{true≢false}
use text.Mathlib.TextLemmas.{nil-append}
use pullbackup.Models.{Instant, seconds}
use pullbackup.Auth.Store.{Store, get}
use pullbackup.Auth.Session.{Signer, clock_skew_tolerance, issue_session, session_is_valid}
use pullbackup.Auth.Session.Issue.{session_is_valid-Lives}
use pullbackup.Auth.Throttle.{login_throttle_retry_after}
use pullbackup.Auth.Gate.{
  Crypto, valid_configuration, named_value, first_named, cookie_value, session_cookie, header,
  Scope, Answer, forwarded, is_exempt, check_cookie, middleware,
}
use pullbackup.Auth.Login.{
  LoginRequest, Response, signed_in, Site, credentials_match, try_login, login_as,
}

abbrev pub equals_sign : Char
equals_sign = "="

-- The header with which a browser sends the session cookie.
abbrev pub cookie_of : String → String
cookie_of token = session_cookie +s String.◌∷◌ equals_sign token

-- No blanks, semicolons or quotes, as in the URL-safe tokens of itsdangerous.
abbrev pub IsPlain : String → Type 0
IsPlain token =
    (any_char is_space token ≡ false) × (has_char 59 token ≡ false) × (has_char 34 token ≡ false)

unbroken_cookie :
    (test : Char → Bool) (token : String)
    → any_char test session_cookie ≡ false
    → test equals_sign ≡ false
    → any_char test token ≡ false
    → any_char test (cookie_of token) ≡ false
unfolding any_char
unbroken_cookie test token name sign h =
    any_char-append test session_cookie (String.◌∷◌ equals_sign token)
    ∙ ground (arith, name, sign, h)

no_space : any_char is_space session_cookie ≡ false
unfolding any_char is_space
no_space = refl

no_semicolon : any_char (λ c. code c == 59) session_cookie ≡ false
unfolding any_char
no_semicolon = refl

no_sign : has_char 61 session_cookie ≡ false
unfolding has_char any_char
no_sign = refl

sign_no_space : is_space equals_sign ≡ false
unfolding is_space
sign_no_space = refl

trimmed : (token : String) → IsPlain token → strip_quotes (strip token) ≡ token
unfolding has_char
trimmed token (spaces, semis, quotes) =
    ap strip_quotes (strip-unbroken token spaces) ∙ strip_quotes-unbroken token quotes

cookie_value-cookie_of :
    (token : String) → IsPlain token → cookie_value (cookie_of token) session_cookie ≡ token
unfolding cookie_value split_on first_named named_value has_char
cookie_value-cookie_of token plain =
    let parts : split_by (λ c. code c == 59) "" (cookie_of token) ≡ cookie_of token ∷ [] =
      split_by-unbroken (λ c. code c == 59) "" (cookie_of token)
        (unbroken_cookie (λ c. code c == 59) token no_semicolon refl plain.1)
      ∙ ap (λ t. t ∷ []) (nil-append (cookie_of token)) in
    let whole : strip (cookie_of token) ≡ cookie_of token =
      strip-unbroken (cookie_of token)
        (unbroken_cookie is_space token no_space sign_no_space plain.0) in
    let halves = cut-append 61 equals_sign session_cookie token refl no_sign in
    rw (parts, first_named, whole, halves) (trimmed token plain)

-- A request of the session to a path of the site.
abbrev pub with_cookie : String → String → Scope
with_cookie path token = record {
  kind = "http";
  path = path;
  headers = ("cookie", cookie_of token) ∷ [];
}

module _ (signer : Signer) (crypto : Crypto) (site : Site) where
  pub check_with_cookie :
      (path token : String) (now : Instant) (revoked : Store Bool)
      → IsPlain token
      → check_cookie signer crypto site.credential site.session_max_age
          (with_cookie path token).headers
          now
          revoked
        ≡ session_is_valid signer site.session_max_age token now revoked
  unfolding check_cookie header
  check_with_cookie path token now revoked plain =
      ap (λ t. session_is_valid signer site.session_max_age t now revoked)
        (cookie_value-cookie_of token plain)

  -- A session that is accepted opens every path.
  pub middleware-session :
      (path token : String) (now : Instant) (revoked : Store Bool)
      → valid_configuration site.credential ≡ true
      → IsPlain token
      → (session_is_valid signer site.session_max_age token now revoked).1 ≡ true
      → (middleware signer crypto site.credential site.session_max_age
          (with_cookie path token)
          now
          revoked).1
        ≡ forwarded
  unfolding middleware
  middleware-session path token now revoked valid plain accepted =
      let scope = with_cookie path token in
      let c = site.credential in
      let checked : (check_cookie signer crypto c site.session_max_age scope.headers now revoked).1
          ≡ true =
        ap (λ r. r.1) (check_with_cookie path token now revoked plain) ∙ accepted in
      let opens : Store Bool × Answer → Type 0 = λ r. r.1 ≡ forwarded in
      if_cases opens (is_exempt scope) (λ _. refl)
        (λ _.
          if_cases opens (not (valid_configuration c))
            (λ bad. absurd (true≢false (sym valid ∙ ground arith))) (λ _. rw checked refl))

  -- The answer of a login that succeeds.
  abbrev pub welcome : LoginRequest → String → Instant → Response
  welcome request sid now = signed_in (record {
    token = issue_session signer sid now;
    max_age = site.session_max_age;
    secure = request.scheme == "https";
  })

  login_as-welcome :
      (client : String) (request : LoginRequest) (sid : String) (now : Instant) (wall : ℕ)
      (attempts : Store (List Instant))
      → valid_configuration site.credential ≡ true
      → (login_throttle_retry_after client now attempts).1 ≡ 0
      → crypto.digest request.username ≡ crypto.digest site.credential.username
      → crypto.digest request.password ≡ crypto.digest site.credential.password
      → (login_as signer crypto site client request sid now wall attempts).1
        ≡ welcome request sid now
  unfolding login_as try_login credentials_match
  login_as-welcome client request sid now wall attempts valid free name password =
      let welcomes : Store (List Instant) × Response → Type 0 =
        λ r. r.1 ≡ welcome request sid now in
      let same_name = (text_comparable.same_iff _ _).1 name in
      let same_password = (text_comparable.same_iff _ _).1 password in
      if_cases welcomes (not (valid_configuration site.credential))
        (λ bad. absurd (true≢false (sym valid ∙ ground arith)))
        (λ _.
          if_cases welcomes (not ((login_throttle_retry_after client now attempts).1 == 0))
            (λ busy. absurd (true≢false (ground arith))) (λ _. rw (same_name, same_password) refl))

  accepted_while_fresh :
      (sid : String) (now later : Instant) (revoked : Store Bool)
      → (get sid later revoked).1 ≡ none
      → seconds (now / seconds 1) ≤ later + clock_skew_tolerance
      → later ≤ seconds (now / seconds 1) + site.session_max_age
      → (session_is_valid signer site.session_max_age
          (issue_session signer sid now)
          later
          revoked).1
        ≡ true
  accepted_while_fresh sid now later revoked absent begun young =
      elim (session_is_valid-Lives signer site.session_max_age sid now later revoked absent) [
        | inl lives ↦ lives.0
        | inr (_, inl early) ↦ absurd (omega arith)
        | inr (_, inr old) ↦ absurd (omega arith)
      ]

  -- A login with the configured credential, by a client that the throttle lets through, answers with a
  -- session cookie, and a request with that cookie reaches the application at every path, from a minute
  -- before the session's stamp until its age limit, if the session is not revoked and its token plain.
  pub middleware-login_as :
      (path client : String) (request : LoginRequest) (sid : String) (now later : Instant)
      (wall : ℕ) (attempts : Store (List Instant)) (revoked : Store Bool)
      → valid_configuration site.credential ≡ true
      → (login_throttle_retry_after client now attempts).1 ≡ 0
      → crypto.digest request.username ≡ crypto.digest site.credential.username
      → crypto.digest request.password ≡ crypto.digest site.credential.password
      → IsPlain (issue_session signer sid now)
      → (get sid later revoked).1 ≡ none
      → seconds (now / seconds 1) ≤ later + clock_skew_tolerance
      → later ≤ seconds (now / seconds 1) + site.session_max_age
      → ((login_as signer crypto site client request sid now wall attempts).1
          ≡ welcome request sid now)
        × ((middleware signer crypto site.credential site.session_max_age
              (with_cookie path (issue_session signer sid now))
              later
              revoked).1
            ≡ forwarded)
  middleware-login_as path client request sid now later wall attempts revoked valid free name
        password plain absent begun young =
      (
        login_as-welcome client request sid now wall attempts valid free name password,
        middleware-session path (issue_session signer sid now) later revoked valid plain
            (accepted_while_fresh sid now later revoked absent begun young),
      )
