-- ===== src/Auth/Login/Leave.antt =====
-- A logout through api/auth.py, and the requests of its session behind the middleware of http_auth.py.
use pullbackup.Base.{
  ℕ, ◌≤◌, ◌≡◌, refl, ap, sym, ◌∙◌, String, Bool, true, false, not, List, [], ◌∷◌, Option, some,
  none, ◌==◌, text_comparable, if_cases, arith, Bool-cases, inl, inr,
}
use mathlib.Core.Bool.{true≢false}
use pullbackup.Models.{Instant}
use pullbackup.Auth.Store.{Store, get}
use pullbackup.Auth.Store.Invariant.{IsValid}
use pullbackup.Auth.Session.{
  Signer, check_session, revoked_config, verified_session, session_is_valid, revoke_session,
}
use pullbackup.Auth.Session.Logout.{
  revoke_session_forged, StaysOut, sweep-StaysOut, LoggedOut, revoke_session-LoggedOut,
  session_is_valid-LoggedOut,
}
use pullbackup.Auth.Gate.{
  Crypto, Scope, Answer, valid_configuration, is_exempt, header, header_text, authorized,
  matches_encoded, challenge, check_cookie, middleware,
}
use pullbackup.Base.Fields.{cut}
use pullbackup.Auth.Login.{Stores, Site, logout}
use pullbackup.Auth.Login.Enter.{IsPlain, with_cookie, check_with_cookie}

no_header :
    (path token : String) (crypto : Crypto) (site : Site)
    → authorized crypto site.credential
        (header_text "authorization" (with_cookie path token).headers)
      ≡ false
unfolding authorized header matches_encoded cut
no_header path token crypto site = refl

module _ (signer : Signer) (crypto : Crypto) (site : Site) where
  middleware-refused :
      (path token : String) (now : Instant) (revoked : Store Bool)
      → valid_configuration site.credential ≡ true
      → is_exempt (with_cookie path token) ≡ false
      → IsPlain token
      → (session_is_valid signer site.session_max_age token now revoked).1 ≡ false
      → (middleware signer crypto site.credential site.session_max_age
          (with_cookie path token)
          now
          revoked).1
        ≡ challenge (with_cookie path token).headers
  unfolding middleware
  middleware-refused path token now revoked valid guard plain refusal =
      let scope = with_cookie path token in
      let c = site.credential in
      let checked : (check_cookie signer crypto c site.session_max_age scope.headers now revoked).1
          ≡ false =
        ap (λ r. r.1) (check_with_cookie signer crypto site path token now revoked plain)
        ∙ refusal in
      let challenged : Store Bool × Answer → Type 0 = λ r. r.1 ≡ challenge scope.headers in
      if_cases challenged (is_exempt scope) (λ exempt. absurd (true≢false (sym exempt ∙ guard)))
        (λ _.
          if_cases challenged (not (valid_configuration c))
            (λ bad. absurd (true≢false (sym valid ∙ ground arith)))
            (λ _. rw (checked, no_header path token crypto site) refl))

  empty_unverified : (token : String) → (token == "") ≡ true → verified_session signer token ≡ none
  unfolding verified_session
  empty_unverified token missing = rw (missing, verified_session) refl

  accepted_nonempty :
      (token : String) (now : Instant) (revoked : Store Bool)
      → (session_is_valid signer site.session_max_age token now revoked).1 ≡ true
      → (token == "") ≡ false
  accepted_nonempty token now revoked h = elim (Bool-cases (token == "")) [
    | inr given ↦ given
    | inl missing ↦
        let refusal =
          revoke_session_forged signer site.session_max_age site.max_entries token now now revoked
            (empty_unverified token missing) in
        absurd (true≢false (sym h ∙ refusal.0))
  ]

  -- The requests that the middleware serves, each at its instant, and the store that they leave.
  unfoldable pub serve_each : List (Scope × Instant) → Store Bool → Store Bool
  serve_each [] revoked = revoked
  serve_each ((scope, now) ∷ rest) revoked =
      serve_each rest
        (middleware signer crypto site.credential site.session_max_age scope now revoked).0

  -- The instants of the requests do not go back, from one instant up to another.
  abbrev pub Between : Instant → List (Scope × Instant) → Instant → Type 0
  Between t [] later = t ≤ later
  Between t ((scope, now) ∷ rest) later = (t ≤ now) × Between now rest later

  abbrev Gone : String → Instant → Instant → Store Bool → Type 0
  Gone = LoggedOut signer site.session_max_age site.max_entries

  check-Gone :
      (token : String) (revoked_at t now : Instant) (checked : Option (String × Instant))
      (revoked : Store Bool)
      → t ≤ now
      → Gone token revoked_at t revoked
      → Gone token revoked_at now (check_session signer site.session_max_age checked now revoked).0
  unfolding check_session get
  check-Gone token revoked_at t now none revoked le (sid, issued, known, recent, out) =
      (sid, issued, known, recent, later_on out)
    where
      later_on :
          StaysOut signer site.session_max_age site.max_entries sid revoked_at t revoked
          → StaysOut signer site.session_max_age site.max_entries sid revoked_at now revoked
      later_on (inl over) = inl (omega arith)
      later_on (inr held) = inr held
  check-Gone token revoked_at t now (some (other, stamp)) revoked le
        (sid, issued, known, recent, out) =
      (
        sid,
        issued,
        known,
        recent,
        sweep-StaysOut signer site.session_max_age site.max_entries sid revoked_at t now revoked le
            out,
      )

  middleware-Gone :
      (token : String) (revoked_at t now : Instant) (scope : Scope) (revoked : Store Bool)
      → t ≤ now
      → Gone token revoked_at t revoked
      → Gone token revoked_at now
          (middleware signer crypto site.credential site.session_max_age scope now revoked).0
  unfolding middleware check_cookie session_is_valid check_session
  middleware-Gone token revoked_at t now scope revoked le h =
      let unswept : Gone token revoked_at now revoked =
        check-Gone token revoked_at t now none revoked le h in
      let gone : Store Bool × Answer → Type 0 = λ r. Gone token revoked_at now r.0 in
      if_cases gone (is_exempt scope) (λ _. unswept)
        (λ _.
          if_cases gone (not (valid_configuration site.credential)) (λ _. unswept)
            (λ _. check-Gone token revoked_at t now _ revoked le h))

  serve_each-Gone :
      (token : String) (revoked_at t later : Instant) (between : List (Scope × Instant))
      (revoked : Store Bool)
      → Between t between later
      → Gone token revoked_at t revoked
      → Gone token revoked_at later (serve_each between revoked)
  unfolding serve_each check_session
  serve_each-Gone token revoked_at t later [] revoked le h =
      check-Gone token revoked_at t later none revoked le h
  serve_each-Gone token revoked_at t later ((scope, now) ∷ rest) revoked (le, order) h =
      serve_each-Gone token revoked_at now later rest _ order
        (middleware-Gone token revoked_at t now scope revoked le h)

  -- After a logout with a session that was accepted, and whatever requests the middleware serves in
  -- between, those of the session included: a request with its cookie and no other credential is
  -- challenged at every path that is not exempt, at every later instant. The configuration is valid, the
  -- token plain, the store has room for two entries or more, and no other session is revoked in between.
  pub middleware-logout :
      (path token : String) (t now later wall : ℕ) (s : Stores) (between : List (Scope × Instant))
      → valid_configuration site.credential ≡ true
      → is_exempt (with_cookie path token) ≡ false
      → IsPlain token
      → 2 ≤ site.max_entries
      → IsValid (revoked_config site.session_max_age site.max_entries) t s.revoked
      → t ≤ now
      → Between now between later
      → (session_is_valid signer site.session_max_age token now s.revoked).1 ≡ true
      → (middleware signer crypto site.credential site.session_max_age
          (with_cookie path token)
          later
          (serve_each between (logout signer crypto site token now wall s).0.revoked)).1
        ≡ challenge (with_cookie path token).headers
  unfolding logout
  middleware-logout path token t now later wall s between valid guard plain room w le order
        accepted =
      let after =
        revoke_session signer site.session_max_age site.max_entries token now wall s.revoked in
      let gone = serve_each-Gone token now now later between after order (
        revoke_session-LoggedOut signer site.session_max_age site.max_entries token t now wall
          s.revoked room w le accepted) in
      rw (accepted_nonempty token now s.revoked accepted) (
        middleware-refused path token later (serve_each between after) valid guard plain (
          session_is_valid-LoggedOut signer site.session_max_age site.max_entries token now later
            later (serve_each between after) (omega arith) gone))
