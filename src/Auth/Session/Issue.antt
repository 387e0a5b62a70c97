-- ===== src/Auth/Session/Issue.antt =====
-- A session that http_auth.py has issued and that is not revoked.
use pullbackup.Base.{
  ℕ, ◌+◌, ◌/◌, ◌≤◌, ◌<◌, ◌≡◌, ◌⊎◌, inl, inr, refl, sym, subst, String, Bool, true, false, Option,
  none, some, leb, or_else, arith, if◌then◌else◌, Bool-cases,
}
use pullbackup.Models.{Instant, seconds}
use pullbackup.Auth.Store.{Store, get}
use pullbackup.Auth.Session.{
  Signer, clock_skew_tolerance, session_of, verified_session, issue_session, is_fresh,
  check_session, session_is_valid,
}

module _ (signer : Signer) where
  issued-verified :
      (sid : String) (now : Instant)
      → verified_session signer (issue_session signer sid now)
        ≡ some (sid, seconds (now / seconds 1))
  unfolding verified_session issue_session session_of
  issued-verified sid now =
      rw (signer.dumps-nonempty sid (seconds (now / seconds 1)), verified_session)
        (rw (signer.loads-dumps sid (seconds (now / seconds 1)), verified_session) refl)

  -- Accepted in the life of the session that began at the stamp, and refused before and after it.
  abbrev pub Lives : ℕ → Instant → Instant → Bool → Type 0
  Lives age stamp later accepted =
      ((accepted ≡ true) × (stamp ≤ later + clock_skew_tolerance) × (later ≤ stamp + age))
      ⊎ ((accepted ≡ false) × ((later + clock_skew_tolerance < stamp) ⊎ (stamp + age < later)))

  is_fresh-Lives :
      (age : ℕ) (stamp later : Instant) → Lives age stamp later (is_fresh signer age stamp later)
  unfolding is_fresh
  is_fresh-Lives age stamp later = elim (Bool-cases (leb stamp (later + clock_skew_tolerance))) [
    | inr early ↦ inr (ground arith, inl (ground arith))
    | inl begun ↦ elim (Bool-cases (leb later (stamp + age))) [
      | inl young ↦ inl (ground arith, ground arith, ground arith)
      | inr old ↦ inr (ground arith, inr (ground arith))
    ]
  ]

  -- A session that was issued and whose identifier is not revoked is accepted from a minute before
  -- its stamp, which is the second of its issue, until its age limit, and refused otherwise.
  pub session_is_valid-Lives :
      (age : ℕ) (sid : String) (now later : Instant) (revoked : Store Bool)
      → (get sid later revoked).1 ≡ none
      → Lives age
          (seconds (now / seconds 1))
          later
          (session_is_valid signer age (issue_session signer sid now) later revoked).1
  unfolding session_is_valid check_session
  session_is_valid-Lives age sid now later revoked absent =
      subst
        (λ o.
          Lives age (seconds (now / seconds 1)) later (check_session signer age o later revoked).1)
        (sym (issued-verified sid now))
        (subst
          (λ (o : Option Bool). Lives age (seconds (now / seconds 1)) later (
            if or_else o false
            then false
            else is_fresh signer age (seconds (now / seconds 1)) later))
          (sym absent) (is_fresh-Lives age (seconds (now / seconds 1)) later))
