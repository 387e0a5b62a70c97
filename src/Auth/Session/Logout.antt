-- ===== src/Auth/Session/Logout.antt =====
-- Revocation of a session of http_auth.py, and tokens that are forged.
use pullbackup.Base.{
  ℕ, ◌+◌, ◌≤◌, ◌≡◌, ◌⊎◌, Option-cases, refl, ap, subst, sym, String, Bool, true, false, Option,
  none, some, or_else, arith, if◌then◌else◌, if_cases, Bool-cases, inl, inr, ltb,
}
use pullbackup.Models.{Instant}
use pullbackup.Auth.Store.{Store, new_entry, get, set, sweep}
use pullbackup.Auth.Store.Invariant.{IsValid, sweep-IsValid}
use pullbackup.Auth.Store.Lookup.{Found, sweep-Found, get-Found, write-Found}
use pullbackup.Auth.Session.{
  Signer, revoked_config, clock_skew_tolerance, verified_session, is_fresh, check_session,
  session_is_valid, revoke_verified, revoke_session,
}

module _ (signer : Signer) where
  forged_invalid :
      (age now : ℕ) (revoked : Store Bool)
      → (check_session signer age none now revoked).1 ≡ true
      → ⊥
  unfolding check_session
  forged_invalid age now revoked h = cc

  valid_recent :
      (age : ℕ) (sid : String) (issued now : ℕ) (revoked : Store Bool)
      → (check_session signer age (some (sid, issued)) now revoked).1 ≡ true
      → issued ≤ now + clock_skew_tolerance
  unfolding check_session is_fresh
  valid_recent age sid issued now revoked h = ground arith

  revoke_verified_lem :
      (age cap : ℕ) (sid : String) (issued now wall : ℕ) (revoked : Store Bool)
      → revoke_verified signer
          (revoked_config age cap)
          (some (sid, issued))
          now
          wall
          (check_session signer age (some (sid, issued)) now revoked).0
        ≡ set (revoked_config age cap) sid true now wall (get sid now revoked).0
  unfolding revoke_verified check_session
  revoke_verified_lem age cap sid issued now wall revoked = refl

  -- A token that does not verify is refused, and revoking it leaves the store as it is.
  pub revoke_session_forged :
      (age cap : ℕ) (token : String) (now wall : ℕ) (revoked : Store Bool)
      → verified_session signer token ≡ none
      → ((session_is_valid signer age token now revoked).1 ≡ false)
        × (revoke_session signer age cap token now wall revoked ≡ revoked)
  unfolding session_is_valid revoke_session check_session
  revoke_session_forged age cap token now wall revoked forged =
      (rw (forged, session_is_valid), rw (forged, revoke_session, session_is_valid))

  -- The revocation of the session is held, or has run out.
  abbrev pub StaysOut : ℕ → ℕ → String → Instant → Instant → Store Bool → Type 0
  StaysOut age cap sid revoked_at t s =
      let c = revoked_config age cap in
      (revoked_at + c.ttl ≤ t) ⊎ Found c (new_entry c sid true revoked_at) s

  pub sweep-StaysOut :
      (age cap : ℕ) (sid : String) (revoked_at t now : Instant) (s : Store Bool)
      → t ≤ now
      → StaysOut age cap sid revoked_at t s
      → StaysOut age cap sid revoked_at now (sweep now s)
  sweep-StaysOut age cap sid revoked_at t now s le (inl over) = inl (omega arith)
  sweep-StaysOut age cap sid revoked_at t now s le (inr held) =
      let c = revoked_config age cap in
      elim (Bool-cases (ltb now (revoked_at + c.ttl))) [
        | inl kept ↦ inr (sweep-Found c (new_entry c sid true revoked_at) now s (ground arith) held)
        | inr over ↦ inl (ground arith)
      ]

  check-StaysOut :
      (age cap : ℕ) (sid : String) (issued revoked_at t later : Instant) (s : Store Bool)
      → t ≤ later
      → issued ≤ revoked_at + clock_skew_tolerance
      → StaysOut age cap sid revoked_at t s
      → (check_session signer age (some (sid, issued)) later s).1 ≡ false
  unfolding check_session is_fresh
  check-StaysOut age cap sid issued revoked_at t later s le recent (inl over) =
      if_cases (λ b. b ≡ false) (or_else (get sid later s).1 false) (λ _. refl) (λ _. ground arith)
  check-StaysOut age cap sid issued revoked_at t later s le recent (inr held) =
      let c = revoked_config age cap in
      elim (Bool-cases (ltb later (revoked_at + c.ttl))) [
        | inl kept ↦
            ap
              (λ (o : Option Bool).
                if or_else o false then false else is_fresh signer age issued later)
              (get-Found c (new_entry c sid true revoked_at) later s (ground arith) held)
        | inr over ↦
            if_cases (λ b. b ≡ false) (or_else (get sid later s).1 false) (λ _. refl)
              (λ _. ground arith)
      ]

  -- What a revocation leaves of a session that was accepted.
  abbrev pub LoggedOut : ℕ → ℕ → String → Instant → Instant → Store Bool → Type 0
  LoggedOut age cap token revoked_at t s =
      (sid : String) × (issued : Instant) × (verified_session signer token ≡ some (sid, issued))
      × (issued ≤ revoked_at + clock_skew_tolerance)
      × StaysOut age cap sid revoked_at t s

  pub revoke_session-LoggedOut :
      (age cap : ℕ) (token : String) (t now wall : ℕ) (revoked : Store Bool)
      → 2 ≤ cap
      → IsValid (revoked_config age cap) t revoked
      → t ≤ now
      → (session_is_valid signer age token now revoked).1 ≡ true
      → LoggedOut age cap token now now (revoke_session signer age cap token now wall revoked)
  unfolding session_is_valid revoke_session set get
  revoke_session-LoggedOut age cap token t now wall revoked room w le accepted =
      elim (Option-cases (verified_session signer token)) [
        | inl forged ↦ absurd (
            forged_invalid age now revoked
              (subst (λ o. (check_session signer age o now revoked).1 ≡ true) forged accepted))
        | inr ((sid, issued), known) ↦
            let valid : (check_session signer age (some (sid, issued)) now revoked).1 ≡ true =
              subst (λ o. (check_session signer age o now revoked).1 ≡ true) known accepted in
            let c = revoked_config age cap in
            let swept = sweep-IsValid c t now revoked le w in
            let again = sweep-IsValid c now now (sweep now revoked) (omega arith) swept in
            (
              sid,
              issued,
              known,
              valid_recent age sid issued now revoked valid,
              subst
                  (λ o. StaysOut age cap sid now now (
                    if (check_session signer age o now revoked).1
                    then revoke_verified signer c o now wall
                        (check_session signer age o now revoked).0
                    else (check_session signer age o now revoked).0))
                  (sym known)
                  (if_cases (StaysOut age cap sid now now)
                    (check_session signer age (some (sid, issued)) now revoked).1
                    (λ _.
                      subst (StaysOut age cap sid now now)
                        (sym (revoke_verified_lem age cap sid issued now wall revoked))
                        (inr (
                          write-Found c sid true now wall (sweep now (sweep now revoked)) room
                            again.sorted)))
                    (λ bad. cc)),
            )
      ]

  pub session_is_valid-LoggedOut :
      (age cap : ℕ) (token : String) (revoked_at t later : Instant) (s : Store Bool)
      → t ≤ later
      → LoggedOut age cap token revoked_at t s
      → (session_is_valid signer age token later s).1 ≡ false
  unfolding session_is_valid
  session_is_valid-LoggedOut age cap token revoked_at t later s le
        (sid, issued, known, recent, out) =
      subst (λ o. (check_session signer age o later s).1 ≡ false) (sym known)
        (check-StaysOut age cap sid issued revoked_at t later s le recent out)
