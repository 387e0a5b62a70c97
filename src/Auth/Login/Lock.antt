-- ===== src/Auth/Login/Lock.antt =====
-- Logins of one client through api/auth.py, on the throttle of http_auth.py: five that fail, and more.
use pullbackup.Base.{
  ℕ, ◌+◌, ◌≤◌, ◌<◌, ◌≡◌, ◌⊎◌, inl, inr, sym, ap, subst, String, true, false, List, [], ◌∷◌, none,
  nat_comparable, arith, text_comparable,
}
use pullbackup.Models.{Instant, seconds}
use pullbackup.Auth.Store.{Store, new_entry, find, sweep}
use pullbackup.Auth.Store.Invariant.{IsValid, sweep-IsValid}
use pullbackup.Auth.Store.Lookup.{Found, sweep-Found}
use pullbackup.Auth.Session.{Signer}
use pullbackup.Auth.Throttle.{login_config, login_lockout, login_throttle_retry_after}
use pullbackup.Auth.Throttle.Lockout.{
  Holds, InOrder, append_first, append_second, append_third, append_fourth, append_fifth, LockedOut,
  retry_after-LockedOut,
}
use pullbackup.Auth.Gate.{Crypto, valid_configuration}
use pullbackup.Auth.Login.{LoginRequest, Site, credentials_match, try_login, login_as}
use pullbackup.Auth.Login.Attempt.{
  again-Holds, first-Holds, wait_of, wait_answer, refused_login, tried_login,
}

module _ (signer : Signer) (crypto : Crypto) (site : Site) (client : String) where
  -- Logins of the client, one after the other.
  unfoldable pub logins :
      List (LoginRequest × String × Instant × ℕ) → Store (List Instant) → Store (List Instant)
  logins [] s = s
  logins ((request, sid, now, wall) ∷ rest) s =
      logins rest (login_as signer crypto site client request sid now wall s).0

  module _ (t₁ t₂ t₃ t₄ t₅ : ℕ) where
    abbrev failures : List Instant
    failures = t₁ ∷ t₂ ∷ t₃ ∷ t₄ ∷ t₅ ∷ []

    -- Five logins, each with a credential that is wrong.
    abbrev pub five :
        (ℕ → LoginRequest) → (ℕ → String) → (ℕ → ℕ) → List (LoginRequest × String × Instant × ℕ)
    five wrong sid wall =
        (wrong 0, sid 0, t₁, wall 0)
        ∷ (wrong 1, sid 1, t₂, wall 1)
        ∷ (wrong 2, sid 2, t₃, wall 2)
        ∷ (wrong 3, sid 3, t₄, wall 3)
        ∷ (wrong 4, sid 4, t₅, wall 4)
        ∷ []

    five-Holds :
        (wrong : ℕ → LoginRequest) (sid : ℕ → String) (t : ℕ) (wall : ℕ → ℕ)
        (s : Store (List Instant))
        → valid_configuration site.credential ≡ true
        → ((k : ℕ) → credentials_match crypto site.credential (wrong k) ≡ false)
        → 2 ≤ site.max_entries
        → IsValid (login_config site.max_entries) t s
        → t ≤ t₁
        → find client (sweep t₁ s) ≡ none
        → InOrder t₁ t₂ t₃ t₄ t₅
        → Holds site.max_entries client t₅ failures (logins (five wrong sid wall) s)
    unfolding logins
    five-Holds wrong sid t wall s valid mismatch room w le absent h =
        let cap = site.max_entries in
        let step = λ (k now : ℕ) (x : Store (List Instant)).
          (login_as signer crypto site client (wrong k) (sid k) now (wall k) x).0 in
        let s₁ = step 0 t₁ s in
        let s₂ = step 1 t₂ s₁ in
        let s₃ = step 2 t₃ s₂ in
        let s₄ = step 3 t₄ s₃ in
        let s₅ = step 4 t₅ s₄ in
        let h₁ : Holds cap client t₁ (t₁ ∷ []) s₁ =
          subst (λ l. Holds cap client t₁ l s₁) (append_first t₁ t₂ t₃ t₄ t₅)
            (first-Holds signer crypto site client (wrong 0) (sid 0) t t₁ (wall 0) s valid
              (mismatch 0) room le w absent) in
        let h₂ : Holds cap client t₂ (t₁ ∷ t₂ ∷ []) s₂ =
          subst (λ l. Holds cap client t₂ l s₂) (append_second t₁ t₂ t₃ t₄ t₅ h)
            (again-Holds signer crypto site client (wrong 1) (sid 1) t₁ t₂ (wall 1) _ s₁ valid
              (mismatch 1) room h.0 (omega arith) (omega arith) h₁) in
        let h₃ : Holds cap client t₃ (t₁ ∷ t₂ ∷ t₃ ∷ []) s₃ =
          subst (λ l. Holds cap client t₃ l s₃) (append_third t₁ t₂ t₃ t₄ t₅ h)
            (again-Holds signer crypto site client (wrong 2) (sid 2) t₂ t₃ (wall 2) _ s₂ valid
              (mismatch 2) room h.1 (omega arith) (omega arith) h₂) in
        let h₄ : Holds cap client t₄ (t₁ ∷ t₂ ∷ t₃ ∷ t₄ ∷ []) s₄ =
          subst (λ l. Holds cap client t₄ l s₄) (append_fourth t₁ t₂ t₃ t₄ t₅ h)
            (again-Holds signer crypto site client (wrong 3) (sid 3) t₃ t₄ (wall 3) _ s₃ valid
              (mismatch 3) room h.2 (omega arith) (omega arith) h₃) in
        subst (λ l. Holds cap client t₅ l s₅) (append_fifth t₁ t₂ t₃ t₄ t₅ h)
          (again-Holds signer crypto site client (wrong 4) (sid 4) t₄ t₅ (wall 4) _ s₄ valid
            (mismatch 4) room h.3 (omega arith) (omega arith) h₄)

    -- The five failures are held, by a store that is valid at `u`.
    abbrev Locked : ℕ → Store (List Instant) → Type 0
    Locked u s =
        IsValid (login_config site.max_entries) u s
        × Found (login_config site.max_entries)
            (new_entry (login_config site.max_entries) client failures t₅) s

    wait_of-LockedOut :
        (u now : ℕ) (s : Store (List Instant))
        → InOrder t₁ t₂ t₃ t₄ t₅
        → t₅ ≤ now
        → now < t₅ + login_lockout
        → Locked u s
        → LockedOut t₁ t₂ t₃ t₄ t₅ now (login_throttle_retry_after client now s).1
    wait_of-LockedOut u now s h after alive (w, held) =
        subst (LockedOut t₁ t₂ t₃ t₄ t₅ now)
          (sym (wait_of signer crypto site client t₅ now failures s alive held))
          (retry_after-LockedOut t₁ t₂ t₃ t₄ t₅ now h after)

    -- Further logins, at instants that do not go back, before the first failure is a minute old.
    abbrev pub Impatient : ℕ → List (LoginRequest × String × Instant × ℕ) → ℕ → Type 0
    Impatient u [] later = u ≤ later
    Impatient u ((request, sid, now, wall) ∷ rest) later =
        (u ≤ now) × (now < t₁ + login_lockout) × Impatient now rest later

    logins-Locked :
        (u later : ℕ) (tries : List (LoginRequest × String × Instant × ℕ))
        (s : Store (List Instant))
        → valid_configuration site.credential ≡ true
        → InOrder t₁ t₂ t₃ t₄ t₅
        → t₅ ≤ u
        → Impatient u tries later
        → Locked u s
        → (v : ℕ) × (u ≤ v) × (v ≤ later) × Locked v (logins tries s)
    unfolding logins
    logins-Locked u later [] s valid h after le l = (u, omega arith, le, l)
    logins-Locked u later ((request, sid, now, wall) ∷ rest) s valid h after (le, early, order)
          (w, held) =
        let c = login_config site.max_entries in
        let n = new_entry c client failures t₅ in
        let busy : 1 ≤ (login_throttle_retry_after client now s).1 =
          elim (wait_of-LockedOut u now s h (omega arith) (omega arith) (w, held)) [
            | inl (_, positive, _, _) ↦ positive
            | inr (over, _) ↦ absurd (omega arith)
          ] in
        let kept : Locked now (login_as signer crypto site client request sid now wall s).0 =
          subst (Locked now)
            (sym (
              ap (λ r. r.0)
                (refused_login signer crypto site client request sid now wall s valid busy)))
            (sweep-IsValid c u now s le w, sweep-Found c n now s (omega arith) held) in
        let (v, ge, bound, l) = logins-Locked now later rest _ valid h (omega arith) order kept in
        (v, omega arith, bound, l)

    -- How a login is answered after the five failures: with the wait while the first of them is less
    -- than a minute old, a wait of one to 61 seconds that lasts that long, and then as any other.
    abbrev pub Answered : LoginRequest → String → ℕ → ℕ → Store (List Instant) → Type 0
    Answered request sid now wall s =
        let answer = (login_as signer crypto site client request sid now wall s).1 in
        ((now < t₁ + login_lockout)
          × ((wait : ℕ) × (answer ≡ wait_answer wait)
              × (1 ≤ wait)
              × (wait ≤ 61)
              × (t₁ + login_lockout ≤ now + seconds wait)))
        ⊎ ((t₁ + login_lockout ≤ now)
            × (answer ≡ (try_login signer crypto site client request sid now wall (sweep now s)).1))

    -- A client that the store does not know fails five logins in less than a minute, and then tries any
    -- number of logins, with whatever credential, while the first failure is less than a minute old;
    -- nobody else logs in meanwhile. Every login of it within a minute of the fifth failure is refused
    -- while the first failure is less than a minute old, with a wait of one to 61 seconds that lasts that
    -- long, even with the right credential, and is tried after that. The configuration is valid and the
    -- cap two entries or more.
    pub login_as-LockedOut :
        (wrong : ℕ → LoginRequest) (sids : ℕ → String) (walls : ℕ → ℕ) (request : LoginRequest)
        (sid : String) (t now wall : ℕ) (tries : List (LoginRequest × String × Instant × ℕ))
        (s : Store (List Instant))
        → valid_configuration site.credential ≡ true
        → ((k : ℕ) → credentials_match crypto site.credential (wrong k) ≡ false)
        → 2 ≤ site.max_entries
        → IsValid (login_config site.max_entries) t s
        → t ≤ t₁
        → find client (sweep t₁ s) ≡ none
        → InOrder t₁ t₂ t₃ t₄ t₅
        → Impatient t₅ tries now
        → now < t₅ + login_lockout
        → Answered request sid now wall (logins tries (logins (five wrong sids walls) s))
    login_as-LockedOut wrong sids walls request sid t now wall tries s valid mismatch room w le
          absent h order alive =
        let held = five-Holds wrong sids t walls s valid mismatch room w le absent h in
        let s₅ = logins (five wrong sids walls) s in
        let (v, ge, bound, l) =
          logins-Locked t₅ now tries s₅ valid h (omega arith) order (held.valid, held.held) in
        let last = logins tries s₅ in
        elim (wait_of-LockedOut v now last h (omega arith) alive l) [
          | inl (early, positive, most, lasts) ↦ inl (
            early,
            (
              (login_throttle_retry_after client now last).1,
              ap (λ r. r.1)
                  (refused_login signer crypto site client request sid now wall last valid
                    positive),
              positive,
              most,
              lasts,
            ),
          )
          | inr (over, free) ↦ inr (
            over,
            ap (λ r. r.1)
                (tried_login signer crypto site client request sid now wall last valid free),
          )
        ]
