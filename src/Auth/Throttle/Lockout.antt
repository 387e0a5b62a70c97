-- ===== src/Auth/Throttle/Lockout.antt =====
-- Five failed logins of a client in less than a minute, on the throttle of http_auth.py.
use pullbackup.Base.{
  ℕ, ◌+◌, ◌≤◌, ◌<◌, ◌≡◌, ◌⊎◌, inl, inr, refl, subst, String, List, [], ◌∷◌, Option, none, some, ltb,
  arith, Bool-cases,
}
use pullbackup.Models.{Instant, seconds}
use pullbackup.Auth.Store.{Store, new_entry, find, mutate, sweep}
use pullbackup.Auth.Store.Invariant.{IsValid, sweep-IsValid}
use pullbackup.Auth.Store.Calls.{mutate-IsValid}
use pullbackup.Auth.Store.Lookup.{Found, write-Found}
use pullbackup.Auth.Throttle.{
  login_config, login_lockout, append_failure, record_failed_login, retry_after,
}

module _ (cap : ℕ) (client : String) where
  -- The store is valid at `t`, and holds these failures of the client, the last of them at `t`.
  pub record Holds (t : ℕ) (failures : List Instant) (s : Store (List Instant)) : Type 0 where
    pub valid : IsValid (login_config cap) t s
    pub held : Found (login_config cap) (new_entry (login_config cap) client failures t) s

  pub record-Holds :
      (t now wall : ℕ) (s : Store (List Instant)) (existing : Option (List Instant))
      → 2 ≤ cap
      → IsValid (login_config cap) t s
      → t ≤ now
      → (elim (find client (sweep now s)) as (λ _. Option (List Instant)) [
        | none ↦ none
        | some e ↦ some e.value
      ])
        ≡ existing
      → Holds now (append_failure now existing) (record_failed_login cap client now wall s)
  unfolding record_failed_login mutate
  record-Holds t now wall s existing room w le found =
      let c = login_config cap in
      subst (λ o. Holds now (append_failure now o) (record_failed_login cap client now wall s))
        found
        (record {
          valid = mutate-IsValid c client (append_failure now) t now wall s le w;
          held =
              write-Found c client _ now wall (sweep now s) room
                (sweep-IsValid c t now s le w).sorted;
        })

-- Five failures that lie within one minute are all kept.
module _ (t₁ t₂ t₃ t₄ t₅ : ℕ) where
  abbrev pub InOrder : Type 0
  InOrder = (t₁ ≤ t₂) × (t₂ ≤ t₃) × (t₃ ≤ t₄) × (t₄ ≤ t₅) × (t₅ < t₁ + login_lockout)

  pub append_first : append_failure t₁ none ≡ t₁ ∷ []
  unfolding append_failure
  append_first = refl

  pub append_second : InOrder → append_failure t₂ (some (t₁ ∷ [])) ≡ t₁ ∷ t₂ ∷ []
  unfolding append_failure
  append_second h = ground arith

  pub append_third : InOrder → append_failure t₃ (some (t₁ ∷ t₂ ∷ [])) ≡ t₁ ∷ t₂ ∷ t₃ ∷ []
  unfolding append_failure
  append_third h = ground arith

  pub append_fourth :
      InOrder → append_failure t₄ (some (t₁ ∷ t₂ ∷ t₃ ∷ [])) ≡ t₁ ∷ t₂ ∷ t₃ ∷ t₄ ∷ []
  unfolding append_failure
  append_fourth h = ground arith

  pub append_fifth :
      InOrder → append_failure t₅ (some (t₁ ∷ t₂ ∷ t₃ ∷ t₄ ∷ [])) ≡ t₁ ∷ t₂ ∷ t₃ ∷ t₄ ∷ t₅ ∷ []
  unfolding append_failure
  append_fifth h = ground arith

  -- Locked out until the first failure is a minute old, with a wait that lasts that long and is no
  -- more than 61 seconds; free from then on.
  abbrev pub LockedOut : ℕ → ℕ → Type 0
  LockedOut now wait =
      ((now < t₁ + login_lockout)
        × (1 ≤ wait)
        × (wait ≤ 61)
        × (t₁ + login_lockout ≤ now + seconds wait))
      ⊎ ((t₁ + login_lockout ≤ now) × (wait ≡ 0))

  pub retry_after-LockedOut :
      (now : ℕ) → InOrder → t₅ ≤ now → LockedOut now (retry_after now (t₁ ∷ t₂ ∷ t₃ ∷ t₄ ∷ t₅ ∷ []))
  unfolding retry_after
  retry_after-LockedOut now h le = elim (Bool-cases (ltb now (t₁ + login_lockout))) [
    | inl early ↦ inl (ground arith, ground arith, ground arith, ground arith)
    | inr late ↦ inr (ground arith, ground arith)
  ]
