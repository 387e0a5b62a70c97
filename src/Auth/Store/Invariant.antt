-- ===== src/Auth/Store/Invariant.antt =====
-- The invariant of the expiring store of http_auth.py.
use pullbackup.Base.{
  ℕ, ◌+◌, ◌≤◌, ◌≡◌, true, false, List, [], ◌∷◌, ltb, text_comparable, if_cases, length, arith, All,
}
use pullbackup.Auth.Store.{
  Entry, Config, Store, sweep, cap, protected_cap, wants_protection, warn, enforce_tiers,
  enforce_cap,
}
use pullbackup.Auth.Store.Sub.{Sub, done, skip, Sub-refl, Sub-length, Sub-All, All-map}
use pullbackup.Auth.Store.Tiers.{
  IsOrdered, Lacks, IsDistinct, Sub-IsOrdered, Sub-IsDistinct, sweep_tier-Sub,
}

module _ {V : Type 0} (c : Config V) where
  -- What holds of the tiers at the instant `t`, their number of entries aside: each is ordered by
  -- expiry, no entry outlives its full life, no key occurs twice, and an entry stands in the
  -- protected tier, which keeps to its share, exactly if its value asks for protection.
  pub record IsSorted (t : ℕ) (s : Store V) : Type 0 where
    pub ordered_entries : IsOrdered s.entries
    pub ordered_protected : IsOrdered s.protected
    pub horizon_entries : All (λ (e : Entry V). e.expires_at ≤ t + c.ttl) s.entries
    pub horizon_protected : All (λ (e : Entry V). e.expires_at ≤ t + c.ttl) s.protected
    pub share : length s.protected ≤ protected_cap c
    pub plain : All (λ (e : Entry V). wants_protection c e.value ≡ false) s.entries
    pub guarded : All (λ (e : Entry V). wants_protection c e.value ≡ true) s.protected
    pub distinct_entries : IsDistinct s.entries
    pub distinct_protected : IsDistinct s.protected
    pub apart : All (λ (p : Entry V). Lacks p.key s.entries) s.protected

  pub record IsValid (t : ℕ) (s : Store V) : Type 0 where
    pub sorted : IsSorted t s
    pub room : length s.entries + length s.protected ≤ cap c

  pub cap-pos : 1 ≤ cap c
  unfolding cap
  cap-pos = ground arith

  pub protected_cap-pos : 1 ≤ protected_cap c
  unfolding protected_cap
  protected_cap-pos = ground arith

  pub protected_cap-le-cap : protected_cap c ≤ cap c
  unfolding protected_cap
  protected_cap-le-cap = ground (arith, cap-pos)

  pub Sub-IsSorted :
      (t u : ℕ) (s : Store V) (es ps : List (Entry V)) (examined warnings : ℕ)
      → t ≤ u
      → Sub es s.entries
      → Sub ps s.protected
      → IsSorted t s
      → IsSorted u
          (record { entries = es; protected = ps; examined = examined; warnings = warnings })
  Sub-IsSorted t u s es ps examined warnings le a b v = record {
    ordered_entries = Sub-IsOrdered a v.ordered_entries;
    ordered_protected = Sub-IsOrdered b v.ordered_protected;
    horizon_entries =
        All-map _ _ (λ (e : Entry V) (h : e.expires_at ≤ t + c.ttl). omega arith) es
          (Sub-All _ a v.horizon_entries);
    horizon_protected =
        All-map _ _ (λ (e : Entry V) (h : e.expires_at ≤ t + c.ttl). omega arith) ps
          (Sub-All _ b v.horizon_protected);
    share = omega (arith, Sub-length b, v.share);
    plain = Sub-All _ a v.plain;
    guarded = Sub-All _ b v.guarded;
    distinct_entries = Sub-IsDistinct a v.distinct_entries;
    distinct_protected = Sub-IsDistinct b v.distinct_protected;
    apart =
        All-map _ _ (λ (p : Entry V) (h : Lacks p.key s.entries). Sub-All _ a h) ps
          (Sub-All _ b v.apart);
  }

  -- A method that only takes entries out keeps the invariant.
  pub Sub-IsValid :
      (t u : ℕ) (s : Store V) (es ps : List (Entry V)) (examined warnings : ℕ)
      → t ≤ u
      → Sub es s.entries
      → Sub ps s.protected
      → IsValid t s
      → IsValid u
          (record { entries = es; protected = ps; examined = examined; warnings = warnings })
  Sub-IsValid t u s es ps examined warnings le a b v = record {
    sorted = Sub-IsSorted t u s es ps examined warnings le a b v.sorted;
    room = omega (arith, Sub-length a, Sub-length b, v.room);
  }

  pub sweep-IsValid : (t now : ℕ) (s : Store V) → t ≤ now → IsValid t s → IsValid now (sweep now s)
  unfolding sweep
  sweep-IsValid t now s le v =
      Sub-IsValid t now s _ _ _ _ le (sweep_tier-Sub now s.entries) (sweep_tier-Sub now s.protected)
        v

  -- The loop of `_enforce_cap` takes entries out until the rest fit.
  pub enforce_tiers-fits :
      (wall : ℕ) (es ps : List (Entry V)) (warnings : ℕ)
      → let out = enforce_tiers c wall es ps warnings in
        Sub out.0 es × Sub out.1 ps × (length out.0 + length out.1 ≤ cap c)
  unfolding enforce_tiers
  enforce_tiers-fits wall [] [] warnings = (done, done, omega arith)
  enforce_tiers-fits wall [] (p ∷ ps) warnings =
      if_cases {A = List (Entry V) × List (Entry V) × ℕ}
        (λ out. Sub out.0 [] × Sub out.1 (p ∷ ps) × (length out.0 + length out.1 ≤ cap c))
        (ltb (cap c) (length (p ∷ ps)))
        (λ _.
          let (a, b, fits) = enforce_tiers-fits wall [] ps (warn c wall p warnings) in
          (a, skip b, fits))
        (λ fits. (done, Sub-refl (p ∷ ps), ground arith))
  enforce_tiers-fits wall (e ∷ es) ps warnings =
      if_cases {A = List (Entry V) × List (Entry V) × ℕ}
        (λ out. Sub out.0 (e ∷ es) × Sub out.1 ps × (length out.0 + length out.1 ≤ cap c))
        (ltb (cap c) (length (e ∷ es) + length ps))
        (λ _.
          let (a, b, fits) = enforce_tiers-fits wall es ps (warn c wall e warnings) in
          (skip a, b, fits))
        (λ fits. (Sub-refl (e ∷ es), Sub-refl ps, ground arith))

  pub enforce_cap-IsValid :
      (t wall : ℕ) (s : Store V) → IsSorted t s → IsValid t (enforce_cap c wall s)
  unfolding enforce_cap
  enforce_cap-IsValid t wall s v =
      let (a, b, fits) = enforce_tiers-fits wall s.entries s.protected s.warnings in
      record { sorted = Sub-IsSorted t t s _ _ _ _ (omega arith) a b v; room = fits }
