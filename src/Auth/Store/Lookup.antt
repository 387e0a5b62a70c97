-- ===== src/Auth/Store/Lookup.antt =====
-- What a write to the store of http_auth.py leaves to be read: the entry written, and the protected
-- entries of other keys.
use pullbackup.Base.{
  ◌⊎◌, ℕ, ◌+◌, ◌≤◌, ◌<◌, ◌≡◌, refl, ap, String, false, List, [], ◌∷◌, ◌++◌, none, some, ltb, leb,
  ◌==◌, text_comparable, if_cases, length, length-append, arith, inl, inr,
}
use pullbackup.Auth.Store.{
  Entry, Config, Store, sweep_tier, sweep, pop_key, find_in, find, cap, protected_cap,
  wants_protection, warn, enforce_tiers, enforce_cap, new_entry, place, set, get,
}
use pullbackup.Auth.Store.Sub.{Sub-length, Sub-All}
use pullbackup.Auth.Store.Tiers.{Lacks, sweep_tier-Sub, pop_key-Sub, pop_key-Lacks}
use pullbackup.Auth.Store.Invariant.{
  IsSorted, IsValid, protected_cap-le-cap, sweep-IsValid, enforce_tiers-fits,
}
use pullbackup.Auth.Store.Place.{spared, spared-fits}

module _ {V : Type 0} where
  -- The entry is the only one of its key in the tier.
  abbrev pub Single : Entry V → List (Entry V) → Type 0
  Single n [] = ⊥
  Single n (e ∷ es) = ((e ≡ n) × Lacks n.key es) ⊎ (((e.key == n.key) ≡ false) × Single n es)

  pub snoc-Single : (n : Entry V) (es : List (Entry V)) → Lacks n.key es → Single n (es ++ n ∷ [])
  snoc-Single n [] l = inl (refl, tt)
  snoc-Single n (e ∷ es) l = inr (l.0, snoc-Single n es l.1)

  pub find_in-Lacks : (k : String) (es : List (Entry V)) → Lacks k es → find_in k es ≡ none
  unfolding find_in
  find_in-Lacks k [] l = refl
  find_in-Lacks k (e ∷ es) l = ground (arith, find_in-Lacks k es l.1)

  pub find_in-Single : (n : Entry V) (es : List (Entry V)) → Single n es → find_in n.key es ≡ some n
  unfolding find_in
  find_in-Single n [] h = absurd h
  find_in-Single n (e ∷ es) (inl (same, l)) =
      ground (arith, ap (λ (x : Entry V). x.key) same, same, text_comparable.same_iff n.key n.key)
  find_in-Single n (e ∷ es) (inr (other, h)) = ground (arith, find_in-Single n es h)

  -- A sweep leaves an entry that has not expired.
  pub sweep_tier-Single :
      (n : Entry V) (now : ℕ) (es : List (Entry V))
      → now < n.expires_at
      → Single n es
      → Single n (sweep_tier now es)
  unfolding sweep_tier
  sweep_tier-Single n now [] alive h = h
  sweep_tier-Single n now (e ∷ es) alive (inl (same, l)) =
      if_cases (Single n) (ltb now e.expires_at) (λ _. inl (same, l))
        (λ dead. absurd (ground (arith, same)))
  sweep_tier-Single n now (e ∷ es) alive (inr (other, h)) =
      if_cases (Single n) (ltb now e.expires_at) (λ _. inr (other, h))
        (λ _. sweep_tier-Single n now es alive h)

  pub pop_key-Single :
      (n : Entry V) (k : String) (es : List (Entry V))
      → (n.key == k) ≡ false
      → Single n es
      → Single n (pop_key k es)
  unfolding pop_key
  pop_key-Single n k [] ne h = h
  pop_key-Single n k (e ∷ es) ne (inl (same, l)) =
      if_cases (Single n) (e.key == k) (λ hit. absurd (ground (arith, same)))
        (λ _. inl (same, Sub-All _ (pop_key-Sub k es) l))
  pop_key-Single n k (e ∷ es) ne (inr (other, h)) =
      if_cases (Single n) (e.key == k) (λ _. h) (λ _. inr (other, pop_key-Single n k es ne h))

module _ {V : Type 0} (c : Config V) where
  -- While the protected tier fits, the loop of `_enforce_cap` leaves it alone.
  enforce_tiers-protected :
      (wall : ℕ) (es ps : List (Entry V)) (warnings : ℕ)
      → length ps ≤ cap c
      → (enforce_tiers c wall es ps warnings).1 ≡ ps
  unfolding enforce_tiers
  enforce_tiers-protected wall [] [] warnings fits = refl
  enforce_tiers-protected wall [] (p ∷ ps) warnings fits = ground arith
  enforce_tiers-protected wall (e ∷ es) ps warnings fits =
      ground (arith, enforce_tiers-protected wall es ps (warn c wall e warnings))

  -- An ordinary entry at the back is kept, if it fits beside the protected tier.
  enforce_tiers-last :
      (wall : ℕ) (n : Entry V) (es ps : List (Entry V)) (warnings : ℕ)
      → length ps < cap c
      → Lacks n.key es
      → Single n (enforce_tiers c wall (es ++ n ∷ []) ps warnings).0
  unfolding enforce_tiers
  enforce_tiers-last wall n [] ps warnings fits l =
      if_cases {A = List (Entry V) × List (Entry V) × ℕ} (λ out. Single n out.0)
        (ltb (cap c) (1 + length ps)) (λ over. absurd (ground arith)) (λ _. inl (refl, tt))
  enforce_tiers-last wall n (e ∷ es) ps warnings fits l =
      if_cases {A = List (Entry V) × List (Entry V) × ℕ} (λ out. Single n out.0)
        (ltb (cap c) (length (e ∷ (es ++ n ∷ [])) + length ps))
        (λ _. enforce_tiers-last wall n es ps (warn c wall e warnings) fits l.1)
        (λ _. inr (l.0, snoc-Single n es l.1))

  -- The one entry of its key, in the protected tier.
  abbrev pub Guarded : Entry V → Store V → Type 0
  Guarded n s = Lacks n.key s.entries × Single n s.protected

  abbrev pub Found : Entry V → Store V → Type 0
  Found n s = Single n s.entries ⊎ Guarded n s

  pub find-Found : (n : Entry V) (s : Store V) → Found n s → find n.key s ≡ some n
  unfolding find
  find-Found n s (inl h) = rw (find_in-Single n s.entries h, find)
  find-Found n s (inr (l, h)) =
      rw (find_in-Lacks n.key s.entries l, find) (find_in-Single n s.protected h)

  pub sweep-Guarded :
      (n : Entry V) (now : ℕ) (s : Store V)
      → now < n.expires_at
      → Guarded n s
      → Guarded n (sweep now s)
  unfolding sweep
  sweep-Guarded n now s alive (l, h) =
      (Sub-All _ (sweep_tier-Sub now s.entries) l, sweep_tier-Single n now s.protected alive h)

  pub sweep-Found :
      (n : Entry V) (now : ℕ) (s : Store V) → now < n.expires_at → Found n s → Found n (sweep now s)
  unfolding sweep
  sweep-Found n now s alive (inl h) = inl (sweep_tier-Single n now s.entries alive h)
  sweep-Found n now s alive (inr g) = inr (sweep-Guarded n now s alive g)

  pub get-Found :
      (n : Entry V) (now : ℕ) (s : Store V)
      → now < n.expires_at
      → Found n s
      → (get n.key now s).1 ≡ some n.value
  unfolding get
  get-Found n now s alive f =
      rw (find-Found n (sweep now s) (sweep-Found n now s alive f), get)
        (if_cases (λ o. o ≡ some n.value) (leb n.expires_at now) (λ dead. absurd (ground arith))
          (λ _. refl))

  protected_cap-lt-cap : 2 ≤ c.max_entries → protected_cap c < cap c
  unfolding protected_cap cap
  protected_cap-lt-cap h = ground arith

  pub enforce_cap-Guarded :
      (n : Entry V) (wall : ℕ) (s : Store V)
      → length s.protected ≤ cap c
      → Guarded n s
      → Guarded n (enforce_cap c wall s)
  unfolding enforce_cap
  enforce_cap-Guarded n wall s fits (l, h) = (
    Sub-All _ (enforce_tiers-fits c wall s.entries s.protected s.warnings).0 l,
    rw (enforce_tiers-protected wall s.entries s.protected s.warnings fits) h,
  )

  pub write-Found :
      (k : String) (v : V) (now wall : ℕ) (s : Store V)
      → 2 ≤ c.max_entries
      → IsSorted c now s
      → Found (new_entry c k v now) (enforce_cap c wall (place c k v now s))
  unfolding place enforce_cap
  write-Found k v now wall s room w =
      let gone = pop_key-Lacks k s.entries w.distinct_entries in
      let gone' = pop_key-Lacks k s.protected w.distinct_protected in
      let share : length (pop_key k s.protected) ≤ protected_cap c =
        omega (arith, Sub-length (pop_key-Sub k s.protected), w.share) in
      let ps = spared c (pop_key k s.protected) in
      let fit = spared-fits c (pop_key k s.protected) share in
      if_cases (λ x. Found (new_entry c k v now) (enforce_cap c wall x)) (wants_protection c v)
        (λ _. inr (
          enforce_cap-Guarded (new_entry c k v now) wall
            (record s { entries = pop_key k s.entries; protected = ps ++ new_entry c k v now ∷ [] })
            (omega
              (arith, length-append ps (new_entry c k v now ∷ []), fit.1, protected_cap-le-cap c))
            (gone, snoc-Single (new_entry c k v now) ps (Sub-All _ fit.0 gone'))))
        (λ _. inl (
          enforce_tiers-last wall (new_entry c k v now) (pop_key k s.entries)
            (pop_key k s.protected) s.warnings (omega (arith, share, protected_cap-lt-cap room))
            gone))

  -- A value written is read back until its life ends, at whatever cap of two entries or more: the
  -- write never evicts what it has just written.
  pub get-set :
      (k : String) (v : V) (t now later wall : ℕ) (s : Store V)
      → 2 ≤ c.max_entries
      → IsValid c t s
      → t ≤ now
      → later < now + c.ttl
      → (get k later (set c k v now wall s)).1 ≡ some v
  unfolding set
  get-set k v t now later wall s room w le alive =
      get-Found (new_entry c k v now) later (enforce_cap c wall (place c k v now (sweep now s)))
        alive (write-Found k v now wall (sweep now s) room (sweep-IsValid c t now s le w).sorted)
