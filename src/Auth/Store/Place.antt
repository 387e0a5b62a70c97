-- ===== src/Auth/Store/Place.antt =====
-- `_place` of the store of http_auth.py and the order of the tiers.
use pullbackup.Base.{
  ℕ, ◌≤◌, ◌<◌, ◌≡◌, String, true, false, List, [], ◌∷◌, ◌++◌, leb, text_comparable, if◌then◌else◌,
  if_cases, length, length-append, drop, arith, All,
}
use pullbackup.Auth.Store.{
  Entry, Config, Store, pop_key, protected_cap, wants_protection, new_entry, place,
}
use pullbackup.Auth.Store.Sub.{Sub, done, Sub-refl, Sub-drop, Sub-All, All-snoc}
use pullbackup.Auth.Store.Tiers.{
  Lacks, same_sym, snoc-IsOrdered, snoc-IsDistinct, pop_key-Sub, pop_key-Lacks,
}
use pullbackup.Auth.Store.Invariant.{IsSorted, protected_cap-pos, Sub-IsSorted}

module _ {V : Type 0} (c : Config V) where
  append_plain :
      (k : String) (v : V) (t : ℕ) (s : Store V)
      → wants_protection c v ≡ false
      → Lacks k s.entries
      → Lacks k s.protected
      → IsSorted c t s
      → IsSorted c t (record s { entries = s.entries ++ new_entry c k v t ∷ [] })
  append_plain k v t s plain l m w = record {
    ordered_entries =
        snoc-IsOrdered s.entries (new_entry c k v t) w.horizon_entries w.ordered_entries;
    ordered_protected = w.ordered_protected;
    horizon_entries = All-snoc _ s.entries (new_entry c k v t) w.horizon_entries (omega arith);
    horizon_protected = w.horizon_protected;
    share = w.share;
    plain = All-snoc _ s.entries (new_entry c k v t) w.plain plain;
    guarded = w.guarded;
    distinct_entries = snoc-IsDistinct s.entries (new_entry c k v t) l w.distinct_entries;
    distinct_protected = w.distinct_protected;
    apart = apart s.protected m w.apart;
  }
    where
      apart :
          (ps : List (Entry V))
          → Lacks k ps
          → All (λ (p : Entry V). Lacks p.key s.entries) ps
          → All (λ (p : Entry V). Lacks p.key (s.entries ++ new_entry c k v t ∷ [])) ps
      apart [] m a = tt
      apart (p ∷ ps) m a =
          (All-snoc _ s.entries (new_entry c k v t) a.0 (same_sym p.key k m.0), apart ps m.1 a.1)

  append_guarded :
      (k : String) (v : V) (t : ℕ) (s : Store V)
      → wants_protection c v ≡ true
      → length s.protected < protected_cap c
      → Lacks k s.entries
      → Lacks k s.protected
      → IsSorted c t s
      → IsSorted c t (record s { protected = s.protected ++ new_entry c k v t ∷ [] })
  append_guarded k v t s guarded room l m w = record {
    ordered_entries = w.ordered_entries;
    ordered_protected =
        snoc-IsOrdered s.protected (new_entry c k v t) w.horizon_protected w.ordered_protected;
    horizon_entries = w.horizon_entries;
    horizon_protected =
        All-snoc _ s.protected (new_entry c k v t) w.horizon_protected (omega arith);
    share = omega (arith, length-append s.protected (new_entry c k v t ∷ []));
    plain = w.plain;
    guarded = All-snoc _ s.protected (new_entry c k v t) w.guarded guarded;
    distinct_entries = w.distinct_entries;
    distinct_protected = snoc-IsDistinct s.protected (new_entry c k v t) m w.distinct_protected;
    apart = All-snoc _ s.protected (new_entry c k v t) w.apart l;
  }

  -- The protected tier with room for one more.
  abbrev pub spared : List (Entry V) → List (Entry V)
  spared ps = if leb (protected_cap c) (length ps) then drop 1 ps else ps

  pub spared-fits :
      (ps : List (Entry V))
      → length ps ≤ protected_cap c
      → Sub (spared ps) ps × (length (spared ps) < protected_cap c)
  spared-fits [] le =
      if_cases (λ xs. Sub xs [] × (length xs < protected_cap c)) (leb (protected_cap c) 0)
        (λ _. (done, (protected_cap-pos c))) (λ _. (done, (protected_cap-pos c)))
  spared-fits (p ∷ ps) le =
      if_cases (λ xs. Sub xs (p ∷ ps) × (length xs < protected_cap c))
        (leb (protected_cap c) (length (p ∷ ps))) (λ full. (Sub-drop p ps, omega arith))
        (λ left. (Sub-refl (p ∷ ps), ground arith))

  pub place-IsSorted :
      (k : String) (v : V) (t : ℕ) (s : Store V) → IsSorted c t s → IsSorted c t (place c k v t s)
  unfolding place
  place-IsSorted k v t s w =
      if_cases (IsSorted c t) (wants_protection c v)
        (λ guarded.
          append_guarded k v t (record popped { protected = spared (pop_key k s.protected) })
            guarded fit.1 (pop_key-Lacks k s.entries w.distinct_entries)
            (Sub-All _ fit.0 (pop_key-Lacks k s.protected w.distinct_protected))
            (Sub-IsSorted c t t popped _ _ _ _ (omega arith) (Sub-refl _) fit.0 base))
        (λ plain.
          append_plain k v t popped plain (pop_key-Lacks k s.entries w.distinct_entries)
            (pop_key-Lacks k s.protected w.distinct_protected) base)
    where
      popped : Store V
      popped = record s { entries = pop_key k s.entries; protected = pop_key k s.protected }

      base : IsSorted c t popped
      base =
          Sub-IsSorted c t t s _ _ _ _ (omega arith) (pop_key-Sub k s.entries)
            (pop_key-Sub k s.protected) w

      fit :
          Sub (spared (pop_key k s.protected)) (pop_key k s.protected)
          × (length (spared (pop_key k s.protected)) < protected_cap c)
      fit = spared-fits (pop_key k s.protected) base.share
