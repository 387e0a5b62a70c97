-- ===== src/Auth/Store/Flood.antt =====
-- The protected tier of the store of http_auth.py under a flood of ordinary writes.
use pullbackup.Base.{
  ℕ, ◌≤◌, ◌<◌, ◌≡◌, String, false, List, [], ◌∷◌, some, ◌==◌, text_comparable, if_cases, arith, inr,
}
use pullbackup.Auth.Store.{
  Entry, Config, Store, sweep, pop_key, wants_protection, new_entry, place, set, get,
}
use pullbackup.Auth.Store.Sub.{Sub-All, All-snoc}
use pullbackup.Auth.Store.Tiers.{same_sym, pop_key-Sub}
use pullbackup.Auth.Store.Invariant.{IsValid, protected_cap-le-cap, sweep-IsValid}
use pullbackup.Auth.Store.Place.{place-IsSorted}
use pullbackup.Auth.Store.Calls.{set-IsValid}
use pullbackup.Auth.Store.Lookup.{
  Guarded, pop_key-Single, sweep-Guarded, enforce_cap-Guarded, get-Found,
}

module _ {V : Type 0} (c : Config V) where
  place_plain-Guarded :
      (n : Entry V) (k : String) (v : V) (now : ℕ) (s : Store V)
      → (n.key == k) ≡ false
      → wants_protection c v ≡ false
      → Guarded c n s
      → Guarded c n (place c k v now s)
  unfolding place
  place_plain-Guarded n k v now s ne plain (l, h) =
      if_cases (Guarded c n) (wants_protection c v) (λ wants. cc)
        (λ _. (
          All-snoc _ (pop_key k s.entries) (new_entry c k v now)
              (Sub-All _ (pop_key-Sub k s.entries) l) (same_sym n.key k ne),
          pop_key-Single n k s.protected ne h,
        ))

  -- Writes of ordinary values to other keys, at instants that do not go back from `t`, while `n` lives.
  abbrev pub Flood : Entry V → ℕ → List (String × V × ℕ × ℕ) → Type 0
  Flood n t [] = Unit {0}
  Flood n t ((k, v, now, wall) ∷ ws) =
      ((n.key == k) ≡ false)
      × (wants_protection c v ≡ false)
      × (t ≤ now)
      × (now < n.expires_at)
      × Flood n now ws

  unfoldable pub set_all : List (String × V × ℕ × ℕ) → Store V → Store V
  set_all [] s = s
  set_all ((k, v, now, wall) ∷ ws) s = set_all ws (set c k v now wall s)

  set_plain-Guarded :
      (n : Entry V) (k : String) (v : V) (t now wall : ℕ) (s : Store V)
      → (n.key == k) ≡ false
      → wants_protection c v ≡ false
      → t ≤ now
      → now < n.expires_at
      → IsValid c t s
      → Guarded c n s
      → Guarded c n (set c k v now wall s)
  unfolding set
  set_plain-Guarded n k v t now wall s ne plain le alive w g =
      let swept = sweep-IsValid c t now s le w in
      let placed = place-IsSorted c k v now (sweep now s) swept.sorted in
      enforce_cap-Guarded c n wall (place c k v now (sweep now s))
        (omega (arith, placed.share, protected_cap-le-cap c))
        (place_plain-Guarded n k v now (sweep now s) ne plain (sweep-Guarded c n now s alive g))

  set_all-Guarded :
      (n : Entry V) (t : ℕ) (ws : List (String × V × ℕ × ℕ)) (s : Store V)
      → Flood n t ws
      → IsValid c t s
      → Guarded c n s
      → Guarded c n (set_all ws s)
  unfolding set_all
  set_all-Guarded n t [] s f w g = g
  set_all-Guarded n t ((k, v, now, wall) ∷ ws) s (ne, plain, le, alive, f) w g =
      set_all-Guarded n now ws (set c k v now wall s) f (set-IsValid c k v t now wall s le w)
        (set_plain-Guarded n k v t now wall s ne plain le alive w g)

  -- A protected entry is still read with its value until its life ends, however many ordinary entries
  -- of other keys are written in the meantime.
  pub get-set_all :
      (n : Entry V) (t later : ℕ) (ws : List (String × V × ℕ × ℕ)) (s : Store V)
      → IsValid c t s
      → Guarded c n s
      → Flood n t ws
      → later < n.expires_at
      → (get n.key later (set_all ws s)).1 ≡ some n.value
  get-set_all n t later ws s w g f alive =
      get-Found c n later (set_all ws s) alive (inr (set_all-Guarded n t ws s f w g))
