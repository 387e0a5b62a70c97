-- ===== src/Auth/Store/Calls.antt =====
-- The methods of the store of http_auth.py and its invariant.
use pullbackup.Base.{ℕ, ◌≤◌, String, Option, text_comparable, arith, inl, inr, Option-cases}
use pullbackup.Auth.Store.{
  Config, Store, empty, sweep, find_in, set, mutate, get, pop, keys, size, clear, Call, sets,
  mutates, gets, pops, lists, counts, clears, call,
}
use pullbackup.Auth.Store.Sub.{Sub-refl, none_of}
use pullbackup.Auth.Store.Tiers.{pop_key-Sub}
use pullbackup.Auth.Store.Invariant.{
  IsValid, cap-pos, protected_cap-pos, Sub-IsValid, sweep-IsValid, enforce_cap-IsValid,
}
use pullbackup.Auth.Store.Place.{place-IsSorted}

module _ {V : Type 0} (c : Config V) where
  pub set-IsValid :
      (k : String) (v : V) (t now wall : ℕ) (s : Store V)
      → t ≤ now
      → IsValid c t s
      → IsValid c now (set c k v now wall s)
  unfolding set
  set-IsValid k v t now wall s le w =
      enforce_cap-IsValid c now wall _
        (place-IsSorted c k v now (sweep now s) (sweep-IsValid c t now s le w).sorted)

  pub mutate-IsValid :
      (k : String) (change : Option V → V) (t now wall : ℕ) (s : Store V)
      → t ≤ now
      → IsValid c t s
      → IsValid c now (mutate c k change now wall s).0
  unfolding mutate
  mutate-IsValid k change t now wall s le w =
      enforce_cap-IsValid c now wall _
        (place-IsSorted c k _ now (sweep now s) (sweep-IsValid c t now s le w).sorted)

  pop-IsValid :
      (k : String) (t now : ℕ) (s : Store V)
      → t ≤ now
      → IsValid c t s
      → IsValid c now (pop k now s).0
  unfolding pop
  pop-IsValid k t now s le w =
      let swept = sweep now s in
      let valid = sweep-IsValid c t now s le w in
      elim (Option-cases (find_in k swept.entries)) [
        | inr (e, found) ↦
            rw (found, pop)
              (Sub-IsValid c now now swept _ _ _ _ (omega arith) (pop_key-Sub k swept.entries)
                (Sub-refl swept.protected) valid)
        | inl absent ↦
            rw (absent, pop)
              (Sub-IsValid c now now swept _ _ _ _ (omega arith) (Sub-refl swept.entries)
                (pop_key-Sub k swept.protected) valid)
      ]

  -- Every call at an instant that does not lie before the last one keeps the store valid: within its
  -- cap, in order of expiry, with each key in one place and each tier holding what belongs there.
  pub call-IsValid :
      (x : Call V) (t now wall : ℕ) (s : Store V)
      → t ≤ now
      → IsValid c t s
      → IsValid c now (call c x now wall s)
  unfolding call get keys size clear
  call-IsValid (sets k v) t now wall s le w = set-IsValid k v t now wall s le w
  call-IsValid (mutates k change) t now wall s le w = mutate-IsValid k change t now wall s le w
  call-IsValid (gets k) t now wall s le w = sweep-IsValid c t now s le w
  call-IsValid (pops k) t now wall s le w = pop-IsValid k t now s le w
  call-IsValid lists t now wall s le w = sweep-IsValid c t now s le w
  call-IsValid counts t now wall s le w = sweep-IsValid c t now s le w
  call-IsValid clears t now wall s le w =
      Sub-IsValid c t now s _ _ _ _ le (none_of s.entries) (none_of s.protected) w

  pub empty-IsValid : IsValid c 0 empty
  unfolding empty
  empty-IsValid = record {
    sorted = record {
      ordered_entries = tt;
      ordered_protected = tt;
      horizon_entries = tt;
      horizon_protected = tt;
      share = omega (arith, (protected_cap-pos c));
      plain = tt;
      guarded = tt;
      distinct_entries = tt;
      distinct_protected = tt;
      apart = tt;
    };
    room = omega (arith, (cap-pos c));
  }
