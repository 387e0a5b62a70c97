-- ===== src/Auth/Store/Refine.antt =====
-- The store of http_auth.py against the memory of the last writes: the sweep, `get` and the writes.
use pullbackup.Base.{
  ◌⊎◌, ℕ, ◌≤◌, ◌<◌, ◌≡◌, refl, sym, String, List, none, some, leb, text_comparable, if_cases,
  Option, Option-cases, Bool-cases, arith, inl, inr,
}
use pullbackup.Auth.Store.{
  Entry, Config, Store, sweep, find_in, find, get, new_entry, place, enforce_cap,
}
use pullbackup.Auth.Store.Sub.{Sub-All}
use pullbackup.Auth.Store.Tiers.{sweep_tier-Sub}
use pullbackup.Auth.Store.Invariant.{IsValid, IsSorted}
use pullbackup.Auth.Store.Lookup.{Found, find-Found, sweep-Found, write-Found}
use pullbackup.Auth.Store.Memory.{Missable, LastWrites, learn, Reads}
use pullbackup.Auth.Store.Known.{
  Known, Alive, sweep_tier-Alive, find_in-All, place-Known, enforce_cap-Known,
}
use mathlib.Core.Path.{subst}

module _ {V : Type 0} (c : Config V) where
  -- The memory of a store at the instant `t`: every entry held is the last one of its key, and the
  -- latest write is held until it expires.
  pub record Refines (t : ℕ) (s : Store V) (m : LastWrites V) : Type 0 where
    pub ordinary : Known m s.entries
    pub guarded : Known m s.protected
    pub newest : (n : Entry V) → m.latest ≡ some n → (n.expires_at ≤ t) ⊎ Found c n s

  pub sweep-Refines :
      (t now : ℕ) (s : Store V) (m : LastWrites V)
      → t ≤ now
      → Refines t s m
      → Refines now (sweep now s) m
  unfolding sweep
  sweep-Refines t now s m le r = record {
    ordinary = Sub-All _ (sweep_tier-Sub now s.entries) r.ordinary;
    guarded = Sub-All _ (sweep_tier-Sub now s.protected) r.guarded;
    newest = λ n is_latest. elim (Bool-cases (leb n.expires_at now)) [
      | inl dead ↦ inl (ground arith)
      | inr lives ↦ elim (r.newest n is_latest) [
        | inl dead ↦ inl (omega arith)
        | inr f ↦ inr (sweep-Found c n now s (ground arith) f)
      ]
    ];
  }

  -- A store without dead entries, as a sweep leaves it.
  pub record Fresh (now : ℕ) (s : Store V) (m : LastWrites V) : Type 0 where
    pub holds : Refines now s m
    pub live_entries : Alive now s.entries
    pub live_protected : Alive now s.protected

  pub sweep-Fresh :
      (t now : ℕ) (s : Store V) (m : LastWrites V)
      → t ≤ now
      → IsValid c t s
      → Refines t s m
      → Fresh now (sweep now s) m
  unfolding sweep
  sweep-Fresh t now s m le w r = record {
    holds = sweep-Refines t now s m le r;
    live_entries = sweep_tier-Alive now s.entries w.sorted.ordered_entries;
    live_protected = sweep_tier-Alive now s.protected w.sorted.ordered_protected;
  }

  abbrev pub HeldAlive : ℕ → LastWrites V → String → Entry V → Type 0
  HeldAlive now m k e = (m.known k ≡ some e) × (now < e.expires_at)

  pub tier-HeldAlive :
      (now : ℕ) (m : LastWrites V) (k : String) (es : List (Entry V)) (e : Entry V)
      → Known m es
      → Alive now es
      → find_in k es ≡ some e
      → HeldAlive now m k e
  tier-HeldAlive now m k es e known alive is_found =
      let (is_known, key) = find_in-All _ k es e known is_found in
      (subst (λ j. m.known j ≡ some e) key is_known, (find_in-All _ k es e alive is_found).0)

  find-HeldAlive :
      (now : ℕ) (m : LastWrites V) (k : String) (s : Store V) (e : Entry V)
      → Fresh now s m
      → find k s ≡ some e
      → HeldAlive now m k e
  unfolding find
  find-HeldAlive now m k s e f is_found = elim (Option-cases (find_in k s.entries)) [
    | inr (x, here) ↦ tier-HeldAlive now m k s.entries e f.holds.ordinary f.live_entries cc
    | inl absent ↦ tier-HeldAlive now m k s.protected e f.holds.guarded f.live_protected cc
  ]

  -- What a fresh store does not have was not the latest write.
  pub lost-Reads :
      (now : ℕ) (m : LastWrites V) (k : String) (s : Store V)
      → Fresh now s m
      → find k s ≡ none
      → Reads now m k none
  lost-Reads now m k s f is_lost = missable m.latest refl
    where
      missable : (o : Option (Entry V)) → m.latest ≡ o → Missable now k o
      missable none e = tt
      missable (some n) e = elim (f.holds.newest n e) [
        | inl dead ↦ inr dead
        | inr is_found ↦ let there = find-Found c n s is_found in inl (λ key. absurd (ground arith))
      ]

  pub find-Reads :
      (now : ℕ) (m : LastWrites V) (k : String) (s : Store V)
      → Fresh now s m
      → Reads now m k (elim (find k s) [ none ↦ none | some e ↦ some e.value ])
  find-Reads now m k s f = elim (Option-cases (find k s)) [
    | inl absent ↦
        subst (λ o. Reads now m k (elim o [ none ↦ none | some e ↦ some e.value ])) (sym absent)
          (lost-Reads now m k s f absent)
    | inr (e, here) ↦
        subst (λ o. Reads now m k (elim o [ none ↦ none | some e ↦ some e.value ])) (sym here)
          (let (known, alive) = find-HeldAlive now m k s e f here in (e, known, refl, alive))
  ]

  pub get-Reads :
      (t now : ℕ) (m : LastWrites V) (k : String) (s : Store V)
      → t ≤ now
      → IsValid c t s
      → Refines t s m
      → Reads now m k (get k now s).1
  unfolding get
  get-Reads t now m k s le w r = elim (Option-cases (find k (sweep now s))) [
    | inl absent ↦
        rw (absent, get) (lost-Reads now m k (sweep now s) (sweep-Fresh t now s m le w r) absent)
    | inr (e, here) ↦
        let (known, alive) =
          find-HeldAlive now m k (sweep now s) e (sweep-Fresh t now s m le w r) here in
        rw (here, get)
          (if_cases (Reads now m k) (leb e.expires_at now) (λ dead. absurd (ground arith))
            (λ _. (e, known, refl, alive)))
  ]

  -- A write, after its sweep.
  pub write-Refines :
      (k : String) (v : V) (now wall : ℕ) (m : LastWrites V) (s : Store V)
      → 2 ≤ c.max_entries
      → IsSorted c now s
      → Refines now s m
      → Refines now (enforce_cap c wall (place c k v now s)) (learn (new_entry c k v now) m)
  write-Refines k v now wall m s room w r =
      let kept =
        enforce_cap-Known c wall (learn (new_entry c k v now) m) (place c k v now s)
          (place-Known c k v now m s w r.ordinary r.guarded) in
      record {
        ordinary = kept.0;
        guarded = kept.1;
        newest = λ n is_latest.
            let same : new_entry c k v now ≡ n = cc in
            inr (
              subst (λ x. Found c x (enforce_cap c wall (place c k v now s))) same
                (write-Found c k v now wall s room w));
      }
