-- ===== src/Auth/Store/Known.antt =====
-- What the store of http_auth.py holds, seen as the memory of the last writes.
use pullbackup.Base.{
  ℕ, ◌≤◌, ◌<◌, ◌≡◌, String, List, [], ◌∷◌, some, ltb, leb, length, ◌==◌, text_comparable, if_cases,
  arith, All,
}
use pullbackup.Auth.Store.{
  Entry, Config, Store, sweep_tier, find_in, pop_key, wants_protection, protected_cap, new_entry,
  place, enforce_cap,
}
use pullbackup.Auth.Store.Sub.{Sub-All, All-snoc, All-map}
use pullbackup.Auth.Store.Tiers.{Lacks, IsOrdered, same_sym, pop_key-Sub, pop_key-Lacks, drop-Sub}
use pullbackup.Auth.Store.Invariant.{IsSorted, enforce_tiers-fits}
use pullbackup.Auth.Store.Place.{spared}
use pullbackup.Auth.Store.Memory.{LastWrites, learn, forget}
use mathlib.Core.Path.{subst}

module _ {V : Type 0} where
  -- The memory has the entries of the tier as the last ones of their keys.
  abbrev pub Known : LastWrites V → List (Entry V) → Type 0
  Known m = All (λ (e : Entry V). m.known e.key ≡ some e)

  abbrev pub Alive : ℕ → List (Entry V) → Type 0
  Alive now = All (λ (e : Entry V). now < e.expires_at)

  -- A tier in order of expiry has no dead entry after a sweep.
  pub sweep_tier-Alive :
      (now : ℕ) (es : List (Entry V)) → IsOrdered es → Alive now (sweep_tier now es)
  unfolding sweep_tier
  sweep_tier-Alive now [] o = tt
  sweep_tier-Alive now (e ∷ es) o =
      if_cases (Alive now) (ltb now e.expires_at)
        (λ lives. (
          ground arith,
          All-map _ _ (λ (x : Entry V) (h : e.expires_at ≤ x.expires_at). ground arith) es o.0,
        ))
        (λ _. sweep_tier-Alive now es o.1)

  -- What holds of all entries of a tier holds of the one that is found, and its key is the one sought.
  pub find_in-All {κ} :
      (P : Entry V → Type κ) (k : String) (es : List (Entry V)) (e : Entry V)
      → All P es
      → find_in k es ≡ some e
      → P e × (e.key ≡ k)
  unfolding find_in
  find_in-All P k [] e h found = absurd (ground arith)
  find_in-All P k (x ∷ xs) e h found =
      if_cases (λ o. o ≡ some e → P e × (e.key ≡ k)) (x.key == k)
        (λ hit same.
          let is_x : x ≡ e = cc in
          subst (λ y. P y × (y.key ≡ k)) is_x (h.0, (text_comparable.same_iff x.key k).0 hit))
        (λ _ rest. find_in-All P k xs e h.1 rest) found

  pub learn-Known :
      (n : Entry V) (m : LastWrites V) (es : List (Entry V))
      → Lacks n.key es
      → Known m es
      → Known (learn n m) es
  learn-Known n m [] l h = tt
  learn-Known n m (e ∷ es) l h =
      (ground (arith, same_sym e.key n.key l.0, h.0), learn-Known n m es l.1 h.1)

  pub learn-own : (n : Entry V) (m : LastWrites V) → (learn n m).known n.key ≡ some n
  learn-own n m = ground (arith, text_comparable.same_iff n.key n.key)

  pub forget-Known :
      (k : String) (m : LastWrites V) (es : List (Entry V))
      → Lacks k es
      → Known m es
      → Known (forget k m) es
  forget-Known k m [] l h = tt
  forget-Known k m (e ∷ es) l h = (ground (arith, l.0, h.0), forget-Known k m es l.1 h.1)

module _ {V : Type 0} (c : Config V) where
  -- Writing an entry keeps both tiers known, and whatever is evicted too.
  pub place-Known :
      (k : String) (v : V) (now : ℕ) (m : LastWrites V) (s : Store V)
      → IsSorted c now s
      → Known m s.entries
      → Known m s.protected
      → let placed = place c k v now s in
        let after = learn (new_entry c k v now) m in
        Known after placed.entries × Known after placed.protected
  unfolding place
  place-Known k v now m s w es ps =
      let n = new_entry c k v now in
      let after = learn n m in
      let ordinary : Known after (pop_key k s.entries) =
        learn-Known n m _ (pop_key-Lacks k s.entries w.distinct_entries)
          (Sub-All _ (pop_key-Sub k s.entries) es) in
      let guarded : Known after (pop_key k s.protected) =
        learn-Known n m _ (pop_key-Lacks k s.protected w.distinct_protected)
          (Sub-All _ (pop_key-Sub k s.protected) ps) in
      if_cases (λ (x : Store V). Known after x.entries × Known after x.protected)
        (wants_protection c v)
        (λ _. (
          ordinary,
          All-snoc _ (spared c (pop_key k s.protected)) n
              (if_cases (Known after) (leb (protected_cap c) (length (pop_key k s.protected)))
                (λ _. Sub-All _ (drop-Sub (pop_key k s.protected)) guarded) (λ _. guarded))
              (learn-own n m),
        ))
        (λ _. (All-snoc _ (pop_key k s.entries) n ordinary (learn-own n m), guarded))

  pub enforce_cap-Known :
      (wall : ℕ) (m : LastWrites V) (s : Store V)
      → Known m s.entries × Known m s.protected
      → let kept = enforce_cap c wall s in Known m kept.entries × Known m kept.protected
  unfolding enforce_cap
  enforce_cap-Known wall m s (es, ps) =
      let fits = enforce_tiers-fits c wall s.entries s.protected s.warnings in
      (Sub-All _ fits.0 es, Sub-All _ fits.1 ps)
