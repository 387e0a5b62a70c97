-- ===== src/Auth/Store/Tiers.antt =====
-- The tiers of the store of http_auth.py: their order, their keys, and what sweeping, popping and
-- appending do to them.
use pullbackup.Base.{
  ℕ, ◌≤◌, ◌≡◌, String, true, false, List, [], ◌∷◌, ◌++◌, ltb, ◌==◌, text_comparable, if_cases, drop,
  arith, All,
}
use pullbackup.Auth.Store.{Entry, sweep_tier, pop_key}
use pullbackup.Auth.Store.Sub.{
  Sub, done, skip, hold, Sub-refl, Sub-drop, Sub-All, All-snoc, All-map,
}

-- `==` on keys.
pub same_sym : (a b : String) → (a == b) ≡ false → (b == a) ≡ false
same_sym a b h = ground (arith, text_comparable.same_iff a b, text_comparable.same_iff b a)

module _ {V : Type 0} where
  -- Oldest expiry first.
  abbrev pub IsOrdered : List (Entry V) → Type 0
  IsOrdered [] = Unit {0}
  IsOrdered (e ∷ es) = All (λ (x : Entry V). e.expires_at ≤ x.expires_at) es × IsOrdered es

  abbrev pub Lacks : String → List (Entry V) → Type 0
  Lacks k = All (λ (e : Entry V). (e.key == k) ≡ false)

  abbrev pub IsDistinct : List (Entry V) → Type 0
  IsDistinct [] = Unit {0}
  IsDistinct (e ∷ es) = Lacks e.key es × IsDistinct es

  pub Sub-IsOrdered : {xs ys : List (Entry V)} → Sub xs ys → IsOrdered ys → IsOrdered xs
  Sub-IsOrdered done h = tt
  Sub-IsOrdered (skip s) h = Sub-IsOrdered s h.1
  Sub-IsOrdered (hold s) h = (Sub-All _ s h.0, Sub-IsOrdered s h.1)

  pub Sub-IsDistinct : {xs ys : List (Entry V)} → Sub xs ys → IsDistinct ys → IsDistinct xs
  Sub-IsDistinct done h = tt
  Sub-IsDistinct (skip s) h = Sub-IsDistinct s h.1
  Sub-IsDistinct (hold s) h = (Sub-All _ s h.0, Sub-IsDistinct s h.1)

  pub snoc-IsOrdered :
      (es : List (Entry V)) (n : Entry V)
      → All (λ (x : Entry V). x.expires_at ≤ n.expires_at) es
      → IsOrdered es
      → IsOrdered (es ++ n ∷ [])
  snoc-IsOrdered [] n b o = (tt, tt)
  snoc-IsOrdered (e ∷ es) n b o = (All-snoc _ es n o.0 b.0, snoc-IsOrdered es n b.1 o.1)

  pub snoc-IsDistinct :
      (es : List (Entry V)) (n : Entry V)
      → Lacks n.key es
      → IsDistinct es
      → IsDistinct (es ++ n ∷ [])
  snoc-IsDistinct [] n l d = (tt, tt)
  snoc-IsDistinct (e ∷ es) n l d =
      (All-snoc _ es n d.0 (same_sym e.key n.key l.0), snoc-IsDistinct es n l.1 d.1)

  pub sweep_tier-Sub : (now : ℕ) (es : List (Entry V)) → Sub (sweep_tier now es) es
  unfolding sweep_tier
  sweep_tier-Sub now [] = done
  sweep_tier-Sub now (e ∷ es) =
      if_cases (λ r. Sub r (e ∷ es)) (ltb now e.expires_at) (λ _. Sub-refl (e ∷ es))
        (λ _. skip (sweep_tier-Sub now es))

  pub pop_key-Sub : (k : String) (es : List (Entry V)) → Sub (pop_key k es) es
  unfolding pop_key
  pop_key-Sub k [] = done
  pop_key-Sub k (e ∷ es) =
      if_cases (λ r. Sub r (e ∷ es)) (e.key == k) (λ _. Sub-drop e es)
        (λ _. hold (pop_key-Sub k es))

  pub pop_key-Lacks : (k : String) (es : List (Entry V)) → IsDistinct es → Lacks k (pop_key k es)
  unfolding pop_key
  pop_key-Lacks k [] d = tt
  pop_key-Lacks k (e ∷ es) d =
      if_cases (Lacks k) (e.key == k)
        (λ hit.
          All-map _ _ (λ (x : Entry V) (h : (x.key == e.key) ≡ false). same_key e.key k x.key hit h)
            es d.0)
        (λ miss. (miss, pop_key-Lacks k es d.1))
    where
      same_key : (a b x : String) → (a == b) ≡ true → (x == a) ≡ false → (x == b) ≡ false
      same_key a b x p q = ground (
        arith,
        text_comparable.same_iff a b,
        text_comparable.same_iff x a,
        text_comparable.same_iff x b,
      )

  pub drop-Sub : (es : List (Entry V)) → Sub (drop 1 es) es
  drop-Sub [] = done
  drop-Sub (e ∷ es) = Sub-drop e es
