-- ===== src/Models/Store.antt =====
-- A table as the list of its rows: `session.get`, `session.add` and `session.delete` by primary key.
use pullbackup.Base.{
  ℕ, ◌≡◌, refl, List, [], ◌∷◌, Option, none, some, arith, ◌==◌, nat_comparable, if◌then◌else◌, All,
  Bool-cases, inl, inr, subst,
}

module _ {ℓ} {A : Type ℓ} (key : A → ℕ) where
  -- `session.get(Row, k)`
  unfoldable pub find_by : ℕ → List A → Option A
  find_by k [] = none
  find_by k (x ∷ xs) = if key x == k then some x else find_by k xs

  -- `session.add(row)`: the row of that key is replaced, or the row is new.
  unfoldable pub put_by : A → List A → List A
  put_by a [] = a ∷ []
  put_by a (x ∷ xs) = if key x == key a then a ∷ xs else x ∷ put_by a xs

  -- `session.delete(row)`
  unfoldable pub delete_by : ℕ → List A → List A
  delete_by k [] = []
  delete_by k (x ∷ xs) = let rest = delete_by k xs in if key x == k then rest else x ∷ rest

  pub find_by-key : (k : ℕ) (xs : List A) (a : A) → find_by k xs ≡ some a → key a ≡ k
  unfolding find_by
  find_by-key k [] a h = cc
  find_by-key k (x ∷ xs) a h = ground (arith, find_by-key k xs a)

  pub find_by-put_by :
      (k : ℕ) (a : A) (xs : List A)
      → find_by k (put_by a xs) ≡ (if key a == k then some a else find_by k xs)
  unfolding find_by put_by
  find_by-put_by k a [] = refl
  find_by-put_by k a (x ∷ xs) = ground (arith, find_by-put_by k a xs)

  pub find_by-delete_by :
      (k j : ℕ) (xs : List A) → find_by k (delete_by j xs) ≡ (if j == k then none else find_by k xs)
  unfolding find_by delete_by
  find_by-delete_by k j [] = ground arith
  find_by-delete_by k j (x ∷ xs) = ground (arith, find_by-delete_by k j xs)

  module _ {κ} (P : A → Type κ) where
    pub find_by-All : (k : ℕ) (xs : List A) (a : A) → All P xs → find_by k xs ≡ some a → P a
    unfolding find_by
    find_by-All k [] a h e = cc
    find_by-All k (x ∷ xs) a h e = elim (Bool-cases (key x == k)) [
      | inl hit ↦ subst P (ground arith) h.0
      | inr miss ↦ find_by-All k xs a h.1 (ground arith)
    ]

    pub put_by-All : (a : A) (xs : List A) → P a → All P xs → All P (put_by a xs)
    unfolding put_by
    put_by-All a [] p h = (p, tt)
    put_by-All a (x ∷ xs) p h = elim (Bool-cases (key x == key a)) [
      | inl hit ↦ rw hit (p, h.1)
      | inr miss ↦ rw miss (h.0, put_by-All a xs p h.1)
    ]

    pub delete_by-All : (k : ℕ) (xs : List A) → All P xs → All P (delete_by k xs)
    unfolding delete_by
    delete_by-All k [] h = tt
    delete_by-All k (x ∷ xs) h = elim (Bool-cases (key x == k)) [
      | inl hit ↦ rw hit (delete_by-All k xs h.1)
      | inr miss ↦ rw miss (h.0, delete_by-All k xs h.1)
    ]
