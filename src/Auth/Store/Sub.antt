-- ===== src/Auth/Store/Sub.antt =====
-- Lists that lose some entries and keep the order of the rest, as the tiers of a store do.
use pullbackup.Base.{◌≤◌, List, [], ◌∷◌, ◌++◌, arith, All, length}

-- The first list is the second with entries left out.
pub data Sub {A : Type 0} : List A → List A → Type 0 where
  done : Sub [] []
  skip : {x : A} {xs ys : List A} → Sub xs ys → Sub xs (x ∷ ys)
  hold : {x : A} {xs ys : List A} → Sub xs ys → Sub (x ∷ xs) (x ∷ ys)

module _ {A : Type 0} where
  pub Sub-refl : (xs : List A) → Sub xs xs
  Sub-refl [] = done
  Sub-refl (x ∷ xs) = hold (Sub-refl xs)

  pub Sub-drop : (x : A) (xs : List A) → Sub xs (x ∷ xs)
  Sub-drop x xs = skip (Sub-refl xs)

  pub Sub-length : {xs ys : List A} → Sub xs ys → length xs ≤ length ys
  Sub-length done = omega arith
  Sub-length (skip s) = omega (arith, Sub-length s)
  Sub-length (hold s) = omega (arith, Sub-length s)

  pub Sub-All {κ} : (P : A → Type κ) {xs ys : List A} → Sub xs ys → All P ys → All P xs
  Sub-All P done h = tt
  Sub-All P (skip s) h = Sub-All P s h.1
  Sub-All P (hold s) h = (h.0, Sub-All P s h.1)

  pub All-snoc {κ} : (P : A → Type κ) (xs : List A) (x : A) → All P xs → P x → All P (xs ++ x ∷ [])
  All-snoc P [] x h p = (p, tt)
  All-snoc P (y ∷ xs) x h p = (h.0, All-snoc P xs x h.1 p)

  pub All-map {κ μ} :
      (P : A → Type κ) (Q : A → Type μ)
      → ((x : A) → P x → Q x)
      → (xs : List A) → All P xs
      → All Q xs
  All-map P Q f [] h = tt
  All-map P Q f (x ∷ xs) h = (f x h.0, All-map P Q f xs h.1)

  pub none_of : (xs : List A) → Sub [] xs
  none_of [] = done
  none_of (x ∷ xs) = skip (none_of xs)
