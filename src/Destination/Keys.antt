-- ===== src/Destination/Keys.antt =====
-- backend/pullbackup/services/runner.py, `_destination_key` and `_conflicts`: which destinations
-- exclude each other.
use pullbackup.Base.{
  ◌≡◌, ◌↔◌, refl, sym, ◌∙◌, String, Bool, true, false, List, [], ◌∷◌, Option, none, some, ◌==◌,
  ◌&&◌, text_comparable, if◌then◌else◌, length, take, min2, leb, suc, arith, Bool-cases, inl, inr,
}
use pullbackup.Base.Words.{split_on}
use pullbackup.Models.{Task}
use pullbackup.Names.{validate_zfs_destination}
use pullbackup.Destination.{Paths, Parts, contains_path, resolve_destination}

-- `left == right` on tuples of text.
unfoldable pub same_parts : Parts → Parts → Bool
same_parts [] [] = true
same_parts [] (y ∷ ys) = false
same_parts (x ∷ xs) [] = false
same_parts (x ∷ xs) (y ∷ ys) = x == y && same_parts xs ys

-- `_conflicts`
unfoldable pub conflicts : Parts → Parts → Bool
unfolding same_parts
conflicts left right =
    let shared = min2 (length left) (length right) in
    same_parts (take shared left) (take shared right)

-- `_destination_key`; `none` where it raises.
unfoldable pub destination_key : List String → Paths → List Parts → Task → Option Parts
unfolding split_on
destination_key zfs_roots paths roots task =
    if task.task_type == "syncoid"
    then elim (validate_zfs_destination zfs_roots task.local_path) [
      | none ↦ none
      | some dataset ↦ some ("zfs" ∷ split_on 47 dataset)
    ]
    else elim (resolve_destination paths roots task.local_path) [
      | none ↦ none
      | some parts ↦ some ("fs" ∷ parts)
    ]

same_refl : (x : String) → (x == x) ≡ true
same_refl x = (text_comparable.same_iff x x).1 refl

contains_path_refl : (p : Parts) → contains_path p p ≡ true
unfolding contains_path
contains_path_refl [] = refl
contains_path_refl (x ∷ p) = ground (arith, same_refl x, contains_path_refl p)

conflicts-cons :
    (x y : String) (xs ys : Parts) → conflicts (x ∷ xs) (y ∷ ys) ≡ (x == y && conflicts xs ys)
unfolding conflicts
conflicts-cons x y xs ys = elim (Bool-cases (leb (length xs) (length ys))) [
  | inl le ↦
      let bigger : leb (suc (length xs)) (suc (length ys)) ≡ true = ground arith in
      rw (bigger, le, same_parts) refl
  | inr gt ↦
      let bigger : leb (suc (length xs)) (suc (length ys)) ≡ false = ground arith in
      rw (bigger, gt, same_parts) refl
]

conflicts-nil : (ys : Parts) → conflicts [] ys ≡ true
unfolding conflicts
conflicts-nil ys = ground arith

conflicts-nil_right : (xs : Parts) → conflicts xs [] ≡ true
unfolding conflicts
conflicts-nil_right xs = ground arith

-- Two destinations conflict exactly if some path lies in both.
pub conflicts_iff :
    (left right : Parts)
    → (conflicts left right ≡ true)
      ↔ ((path : Parts) × (contains_path left path ≡ true) × (contains_path right path ≡ true))
unfolding contains_path
conflicts_iff left right = (overlap left right, conflict left right)
  where
    overlap :
        (xs ys : Parts)
        → conflicts xs ys ≡ true
        → (path : Parts) × (contains_path xs path ≡ true) × (contains_path ys path ≡ true)
    overlap [] ys h = (ys, refl, contains_path_refl ys)
    overlap (x ∷ xs) [] h = (x ∷ xs, contains_path_refl (x ∷ xs), refl)
    overlap (x ∷ xs) (y ∷ ys) h =
        let split : (x == y && conflicts xs ys) ≡ true = sym (conflicts-cons x y xs ys) ∙ h in
        let (path, in_xs, in_ys) = overlap xs ys (ground arith) in
        (
          x ∷ path,
          ground (arith, same_refl x),
          ground (arith, same_refl x, text_comparable.same_iff x y, text_comparable.same_iff y x),
        )

    conflict :
        (xs ys : Parts)
        → ((path : Parts) × (contains_path xs path ≡ true) × (contains_path ys path ≡ true))
        → conflicts xs ys ≡ true
    conflict [] ys h = conflicts-nil ys
    conflict (x ∷ xs) [] h = conflicts-nil_right (x ∷ xs)
    conflict (x ∷ xs) (y ∷ ys) ([], in_xs, in_ys) = cc
    conflict (x ∷ xs) (y ∷ ys) (p ∷ path, in_xs, in_ys) =
        let rest = conflict xs ys (path, ground arith, ground arith) in
        conflicts-cons x y xs ys
        ∙ ground (
          arith,
          text_comparable.same_iff x y,
          text_comparable.same_iff x p,
          text_comparable.same_iff y p,
        )
