-- ===== src/Destination/Examples.antt =====
-- The theorems on destinations at concrete inputs.
use pullbackup.Base.{
  ◌≡◌, ◌↔◌, inl, inr, refl, true, false, [], ◌∷◌, some, arith, nat_comparable, text_comparable,
}
use pullbackup.Base.Text.{starts_with}
use pullbackup.Base.Words.{
  stripped_parts, split_on, split_by, strip, strip_left, strip_right, is_space,
}
use pullbackup.Samples.{dest_paths, dest_disk}
use pullbackup.Destination.{
  Parts, has_forbidden, longest, contains_path, bind_root, resolve_with_root, walk_parts,
  walk_destination, exists_at, open_node,
}
use pullbackup.Destination.Keys.{conflicts, conflicts_iff}
use pullbackup.Destination.Containment.{Among, IsBound, resolve_with_root-IsBound}
use pullbackup.Destination.Walk.{IsPinned, walk_destination-IsPinned}
use pullbackup.Destination.Accept.{IsMade, Opens, walk_destination-Opens}

conflicts_iff_example : (conflicts ("fs" ∷ "dest" ∷ []) ("fs" ∷ "dest" ∷ "photos" ∷ []) ≡ true) ↔ (
    (path : Parts) × (contains_path ("fs" ∷ "dest" ∷ []) path ≡ true)
    × (contains_path ("fs" ∷ "dest" ∷ "photos" ∷ []) path ≡ true))
conflicts_iff_example = conflicts_iff ("fs" ∷ "dest" ∷ []) ("fs" ∷ "dest" ∷ "photos" ∷ [])

abbrev wide : Parts
wide = "/" ∷ "dest" ∷ []

abbrev narrow : Parts
narrow = "/" ∷ "dest" ∷ "photos" ∷ []

abbrev swap : (a b : Parts) → (root : Parts) → Among root (a ∷ b ∷ []) → Among root (b ∷ a ∷ [])
swap a b root (inl first) = inr (inl first)
swap a b root (inr (inl second)) = inl second
swap a b root (inr (inr none_)) = absurd none_

resolve_with_root-IsBound_example :
    IsBound dest_paths (wide ∷ narrow ∷ []) ("/" ∷ "dest" ∷ "photos" ∷ "2026" ∷ []) narrow
    × (resolve_with_root dest_paths (narrow ∷ wide ∷ []) "/dest/photos/2026"
        ≡ some ("/" ∷ "dest" ∷ "photos" ∷ "2026" ∷ [], narrow))
unfolding resolve_with_root bind_root longest contains_path has_forbidden starts_with stripped_parts
    split_on split_by strip strip_left strip_right is_space
resolve_with_root-IsBound_example =
    resolve_with_root-IsBound dest_paths (wide ∷ narrow ∷ []) (narrow ∷ wide ∷ [])
      "/dest/photos/2026" _ narrow (λ root. (swap wide narrow root, swap narrow wide root)) refl

walk_destination-IsPinned_example :
    IsPinned dest_paths (wide ∷ []) dest_disk dest_disk "/dest/photos" false 2
unfolding walk_destination walk_parts exists_at open_node resolve_with_root bind_root longest
    contains_path has_forbidden starts_with stripped_parts split_on split_by strip strip_left
    strip_right is_space
walk_destination-IsPinned_example =
    walk_destination-IsPinned dest_paths (wide ∷ []) dest_disk dest_disk "/dest/photos" false 2 refl

dest_disk-IsMade : IsMade dest_disk
dest_disk-IsMade = record {
  known = λ dir name next e. ground arith;
  empty_above = λ dir name le. ground arith;
  can_write = λ dir. refl;
}

walk_destination-Opens_example :
    Opens (walk_destination dest_paths (wide ∷ []) dest_disk "/dest/films/2026" true)
unfolding walk_destination walk_parts exists_at open_node resolve_with_root bind_root longest
    contains_path has_forbidden starts_with stripped_parts split_on split_by strip strip_left
    strip_right is_space
walk_destination-Opens_example =
    walk_destination-Opens dest_paths (wide ∷ []) dest_disk "/dest/films/2026" dest_disk-IsMade
      (λ root start e. ground arith) (inl refl)
