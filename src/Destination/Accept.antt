-- ===== src/Destination/Accept.antt =====
-- The two modes of `walk_destination` of services/fs.py, acceptance and execution, against each
-- other.
use pullbackup.Base.{
  ℕ, ◌≡◌, ◌≤◌, ◌<◌, ◌⊎◌, refl, sym, subst, String, true, false, List, [], ◌∷◌, some, ◌==◌, ◌&&◌,
  text_comparable, nat_comparable, length, drop, arith, Bool-cases, Option-cases, inl, inr,
}
use pullbackup.Destination.{
  Paths, Parts, Node, absent, directory, symlink, plain_file, hidden, Disk, add_directory, make_at,
  mkdir, Walked, pinned, missing, open_node, exists_at, open_child, walk_parts, resolve_with_root,
  walk_destination,
}

-- A disk whose directories have been made: none has the next inode or a later one, and those are empty.
pub record IsMade (disk : Disk) : Type 0 where
  pub known :
      (dir : ℕ) (name : String) (next : ℕ)
      → disk.entry dir name ≡ directory next
      → next < disk.fresh
  pub empty_above : (dir : ℕ) (name : String) → disk.fresh ≤ dir → disk.entry dir name ≡ absent
  pub can_write : (dir : ℕ) → disk.writable dir ≡ true

add_directory-IsMade :
    (disk : Disk) (parent : ℕ) (name : String)
    → parent < disk.fresh
    → IsMade disk
    → IsMade (add_directory disk parent name)
add_directory-IsMade disk parent name lt w = record {
  known = λ dir n next e. elim (Bool-cases (dir == parent && n == name)) [
    | inl hit ↦ ground arith
    | inr miss ↦ ground (arith, w.known dir n next)
  ];
  empty_above = λ dir n le. ground (arith, w.empty_above dir n);
  can_write = w.can_write;
}

-- The walk was let through by acceptance.
abbrev pub IsAccepted : Walked → Type 0
IsAccepted walked = (walked ≡ missing) ⊎ ((inode : ℕ) × (walked ≡ pinned inode))

abbrev pub Opens : Disk × Walked → Type 0
Opens out = (inode : ℕ) × (out.1 ≡ pinned inode)

-- One component that is made, or is there.
walk_parts-step :
    (disk made : Disk) (current next : ℕ) (name : String) (rest : Parts)
    → mkdir disk current name ≡ some made
    → made.entry current name ≡ directory next
    → walk_parts disk current (name ∷ rest) true ≡ walk_parts made next rest true
unfolding walk_parts open_child open_node
walk_parts-step disk made current next name rest e f = ground arith

step-Opens :
    (disk made : Disk) (current next : ℕ) (name : String) (rest : Parts)
    → mkdir disk current name ≡ some made
    → made.entry current name ≡ directory next
    → Opens (walk_parts made next rest true)
    → Opens (walk_parts disk current (name ∷ rest) true)
step-Opens disk made current next name rest e f o =
    subst Opens (sym (walk_parts-step disk made current next name rest e f)) o

-- The first component is not there.
abbrev pub Lacking : Disk → ℕ → Parts → Type 0
Lacking disk current [] = Unit {0}
Lacking disk current (name ∷ rest) = disk.entry current name ≡ absent

fresh-Lacking :
    (disk : Disk) (current : ℕ) (name : String) (rest : Parts)
    → IsMade disk
    → current < disk.fresh
    → Lacking (add_directory disk current name) disk.fresh rest
fresh-Lacking disk current name [] w lt = tt
fresh-Lacking disk current name (n ∷ rest) w lt = ground (arith, w.empty_above disk.fresh n)

-- Where the first component is not there, every one is made.
walk_parts-makes :
    (disk : Disk) (current : ℕ) (parts : Parts)
    → IsMade disk
    → current < disk.fresh
    → Lacking disk current parts
    → Opens (walk_parts disk current parts true)
unfolding walk_parts mkdir make_at
walk_parts-makes disk current [] w lt empty = (current, refl)
walk_parts-makes disk current (name ∷ rest) w lt empty =
    let made = add_directory disk current name in
    let is_new : mkdir disk current name ≡ some made = ground (arith, w.can_write current) in
    let found : made.entry current name ≡ directory disk.fresh =
      ground (arith, (text_comparable.same_iff name name).1 refl) in
    step-Opens disk made current disk.fresh name rest is_new found (
      walk_parts-makes made disk.fresh rest (add_directory-IsMade disk current name lt w)
        (omega arith) (fresh-Lacking disk current name rest w lt))

-- What `_exists_at` and `_open_child` make of an entry.
abbrev pub Passed : Disk → ℕ → String → Parts → Type 0
Passed disk current name rest =
    (disk.entry current name ≡ absent)
    ⊎ ((next : ℕ) × (disk.entry current name ≡ directory next)
        × (walk_parts disk current (name ∷ rest) false ≡ walk_parts disk next rest false))

accepted-Passed :
    (disk : Disk) (current : ℕ) (name : String) (rest : Parts) (node : Node)
    → disk.entry current name ≡ node
    → IsAccepted (walk_parts disk current (name ∷ rest) false).1
    → Passed disk current name rest
unfolding walk_parts exists_at open_node
accepted-Passed disk current name rest absent e a = inl e
accepted-Passed disk current name rest (directory next) e a = inr (next, e, ground arith)
accepted-Passed disk current name rest symlink e a = elim a [
  | inl gone ↦ ground arith
  | inr (inode, there) ↦ ground arith
]
accepted-Passed disk current name rest plain_file e a = elim a [
  | inl gone ↦ ground arith
  | inr (inode, there) ↦ ground arith
]
accepted-Passed disk current name rest hidden e a = elim a [
  | inl gone ↦ ground arith
  | inr (inode, there) ↦ ground arith
]

walk_parts-Opens :
    (disk : Disk) (current : ℕ) (parts : Parts)
    → IsMade disk
    → current < disk.fresh
    → IsAccepted (walk_parts disk current parts false).1
    → Opens (walk_parts disk current parts true)
unfolding walk_parts mkdir make_at
walk_parts-Opens disk current [] w lt a = (current, refl)
walk_parts-Opens disk current (name ∷ rest) w lt a =
    elim (accepted-Passed disk current name rest (disk.entry current name) refl a) [
      | inl empty ↦ walk_parts-makes disk current (name ∷ rest) w lt empty
      | inr (next, is_dir, same) ↦
          step-Opens disk disk current next name rest (ground arith) is_dir (
            walk_parts-Opens disk next rest w (w.known current name next is_dir)
              (subst (λ (out : Disk × Walked). IsAccepted out.1) same a))
    ]

-- If acceptance lets a destination pass, on a disk whose directories have been made and can be
-- written, execution opens it.
pub walk_destination-Opens :
    (paths : Paths) (roots : List Parts) (disk : Disk) (path : String)
    → IsMade disk
    → ((root : Parts) (start : ℕ) → disk.root_inode root ≡ some start → start < disk.fresh)
    → IsAccepted (walk_destination paths roots disk path false).1
    → Opens (walk_destination paths roots disk path true)
unfolding walk_destination
walk_destination-Opens paths roots disk path w made a =
    elim (Option-cases (resolve_with_root paths roots path)) [
      | inl e ↦ elim a [ inl gone ↦ ground arith | inr (inode, there) ↦ ground arith ]
      | inr ((resolved, root), e) ↦ elim (Option-cases (disk.root_inode root)) [
        | inl f ↦ elim a [ inl gone ↦ ground arith | inr (inode, there) ↦ ground arith ]
        | inr (start, f) ↦
            let out : walk_destination paths roots disk path false
                ≡ walk_parts disk start (drop (length root) resolved) false =
              ground arith in
            let (inode, opened) =
              walk_parts-Opens disk start (drop (length root) resolved) w (made root start f)
                (subst (λ (o : Disk × Walked). IsAccepted o.1) out a) in
            (inode, ground arith)
      ]
    ]
