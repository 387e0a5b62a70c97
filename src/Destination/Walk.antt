-- ===== src/Destination/Walk.antt =====
-- What `walk_destination` of services/fs.py opens: directories, the disk before and after.
use pullbackup.Base.{
  ℕ, ◌≡◌, ◌⊎◌, refl, sym, subst, String, Bool, true, false, List, [], ◌∷◌, some, ◌==◌, ◌&&◌,
  text_comparable, nat_comparable, if_cases, length, drop, arith, Bool-cases, Option-cases, inl,
  inr,
}
use pullbackup.Destination.{
  Paths, Parts, Node, absent, directory, symlink, plain_file, hidden, Disk, add_directory, make_at,
  mkdir, pinned, refused, not_allowed, os_error, open_node, exists_at, open_child, walk_parts,
  resolve_with_root, walk_destination,
}

-- From one directory to another by real directories only.
pub data Follows (disk : Disk) : ℕ → Parts → ℕ → Type 0 where
  here : {dir : ℕ} → Follows disk dir [] dir
  down :
      {dir next last : ℕ} {name : String} {rest : Parts}
      → disk.entry dir name ≡ directory next
      → Follows disk next rest last
      → Follows disk dir (name ∷ rest) last

-- What is a directory stays that directory.
abbrev pub Grows : Disk → Disk → Type 0
Grows disk after =
    (dir : ℕ) (name : String) (next : ℕ)
    → disk.entry dir name ≡ directory next
    → after.entry dir name ≡ directory next

node_pinned : (node : Node) (next : ℕ) → open_node node ≡ pinned next → node ≡ directory next
unfolding open_node
node_pinned absent next h = cc
node_pinned (directory d) next h = ground arith
node_pinned symlink next h = cc
node_pinned plain_file next h = cc
node_pinned hidden next h = cc

node_pinned_or_refused :
    (node : Node)
    → ((next : ℕ) × (node ≡ directory next) × (open_node node ≡ pinned next))
      ⊎ ((error : _) × (open_node node ≡ refused error))
unfolding open_node
node_pinned_or_refused absent = inr (os_error, refl)
node_pinned_or_refused (directory d) = inl (d, refl, refl)
node_pinned_or_refused symlink = inr (not_allowed, refl)
node_pinned_or_refused plain_file = inr (os_error, refl)
node_pinned_or_refused hidden = inr (os_error, refl)

add_directory-Grows :
    (disk : Disk) (parent : ℕ) (name : String)
    → disk.entry parent name ≡ absent
    → Grows disk (add_directory disk parent name)
add_directory-Grows disk parent name empty dir n next e =
    if_cases (λ node. node ≡ directory next) (dir == parent && n == name)
      (λ hit.
        let same_dir : dir ≡ parent = ground arith in
        let same_name : n ≡ name = (text_comparable.same_iff n name).0 (ground arith) in cc)
      (λ _. e)

made_at :
    (node : Node) (disk made : Disk) (parent : ℕ) (name : String)
    → make_at node disk parent name ≡ some made
    → ((node ≡ absent) × (made ≡ add_directory disk parent name)) ⊎ (made ≡ disk)
unfolding make_at
made_at absent disk made parent name h = elim (Bool-cases (disk.writable parent)) [
  | inl can ↦ inl (refl, ground arith)
  | inr cannot ↦ ground arith
]
made_at (directory inode) disk made parent name h = inr (ground arith)
made_at symlink disk made parent name h = inr (ground arith)
made_at plain_file disk made parent name h = inr (ground arith)
made_at hidden disk made parent name h = inr (ground arith)

mkdir-Grows :
    (disk made : Disk) (parent : ℕ) (name : String)
    → mkdir disk parent name ≡ some made
    → Grows disk made
unfolding mkdir
mkdir-Grows disk made parent name h =
    elim (made_at (disk.entry parent name) disk made parent name h) [
      | inl (empty, is_new) ↦
          subst (Grows disk) (sym is_new) (add_directory-Grows disk parent name empty)
      | inr is_old ↦ subst (Grows disk) (sym is_old) (λ dir n next e. e)
    ]

Grows-trans : (a b c : Disk) → Grows a b → Grows b c → Grows a c
Grows-trans a b c g h dir n next e = h dir n next (g dir n next e)

-- What a walk that ends at a descriptor has done.
abbrev pub Reached : Disk → Disk → ℕ → Parts → ℕ → Type 0
Reached disk after current parts last = Grows disk after × Follows after current parts last

walk_parts-reads :
    (disk after : Disk) (current last : ℕ) (parts : Parts)
    → walk_parts disk current parts false ≡ (after, pinned last)
    → (after ≡ disk) × Follows disk current parts last
unfolding walk_parts
walk_parts-reads disk after current last [] h =
    (ground arith, subst (Follows disk current []) (ground arith) here)
walk_parts-reads disk after current last (name ∷ rest) h =
    elim (Option-cases (exists_at disk current name)) [
      | inl e ↦ ground arith
      | inr (false, e) ↦ ground arith
      | inr (true, e) ↦ elim (node_pinned_or_refused (disk.entry current name)) [
        | inl (next, is_dir, opened) ↦
            let (same, follows) = walk_parts-reads disk after next last rest (ground arith) in
            (same, down is_dir follows)
        | inr (error, opened) ↦ ground arith
      ]
    ]

walk_parts-Reached :
    (disk after : Disk) (current last : ℕ) (parts : Parts)
    → walk_parts disk current parts true ≡ (after, pinned last)
    → Reached disk after current parts last
unfolding walk_parts open_child
walk_parts-Reached disk after current last [] h = (
  subst {A = Disk} (Grows disk) {x = disk} {y = after} (ground arith) (λ dir n next e. e),
  subst (Follows after current []) (ground arith) here,
)
walk_parts-Reached disk after current last (name ∷ rest) h =
    elim (Option-cases (mkdir disk current name)) [
      | inl e ↦ ground arith
      | inr (made, e) ↦ elim (node_pinned_or_refused (made.entry current name)) [
        | inl (next, is_dir, opened) ↦
            let (grows, follows) = walk_parts-Reached made after next last rest (ground arith) in
            (
              Grows-trans disk made after (mkdir-Grows disk made current name e) grows,
              down (grows current name next is_dir) follows,
            )
        | inr (error, opened) ↦ ground arith
      ]
    ]

module _ (paths : Paths) (roots : List Parts) where
  -- What an open destination is: the directory that the resolved path names below its root.
  pub record IsPinned (disk after : Disk) (path : String) (create : Bool) (inode : ℕ) : Type 0 where
    pub resolved : Parts
    pub root : Parts
    pub start : ℕ
    pub bound : resolve_with_root paths roots path ≡ some (resolved, root)
    pub opened : disk.root_inode root ≡ some start
    pub follows : Follows after start (drop (length root) resolved) inode
    pub grows : Grows disk after
    pub read_only : (create ≡ true) ⊎ (after ≡ disk)

  walk_from-IsPinned :
      (disk after : Disk) (path : String) (create : Bool) (inode : ℕ) (resolved root : Parts)
      (start : ℕ)
      → resolve_with_root paths roots path ≡ some (resolved, root)
      → disk.root_inode root ≡ some start
      → walk_parts disk start (drop (length root) resolved) create ≡ (after, pinned inode)
      → IsPinned disk after path create inode
  walk_from-IsPinned disk after path true inode resolved root start bound opened h =
      let (grows, follows) =
        walk_parts-Reached disk after start inode (drop (length root) resolved) h in
      record {
        resolved = resolved;
        root = root;
        start = start;
        bound = bound;
        opened = opened;
        follows = follows;
        grows = grows;
        read_only = inl refl;
      }
  walk_from-IsPinned disk after path false inode resolved root start bound opened h =
      let (same, follows) =
        walk_parts-reads disk after start inode (drop (length root) resolved) h in
      record {
        resolved = resolved;
        root = root;
        start = start;
        bound = bound;
        opened = opened;
        follows =
            subst (λ d. Follows d start (drop (length root) resolved) inode) (sym same) follows;
        grows = subst (Grows disk) (sym same) (λ dir n next e. e);
        read_only = inr same;
      }

  -- A descriptor that the walk answers is the directory that the resolved path names below its root,
  -- reached through real directories and no link; nothing that was a directory has changed, and
  -- nothing at all if the walk was not to create.
  pub walk_destination-IsPinned :
      (disk after : Disk) (path : String) (create : Bool) (inode : ℕ)
      → walk_destination paths roots disk path create ≡ (after, pinned inode)
      → IsPinned disk after path create inode
  unfolding walk_destination
  walk_destination-IsPinned disk after path create inode h =
      elim (Option-cases (resolve_with_root paths roots path)) [
        | inl e ↦ ground arith
        | inr ((resolved, root), e) ↦ elim (Option-cases (disk.root_inode root)) [
          | inl f ↦ ground arith
          | inr (start, f) ↦
              walk_from-IsPinned disk after path create inode resolved root start e f (ground arith)
        ]
      ]
