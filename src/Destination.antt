-- ===== src/Destination.antt =====
-- backend/pullbackup/services/fs.py: which paths may be written, and the traversal that opens one.
-- `pathlib` and the kernel are parameters: `Paths` resolves names, and `Disk` is the tree of
-- directories, whose entries change only by `mkdir` here.
pub mod Keys
pub mod Containment
pub mod Walk
pub mod Accept
mod Examples
use Prim.Native.Char.{code}
use pullbackup.Base.{
  ℕ, ◌+◌, String, Bool, true, false, not, ◌&&◌, ◌||◌, List, [], ◌∷◌, Option, none, some, any, ltb,
  ◌==◌, nat_comparable, text_comparable, if◌then◌else◌, keep, length, drop,
}
use pullbackup.Base.Text.{starts_with}
use pullbackup.Base.Words.{stripped_parts}

-- The components of an absolute path, as `Path.parts`.
abbrev pub Parts : Type 0
Parts = List String

-- `Path.resolve()`, with `none` where it raises `OSError` or `RuntimeError`.
pub record Paths : Type 0 where
  pub resolve : String → Option Parts

-- `PathNotAllowed`, and an `OSError` that is passed on.
pub data Refusal : Type 0 where
  not_allowed os_error : Refusal

-- The characters that no path may hold: NUL, line feed and carriage return.
unfoldable pub has_forbidden : String → Bool
has_forbidden String.[] = false
has_forbidden (String.◌∷◌ c s) = any (λ k. code c == k) (0 ∷ 10 ∷ 13 ∷ []) || has_forbidden s

-- `path == root or root in path.parents`
unfoldable pub contains_path : Parts → Parts → Bool
contains_path [] path = true
contains_path (r ∷ root) [] = false
contains_path (r ∷ root) (p ∷ path) = r == p && contains_path root path

-- `max(roots, key=lambda root: len(root.parts))`: the first of the longest.
unfoldable pub longest : List Parts → Option Parts
longest [] = none
longest (r ∷ roots) = elim (longest roots) [
  | none ↦ some r
  | some best ↦ if ltb (length r) (length best) then some best else some r
]

module _ (paths : Paths) where
  open paths use {resolve}

  abbrev pub cons_root : Option Parts → List Parts → List Parts
  cons_root none roots = roots
  cons_root (some root) roots = root ∷ roots

  -- `_canonical_roots`, from the entries of `dest_roots`.
  unfoldable pub resolve_roots : List String → List Parts
  resolve_roots [] = []
  resolve_roots (root ∷ rest) =
      let others = resolve_roots rest in
      if not (starts_with root "/")
      then others
      else if has_forbidden root
      then others
      else cons_root (resolve root) others

  unfoldable pub canonical_roots : String → List Parts
  unfolding stripped_parts
  canonical_roots dest_roots = resolve_roots (stripped_parts 44 dest_roots)

  -- The last lines of `_resolve_with_root`.
  unfoldable pub bind_root : List Parts → Option Parts → Option (Parts × Parts)
  bind_root roots none = none
  bind_root roots (some resolved) =
      elim (longest (keep (λ root. contains_path root resolved) roots)) [
        | none ↦ none
        | some root ↦ some (resolved, root)
      ]

  -- `_resolve_with_root`; `none` is `PathNotAllowed`.
  unfoldable pub resolve_with_root : List Parts → String → Option (Parts × Parts)
  resolve_with_root roots path =
      if path == ""
      then none
      else if has_forbidden path
      then none
      else if not (starts_with path "/")
      then none
      else bind_root roots (resolve path)

  -- `resolve_destination`
  unfoldable pub resolve_destination : List Parts → String → Option Parts
  resolve_destination roots path = elim (resolve_with_root roots path) [
    | none ↦ none
    | some (resolved, root) ↦ some resolved
  ]

-- What a name in a directory stands for; `hidden` is an entry that cannot be examined.
pub data Node : Type 0 where
  absent : Node
  directory : ℕ → Node
  symlink plain_file hidden : Node

-- The directories by inode. `root_inode` opens a configured root without following a link, `writable`
-- tells where a directory may be made, and `fresh` is the next inode.
pub record Disk : Type 0 where
  pub root_inode : Parts → Option ℕ
  pub entry : ℕ → String → Node
  pub writable : ℕ → Bool
  pub fresh : ℕ

-- A new, empty directory of that name.
abbrev pub add_directory : Disk → ℕ → String → Disk
add_directory disk parent name = record disk {
  entry = λ dir n. if dir == parent && n == name then directory disk.fresh else disk.entry dir n;
  fresh = disk.fresh + 1;
}

unfoldable pub make_at : Node → Disk → ℕ → String → Option Disk
make_at absent disk parent name =
    if disk.writable parent then some (add_directory disk parent name) else none
make_at (directory inode) disk parent name = some disk
make_at symlink disk parent name = some disk
make_at plain_file disk parent name = some disk
make_at hidden disk parent name = some disk

-- `os.mkdir(name, dir_fd=parent)` with `FileExistsError` passed over.
unfoldable pub mkdir : Disk → ℕ → String → Option Disk
unfolding make_at
mkdir disk parent name = make_at (disk.entry parent name) disk parent name

-- The result of a walk: a descriptor, nothing there yet, or an error.
pub data Walked : Type 0 where
  pinned : ℕ → Walked
  missing : Walked
  refused : Refusal → Walked

-- `os.open(name, O_DIRECTORY | O_NOFOLLOW)`, with the error that `_open_child` raises.
unfoldable pub open_node : Node → Walked
open_node (directory inode) = pinned inode
open_node symlink = refused not_allowed
open_node absent = refused os_error
open_node plain_file = refused os_error
open_node hidden = refused os_error

-- `_exists_at`, with `none` for an `OSError` that is not `FileNotFoundError`.
unfoldable pub exists_at : Disk → ℕ → String → Option Bool
exists_at disk parent name = elim (disk.entry parent name) [
  | absent ↦ some false
  | hidden ↦ none
  | _ ↦ some true
]

-- `_open_child`, with the disk that it leaves.
unfoldable pub open_child : Disk → ℕ → String → Bool → Disk × Walked
open_child disk parent name false = (disk, open_node (disk.entry parent name))
open_child disk parent name true = elim (mkdir disk parent name) [
  | none ↦ (disk, refused os_error)
  | some made ↦ (made, open_node (made.entry parent name))
]

-- The loop of `walk_destination` over the components below the root.
unfoldable pub walk_parts : Disk → ℕ → Parts → Bool → Disk × Walked
unfolding exists_at
walk_parts disk current [] create = (disk, pinned current)
walk_parts disk current (name ∷ rest) false = elim (exists_at disk current name) [
  | none ↦ (disk, refused os_error)
  | some false ↦ (disk, missing)
  | some true ↦ elim (open_node (disk.entry current name)) [
    | pinned next ↦ walk_parts disk next rest false
    | missing ↦ (disk, missing)
    | refused error ↦ (disk, refused error)
  ]
]
walk_parts disk current (name ∷ rest) true =
    let (made, opened) = open_child disk current name true in
    elim opened [
      | pinned next ↦ walk_parts made next rest true
      | missing ↦ (made, missing)
      | refused error ↦ (made, refused error)
    ]

-- `walk_destination`
unfoldable pub walk_destination : Paths → List Parts → Disk → String → Bool → Disk × Walked
walk_destination paths roots disk path create = elim (resolve_with_root paths roots path) [
  | none ↦ (disk, refused not_allowed)
  | some (resolved, root) ↦ elim (disk.root_inode root) [
    | none ↦ (disk, refused not_allowed)
    | some current ↦ walk_parts disk current (drop (length root) resolved) create
  ]
]

-- `open_destination`
unfoldable pub open_destination : Paths → List Parts → Disk → String → Bool → Disk × Walked
open_destination paths roots disk path create =
    let (after, walked) = walk_destination paths roots disk path create in
    elim walked [
      | pinned inode ↦ (after, pinned inode)
      | missing ↦ (after, refused not_allowed)
      | refused error ↦ (after, refused error)
    ]
