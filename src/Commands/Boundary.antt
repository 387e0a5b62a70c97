-- ===== src/Commands/Boundary.antt =====
-- The operands of syncoid, as `build_syncoid_args` of services/runner.py validates them.
use pullbackup.Base.{
  ◌≡◌, ◌⊎◌, inl, inr, refl, String, true, List, [], ◌∷◌, ◌++◌, Option, none, some, nat_comparable,
  text_comparable, Bool-cases, arith, ◌>>=◌,
}
use pullbackup.Base.Text.{◌+s◌, starts_with}
use pullbackup.Models.{Source, Task}
use pullbackup.Names.{
  is_user, is_host, is_dataset, validate_ssh_user, validate_ssh_host, validate_zfs_source,
  validate_zfs_destination, find_zfs_root,
}
use pullbackup.Commands.{build_syncoid_args, syncoid_flags}

-- The dataset is below a root of the list, which is a dataset name itself.
abbrev pub BelowRoot : List String → String → Type 0
BelowRoot [] dataset = ⊥
BelowRoot (root ∷ roots) dataset =
    ((is_dataset root ≡ true) × (starts_with dataset (root +s "/") ≡ true))
    ⊎ BelowRoot roots dataset

find_zfs_root-BelowRoot :
    (dataset found : String) (roots : List String)
    → find_zfs_root dataset roots ≡ some found
    → (found ≡ dataset) × BelowRoot roots dataset
unfolding find_zfs_root
find_zfs_root-BelowRoot dataset found [] h = cc
find_zfs_root-BelowRoot dataset found (root ∷ roots) h = elim (Bool-cases (is_dataset root)) [
  | inr bad ↦ ground arith
  | inl good ↦ elim (Bool-cases (starts_with dataset (root +s "/"))) [
    | inl below ↦ (ground arith, inl (good, below))
    | inr not_below ↦
        let (same, below) = find_zfs_root-BelowRoot dataset found roots (ground arith) in
        (same, inr below)
  ]
]

-- What the validators accept is the name itself, well formed.
user_accepted : (s t : String) → validate_ssh_user s ≡ some t → (t ≡ s) × (is_user s ≡ true)
unfolding validate_ssh_user
user_accepted s t h = ground arith

host_accepted : (s t : String) → validate_ssh_host s ≡ some t → (t ≡ s) × (is_host s ≡ true)
unfolding validate_ssh_host
host_accepted s t h = ground arith

dataset_accepted : (s t : String) → validate_zfs_source s ≡ some t → (t ≡ s) × (is_dataset s ≡ true)
unfolding validate_zfs_source
dataset_accepted s t h = ground arith

pub destination_accepted :
    (roots : List String) (s t : String)
    → validate_zfs_destination roots s ≡ some t
    → (t ≡ s) × (is_dataset s ≡ true) × BelowRoot roots s
unfolding validate_zfs_destination
destination_accepted roots s t h = elim (Bool-cases (is_dataset s)) [
  | inr bad ↦ ground arith
  | inl good ↦
      let (same, below) = find_zfs_root-BelowRoot s t roots (ground arith) in (same, good, below)
]

-- A command line that is sound: behind the flags, just the two operands, made of well formed names.
pub record IsSound (data_dir : String) (roots : List String) (task : Task) (source : Source)
    (args : List String) : Type 0 where
  pub command :
      args
      ≡ "syncoid"
        ∷ (syncoid_flags data_dir task.syncoid source
            ++ (source.user +s "@" +s source.host +s ":" +s task.remote_path)
              ∷ task.local_path
              ∷ [])
  pub user : is_user source.user ≡ true
  pub host : is_host source.host ≡ true
  pub remote : is_dataset task.remote_path ≡ true
  pub local : is_dataset task.local_path ≡ true
  pub below : BelowRoot roots task.local_path

bind_some :
    {A B : Type 0} (o : Option A) (f : A → Option B) (b : B)
    → (o >>= f) ≡ some b
    → (a : A) × (o ≡ some a) × (f a ≡ some b)
bind_some none f b h = cc
bind_some (some a) f b h = (a, refl, h)

-- A replication is refused, or its command line ends with the remote dataset, behind a well formed
-- user and host, and the local one, which is well formed and below a configured root.
pub build_syncoid_args-IsSound :
    (data_dir : String) (roots : List String) (task : Task) (source : Source) (args : List String)
    → build_syncoid_args data_dir roots task source ≡ some args
    → IsSound data_dir roots task source args
unfolding build_syncoid_args
build_syncoid_args-IsSound data_dir roots task source args h =
    let (u, user, h₁) = bind_some (validate_ssh_user source.user) _ args h in
    let (o, host, h₂) = bind_some (validate_ssh_host source.host) _ args h₁ in
    let (r, remote, h₃) = bind_some (validate_zfs_source task.remote_path) _ args h₂ in
    let (d, local, h₄) = bind_some (validate_zfs_destination roots task.local_path) _ args h₃ in
    let (su, wu) = user_accepted _ u user in
    let (so, wo) = host_accepted _ o host in
    let (sr, wr) = dataset_accepted _ r remote in
    let (sd, wd, below) = destination_accepted roots _ d local in
    record { command = cc; user = wu; host = wo; remote = wr; local = wd; below = below }
