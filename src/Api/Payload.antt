-- ===== src/Api/Payload.antt =====
-- The write model of backend/pullbackup/api/tasks.py: its validation, and the fields that an active run
-- locks.
use pullbackup.Base.{
  ℕ, String, Bool, true, false, not, ◌&&◌, List, [], ◌∷◌, Option, none, some, leb, is_some, ◌==◌,
  nat_comparable, text_comparable, if◌then◌else◌,
}
use pullbackup.Models.{RsyncOptions, SyncoidOptions, Task}
use pullbackup.Names.{validate_zfs_source, validate_zfs_destination, zfs_dest_roots_list}
use pullbackup.Destination.{pinned, missing, refused, canonical_roots, walk_destination}
use pullbackup.Dispatch.{Environment}

-- `TaskFields`
pub record TaskFields : Type 0 where
  pub name : String
  pub source_id : ℕ
  pub remote_path : String
  pub local_path : String
  pub cron : String
  pub enabled : Bool
  pub description : String
  pub task_type : String
  pub rsync : RsyncOptions
  pub syncoid : SyncoidOptions
  pub notify_matrix : Bool
  pub notify_matrix_on_success : Bool
  pub kuma_enabled : Bool

-- `Field(default=None, ge=1)`
unfoldable pub positive_or_none : Option ℕ → Bool
positive_or_none none = true
positive_or_none (some n) = leb 1 n

-- The branch of `validate_destination` for rsync: nothing is written, and whatever the walk raises
-- becomes a `ValueError`.
unfoldable pub is_usable : Environment → String → Bool
is_usable env local_path =
    elim (walk_destination env.paths (canonical_roots env.paths env.dest_roots) env.disk local_path
      false).1 [ pinned inode ↦ true | missing ↦ true | refused error ↦ false ]

-- Whether `TaskIn` accepts the fields.
unfoldable pub accepts : Environment → TaskFields → Bool
unfolding positive_or_none is_usable
accepts env payload =
    positive_or_none payload.syncoid.prune_keep_hourly
    && (if payload.task_type == "syncoid"
        then is_some (validate_zfs_source payload.remote_path)
          && is_some
              (validate_zfs_destination (zfs_dest_roots_list env.zfs_dest_roots) payload.local_path)
        else is_usable env payload.local_path)

-- `setattr` of all fields.
unfoldable pub fill : Task → TaskFields → Task
fill t payload = record t {
  name = payload.name;
  source_id = payload.source_id;
  remote_path = payload.remote_path;
  local_path = payload.local_path;
  cron = payload.cron;
  enabled = payload.enabled;
  description = payload.description;
  task_type = payload.task_type;
  rsync = payload.rsync;
  syncoid = payload.syncoid;
  notify_matrix = payload.notify_matrix;
  notify_matrix_on_success = payload.notify_matrix_on_success;
  kuma_enabled = payload.kuma_enabled;
}

abbrev pub same_flag : Bool → Bool → Bool
same_flag true b = b
same_flag false b = not b

abbrev pub same_number : Option ℕ → Option ℕ → Bool
same_number none none = true
same_number (some m) (some n) = m == n
same_number _ _ = false

-- The fields outside `ACTIVE_RUN_SAFE_FIELDS`, in alphabetical order, each with whether its value stays.
unfoldable pub locked_fields : Task → TaskFields → List (String × Bool)
locked_fields t payload =
    let r = t.rsync in
    let r' = payload.rsync in
    let z = t.syncoid in
    let z' = payload.syncoid in
    ("archive", same_flag r.archive r'.archive)
    ∷ ("aux_args", r.aux_args == r'.aux_args)
    ∷ ("bwlimit_kbps", same_number r.bwlimit_kbps r'.bwlimit_kbps)
    ∷ ("compress", same_flag r.compress r'.compress)
    ∷ ("delay_updates", same_flag r.delay_updates r'.delay_updates)
    ∷ ("delete", same_flag r.delete r'.delete)
    ∷ ("exclude_patterns", r.exclude_patterns == r'.exclude_patterns)
    ∷ ("local_path", t.local_path == payload.local_path)
    ∷ ("preserve_permissions", same_flag r.preserve_permissions r'.preserve_permissions)
    ∷ ("preserve_xattrs", same_flag r.preserve_xattrs r'.preserve_xattrs)
    ∷ ("prune_keep_hourly", same_number z.prune_keep_hourly z'.prune_keep_hourly)
    ∷ ("quiet", same_flag r.quiet r'.quiet)
    ∷ ("recursive", same_flag r.recursive r'.recursive)
    ∷ ("remote_path", t.remote_path == payload.remote_path)
    ∷ ("source_id", t.source_id == payload.source_id)
    ∷ ("syncoid_compress", z.syncoid_compress == z'.syncoid_compress)
    ∷ ("syncoid_extra_args", z.syncoid_extra_args == z'.syncoid_extra_args)
    ∷ ("syncoid_force_full", same_flag z.syncoid_force_full z'.syncoid_force_full)
    ∷ ("syncoid_no_sync_snap", same_flag z.syncoid_no_sync_snap z'.syncoid_no_sync_snap)
    ∷ ("syncoid_recursive", same_flag z.syncoid_recursive z'.syncoid_recursive)
    ∷ ("task_type", t.task_type == payload.task_type)
    ∷ ("times", same_flag r.times r'.times)
    ∷ ("use_sudo", same_flag r.use_sudo r'.use_sudo)
    ∷ []

unfoldable pub names_of_changed : List (String × Bool) → List String
names_of_changed [] = []
names_of_changed ((name, same) ∷ fields) =
    let rest = names_of_changed fields in if same then rest else name ∷ rest

-- `_unsafe_active_changes`
unfoldable pub unsafe_active_changes : Task → TaskFields → List String
unfolding locked_fields names_of_changed
unsafe_active_changes t payload = names_of_changed (locked_fields t payload)
