-- ===== src/Commands.antt =====
-- backend/pullbackup/services/runner.py: the command lines of a run, `build_rsync_args`,
-- `build_syncoid_args` and `validate_destination`. A text in an f-string is appended.
pub mod Boundary
mod Examples
use pullbackup.Base.{
  ℕ, String, Bool, true, false, not, ◌&&◌, List, [], ◌∷◌, ◌++◌, Option, none, some, ◌==◌,
  nat_comparable, text_comparable, if◌then◌else◌, ◌>>=◌, is_some,
}
use pullbackup.Base.Text.{◌+s◌}
use pullbackup.Base.Words.{words, stripped_lines, decimal}
use pullbackup.Models.{Source, RsyncOptions, SyncoidOptions, Task}
use pullbackup.Names.{
  validate_ssh_user, validate_ssh_host, validate_zfs_source, validate_zfs_destination,
}
use pullbackup.Destination.{Paths, Parts, Disk, Walked, pinned, missing, refused, walk_destination}
use mathlib.Core.List.{map}

-- An argument that is there if a flag is set.
abbrev pub given : Bool → String → List String
given flag argument = if flag then argument ∷ [] else []

-- `if value:` on a number that may be missing.
unfoldable pub given_number : Option ℕ → String → List String
given_number none prefix = []
given_number (some n) prefix = given (not (n == 0)) (prefix +s decimal n)

-- The flags of `build_rsync_args` that stand before the ssh command.
unfoldable pub rsync_flags : RsyncOptions → List String
unfolding given_number words stripped_lines
rsync_flags o =
    (if o.archive
      then "-a" ∷ []
      else given o.recursive "-r" ++ given o.times "-t" ++ given o.preserve_permissions "-p")
    ++ given o.compress "-z"
    ++ given o.preserve_xattrs "-X"
    ++ given o.delete "--delete"
    ++ (if o.quiet then "-q" ∷ [] else "--info=stats2,progress2" ∷ [])
    ++ given o.delay_updates "--delay-updates"
    ++ given_number o.bwlimit_kbps "--bwlimit="
    ++ map (λ line. "--exclude=" +s line) (stripped_lines o.exclude_patterns)
    ++ given o.use_sudo "--rsync-path=sudo /usr/bin/rsync"
    ++ words o.aux_args

unfoldable pub ssh_command : Source → String
ssh_command source =
    "ssh -i "
    +s source.ssh_key_path
    +s " -p "
    +s decimal source.port
    +s " -o StrictHostKeyChecking=accept-new -o BatchMode=yes -o ServerAliveInterval=30"

-- The two operands of rsync: the remote path, and the directory by its open descriptor.
unfoldable pub rsync_operands : Task → Source → ℕ → List String
rsync_operands task source fileno =
    (source.user +s "@" +s source.host +s ":" +s task.remote_path)
    ∷ ("/proc/self/fd/" +s decimal fileno +s "/")
    ∷ []

unfoldable pub build_rsync_args : Task → Source → ℕ → List String
unfolding rsync_flags ssh_command
build_rsync_args task source fileno =
    "rsync"
    ∷ (rsync_flags task.rsync ++ "-e" ∷ ssh_command source ∷ rsync_operands task source fileno)

-- The flags of `build_syncoid_args`.
unfoldable pub syncoid_flags : String → SyncoidOptions → Source → List String
unfolding words
syncoid_flags data_dir o source =
    given o.syncoid_recursive "--recursive"
    ++ given o.syncoid_no_sync_snap "--no-sync-snap"
    ++ given (not (o.syncoid_compress == "") && not (o.syncoid_compress == "none"))
        ("--compress=" +s o.syncoid_compress)
    ++ given o.syncoid_force_full "--force-delete"
    ++ ("--sshkey=" +s source.ssh_key_path)
      ∷ given (not (source.port == 0) && not (source.port == 22))
          ("--sshport=" +s decimal source.port)
    ++ "--sshoption=StrictHostKeyChecking=accept-new"
      ∷ ("--sshoption=UserKnownHostsFile=" +s data_dir +s "/known_hosts")
      ∷ "--sshoption=BatchMode=yes"
      ∷ "--sshoption=ServerAliveInterval=30"
      ∷ words o.syncoid_extra_args

-- `build_syncoid_args`; `none` where a validator raises.
unfoldable pub build_syncoid_args : String → List String → Task → Source → Option (List String)
unfolding syncoid_flags
build_syncoid_args data_dir zfs_roots task source = do
  user ← validate_ssh_user source.user
  host ← validate_ssh_host source.host
  remote_dataset ← validate_zfs_source task.remote_path
  destination ← validate_zfs_destination zfs_roots task.local_path
  some (
      "syncoid"
      ∷ (syncoid_flags data_dir task.syncoid source
          ++ (user +s "@" +s host +s ":" +s remote_dataset) ∷ destination ∷ []))

-- `validate_destination`: whether it passes, given the state of the disk.
unfoldable pub validate_destination :
    String → List String → Paths → List Parts → Disk → Task → Source → Bool
validate_destination data_dir zfs_roots paths roots disk task source =
    if task.task_type == "syncoid"
    then is_some (build_syncoid_args data_dir zfs_roots task source)
    else elim (walk_destination paths roots disk task.local_path false).1 [
      | pinned inode ↦ true
      | missing ↦ true
      | refused error ↦ false
    ]
