-- ===== src/Api/Locked.antt =====
-- What an edit that the handlers of api/tasks.py accept during a run leaves as it was.
pub mod Edit
use pullbackup.Base.{
  ℕ, ◌≡◌, refl, ap, sym, ◌∙◌, subst, String, Bool, true, false, List, [], ◌∷◌, Option, none, some,
  ◌==◌, nat_comparable, text_comparable, if◌then◌else◌, All, arith,
}
use pullbackup.Models.{RsyncOptions, SyncoidOptions, Source, Task}
use pullbackup.Commands.{build_rsync_args, build_syncoid_args}
use pullbackup.Api.Payload.{
  TaskFields, fill, same_flag, same_number, locked_fields, names_of_changed, unsafe_active_changes,
}

none_changed :
    (fields : List (String × Bool))
    → names_of_changed fields ≡ []
    → All (λ (f : String × Bool). f.1 ≡ true) fields
unfolding names_of_changed
none_changed [] h = tt
none_changed ((name, true) ∷ fields) h = (refl, none_changed fields h)
none_changed ((name, false) ∷ fields) h = cc

flag : (a b : Bool) → same_flag a b ≡ true → b ≡ a
flag true b h = h
flag false true h = sym h
flag false false h = refl

number : (a b : Option ℕ) → same_number a b ≡ true → b ≡ a
number none none h = refl
number none (some n) h = cc
number (some m) none h = cc
number (some m) (some n) h = ap some (sym ((nat_comparable.same_iff m n).0 h))

text : (a b : String) → (a == b) ≡ true → b ≡ a
text a b h = sym ((text_comparable.same_iff a b).0 h)

same_rsync :
    (r r' : RsyncOptions)
    → r'.archive ≡ r.archive
    → r'.recursive ≡ r.recursive
    → r'.times ≡ r.times
    → r'.compress ≡ r.compress
    → r'.delete ≡ r.delete
    → r'.quiet ≡ r.quiet
    → r'.preserve_permissions ≡ r.preserve_permissions
    → r'.preserve_xattrs ≡ r.preserve_xattrs
    → r'.delay_updates ≡ r.delay_updates
    → r'.use_sudo ≡ r.use_sudo
    → r'.bwlimit_kbps ≡ r.bwlimit_kbps
    → r'.exclude_patterns ≡ r.exclude_patterns
    → r'.aux_args ≡ r.aux_args
    → r' ≡ r
same_rsync r r' a b c d e f g h k l m n o = λ i. record {
  archive = a i;
  recursive = b i;
  times = c i;
  compress = d i;
  delete = e i;
  quiet = f i;
  preserve_permissions = g i;
  preserve_xattrs = h i;
  delay_updates = k i;
  use_sudo = l i;
  bwlimit_kbps = m i;
  exclude_patterns = n i;
  aux_args = o i;
}

same_syncoid :
    (z z' : SyncoidOptions)
    → z'.syncoid_recursive ≡ z.syncoid_recursive
    → z'.syncoid_no_sync_snap ≡ z.syncoid_no_sync_snap
    → z'.syncoid_compress ≡ z.syncoid_compress
    → z'.syncoid_extra_args ≡ z.syncoid_extra_args
    → z'.syncoid_force_full ≡ z.syncoid_force_full
    → z'.prune_keep_hourly ≡ z.prune_keep_hourly
    → z' ≡ z
same_syncoid z z' a b c d e f = λ i. record {
  syncoid_recursive = a i;
  syncoid_no_sync_snap = b i;
  syncoid_compress = c i;
  syncoid_extra_args = d i;
  syncoid_force_full = e i;
  prune_keep_hourly = f i;
}

-- What a run is made from, besides its source.
pub record SameRun (t t' : Task) : Type 0 where
  pub id : t'.id ≡ t.id
  pub source_id : t'.source_id ≡ t.source_id
  pub remote_path : t'.remote_path ≡ t.remote_path
  pub local_path : t'.local_path ≡ t.local_path
  pub task_type : t'.task_type ≡ t.task_type
  pub rsync : t'.rsync ≡ t.rsync
  pub syncoid : t'.syncoid ≡ t.syncoid

pub fill-SameRun :
    (t : Task) (payload : TaskFields)
    → unsafe_active_changes t payload ≡ []
    → SameRun t (fill t payload)
unfolding unsafe_active_changes locked_fields fill
fill-SameRun t payload h =
    let r = t.rsync in
    let r' = payload.rsync in
    let z = t.syncoid in
    let z' = payload.syncoid in
    let (
      archive,
      (
        aux,
        (
          bwlimit,
          (
            compress,
            (
              delay,
              (
                delete,
                (
                  exclude,
                  (
                    local,
                    (
                      permissions,
                      (
                        xattrs,
                        (
                          prune,
                          (
                            quiet,
                            (
                              recursive,
                              (
                                remote,
                                (
                                  source,
                                  (
                                    z_compress,
                                    (
                                      z_extra,
                                      (
                                        z_force,
                                        (z_snap, (z_recursive, (kind, (times, (sudo, done))))),
                                      ),
                                    ),
                                  ),
                                ),
                              ),
                            ),
                          ),
                        ),
                      ),
                    ),
                  ),
                ),
              ),
            ),
          ),
        ),
      ),
    ) =
      none_changed (locked_fields t payload) h in
    record {
      id = refl;
      source_id = sym ((nat_comparable.same_iff t.source_id payload.source_id).0 source);
      remote_path = text t.remote_path payload.remote_path remote;
      local_path = text t.local_path payload.local_path local;
      task_type = text t.task_type payload.task_type kind;
      rsync =
          same_rsync r r' (flag r.archive r'.archive archive)
            (flag r.recursive r'.recursive recursive) (flag r.times r'.times times)
            (flag r.compress r'.compress compress) (flag r.delete r'.delete delete)
            (flag r.quiet r'.quiet quiet)
            (flag r.preserve_permissions r'.preserve_permissions permissions)
            (flag r.preserve_xattrs r'.preserve_xattrs xattrs)
            (flag r.delay_updates r'.delay_updates delay) (flag r.use_sudo r'.use_sudo sudo)
            (number r.bwlimit_kbps r'.bwlimit_kbps bwlimit)
            (text r.exclude_patterns r'.exclude_patterns exclude) (text r.aux_args r'.aux_args aux);
      syncoid =
          same_syncoid z z' (flag z.syncoid_recursive z'.syncoid_recursive z_recursive)
            (flag z.syncoid_no_sync_snap z'.syncoid_no_sync_snap z_snap)
            (text z.syncoid_compress z'.syncoid_compress z_compress)
            (text z.syncoid_extra_args z'.syncoid_extra_args z_extra)
            (flag z.syncoid_force_full z'.syncoid_force_full z_force)
            (number z.prune_keep_hourly z'.prune_keep_hourly prune);
    }
