-- ===== src/Commands/Examples.antt =====
-- The theorems on command lines at concrete inputs.
use pullbackup.Base.{[], ◌∷◌, ◌++◌, refl, List, String}
use pullbackup.Base.Text.{starts_with}
use pullbackup.Base.Words.{split_on, split_by, text_length}
use pullbackup.Names.{
  is_user, is_host, is_dataset, is_host_label, is_dataset_component, validate_ssh_user,
  validate_ssh_host, validate_zfs_source, validate_zfs_destination, find_zfs_root,
}
use pullbackup.Samples.{replica, vault}
use pullbackup.Commands.{build_syncoid_args, syncoid_flags}
use pullbackup.Commands.Boundary.{IsSound, build_syncoid_args-IsSound}

abbrev replica_args : List String
replica_args =
    "syncoid"
    ∷ (syncoid_flags "/data" replica.syncoid vault ++ "backup@vault:pool/app" ∷ "tank/app" ∷ [])

build_syncoid_args-IsSound_example : IsSound "/data" ("tank" ∷ []) replica vault replica_args
unfolding build_syncoid_args validate_ssh_user validate_ssh_host validate_zfs_source
    validate_zfs_destination find_zfs_root is_user is_host is_dataset is_host_label
    is_dataset_component split_on split_by text_length starts_with
build_syncoid_args-IsSound_example =
    build_syncoid_args-IsSound "/data" ("tank" ∷ []) replica vault replica_args refl
