-- ===== src/Prune/Examples.antt =====
-- The theorems on the prune of services/runner.py at concrete inputs, and tests.
use pullbackup.Base.{
  ◌+◌, ◌≡◌, refl, if◌then◌else◌, ◌==◌, [], ◌∷◌, Option, none, some, arith, text_comparable,
  nat_comparable,
}
use pullbackup.Base.Text.{starts_with}
use pullbackup.Base.Words.{split_by, is_line_break, split_on, strip}
use pullbackup.Models.{seconds, ℤ, pos, Task}
use pullbackup.Names.{validate_zfs_destination, find_zfs_root, is_dataset, is_dataset_component}
use pullbackup.Samples.{replica}
use pullbackup.Lifecycle.{timed_out}
use pullbackup.Prune.{
  Course, ends, hangs, Process, Zfs, after_destroy, complete, destroy_all, hourly_snaps,
  prune_listed, wait_bounded, prune_zfs_hourly, stores, await_transfer, then_prune, run_deadline,
  run_processes,
}
use pullbackup.Prune.Deadline.{Reaped, LeftInTime, run_processes-Ends}

-- A subprocess that SIGTERM ends at once, and one that outlives it and is reaped a second after SIGKILL.
abbrev tame : {A : Type 0} → Course A → Process A
tame c = record { course = c; stops_after = some 0; dies_after = some 0 }

abbrev stubborn : {A : Type 0} → Course A → Process A
stubborn c = record { course = c; stops_after = none; dies_after = some (seconds 1) }

-- Three hourly snapshots, with one of a child and a daily one between them. Each call takes a second,
-- and the destruction of the first fails.
abbrev pool : Zfs
pool = record {
  list = λ _ _. some (
      tame (
        ends (seconds 1)
          "tank/app@zfs-auto-snap_hourly-1\ntank/app/db@zfs-auto-snap_hourly-1\ntank/app@zfs-auto-snap_daily-1\ntank/app@zfs-auto-snap_hourly-2\ntank/app@zfs-auto-snap_hourly-3\n"));
  destroy = λ s _. some (
      tame (
        ends (seconds 1) (
          if s == "tank/app@zfs-auto-snap_hourly-1"
          then (pos 1, "dataset is busy\n")
          else (pos 0, ""))));
}

-- A pool that is suspended: a destruction never returns, and outlives SIGTERM.
abbrev suspended : Zfs
suspended = record pool { destroy = λ _ _. some (stubborn hangs) }

abbrev pruned_replica : Task
pruned_replica = record replica { syncoid = record replica.syncoid { prune_keep_hourly = some 1 } }

abbrev minute_transfer : Option (Process ℤ)
minute_transfer = some (tame (ends (seconds 60) (pos 0)))

oldest_go : prune_zfs_hourly ("tank" ∷ []) pool "tank/app" 1 (some (seconds 60)) 0 ≡ record {
  asked = "tank/app@zfs-auto-snap_hourly-1" ∷ "tank/app@zfs-auto-snap_hourly-2" ∷ [];
  log =
      ("tank/app@zfs-auto-snap_hourly-1", pos 1, "dataset is busy")
      ∷ ("tank/app@zfs-auto-snap_hourly-2", pos 0, "")
      ∷ [];
  stop = complete;
  at = seconds 3;
}
unfolding prune_zfs_hourly prune_listed destroy_all hourly_snaps wait_bounded split_by is_line_break
    starts_with validate_zfs_destination find_zfs_root is_dataset is_dataset_component split_on
    after_destroy strip
oldest_go = refl

-- The transfer of a minute succeeds, and the run fails at its timeout since the prune hangs; the
-- cleanup takes six seconds more.
hung_prune :
    run_processes ("tank" ∷ []) suspended pruned_replica minute_transfer 300 0
    ≡ stores (timed_out 300) (seconds 306)
unfolding run_processes await_transfer then_prune run_deadline prune_zfs_hourly prune_listed
    destroy_all hourly_snaps wait_bounded split_by is_line_break starts_with
    validate_zfs_destination find_zfs_root is_dataset is_dataset_component split_on after_destroy
hung_prune = refl

tame-Reaped :
    {A : Type 0} (c : Course A) (p : Process A) → some (tame c) ≡ some p → Reaped (seconds 1) p
tame-Reaped c p same = (0, cc, omega arith)

stubborn-Reaped :
    {A : Type 0} (c : Course A) (p : Process A) → some (stubborn c) ≡ some p → Reaped (seconds 1) p
stubborn-Reaped c p same = (seconds 1, cc, omega arith)

run_processes-Ends_example :
    LeftInTime
      (5 + seconds 300 + (seconds 5 + seconds 1))
      (run_processes ("tank" ∷ []) suspended pruned_replica minute_transfer 300 5)
run_processes-Ends_example =
    run_processes-Ends ("tank" ∷ []) suspended pruned_replica minute_transfer 300 5 (seconds 1)
      (omega arith) (λ p same. tame-Reaped _ p same)
      (λ s now p same. tame-Reaped _ p same, λ s now p same. stubborn-Reaped _ p same)
