-- ===== src/Prune/Deadline.antt =====
-- The one deadline of a run in services/runner.py, which the transfer and the prune share.
use pullbackup.Base.{
  ℕ, ◌+◌, ◌-◌, ◌≤◌, ◌≡◌, ◌≢◌, refl, String, not, ◌&&◌, List, [], ◌∷◌, Option, none, some, ltb, ◌==◌,
  nat_comparable, text_comparable, if_cases, Option-cases, arith, inl, inr,
}
use pullbackup.Models.{Instant, seconds, ℤ, Task}
use pullbackup.Names.{validate_zfs_destination}
use pullbackup.Lifecycle.{exited, was_cancelled, timed_out, is_zero}
use pullbackup.Prune.{
  run_deadline, Course, ends, interrupted, hangs, Process, term_seconds, terminate, wait_course,
  Waited, result, late, stopped, forever, wait_bounded, Zfs, Stop, complete, overdue, broken,
  cancelled, endless, Pruned, after_destroy, destroy_all, prune_listed, prune_zfs_hourly, Left,
  stores, escapes, never, await_transfer, after_prune, prune_kept, then_prune, run_processes,
}

-- A subprocess whose group is reaped at most so long after SIGKILL.
abbrev pub Reaped : {A : Type 0} → ℕ → Process A → Type 0
Reaped k p = (lasts : ℕ) × (p.dies_after ≡ some lasts) × (lasts ≤ k)

-- How far behind its deadline a subprocess may be left: SIGTERM is given five seconds, and SIGKILL the
-- time that a group takes to be reaped.
abbrev pub cleanup_bound : ℕ → ℕ
cleanup_bound k = seconds term_seconds + k

module _ {A : Type 0} (k : ℕ) where
  terminate-Ends :
      (p : Process A)
      → Reaped k p
      → (lasts : ℕ) × (terminate p ≡ some lasts) × (lasts ≤ cleanup_bound k)
  unfolding terminate
  terminate-Ends p (dies, reaped, le) = elim (Option-cases p.stops_after) [
    | inl outlives ↦
        rw (outlives, reaped, terminate) (seconds term_seconds + dies, refl, omega arith)
    | inr (stops, ended) ↦
        rw (ended, reaped, terminate)
          (if_cases (λ o. (lasts : ℕ) × (o ≡ some lasts) × (lasts ≤ cleanup_bound k))
            (ltb stops (seconds term_seconds)) (λ h. (stops, refl, ground arith))
            (λ _. (seconds term_seconds + dies, refl, omega arith)))
  ]

  -- A result is there at the deadline at the latest, and an exception is raised behind the cleanup.
  abbrev pub InTime : Instant → Waited A → Type 0
  InTime deadline (result a later) = later ≤ deadline
  InTime deadline (late later) = later ≤ deadline + cleanup_bound k
  InTime deadline (stopped later) = later ≤ deadline + cleanup_bound k
  InTime deadline forever = ⊥

  wait_course-InTime :
      (lasts : ℕ) (c : Course A) (deadline now : Instant)
      → now ≤ deadline
      → lasts ≤ cleanup_bound k
      → InTime deadline (wait_course (some lasts) c (some deadline) now)
  unfolding wait_course
  wait_course-InTime cleanup (ends lasts a) deadline now le short =
      if_cases (InTime deadline) (ltb lasts (deadline - now)) (λ h. ground arith) (λ _. omega arith)
  wait_course-InTime cleanup (interrupted lasts) deadline now le short =
      if_cases (InTime deadline) (ltb lasts (deadline - now)) (λ h. ground arith) (λ _. omega arith)
  wait_course-InTime cleanup hangs deadline now le short = omega arith

  wait_bounded-InTime :
      (process : Process A) (deadline now : Instant)
      → now ≤ deadline
      → Reaped k process
      → InTime deadline (wait_bounded process (some deadline) now)
  unfolding wait_bounded
  wait_bounded-InTime process deadline now le reaped =
      let (lasts, same, short) = terminate-Ends process reaped in
      rw (same, wait_bounded) (wait_course-InTime lasts process.course deadline now le short)

abbrev pub PrunedInTime : Instant → Pruned → Type 0
PrunedInTime deadline p = (p.at ≤ deadline) × (p.stop ≢ endless)

after_destroy-InTime :
    (k : ℕ) (deadline : Instant) (s : String) (go_on : Instant → Pruned)
    → ((later : Instant)
        → later ≤ deadline
        → PrunedInTime (deadline + cleanup_bound k) (go_on later))
    → (w : Waited (ℤ × String)) (now : Instant) → InTime k deadline w
    → PrunedInTime (deadline + cleanup_bound k) (after_destroy s go_on w now)
unfolding after_destroy
after_destroy-InTime k deadline s go_on ih (result (code, output) later) now h = ih later h
after_destroy-InTime k deadline s go_on ih (late later) now h = (h, λ e. cc)
after_destroy-InTime k deadline s go_on ih (stopped later) now h = (h, λ e. cc)
after_destroy-InTime k deadline s go_on ih forever now h = absurd h

-- Each subprocess of a prune is reaped so fast.
abbrev pub EachReaped : ℕ → Zfs → Type 0
EachReaped k zfs =
    ((s : String) (now : Instant) (p : Process String) → zfs.list s now ≡ some p → Reaped k p)
    × ((s : String) (now : Instant) (p : Process (ℤ × String))
        → zfs.destroy s now ≡ some p
        → Reaped k p)

module _ (k : ℕ) (zfs : Zfs) (each : EachReaped k zfs) where
  abbrev behind : Instant → Instant
  behind deadline = deadline + cleanup_bound k

  destroy_all-InTime :
      (deadline : Instant) (snaps : List String) (now : Instant)
      → now ≤ deadline
      → PrunedInTime (behind deadline) (destroy_all zfs (some deadline) snaps now)
  unfolding destroy_all
  destroy_all-InTime deadline [] now le = (omega arith, λ h. cc)
  destroy_all-InTime deadline (s ∷ snaps) now le = elim (Option-cases (zfs.destroy s now)) [
    | inl absent ↦ rw (absent, destroy_all) (omega arith, λ h. cc)
    | inr (process, started) ↦
        rw (started, destroy_all)
          (after_destroy-InTime k deadline s _
            (λ later h. destroy_all-InTime deadline snaps later h)
            (wait_bounded process (some deadline) now) now
            (wait_bounded-InTime k process deadline now le (each.1 s now process started)))
  ]

  listed-InTime :
      (dataset : String) (retention : ℕ) (deadline now : Instant) (w : Waited String)
      → InTime k deadline w
      → PrunedInTime (behind deadline) (prune_listed zfs dataset retention (some deadline) now w)
  unfolding prune_listed
  listed-InTime dataset retention deadline now (result output later) h =
      destroy_all-InTime deadline _ later h
  listed-InTime dataset retention deadline now (late later) h = (h, λ e. cc)
  listed-InTime dataset retention deadline now (stopped later) h = (h, λ e. cc)
  listed-InTime dataset retention deadline now forever h = absurd h

  prune_zfs_hourly-InTime :
      (roots : List String) (name : String) (retention : ℕ) (deadline now : Instant)
      → now ≤ deadline
      → PrunedInTime
          (behind deadline)
          (prune_zfs_hourly roots zfs name retention (some deadline) now)
  unfolding prune_zfs_hourly
  prune_zfs_hourly-InTime roots name retention deadline now le =
      if_cases (PrunedInTime (behind deadline)) (ltb retention 1) (λ _. (omega arith, λ h. cc))
        (λ _. elim (Option-cases (validate_zfs_destination roots name)) [
          | inl bad ↦ rw (bad, prune_zfs_hourly) (omega arith, λ h. cc)
          | inr (dataset, good) ↦ elim (Option-cases (zfs.list dataset now)) [
            | inl absent ↦ rw (good, absent, prune_zfs_hourly) (omega arith, λ h. cc)
            | inr (process, started) ↦
                rw (good, started, prune_zfs_hourly)
                  (listed-InTime dataset retention deadline now _ (
                    wait_bounded-InTime k process deadline now le
                      (each.0 dataset now process started)))
          ]
        ])

-- The subprocesses of a run are left at an instant at the latest.
abbrev pub LeftInTime : Instant → Left → Type 0
LeftInTime deadline (stores ended later) = later ≤ deadline
LeftInTime deadline (escapes later) = later ≤ deadline
LeftInTime deadline never = ⊥

after_prune-InTime :
    (deadline : Instant) (p : Pruned) (timeout : ℕ)
    → PrunedInTime deadline p
    → LeftInTime deadline (after_prune p timeout)
after_prune-InTime deadline p timeout (le, ended) = by_stop p.stop ended
  where
    by_stop :
        (stop : Stop)
        → (stop ≢ endless)
        → LeftInTime deadline (after_prune (record p { stop = stop }) timeout)
    by_stop complete e = le
    by_stop overdue e = le
    by_stop broken e = le
    by_stop cancelled e = le
    by_stop endless e = absurd (e refl)

-- An exit code is there at the deadline at the latest.
abbrev LeftBounded : ℕ → Instant → Left → Type 0
LeftBounded k deadline (stores (exited code) later) = later ≤ deadline
LeftBounded k deadline (stores was_cancelled later) = later ≤ deadline + cleanup_bound k
LeftBounded k deadline (stores (timed_out limit) later) = later ≤ deadline + cleanup_bound k
LeftBounded k deadline (escapes later) = later ≤ deadline + cleanup_bound k
LeftBounded k deadline never = ⊥

transfer-Bounded :
    (k : ℕ) (transfer : Option (Process ℤ)) (timeout : ℕ) (deadline now : Instant)
    → now ≤ deadline
    → ((p : Process ℤ) → transfer ≡ some p → Reaped k p)
    → LeftBounded k deadline (await_transfer transfer (some deadline) timeout now)
unfolding await_transfer
transfer-Bounded k none timeout deadline now le reaped = le
transfer-Bounded k (some process) timeout deadline now le reaped =
    waited (wait_bounded process (some deadline) now)
      (wait_bounded-InTime k process deadline now le (reaped process refl))
  where
    waited :
        (w : Waited ℤ)
        → InTime k deadline w
        → LeftBounded k deadline (elim w [
          | result code later ↦ stores (exited code) later
          | late later ↦ stores (timed_out timeout) later
          | stopped later ↦ stores was_cancelled later
          | forever ↦ never
        ])
    waited (result code later) h = h
    waited (late later) h = h
    waited (stopped later) h = h
    waited forever h = absurd h

then_prune-InTime :
    (k : ℕ) (roots : List String) (zfs : Zfs) (task : Task) (timeout : ℕ) (deadline : Instant)
    (left : Left)
    → EachReaped k zfs
    → LeftBounded k deadline left
    → LeftInTime
        (deadline + cleanup_bound k)
        (then_prune roots zfs task timeout (some deadline) left)
unfolding then_prune
then_prune-InTime k roots zfs task timeout deadline (stores (exited code) later) each h =
    if_cases (LeftInTime (deadline + cleanup_bound k)) (is_zero code && not (prune_kept task == 0))
      (λ _.
        after_prune-InTime (deadline + cleanup_bound k)
          (prune_zfs_hourly roots zfs task.local_path (prune_kept task) (some deadline) later)
          timeout
          (prune_zfs_hourly-InTime k zfs each roots task.local_path (prune_kept task) deadline later
            h))
      (λ _. omega arith)
then_prune-InTime k roots zfs task timeout deadline (stores was_cancelled later) each h = h
then_prune-InTime k roots zfs task timeout deadline (stores (timed_out limit) later) each h = h
then_prune-InTime k roots zfs task timeout deadline (escapes later) each h = h
then_prune-InTime k roots zfs task timeout deadline never each h = absurd h

-- With a timeout, the subprocesses of a run end: whatever the transfer, the listing and each destruction
-- do, hang and outlive SIGTERM included, and however many snapshots there are, if each of their groups
-- is reaped within some time of SIGKILL, then the run has an outcome to store, or a cancellation leaves
-- it, no later than one timeout, the five seconds of SIGTERM and that time after its start.
pub run_processes-Ends :
    (roots : List String) (zfs : Zfs) (task : Task) (transfer : Option (Process ℤ)) (timeout : ℕ)
    (now : Instant) (k : ℕ)
    → 1 ≤ timeout
    → ((p : Process ℤ) → transfer ≡ some p → Reaped k p)
    → EachReaped k zfs
    → LeftInTime
        (now + seconds timeout + (seconds term_seconds + k))
        (run_processes roots zfs task transfer timeout now)
unfolding run_processes run_deadline
run_processes-Ends roots zfs task transfer timeout now k set reaped each =
    if_cases
      (λ d.
        LeftInTime (now + seconds timeout + (seconds term_seconds + k))
          (then_prune roots zfs task timeout d (await_transfer transfer d timeout now)))
      (timeout == 0) (λ zero_timeout. absurd (ground arith))
      (λ _.
        then_prune-InTime k roots zfs task timeout (now + seconds timeout) _ each
          (transfer-Bounded k transfer timeout (now + seconds timeout) now (omega arith) reaped))
