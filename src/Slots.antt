-- ===== src/Slots.antt =====
-- backend/pullbackup/services/runner.py: what an execution waits for, in the order of `_execute_run`. A
-- claim is one run on its way: it enters `_destination_exclusion`, then takes a permit of the global
-- semaphore, then the lock of its source. `_active_destinations`, the permits taken and the locks held
-- are read off the phases of the claims. An event is one step of the event loop; which of several runs
-- that wait goes first is left open.
pub mod Apart
pub mod Exclusive
pub mod Progress
mod Examples
use pullbackup.Base.{
  ℕ, ◌+◌, Bool, true, false, not, ◌&&◌, ◌||◌, List, [], ◌∷◌, Option, none, some, any, ltb, ◌==◌,
  nat_comparable, if◌then◌else◌, keep, length,
}
use pullbackup.Destination.{Parts}
use pullbackup.Destination.Keys.{conflicts}

pub data Phase : Type 0 where
  waiting holding permitted executing : Phase

pub record Claim : Type 0 where
  pub run_id : ℕ
  pub key : Parts
  pub source_id : ℕ
  pub phase : Phase

-- The run stands in `_active_destinations`; has a permit; holds the lock of its source.
abbrev pub holds : Phase → Bool
holds waiting = false
holds _ = true

abbrev pub has_permit : Phase → Bool
has_permit waiting = false
has_permit holding = false
has_permit _ = true

abbrev pub is_executing : Phase → Bool
is_executing executing = true
is_executing _ = false

-- The predicate of `wait_for`, for one holder: a run other than this one with a conflicting destination.
abbrev pub blocks : Claim → Claim → Bool
blocks c d = holds d.phase && (not (d.run_id == c.run_id) && conflicts c.key d.key)

abbrev pub locks : Claim → Claim → Bool
locks c d = is_executing d.phase && d.source_id == c.source_id

abbrev pub permits : List Claim → ℕ
permits [] = 0
permits (c ∷ cs) = (if has_permit c.phase then 1 else 0) + permits cs

-- Whether a claim gets what it waits for next. One that executes waits for nothing.
unfoldable pub may_advance : ℕ → List Claim → Claim → Phase → Bool
may_advance limit cs c waiting = not (any (blocks c) cs)
may_advance limit cs c holding = ltb (permits cs) limit
may_advance limit cs c permitted = not (any (locks c) cs)
may_advance limit cs c executing = false

abbrev pub next : Phase → Phase
next waiting = holding
next holding = permitted
next permitted = executing
next executing = executing

abbrev pub find_claim : ℕ → List Claim → Option Claim
find_claim id [] = none
find_claim id (c ∷ cs) = if c.run_id == id then some c else find_claim id cs

abbrev pub put_claim : Claim → List Claim → List Claim
put_claim n [] = []
put_claim n (c ∷ cs) = if c.run_id == n.run_id then n ∷ cs else c ∷ put_claim n cs

-- A run that is executed already is not entered again (`execute_run`); a claim leaves at the end of its
-- run, or wherever a cancellation or an error meets it, and gives back what it has.
pub data Event : Type 0 where
  enters : ℕ → Parts → ℕ → Event
  advances leaves : ℕ → Event

unfoldable pub happen : ℕ → Event → List Claim → List Claim
unfolding may_advance
happen limit (enters id key source_id) cs =
    if any (λ (c : Claim). c.run_id == id) cs
    then cs
    else record { run_id = id; key = key; source_id = source_id; phase = waiting } ∷ cs
happen limit (advances id) cs = elim (find_claim id cs) [
  | none ↦ cs
  | some c ↦
      if may_advance limit cs c c.phase
      then put_claim (record c { phase = next c.phase }) cs
      else cs
]
happen limit (leaves id) cs = keep (λ (c : Claim). not (c.run_id == id)) cs

unfoldable pub happen_all : ℕ → List Event → List Claim → List Claim
unfolding happen
happen_all limit [] cs = cs
happen_all limit (e ∷ es) cs = happen_all limit es (happen limit e cs)
