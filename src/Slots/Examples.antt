-- ===== src/Slots/Examples.antt =====
-- The theorems on the waiting of runs in services/runner.py at concrete inputs, and tests.
use pullbackup.Base.{◌≡◌, refl, List, [], ◌∷◌, arith, text_comparable, nat_comparable}
use pullbackup.Destination.Keys.{conflicts, same_parts}
use pullbackup.Slots.{
  waiting, holding, executing, Claim, Event, enters, advances, may_advance, happen, happen_all,
}
use pullbackup.Slots.Exclusive.{IsExclusive, happen_all-IsExclusive}
use pullbackup.Slots.Progress.{Ready, may_advance-Ready}

-- Run 2 writes below the destination of run 1, and run 3 reads the source of run 1.
abbrev schedule : List Event
schedule =
    enters 1 ("zfs" ∷ "tank" ∷ "app" ∷ []) 7
    ∷ enters 2 ("zfs" ∷ "tank" ∷ "app" ∷ "db" ∷ []) 8
    ∷ enters 3 ("zfs" ∷ "tank" ∷ "mail" ∷ []) 7
    ∷ advances 1
    ∷ advances 2
    ∷ advances 1
    ∷ advances 1
    ∷ advances 3
    ∷ advances 3
    ∷ []

abbrev third : Claim
third = record { run_id = 3; key = "zfs" ∷ "tank" ∷ "mail" ∷ []; source_id = 7; phase = holding }

abbrev others : List Claim
others =
    record { run_id = 2; key = "zfs" ∷ "tank" ∷ "app" ∷ "db" ∷ []; source_id = 8; phase = waiting }
    ∷ record { run_id = 1; key = "zfs" ∷ "tank" ∷ "app" ∷ []; source_id = 7; phase = executing }
    ∷ []

-- With one permit, run 2 waits for its destination and run 3 for the permit.
both_wait : happen_all 1 schedule [] ≡ third ∷ others
unfolding happen_all happen may_advance conflicts same_parts
both_wait = refl

happen_all-IsExclusive_example : IsExclusive 1 (happen_all 1 schedule [])
happen_all-IsExclusive_example = happen_all-IsExclusive 1 schedule [] (tt, omega arith)

may_advance-Ready_example : Ready 1 (third ∷ others)
unfolding conflicts same_parts
may_advance-Ready_example =
    may_advance-Ready 1 third others (omega arith) ((refl, (refl, tt)), ((refl, tt), (tt, tt)))
