-- ===== src/Auth/Store/Examples.antt =====
-- The refinement of the store of http_auth.py on a store of two entries, which evicts.
use pullbackup.Base.{ℕ, Bool, true, false, List, [], ◌∷◌, none, text_comparable, arith}
use pullbackup.Auth.Store.{Config, empty, Call, sets, mutates, gets, pops, lists, counts, clears}
use pullbackup.Auth.Store.Memory.{Allows, unwritten}
use pullbackup.Auth.Store.Spec.{answers-Allows}

abbrev two : Config Bool
two = record { max_entries = 2; ttl = 100; protect = none; warn_on_live_eviction = false }

-- The third write evicts the first.
abbrev client : List (Call Bool × ℕ × ℕ)
client =
    (sets "a" true, 1, 1)
    ∷ (sets "b" true, 2, 2)
    ∷ (mutates "c" (λ _. false), 3, 3)
    ∷ (gets "a", 4, 4)
    ∷ (pops "b", 5, 5)
    ∷ (lists, 6, 6)
    ∷ (counts, 103, 103)
    ∷ (gets "c", 104, 104)
    ∷ (clears, 105, 105)
    ∷ []

answers-Allows_example : Allows two client empty unwritten
answers-Allows_example = answers-Allows two client (omega arith) (
  omega arith,
  (
    omega arith,
    (
      omega arith,
      (omega arith, (omega arith, (omega arith, (omega arith, (omega arith, (omega arith, tt)))))),
    ),
  ),
)
