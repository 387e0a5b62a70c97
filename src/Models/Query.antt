-- ===== src/Models/Query.antt =====
-- The queries that the services make with `where`, `order_by` and `first`.
use pullbackup.Base.{ℕ, Bool, true, false, List, [], ◌∷◌, Option, none, some, leb, if◌then◌else◌}
use pullbackup.Models.Tables.{RunState}

module _ {ℓ} {A : Type ℓ} (key : A → ℕ) where
  -- `.order_by(key).first()`, and `.order_by(key.desc()).first()`.
  unfoldable pub earliest : List A → Option A
  earliest [] = none
  earliest (x ∷ xs) = elim (earliest xs) [
    | none ↦ some x
    | some y ↦ if leb (key x) (key y) then some x else some y
  ]

  unfoldable pub latest : List A → Option A
  latest [] = none
  latest (x ∷ xs) = elim (latest xs) [
    | none ↦ some x
    | some y ↦ if leb (key y) (key x) then some x else some y
  ]

-- `state in (RunState.pending, RunState.running)`
abbrev pub is_active : RunState → Bool
is_active RunState.pending = true
is_active RunState.running = true
is_active _ = false

abbrev pub is_success : RunState → Bool
is_success RunState.success = true
is_success _ = false
