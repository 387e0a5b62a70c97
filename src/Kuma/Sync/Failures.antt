-- ===== src/Kuma/Sync/Failures.antt =====
-- `failures` of backend/pullbackup/services/kuma_sync.py: what the operator is shown.
use pullbackup.Base.{
  ℕ, String, Bool, true, false, not, ◌&&◌, ◌||◌, List, [], ◌∷◌, ◌++◌, Option, none, some, ltb, keep,
  ◌==◌, nat_comparable, if◌then◌else◌,
}
use mathlib.Core.List.{map}
use pullbackup.Models.{Instant}
use pullbackup.Kuma.Sync.{SyncOutcome, SyncFailure, Memory}

pub data Kind : Type 0 where
  configuration push_ : Kind

-- One row of `failures`.
pub record FailureRow : Type 0 where
  pub task_id : ℕ
  pub kind : Kind
  pub error : Option String
  pub attempts : ℕ
  pub at : Option Instant

unfoldable pub push_row : SyncOutcome → FailureRow
push_row o = record {
  task_id = o.task_id;
  kind = push_;
  error = o.error;
  attempts = o.attempts;
  at = some o.at;
}

unfoldable pub configuration_row : SyncFailure → FailureRow
configuration_row f = record {
  task_id = f.task_id;
  kind = configuration;
  error = some f.error;
  attempts = 1;
  at = none;
}

unfoldable pub is_push : Kind → Bool
is_push push_ = true
is_push configuration = false

-- The order of `(task_id, kind)`, in which "configuration" comes before "push".
unfoldable pub row_leb : FailureRow → FailureRow → Bool
unfolding is_push
row_leb r s =
    ltb r.task_id s.task_id || (r.task_id == s.task_id && (not (is_push r.kind) || is_push s.kind))

unfoldable pub insert_row : FailureRow → List FailureRow → List FailureRow
unfolding row_leb
insert_row r [] = r ∷ []
insert_row r (s ∷ rows) =
    let rest = insert_row r rows in if row_leb r s then r ∷ s ∷ rows else s ∷ rest

unfoldable pub sort_rows : List FailureRow → List FailureRow
unfolding insert_row
sort_rows [] = []
sort_rows (r ∷ rows) = insert_row r (sort_rows rows)

-- Everything that fails to reach Kuma.
unfoldable pub failures : Memory → List FailureRow
unfolding sort_rows push_row configuration_row
failures m = sort_rows (
    map push_row (keep (λ (o : SyncOutcome). not o.ok) m.outcomes)
    ++ map configuration_row m.sync_failures)
