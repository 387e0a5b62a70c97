-- ===== src/Auth/Store.antt =====
-- backend/pullbackup/http_auth.py, `_ExpiringStore`: the bounded, expiring mapping behind both
-- authentication stores. An ordered dictionary is the list of its entries, oldest first. A method
-- takes the instant that it runs at, and `wall`, what `time.time()` answers inside `_enforce_cap`.
-- The lock makes each method one step. The life of an entry, `ttl`, is the same for all of a store.
pub mod Sub
pub mod Tiers
pub mod Invariant
pub mod Place
pub mod Calls
pub mod Work
pub mod Lookup
pub mod Flood
pub mod Eviction
mod Examples
pub mod Spec
pub mod Take
pub mod Refine
pub mod Known
pub mod Memory
use pullbackup.Base.{
  ℕ, ◌+◌, ◌/◌, String, Bool, true, false, not, ◌&&◌, List, [], ◌∷◌, ◌++◌, Option, none, some, ltb,
  leb, ◌==◌, text_comparable, if◌then◌else◌, length, drop, max2, is_some, or_else,
}
use mathlib.Core.List.{map}

pub record Entry (V : Type 0) : Type 0 where
  pub key : String
  pub expires_at : ℕ
  pub value : V

-- The constructor's arguments, with `settings.auth_store_max_entries`.
pub record Config (V : Type 0) : Type 0 where
  pub max_entries : ℕ
  pub ttl : ℕ
  pub protect : Option (V → Bool)
  pub warn_on_live_eviction : Bool

-- `examined` counts what the sweeps looked at, and `warnings` the messages logged.
pub record Store (V : Type 0) : Type 0 where
  pub entries : List (Entry V)
  pub protected : List (Entry V)
  pub examined : ℕ
  pub warnings : ℕ

unfoldable pub empty : {V : Type 0} → Store V
empty = record { entries = []; protected = []; examined = 0; warnings = 0 }

module _ {V : Type 0} where
  -- `_sweep_tier`: the entries left, and how many were looked at.
  unfoldable pub sweep_tier : ℕ → List (Entry V) → List (Entry V)
  sweep_tier now [] = []
  sweep_tier now (e ∷ es) =
      let rest = sweep_tier now es in if ltb now e.expires_at then e ∷ es else rest

  unfoldable pub sweep_work : ℕ → List (Entry V) → ℕ
  sweep_work now [] = 0
  sweep_work now (e ∷ es) =
      let rest = sweep_work now es in if ltb now e.expires_at then 1 else rest + 1

  unfoldable pub sweep : ℕ → Store V → Store V
  sweep now s = record s {
    entries = sweep_tier now s.entries;
    protected = sweep_tier now s.protected;
    examined = s.examined + sweep_work now s.entries + sweep_work now s.protected;
  }

  -- `entries.get(key)` and `entries.pop(key, None)`
  unfoldable pub find_in : String → List (Entry V) → Option (Entry V)
  find_in k [] = none
  find_in k (e ∷ es) = if e.key == k then some e else find_in k es

  unfoldable pub pop_key : String → List (Entry V) → List (Entry V)
  pop_key k [] = []
  pop_key k (e ∷ es) = if e.key == k then es else e ∷ pop_key k es

  -- `_find`: the ordinary tier first.
  unfoldable pub find : String → Store V → Option (Entry V)
  find k s = elim (find_in k s.entries) [ none ↦ find_in k s.protected | some e ↦ some e ]

  module _ (c : Config V) where
    unfoldable pub cap : ℕ
    cap = max2 1 c.max_entries

    unfoldable pub protected_cap : ℕ
    unfolding cap
    protected_cap = max2 1 (cap / 2)

    -- `self._protect is not None and self._protect(value)`
    unfoldable pub wants_protection : V → Bool
    wants_protection v = elim c.protect [ none ↦ false | some protect ↦ protect v ]

    -- The warning on an entry that is evicted alive.
    unfoldable pub warn : ℕ → Entry V → ℕ → ℕ
    warn wall e warnings =
        if c.warn_on_live_eviction && ltb wall e.expires_at then warnings + 1 else warnings

    -- The loop of `_enforce_cap`: ordinary entries go first, in order, then protected ones.
    unfoldable pub enforce_tiers :
        ℕ → List (Entry V) → List (Entry V) → ℕ → List (Entry V) × List (Entry V) × ℕ
    enforce_tiers wall (e ∷ es) ps warnings =
        let rest = enforce_tiers wall es ps (warn wall e warnings) in
        if ltb cap (length (e ∷ es) + length ps) then rest else (e ∷ es, ps, warnings)
    enforce_tiers wall [] (p ∷ ps) warnings =
        let rest = enforce_tiers wall [] ps (warn wall p warnings) in
        if ltb cap (length (p ∷ ps)) then rest else ([], p ∷ ps, warnings)
    enforce_tiers wall [] [] warnings = ([], [], warnings)

    unfoldable pub enforce_cap : ℕ → Store V → Store V
    enforce_cap wall s =
        let (es, ps, warnings) = enforce_tiers wall s.entries s.protected s.warnings in
        record s { entries = es; protected = ps; warnings = warnings }

    abbrev pub new_entry : String → V → ℕ → Entry V
    new_entry k v now = record { key = k; expires_at = now + c.ttl; value = v }

    -- `_place`: a full protected share gives up its oldest entry.
    unfoldable pub place : String → V → ℕ → Store V → Store V
    place k v now s =
        let es = pop_key k s.entries in
        let ps = pop_key k s.protected in
        if wants_protection v
        then record s {
          entries = es;
          protected =
              (if leb protected_cap (length ps) then drop 1 ps else ps) ++ new_entry k v now ∷ [];
        }
        else record s { entries = es ++ new_entry k v now ∷ []; protected = ps }

    unfoldable pub set : String → V → ℕ → ℕ → Store V → Store V
    set k v now wall s = enforce_cap wall (place k v now (sweep now s))

    -- `mutate`: the new store and the new value.
    unfoldable pub mutate : String → (Option V → V) → ℕ → ℕ → Store V → Store V × V
    mutate k change now wall s =
        let swept = sweep now s in
        let updated = change (elim (find k swept) [ none ↦ none | some e ↦ some e.value ]) in
        (enforce_cap wall (place k updated now swept), updated)

  -- `get`: the store after the sweep, and the value if it is there and has not expired.
  unfoldable pub get : String → ℕ → Store V → Store V × Option V
  get k now s =
      let swept = sweep now s in
      (
        swept,
        elim (find k swept) [
          | none ↦ none
          | some e ↦ if leb e.expires_at now then none else some e.value
        ],
      )

  unfoldable pub pop : String → ℕ → Store V → Store V × Option V
  pop k now s =
      let swept = sweep now s in
      elim (find_in k swept.entries) [
        | some e ↦ (record swept { entries = pop_key k swept.entries }, some e.value)
        | none ↦ (
          record swept { protected = pop_key k swept.protected },
          elim (find_in k swept.protected) [ none ↦ none | some e ↦ some e.value ],
        )
      ]

  unfoldable pub keys : ℕ → Store V → Store V × List String
  keys now s =
      let swept = sweep now s in
      (
        swept,
        map (λ (e : Entry V). e.key) swept.entries ++ map (λ (e : Entry V). e.key) swept.protected,
      )

  unfoldable pub size : ℕ → Store V → Store V × ℕ
  size now s = let swept = sweep now s in (swept, length swept.entries + length swept.protected)

  unfoldable pub clear : Store V → Store V
  clear s = record s { entries = []; protected = [] }

  -- `key in store`, and `store[key]`, which raises `KeyError` where this is `none`.
  unfoldable pub has_key : String → ℕ → Store V → Bool
  has_key k now s = is_some (get k now s).1

-- What a client may ask of a store.
pub data Call (V : Type 0) : Type 0 where
  sets : String → V → Call V
  mutates : String → (Option V → V) → Call V
  gets pops : String → Call V
  lists counts clears : Call V

unfoldable pub call : {V : Type 0} → Config V → Call V → ℕ → ℕ → Store V → Store V
call c (sets k v) now wall s = set c k v now wall s
call c (mutates k change) now wall s = (mutate c k change now wall s).0
call c (gets k) now wall s = (get k now s).0
call c (pops k) now wall s = (pop k now s).0
call c lists now wall s = (keys now s).0
call c counts now wall s = (size now s).0
call c clears now wall s = clear s
