-- ===== src/Auth/Store/Memory.antt =====
-- What the clients of the store of http_auth.py may rely on: a memory of the last write of each key,
-- without tiers and without a cap, that may forget any write but the latest.
use pullbackup.Base.{
  ℕ, ◌≤◌, ◌<◌, ◌≡◌, ◌≢◌, ◌⊎◌, String, List, [], ◌∷◌, Option, none, some, ◌==◌, text_comparable,
  if◌then◌else◌, All,
}
use pullbackup.Auth.Store.{
  Entry, Config, Store, cap, new_entry, mutate, get, pop, keys, size, Call, sets, mutates, gets,
  pops, lists, counts, clears, call,
}

-- What a call answers.
pub data CallAnswer (V : Type 0) : Type 0 where
  quiet : CallAnswer V
  found : Option V → CallAnswer V
  made : V → CallAnswer V
  listed : List String → CallAnswer V
  counted : ℕ → CallAnswer V

-- `known` has the last entry written of each key that was not taken out since, and `latest` the
-- entry of the last write, unless it was taken out.
pub record LastWrites (V : Type 0) : Type 0 where
  pub known : String → Option (Entry V)
  pub latest : Option (Entry V)

abbrev pub unwritten : {V : Type 0} → LastWrites V
unwritten = record { known = λ _. none; latest = none }

module _ {V : Type 0} where
  unfoldable pub answer : Config V → Call V → ℕ → ℕ → Store V → CallAnswer V
  answer c (sets k v) now wall s = quiet
  answer c (mutates k change) now wall s = made (mutate c k change now wall s).1
  answer c (gets k) now wall s = found (get k now s).1
  answer c (pops k) now wall s = found (pop k now s).1
  answer c lists now wall s = listed (keys now s).1
  answer c counts now wall s = counted (size now s).1
  answer c clears now wall s = quiet

  abbrev pub learn : Entry V → LastWrites V → LastWrites V
  learn n m = record { known = λ k. if n.key == k then some n else m.known k; latest = some n }

  abbrev pub forget : String → LastWrites V → LastWrites V
  forget k m = record {
    known = λ j. if j == k then none else m.known j;
    latest = elim m.latest [ none ↦ none | some n ↦ if n.key == k then none else some n ];
  }

  -- The latest write is of another key, or has expired.
  abbrev pub Missable : ℕ → String → Option (Entry V) → Type 0
  Missable now k none = Unit {0}
  Missable now k (some n) = (n.key ≢ k) ⊎ (n.expires_at ≤ now)

  -- What may be read of a key: a value that was written last and lives still; nothing, unless the
  -- latest write was of that key and lives still.
  abbrev pub Reads : ℕ → LastWrites V → String → Option V → Type 0
  Reads now m k (some v) =
      (e : Entry V) × (m.known k ≡ some e) × (e.value ≡ v) × (now < e.expires_at)
  Reads now m k none = Missable now k m.latest

  abbrev pub Remembers : ℕ → LastWrites V → String → Type 0
  Remembers now m k = (v : V) × Reads now m k (some v)

module _ {V : Type 0} (c : Config V) where
  -- One call at the instant `now`, with its answer.
  pub data Allowed (now : ℕ) : LastWrites V → Call V → CallAnswer V → LastWrites V → Type 0 where
    writes :
        (m : LastWrites V) (k : String) (v : V)
        → Allowed now m (sets k v) quiet (learn (new_entry c k v now) m)
    changes :
        (m : LastWrites V) (k : String) (change : Option V → V) (o : Option V)
        → Reads now m k o
        → Allowed now m
            (mutates k change)
            (made (change o))
            (learn (new_entry c k (change o) now) m)
    reads :
        (m : LastWrites V) (k : String) (o : Option V)
        → Reads now m k o
        → Allowed now m (gets k) (found o) m
    takes :
        (m : LastWrites V) (k : String) (o : Option V)
        → Reads now m k o
        → Allowed now m (pops k) (found o) (forget k m)
    shows :
        (m : LastWrites V) (ks : List String)
        → All (Remembers now m) ks
        → Allowed now m lists (listed ks) m
    sizes : (m : LastWrites V) (n : ℕ) → n ≤ cap c → Allowed now m counts (counted n) m
    wipes : (m : LastWrites V) → Allowed now m clears quiet unwritten

  -- A sequence of calls of a store, and what the memory makes of them.
  pub data Allows : List (Call V × ℕ × ℕ) → Store V → LastWrites V → Type 0 where
    ends : (s : Store V) (m : LastWrites V) → Allows [] s m
    goes :
        (x : Call V) (now wall : ℕ) (xs : List (Call V × ℕ × ℕ)) (s : Store V) (m n : LastWrites V)
        → Allowed now m x (answer c x now wall s) n
        → Allows xs (call c x now wall s) n
        → Allows ((x, now, wall) ∷ xs) s m
