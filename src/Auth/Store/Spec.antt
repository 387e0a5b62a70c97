-- ===== src/Auth/Store/Spec.antt =====
-- The methods of the store of http_auth.py against the memory, call by call and in sequences.
use pullbackup.Base.{
  ℕ, ◌≤◌, refl, String, List, [], ◌∷◌, ◌++◌, Option, none, some, text_comparable, arith, All,
}
use mathlib.Core.List.{map}
use pullbackup.Auth.Store.{
  Entry, Config, Store, empty, sweep, find, new_entry, set, mutate, get, pop, keys, size, clear,
  Call, sets, mutates, gets, pops, lists, counts, clears, call,
}
use pullbackup.Auth.Store.Invariant.{IsValid, sweep-IsValid}
use pullbackup.Auth.Store.Calls.{call-IsValid, empty-IsValid}
use pullbackup.Auth.Store.Memory.{
  LastWrites, unwritten, learn, forget, Remembers, answer, Allowed, writes, changes, reads, takes,
  shows, sizes, wipes, Allows, ends, goes,
}
use pullbackup.Auth.Store.Known.{Known, Alive}
use pullbackup.Auth.Store.Refine.{
  Refines, sweep-Fresh, find-Reads, get-Reads, write-Refines, sweep-Refines,
}
use pullbackup.Auth.Store.Take.{pop-Refines}

module _ {V : Type 0} (c : Config V) where
  tier-Remembers :
      (now : ℕ) (m : LastWrites V) (es : List (Entry V))
      → Known m es
      → Alive now es
      → All (Remembers now m) (map (λ (e : Entry V). e.key) es)
  tier-Remembers now m [] k a = tt
  tier-Remembers now m (e ∷ es) k a =
      ((e.value, (e, k.0, refl, a.0)), tier-Remembers now m es k.1 a.1)

  All-append : (P : String → Type 0) (xs ys : List String) → All P xs → All P ys → All P (xs ++ ys)
  All-append P [] ys a b = b
  All-append P (x ∷ xs) ys a b = (a.0, All-append P xs ys a.1 b)

  -- The memory after a call that the store answers.
  abbrev Simulates : ℕ → ℕ → Call V → Store V → LastWrites V → Type 0
  Simulates now wall x s m =
      (n : LastWrites V) × Allowed c now m x (answer c x now wall s) n
      × Refines c now (call c x now wall s) n

  call-Simulates :
      (x : Call V) (t now wall : ℕ) (s : Store V) (m : LastWrites V)
      → 2 ≤ c.max_entries
      → t ≤ now
      → IsValid c t s
      → Refines c t s m
      → Simulates now wall x s m
  unfolding call answer set mutate keys size clear get
  call-Simulates (sets k v) t now wall s m room le w r = (
    learn (new_entry c k v now) m,
    writes m k v,
    write-Refines c k v now wall m (sweep now s) room (sweep-IsValid c t now s le w).sorted
        (sweep-Refines c t now s m le r),
  )
  call-Simulates (mutates k change) t now wall s m room le w r =
      let old : Option V = elim (find k (sweep now s)) [ none ↦ none | some e ↦ some e.value ] in
      (
        learn (new_entry c k (change old) now) m,
        changes m k change old
            (find-Reads c now m k (sweep now s) (sweep-Fresh c t now s m le w r)),
        write-Refines c k (change old) now wall m (sweep now s) room
            (sweep-IsValid c t now s le w).sorted (sweep-Refines c t now s m le r),
      )
  call-Simulates (gets k) t now wall s m room le w r = (
    m,
    reads m k (get k now s).1 (get-Reads c t now m k s le w r),
    sweep-Refines c t now s m le r,
  )
  call-Simulates (pops k) t now wall s m room le w r =
      let (allowed, after) = pop-Refines c t now m k s le w r in
      (forget k m, takes m k (pop k now s).1 allowed, after)
  call-Simulates lists t now wall s m room le w r =
      let f = sweep-Fresh c t now s m le w r in
      (
        m,
        shows m _ (
            All-append _ _ _ (tier-Remembers now m _ f.holds.ordinary f.live_entries)
              (tier-Remembers now m _ f.holds.guarded f.live_protected)),
        f.holds,
      )
  call-Simulates counts t now wall s m room le w r =
      (m, sizes m _ (sweep-IsValid c t now s le w).room, sweep-Refines c t now s m le r)
  call-Simulates clears t now wall s m room le w r = (
    unwritten,
    wipes m,
    record { ordinary = tt; guarded = tt; newest = λ n is_latest. absurd (ground arith) },
  )

  -- The instants of the calls do not go back.
  abbrev pub Onward : ℕ → List (Call V × ℕ × ℕ) → Type 0
  Onward t [] = Unit {0}
  Onward t ((x, now, wall) ∷ xs) = (t ≤ now) × Onward now xs

  runs_from :
      (xs : List (Call V × ℕ × ℕ)) (t : ℕ) (s : Store V) (m : LastWrites V)
      → 2 ≤ c.max_entries
      → Onward t xs
      → IsValid c t s
      → Refines c t s m
      → Allows c xs s m
  runs_from [] t s m room o w r = ends s m
  runs_from ((x, now, wall) ∷ xs) t s m room (le, o) w r =
      let (n, step, after) = call-Simulates x t now wall s m room le w r in
      goes x now wall xs s m n step
        (runs_from xs now (call c x now wall s) n room o (call-IsValid c x t now wall s le w) after)

  -- A client of an expiring store that starts empty, with room for two entries or more, and is called
  -- in whatever way at instants that do not go back, cannot tell it from a memory without a cap that
  -- may lose any write but the latest: what it reads, takes or changes of a key is the last value
  -- written to it, not expired; nothing is read of a key only if the latest write was of another key,
  -- has expired or was taken out; it lists only keys that have a value, and counts no more than its
  -- cap.
  pub answers-Allows :
      (xs : List (Call V × ℕ × ℕ)) → 2 ≤ c.max_entries → Onward 0 xs → Allows c xs empty unwritten
  unfolding empty
  answers-Allows xs room o =
      runs_from xs 0 empty unwritten room o (empty-IsValid c)
        (record { ordinary = tt; guarded = tt; newest = λ n is_latest. absurd (ground arith) })
