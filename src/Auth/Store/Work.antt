-- ===== src/Auth/Store/Work.antt =====
-- The work of the store of http_auth.py: how many entries its sweeps look at, and what they leave.
use pullbackup.Base.{
  ℕ, ◌+◌, ◌*◌, ◌≤◌, ◌<◌, ◌≡◌, refl, ap, sym, String, List, [], ◌∷◌, ltb, text_comparable,
  if◌then◌else◌, length, length-append, drop, arith, All, inl, inr, Bool-cases,
}
use pullbackup.Auth.Store.{
  Entry, Config, Store, empty, sweep_tier, sweep_work, sweep, pop_key, enforce_cap, new_entry,
  place, set, mutate, get, pop, keys, size, clear, Call, sets, mutates, gets, pops, lists, counts,
  clears, call,
}
use pullbackup.Auth.Store.Sub.{Sub-length, All-map}
use pullbackup.Auth.Store.Tiers.{IsOrdered, pop_key-Sub}
use pullbackup.Auth.Store.Invariant.{enforce_tiers-fits}

module _ {V : Type 0} where
  -- A tier in order of expiry is swept to exactly its entries that have not expired.
  abbrev pub live : ℕ → List (Entry V) → List (Entry V)
  live now [] = []
  live now (e ∷ es) = let rest = live now es in if ltb now e.expires_at then e ∷ rest else rest

  live-All :
      (now : ℕ) (es : List (Entry V))
      → All (λ (e : Entry V). now < e.expires_at) es
      → live now es ≡ es
  live-All now [] h = refl
  live-All now (e ∷ es) h = ground (arith, live-All now es h.1)

  pub sweep_tier-live :
      (now : ℕ) (es : List (Entry V)) → IsOrdered es → sweep_tier now es ≡ live now es
  unfolding sweep_tier
  sweep_tier-live now [] o = refl
  sweep_tier-live now (e ∷ es) o = elim (Bool-cases (ltb now e.expires_at)) [
    | inr dead ↦ rw (dead, live) (sweep_tier-live now es o.1)
    | inl alive ↦
        rw (alive, live)
          (ap (◌∷◌ e) (
            sym (
              live-All now es (
                All-map _ _ (λ (x : Entry V) (h : e.expires_at ≤ x.expires_at). ground arith) es
                  o.0))))
  ]

  -- A sweep looks at no more than the entries that it drops, and one.
  sweep_work-le :
      (now : ℕ) (es : List (Entry V))
      → sweep_work now es + length (sweep_tier now es) ≤ length es + 1
  unfolding sweep_work sweep_tier
  sweep_work-le now [] = omega arith
  sweep_work-le now (e ∷ es) = ground (arith, sweep_work-le now es)

  -- The entries held, and those looked at so far.
  abbrev pub spent : Store V → ℕ
  spent s = s.examined + (length s.entries + length s.protected)

  sweep-spent : (now : ℕ) (s : Store V) → spent (sweep now s) ≤ spent s + 2
  unfolding sweep
  sweep-spent now s = omega (arith, sweep_work-le now s.entries, sweep_work-le now s.protected)

module _ {V : Type 0} (c : Config V) where
  enforce_cap-spent : (wall : ℕ) (s : Store V) → spent (enforce_cap c wall s) ≤ spent s
  unfolding enforce_cap
  enforce_cap-spent wall s =
      let (a, b, fits) = enforce_tiers-fits c wall s.entries s.protected s.warnings in
      omega (arith, Sub-length a, Sub-length b)

  place-spent :
      (k : String) (v : V) (now : ℕ) (s : Store V) → spent (place c k v now s) ≤ spent s + 1
  unfolding place
  place-spent k v now s =
      let shorter : length (drop 1 (pop_key k s.protected)) ≤ length (pop_key k s.protected) =
        length-drop-le (pop_key k s.protected) in
      ground (
        arith,
        Sub-length (pop_key-Sub k s.entries),
        Sub-length (pop_key-Sub k s.protected),
        shorter,
        length-append (pop_key k s.entries) (new_entry c k v now ∷ []),
        length-append (pop_key k s.protected) (new_entry c k v now ∷ []),
        length-append (drop 1 (pop_key k s.protected)) (new_entry c k v now ∷ []),
      )
    where
      length-drop-le : (xs : List (Entry V)) → length (drop 1 xs) ≤ length xs
      length-drop-le [] = omega arith
      length-drop-le (x ∷ xs) = omega arith

  write-spent :
      (k : String) (v : V) (now wall : ℕ) (s : Store V)
      → spent (enforce_cap c wall (place c k v now (sweep now s))) ≤ spent s + 3
  write-spent k v now wall s = omega (
    arith,
    enforce_cap-spent wall (place c k v now (sweep now s)),
    place-spent k v now (sweep now s),
    sweep-spent now s,
  )

  call-spent : (x : Call V) (now wall : ℕ) (s : Store V) → spent (call c x now wall s) ≤ spent s + 3
  unfolding call set mutate get pop keys size clear
  call-spent (sets k v) now wall s = write-spent k v now wall s
  call-spent (mutates k change) now wall s = write-spent k _ now wall s
  call-spent (gets k) now wall s = omega (arith, sweep-spent now s)
  call-spent (pops k) now wall s = ground (
    arith,
    sweep-spent now s,
    Sub-length (pop_key-Sub k (sweep now s).entries),
    Sub-length (pop_key-Sub k (sweep now s).protected),
  )
  call-spent lists now wall s = omega (arith, sweep-spent now s)
  call-spent counts now wall s = omega (arith, sweep-spent now s)
  call-spent clears now wall s = omega arith

  -- Calls, each with its instant and its wall clock.
  unfoldable pub run : List (Call V × ℕ × ℕ) → Store V → Store V
  run [] s = s
  run ((x, now, wall) ∷ xs) s = run xs (call c x now wall s)

  run-spent :
      (xs : List (Call V × ℕ × ℕ)) (s : Store V) → spent (run xs s) ≤ spent s + 3 * length xs
  unfolding run
  run-spent [] s = omega arith
  run-spent ((x, now, wall) ∷ xs) s =
      omega (arith, call-spent x now wall s, run-spent xs (call c x now wall s))

  -- Whatever is called, and whenever, the sweeps of a new store look at no more than three entries
  -- for each call in all.
  pub run_examined : (xs : List (Call V × ℕ × ℕ)) → (run xs empty).examined ≤ 3 * length xs
  unfolding empty
  run_examined xs = omega (arith, run-spent xs empty)
