-- ===== src/Auth/Store/Take.antt =====
-- `pop` of the store of http_auth.py against the memory.
use pullbackup.Base.{
  ℕ, ◌≤◌, ◌≡◌, refl, String, false, List, [], ◌∷◌, Option, none, some, ◌==◌, text_comparable,
  if◌then◌else◌, if_cases, Option-cases, Bool-cases, arith, inl, inr, All,
}
use pullbackup.Auth.Store.{Entry, Config, Store, sweep, find_in, find, pop_key, pop}
use pullbackup.Auth.Store.Sub.{Sub-All}
use pullbackup.Auth.Store.Tiers.{Lacks, pop_key-Sub, pop_key-Lacks}
use pullbackup.Auth.Store.Invariant.{IsValid, IsSorted, sweep-IsValid}
use pullbackup.Auth.Store.Lookup.{pop_key-Single, find_in-Lacks}
use pullbackup.Auth.Store.Memory.{LastWrites, forget, Reads}
use pullbackup.Auth.Store.Known.{forget-Known}
use pullbackup.Auth.Store.Refine.{Refines, sweep-Fresh, tier-HeldAlive, find-Reads}
use mathlib.Core.Path.{subst}

module _ {V : Type 0} where
  pub none-Lacks : (k : String) (es : List (Entry V)) → find_in k es ≡ none → Lacks k es
  unfolding find_in
  none-Lacks k [] h = tt
  none-Lacks k (e ∷ es) h =
      if_cases (λ r. r ≡ none → Lacks k (e ∷ es)) (e.key == k)
        (λ _ some_left. absurd (ground arith)) (λ miss rest. (miss, none-Lacks k es rest)) h

  -- A key that the ordinary tier has is not in the protected one.
  apart-Lacks :
      (k : String) (es ps : List (Entry V)) (e : Entry V)
      → All (λ (p : Entry V). Lacks p.key es) ps
      → find_in k es ≡ some e
      → Lacks k ps
  apart-Lacks k es [] e a here = tt
  apart-Lacks k es (p ∷ ps) e a here = (
    elim (Bool-cases (p.key == k)) [
      | inr miss ↦ miss
      | inl hit ↦
          let key : p.key ≡ k = (text_comparable.same_iff p.key k).0 hit in
          let absent = find_in-Lacks p.key es a.0 in absurd (ground arith)
    ],
    apart-Lacks k es ps e a.1 here,
  )

  -- What is still the latest write after a key was forgotten.
  forget-latest :
      (k : String) (o : Option (Entry V)) (n : Entry V)
      → elim o [ none ↦ none | some x ↦ if x.key == k then none else some x ] ≡ some n
      → (o ≡ some n) × ((n.key == k) ≡ false)
  forget-latest k none n h = absurd (ground arith)
  forget-latest k (some x) n h =
      if_cases (λ r. r ≡ some n → (some x ≡ some n) × ((n.key == k) ≡ false)) (x.key == k)
        (λ _ none_left. absurd (ground arith))
        (λ miss same.
          let is_x : x ≡ n = cc in (same, subst (λ (y : Entry V). (y.key == k) ≡ false) is_x miss))
        h

  find-absent :
      (k : String) (s : Store V) → find_in k s.entries ≡ none → find k s ≡ find_in k s.protected
  unfolding find
  find-absent k s absent = rw (absent, find) refl

module _ {V : Type 0} (c : Config V) where
  forget-ordinary :
      (now : ℕ) (m : LastWrites V) (k : String) (s : Store V) (e : Entry V)
      → IsSorted c now s
      → Refines c now s m
      → find_in k s.entries ≡ some e
      → Refines c now (record s { entries = pop_key k s.entries }) (forget k m)
  forget-ordinary now m k s e w r here = record {
    ordinary =
        forget-Known k m _ (pop_key-Lacks k s.entries w.distinct_entries)
          (Sub-All _ (pop_key-Sub k s.entries) r.ordinary);
    guarded = forget-Known k m _ (apart-Lacks k s.entries s.protected e w.apart here) r.guarded;
    newest = λ n is_latest.
        let (was_latest, other) = forget-latest k m.latest n is_latest in
        elim (r.newest n was_latest) [
          | inl dead ↦ inl dead
          | inr (inl h) ↦ inr (inl (pop_key-Single n k s.entries other h))
          | inr (inr (l, h)) ↦ inr (inr (Sub-All _ (pop_key-Sub k s.entries) l, h))
        ];
  }

  forget-guarded :
      (now : ℕ) (m : LastWrites V) (k : String) (s : Store V)
      → IsSorted c now s
      → Refines c now s m
      → find_in k s.entries ≡ none
      → Refines c now (record s { protected = pop_key k s.protected }) (forget k m)
  forget-guarded now m k s w r absent = record {
    ordinary = forget-Known k m _ (none-Lacks k s.entries absent) r.ordinary;
    guarded =
        forget-Known k m _ (pop_key-Lacks k s.protected w.distinct_protected)
          (Sub-All _ (pop_key-Sub k s.protected) r.guarded);
    newest = λ n is_latest.
        let (was_latest, other) = forget-latest k m.latest n is_latest in
        elim (r.newest n was_latest) [
          | inl dead ↦ inl dead
          | inr (inl h) ↦ inr (inl h)
          | inr (inr (l, h)) ↦ inr (inr (l, pop_key-Single n k s.protected other h))
        ];
  }

  pub pop-Refines :
      (t now : ℕ) (m : LastWrites V) (k : String) (s : Store V)
      → t ≤ now
      → IsValid c t s
      → Refines c t s m
      → Reads now m k (pop k now s).1 × Refines c now (pop k now s).0 (forget k m)
  unfolding pop
  pop-Refines t now m k s le w r =
      let swept = sweep now s in
      let f = sweep-Fresh c t now s m le w r in
      let sorted = (sweep-IsValid c t now s le w).sorted in
      elim (Option-cases (find_in k swept.entries)) [
        | inr (e, here) ↦
            let (known, alive) =
              tier-HeldAlive c now m k swept.entries e f.holds.ordinary f.live_entries here in
            rw (here, pop)
              ((e, known, refl, alive), forget-ordinary now m k swept e sorted f.holds here)
        | inl absent ↦
            rw (absent, pop)
              (
                subst (λ o. Reads now m k (elim o [ none ↦ none | some e ↦ some e.value ]))
                    (find-absent k swept absent) (find-Reads c now m k swept f),
                forget-guarded now m k swept sorted f.holds absent,
              )
      ]
