-- ===== src/Slots/Progress.antt =====
-- What the runs of services/runner.py that wait can take next.
use pullbackup.Base.{
  ◌⊎◌, ℕ, ◌≤◌, ◌≡◌, refl, sym, Bool, true, false, List, [], ◌∷◌, some, any, ◌==◌, nat_comparable,
  if◌then◌else◌, if_cases, arith, All, inl, inr, Bool-cases,
}
use mathlib.Core.Path.{subst}
use pullbackup.Slots.{
  Phase, waiting, holding, permitted, executing, Claim, holds, has_permit, is_executing, blocks,
  locks, permits, may_advance, find_claim,
}
use pullbackup.Slots.Apart.{Apart, AllApart}

-- A claim of the list that passes a test, or none does.
abbrev pub Passing : (Claim → Bool) → List Claim → Type 0
Passing p cs = (d : Claim) × (find_claim d.run_id cs ≡ some d) × (p d ≡ true)

search_claim :
    (p : Claim → Bool) (cs : List Claim)
    → AllApart cs
    → Passing p cs ⊎ All (λ (c : Claim). p c ≡ false) cs
search_claim p [] a = inr tt
search_claim p (c ∷ cs) (h, a) = elim (Bool-cases (p c)) [
  | inl pass ↦ inl (c, own, pass)
  | inr fail ↦ elim (search_claim p cs a) [
    | inl (d, found, pass) ↦ inl (d, behind d found (other d cs h found), pass)
    | inr none_passes ↦ inr (fail, none_passes)
  ]
]
  where
    own : find_claim c.run_id (c ∷ cs) ≡ some c
    own = ground (arith, nat_comparable.same_iff c.run_id c.run_id)

    other :
        (d : Claim) (ds : List Claim)
        → All (Apart c) ds
        → find_claim d.run_id ds ≡ some d
        → (c.run_id == d.run_id) ≡ false
    other d [] hs found = absurd (ground arith)
    other d (x ∷ ds) hs found =
        if_cases (λ o. o ≡ some d → (c.run_id == d.run_id) ≡ false) (x.run_id == d.run_id)
          (λ hit _. ground (
            arith,
            hs.0,
            nat_comparable.same_iff x.run_id d.run_id,
            nat_comparable.same_iff c.run_id d.run_id,
            nat_comparable.same_iff x.run_id c.run_id,
          ))
          (λ _ rest. other d ds hs.1 rest) found

    behind :
        (d : Claim)
        → find_claim d.run_id cs ≡ some d
        → (c.run_id == d.run_id) ≡ false
        → find_claim d.run_id (c ∷ cs) ≡ some d
    behind d found miss =
        subst (λ b. (if b then some c else find_claim d.run_id cs) ≡ some d) (sym miss) found

-- A test that holds only of claims which pass another one.
none_of :
    (p q : Claim → Bool) (cs : List Claim)
    → ((c : Claim) → q c ≡ false → p c ≡ false)
    → All (λ c. q c ≡ false) cs
    → any p cs ≡ false
none_of p q [] only h = refl
none_of p q (c ∷ cs) only (h, hs) = ground (arith, only c h, none_of p q cs only hs)

no_permits : (cs : List Claim) → All (λ (c : Claim). has_permit c.phase ≡ false) cs → permits cs ≡ 0
no_permits [] h = refl
no_permits (c ∷ cs) (h, hs) = ground (arith, h, no_permits cs hs)

module _ (limit : ℕ) (all : List Claim) where
  last_wait :
      (c : Claim) (phase : Phase)
      → has_permit phase ≡ true
      → is_executing phase ≡ false
      → All (λ (d : Claim). is_executing d.phase ≡ false) all
      → may_advance limit all c phase ≡ true
  unfolding may_advance
  last_wait c waiting p e h = absurd (ground arith)
  last_wait c holding p e h = absurd (ground arith)
  last_wait c permitted p e h =
      ground
        (arith, none_of (locks c) (λ d. is_executing d.phase) all (λ d off. ground (arith, off)) h)
  last_wait c executing p e h = absurd (ground arith)

  middle_wait :
      (c : Claim) (phase : Phase)
      → 1 ≤ limit
      → holds phase ≡ true
      → has_permit phase ≡ false
      → All (λ (d : Claim). has_permit d.phase ≡ false) all
      → may_advance limit all c phase ≡ true
  unfolding may_advance
  middle_wait c waiting room p e h = absurd (ground arith)
  middle_wait c holding room p e h = ground (arith, no_permits all h)
  middle_wait c permitted room p e h = absurd (ground arith)
  middle_wait c executing room p e h = absurd (ground arith)

  first_wait :
      (c : Claim) (phase : Phase)
      → holds phase ≡ false
      → All (λ (d : Claim). holds d.phase ≡ false) all
      → may_advance limit all c phase ≡ true
  unfolding may_advance
  first_wait c waiting p h =
      ground (arith, none_of (blocks c) (λ d. holds d.phase) all (λ d off. ground (arith, off)) h)
  first_wait c holding p h = absurd (ground arith)
  first_wait c permitted p h = absurd (ground arith)
  first_wait c executing p h = absurd (ground arith)

-- A claim that executes, and so leaves when its subprocesses end, or that gets what it waits for.
abbrev pub Ready : ℕ → List Claim → Type 0
Ready limit cs =
    (d : Claim) × (find_claim d.run_id cs ≡ some d)
    × ((is_executing d.phase ≡ true) ⊎ (may_advance limit cs d d.phase ≡ true))

-- Where runs are on their way that do not clash, and the limit is at least one, some run executes or
-- can take what it waits for: no circle of runs waits for each other.
pub may_advance-Ready :
    (limit : ℕ) (c : Claim) (cs : List Claim) → 1 ≤ limit → AllApart (c ∷ cs) → Ready limit (c ∷ cs)
may_advance-Ready limit c cs room a = elim (search_claim (λ d. is_executing d.phase) (c ∷ cs) a) [
  | inl (d, found, runs) ↦ (d, found, inl runs)
  | inr none_runs ↦ elim (search_claim (λ d. has_permit d.phase) (c ∷ cs) a) [
    | inl (d, found, permit) ↦ with_permit d found permit none_runs
    | inr no_permit ↦ elim (search_claim (λ d. holds d.phase) (c ∷ cs) a) [
      | inl (d, found, held) ↦ elim (Bool-cases (has_permit d.phase)) [
        | inl permit ↦ with_permit d found permit none_runs
        | inr waits ↦
            (d, found, inr (middle_wait limit (c ∷ cs) d d.phase room held waits no_permit))
      ]
      | inr none_held ↦ (c, own, inr (first_wait limit (c ∷ cs) c c.phase none_held.0 none_held))
    ]
  ]
]
  where
    own : find_claim c.run_id (c ∷ cs) ≡ some c
    own = ground (arith, nat_comparable.same_iff c.run_id c.run_id)

    with_permit :
        (d : Claim)
        → find_claim d.run_id (c ∷ cs) ≡ some d
        → has_permit d.phase ≡ true
        → All (λ (x : Claim). is_executing x.phase ≡ false) (c ∷ cs)
        → Ready limit (c ∷ cs)
    with_permit d found permit none_runs = elim (Bool-cases (is_executing d.phase)) [
      | inl runs ↦ (d, found, inl runs)
      | inr waits ↦ (d, found, inr (last_wait limit (c ∷ cs) d d.phase permit waits none_runs))
    ]
