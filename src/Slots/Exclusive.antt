-- ===== src/Slots/Exclusive.antt =====
-- The events of services/runner.py against claims that must not be there at the same time.
use pullbackup.Base.{
  ℕ, ◌+◌, ◌≤◌, ◌≡◌, refl, sym, ap, Bool, true, false, not, List, [], ◌∷◌, some, any, ◌==◌,
  nat_comparable, if◌then◌else◌, if_cases, keep, arith, All, inl, inr, Bool-cases, Option-cases,
}
use mathlib.Core.Path.{subst}
use pullbackup.Slots.{
  Phase, waiting, holding, permitted, executing, Claim, has_permit, blocks, locks, permits,
  may_advance, next, find_claim, put_claim, Event, enters, advances, leaves, happen, happen_all,
}
use pullbackup.Slots.Apart.{Apart, AllApart, Others, put_claim-AllApart, find_claim-Others}

abbrev pub IsExclusive : ℕ → List Claim → Type 0
IsExclusive limit cs = AllApart cs × (permits cs ≤ limit)

any-All : (p : Claim → Bool) (cs : List Claim) → any p cs ≡ false → All (λ c. p c ≡ false) cs
any-All p [] h = tt
any-All p (c ∷ cs) h = (ground arith, any-All p cs (ground arith))

-- A claim that may advance stays apart from the others.
advanced-Others :
    (limit : ℕ) (c : Claim) (all : List Claim) (phase : Phase)
    → c.phase ≡ phase
    → may_advance limit all c phase ≡ true
    → Others c all
    → Others (record c { phase = next phase }) all
unfolding may_advance
advanced-Others limit c all waiting is may o = go all (any-All (blocks c) all (ground arith)) o
  where
    go :
        (ds : List Claim)
        → All (λ d. blocks c d ≡ false) ds
        → Others c ds
        → Others (record c { phase = holding }) ds
    go [] b os = tt
    go (d ∷ ds) (b, bs) (inl same, os) = (inl same, go ds bs os)
    go (d ∷ ds) (b, bs) (inr apart, os) = (inr (ground (arith, apart, b)), go ds bs os)
advanced-Others limit c all holding is may o = go all o
  where
    go : (ds : List Claim) → Others c ds → Others (record c { phase = permitted }) ds
    go [] os = tt
    go (d ∷ ds) (inl same, os) = (inl same, go ds os)
    go (d ∷ ds) (inr apart, os) = (inr (ground (arith, apart, is)), go ds os)
advanced-Others limit c all permitted is may o = go all (any-All (locks c) all (ground arith)) o
  where
    go :
        (ds : List Claim)
        → All (λ d. locks c d ≡ false) ds
        → Others c ds
        → Others (record c { phase = executing }) ds
    go [] b os = tt
    go (d ∷ ds) (b, bs) (inl same, os) = (inl same, go ds bs os)
    go (d ∷ ds) (b, bs) (inr apart, os) = (inr (ground (arith, apart, b, is)), go ds bs os)
advanced-Others limit c all executing is may o = absurd (ground arith)

abbrev permit : Claim → ℕ
permit c = if has_permit c.phase then 1 else 0

permits-put_claim :
    (c n : Claim) (cs : List Claim)
    → find_claim n.run_id cs ≡ some c
    → permits (put_claim n cs) + permit c ≡ permits cs + permit n
permits-put_claim c n [] found = absurd (ground arith)
permits-put_claim c n (x ∷ cs) found = elim (Bool-cases (x.run_id == n.run_id)) [
  | inl hit ↦
      let here : some x ≡ some c =
        subst (λ b. (if b then some x else find_claim n.run_id cs) ≡ some c) hit found in
      let same : x ≡ c = cc in
      subst
        (λ b.
          permits (if b then n ∷ cs else x ∷ put_claim n cs) + permit c
          ≡ permits (x ∷ cs) + permit n)
        (sym hit) (omega (arith, ap permit same))
  | inr miss ↦
      let there : find_claim n.run_id cs ≡ some c =
        subst (λ b. (if b then some x else find_claim n.run_id cs) ≡ some c) miss found in
      subst
        (λ b.
          permits (if b then n ∷ cs else x ∷ put_claim n cs) + permit c
          ≡ permits (x ∷ cs) + permit n)
        (sym miss) (omega (arith, permits-put_claim c n cs there))
]

-- A permit is taken only where one is free.
advanced-permits :
    (limit : ℕ) (c : Claim) (all : List Claim) (phase : Phase)
    → c.phase ≡ phase
    → may_advance limit all c phase ≡ true
    → permits all ≤ limit
    → permits all + permit (record c { phase = next phase }) ≤ limit + permit c
unfolding may_advance
advanced-permits limit c all waiting is may room = omega arith
advanced-permits limit c all holding is may room = ground arith
advanced-permits limit c all permitted is may room = ground (arith, is)
advanced-permits limit c all executing is may room = absurd (ground arith)

keep-AllApart :
    (id : ℕ) (cs : List Claim) → AllApart cs → AllApart (keep (λ c. not (c.run_id == id)) cs)
keep-AllApart id [] a = tt
keep-AllApart id (c ∷ cs) (h, a) =
    if_cases AllApart (not (c.run_id == id)) (λ _. (front cs h, keep-AllApart id cs a))
      (λ _. keep-AllApart id cs a)
  where
    front :
        (ds : List Claim) → All (Apart c) ds → All (Apart c) (keep (λ d. not (d.run_id == id)) ds)
    front [] hs = tt
    front (d ∷ ds) hs =
        if_cases (All (Apart c)) (not (d.run_id == id)) (λ _. (hs.0, front ds hs.1))
          (λ _. front ds hs.1)

permits-keep : (p : Claim → Bool) (cs : List Claim) → permits (keep p cs) ≤ permits cs
permits-keep p [] = omega arith
permits-keep p (c ∷ cs) =
    if_cases (λ ds. permits ds ≤ permits (c ∷ cs)) (p c) (λ _. omega (arith, permits-keep p cs))
      (λ _. omega (arith, permits-keep p cs))

entered-Apart :
    (c : Claim) (cs : List Claim)
    → c.phase ≡ waiting
    → All (λ (d : Claim). (d.run_id == c.run_id) ≡ false) cs
    → All (Apart c) cs
entered-Apart c [] is h = tt
entered-Apart c (d ∷ ds) is h = (ground (arith, is, h.0), entered-Apart c ds is h.1)

advance-IsExclusive :
    (limit id : ℕ) (c : Claim) (cs : List Claim)
    → IsExclusive limit cs
    → find_claim id cs ≡ some c
    → may_advance limit cs c c.phase ≡ true
    → IsExclusive limit (put_claim (record c { phase = next c.phase }) cs)
advance-IsExclusive limit id c cs (a, room) found may =
    let (own, os) = find_claim-Others id c cs a found in
    let n = record c { phase = next c.phase } in
    let here : find_claim c.run_id cs ≡ some c =
      subst (λ k. find_claim k cs ≡ some c) (sym own) found in
    (
      put_claim-AllApart n cs a (advanced-Others limit c cs c.phase refl may os),
      omega
          (arith, permits-put_claim c n cs here, advanced-permits limit c cs c.phase refl may room),
    )

happen-IsExclusive :
    (limit : ℕ) (e : Event) (cs : List Claim)
    → IsExclusive limit cs
    → IsExclusive limit (happen limit e cs)
unfolding happen
happen-IsExclusive limit (enters id key source_id) cs (a, room) =
    if_cases (IsExclusive limit) (any (λ (c : Claim). c.run_id == id) cs) (λ _. (a, room))
      (λ fresh. (
        (
          entered-Apart (record { run_id = id; key = key; source_id = source_id; phase = waiting })
              cs refl (any-All (λ c. c.run_id == id) cs fresh),
          a,
        ),
        omega arith,
      ))
happen-IsExclusive limit (advances id) cs w = elim (Option-cases (find_claim id cs)) [
  | inl absent ↦ rw (absent, happen) w
  | inr (c, found) ↦
      rw (found, happen)
        (if_cases (IsExclusive limit) (may_advance limit cs c c.phase)
          (λ may. advance-IsExclusive limit id c cs w found may) (λ _. w))
]
happen-IsExclusive limit (leaves id) cs (a, room) = (
  keep-AllApart id cs a,
  omega (arith, permits-keep (λ (c : Claim). not (c.run_id == id)) cs, room),
)

-- From runs that do not clash, with no more permits taken than the limit: whatever runs enter, advance
-- and leave, in whatever order, it stays so. Runs that hold a destination have destinations of which
-- none contains another, and those that execute have different sources.
pub happen_all-IsExclusive :
    (limit : ℕ) (es : List Event) (cs : List Claim)
    → IsExclusive limit cs
    → IsExclusive limit (happen_all limit es cs)
unfolding happen_all
happen_all-IsExclusive limit [] cs w = w
happen_all-IsExclusive limit (e ∷ es) cs w =
    happen_all-IsExclusive limit es (happen limit e cs) (happen-IsExclusive limit e cs w)
