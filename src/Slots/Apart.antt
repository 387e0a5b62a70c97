-- ===== src/Slots/Apart.antt =====
-- Claims of services/runner.py that are apart from each other, in a list and after one is replaced.
use pullbackup.Base.{
  ◌⊎◌, ℕ, ◌≡◌, sym, ap, Bool, true, false, ◌&&◌, ◌||◌, List, [], ◌∷◌, some, ◌==◌, nat_comparable,
  if_cases, arith, All, inl, inr, Bool-cases,
}
use mathlib.Core.Path.{◌∙◌, subst}
use pullbackup.Destination.{Parts}
use pullbackup.Destination.Keys.{conflicts, conflicts_iff}
use pullbackup.Slots.{Claim, holds, is_executing, find_claim, put_claim}

-- Two claims that must not be there at the same time: of the same run, with destinations of which one
-- contains the other, or executing for the same source.
abbrev pub clash : Claim → Claim → Bool
clash c d =
    (d.run_id == c.run_id)
    || ((holds c.phase && (holds d.phase && conflicts c.key d.key))
        || (is_executing c.phase && (is_executing d.phase && d.source_id == c.source_id)))

abbrev pub Apart : Claim → Claim → Type 0
Apart c d = clash c d ≡ false

abbrev pub AllApart : List Claim → Type 0
AllApart [] = Unit {0}
AllApart (c ∷ cs) = All (Apart c) cs × AllApart cs

conflicts-sym : (l r : Parts) → conflicts l r ≡ conflicts r l
conflicts-sym l r = elim (Bool-cases (conflicts l r)) [
  | inl yes_left ↦
      let (path, in_l, in_r) = (conflicts_iff l r).0 yes_left in
      let both = (conflicts_iff r l).1 (path, in_r, in_l) in cc
  | inr no_left ↦ elim (Bool-cases (conflicts r l)) [
    | inl yes_right ↦
        let (path, in_r, in_l) = (conflicts_iff r l).0 yes_right in
        let both = (conflicts_iff l r).1 (path, in_l, in_r) in cc
    | inr no_right ↦ cc
  ]
]

Apart-sym : (c d : Claim) → Apart c d → Apart d c
Apart-sym c d h = ground (
  arith,
  conflicts-sym c.key d.key,
  nat_comparable.same_iff c.run_id d.run_id,
  nat_comparable.same_iff d.run_id c.run_id,
  nat_comparable.same_iff c.source_id d.source_id,
  nat_comparable.same_iff d.source_id c.source_id,
)

-- Every other claim is apart from one.
abbrev pub Others : Claim → List Claim → Type 0
Others n = All (λ (d : Claim). ((d.run_id == n.run_id) ≡ true) ⊎ Apart n d)

Others-of : (n : Claim) (cs : List Claim) → All (Apart n) cs → Others n cs
Others-of n [] h = tt
Others-of n (c ∷ cs) h = (inr h.0, Others-of n cs h.1)

-- Behind the claim that is replaced all others have another run.
strictly :
    (n c : Claim) (cs : List Claim)
    → (c.run_id == n.run_id) ≡ true
    → All (Apart c) cs
    → Others n cs
    → All (Apart n) cs
strictly n c [] same a o = tt
strictly n c (d ∷ cs) same (apart, a) (inr o, os) = (o, strictly n c cs same a os)
strictly n c (d ∷ cs) same (apart, a) (inl hit, os) = absurd (
    ground (
      arith,
      nat_comparable.same_iff c.run_id n.run_id,
      nat_comparable.same_iff d.run_id n.run_id,
      nat_comparable.same_iff d.run_id c.run_id,
    ))

put_claim-All :
    (P : Claim → Type 0) (n : Claim) (cs : List Claim) → P n → All P cs → All P (put_claim n cs)
put_claim-All P n [] p h = tt
put_claim-All P n (c ∷ cs) p h =
    if_cases (All P) (c.run_id == n.run_id) (λ _. (p, h.1)) (λ _. (h.0, put_claim-All P n cs p h.1))

pub put_claim-AllApart :
    (n : Claim) (cs : List Claim) → AllApart cs → Others n cs → AllApart (put_claim n cs)
put_claim-AllApart n [] a o = tt
put_claim-AllApart n (c ∷ cs) (h, a) (o, os) =
    if_cases AllApart (c.run_id == n.run_id) (λ same. (strictly n c cs same h os, a))
      (λ other. (put_claim-All (Apart c) n cs (front other o) h, put_claim-AllApart n cs a os))
  where
    front : (c.run_id == n.run_id) ≡ false → ((c.run_id == n.run_id) ≡ true) ⊎ Apart n c → Apart c n
    front other (inl same) = cc
    front other (inr apart) = Apart-sym n c apart

-- A claim in the list is apart from all the others.
pub find_claim-Others :
    (id : ℕ) (c : Claim) (cs : List Claim)
    → AllApart cs
    → find_claim id cs ≡ some c
    → (c.run_id ≡ id) × Others c cs
find_claim-Others id c [] a found = absurd (ground arith)
find_claim-Others id c (x ∷ cs) (h, a) found =
    if_cases (λ o. o ≡ some c → (c.run_id ≡ id) × Others c (x ∷ cs)) (x.run_id == id)
      (λ hit here.
        let same : x ≡ c = cc in
        (
          sym (ap (λ (y : Claim). y.run_id) same) ∙ (nat_comparable.same_iff x.run_id id).0 hit,
          (
            inl (ground (arith, ap (λ (y : Claim). y.run_id) same)),
            subst (λ y. Others y cs) same (Others-of x cs h),
          ),
        ))
      (λ miss there.
        let (own, os) = find_claim-Others id c cs a there in
        (own, (inr (Apart-sym x c (find_claim-All (Apart x) id c cs h there)), os)))
      found
  where
    find_claim-All :
        (P : Claim → Type 0) (k : ℕ) (d : Claim) (ds : List Claim)
        → All P ds
        → find_claim k ds ≡ some d
        → P d
    find_claim-All P k d [] hs here = absurd (ground arith)
    find_claim-All P k d (y ∷ ds) hs here =
        if_cases (λ o. o ≡ some d → P d) (y.run_id == k)
          (λ _ e. let same : y ≡ d = cc in subst P same hs.0)
          (λ _ e. find_claim-All P k d ds hs.1 e) here
