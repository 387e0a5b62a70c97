-- ===== src/Destination/Containment.antt =====
-- Which root `_resolve_with_root` of services/fs.py binds a destination to.
use pullbackup.Base.{
  ◌≡◌, ◌≤◌, ◌↔◌, ◌⊎◌, refl, ap, sym, ◌∙◌, subst, String, true, false, List, [], ◌∷◌, Option, none,
  some, ltb, text_comparable, if◌then◌else◌, if_cases, length, keep, arith, Bool-cases,
  Option-cases, inl, inr, All,
}
use pullbackup.Destination.{Paths, Parts, contains_path, longest, bind_root, resolve_with_root}

-- The root is an entry of the list.
abbrev pub Among : Parts → List Parts → Type 0
Among root [] = ⊥
Among root (r ∷ roots) = (r ≡ root) ⊎ Among root roots

longest-none : (roots : List Parts) → longest roots ≡ none → roots ≡ []
unfolding longest
longest-none [] h = refl
longest-none (r ∷ roots) h = elim (Option-cases (longest roots)) [
  | inl e ↦ ground arith
  | inr (best, e) ↦ ground arith
]

longest-Among : (roots : List Parts) (best : Parts) → longest roots ≡ some best → Among best roots
unfolding longest
longest-Among [] best h = cc
longest-Among (r ∷ roots) best h = elim (Option-cases (longest roots)) [
  | inl e ↦ inl (ground arith)
  | inr (other, e) ↦ elim (Bool-cases (ltb (length r) (length other))) [
    | inl shorter ↦ inr (longest-Among roots best (ground arith))
    | inr longer ↦ inl (ground arith)
  ]
]

longest-le :
    (roots : List Parts) (best root : Parts)
    → longest roots ≡ some best
    → Among root roots
    → length root ≤ length best
unfolding longest
longest-le [] best root h a = absurd a
longest-le (r ∷ roots) best root h a = elim (Option-cases (longest roots)) [
  | inl e ↦ elim a [
    | inl same ↦ ground arith
    | inr later ↦ absurd (subst (Among root) (longest-none roots e) later)
  ]
  | inr (other, e) ↦ elim a [
    | inl same ↦ ground arith
    | inr later ↦ ground (arith, longest-le roots other root e later)
  ]
]

-- Roots that contain one path and are as long as each other are the same.
contains_path_unique :
    (r s path : Parts)
    → contains_path r path ≡ true
    → contains_path s path ≡ true
    → length r ≡ length s
    → r ≡ s
unfolding contains_path
contains_path_unique [] [] path h k e = refl
contains_path_unique [] (y ∷ s) path h k e = absurd (omega arith)
contains_path_unique (x ∷ r) [] path h k e = absurd (omega arith)
contains_path_unique (x ∷ r) (y ∷ s) [] h k e = cc
contains_path_unique (x ∷ r) (y ∷ s) (p ∷ path) h k e = ground (
  arith,
  text_comparable.same_iff x p,
  text_comparable.same_iff y p,
  contains_path_unique r s path,
)

abbrev containing : List Parts → Parts → List Parts
containing roots path = keep (λ root. contains_path root path) roots

containing-Among :
    (roots : List Parts) (path root : Parts)
    → Among root (containing roots path)
    → Among root roots × (contains_path root path ≡ true)
containing-Among [] path root a = absurd a
containing-Among (r ∷ roots) path root a = elim (Bool-cases (contains_path r path)) [
  | inl yes_ ↦
      elim (subst (λ b. Among root (if b then r ∷ containing roots path else containing roots path))
        yes_ a) [
          | inl same ↦ (inl same, ap (λ q. contains_path q path) (sym same) ∙ yes_)
          | inr later ↦ let (b, c) = containing-Among roots path root later in (inr b, c)
        ]
  | inr no_ ↦
      let (b, c) = containing-Among roots path root (
        subst (λ b. Among root (if b then r ∷ containing roots path else containing roots path)) no_
          a) in
      (inr b, c)
]

Among-containing :
    (roots : List Parts) (path root : Parts)
    → Among root roots
    → contains_path root path ≡ true
    → Among root (containing roots path)
Among-containing [] path root a c = a
Among-containing (r ∷ roots) path root (inl same) c =
    if_cases (Among root) (contains_path r path) (λ _. inl same)
      (λ no_. absurd (ground (arith, ap (λ q. contains_path q path) same)))
Among-containing (r ∷ roots) path root (inr later) c =
    if_cases (Among root) (contains_path r path)
      (λ _. inr (Among-containing roots path root later c))
      (λ _. Among-containing roots path root later c)

module _ (paths : Paths) where
  -- What a root has to be for the path: a configured one that contains it, and none that does is longer.
  pub record IsBound (roots : List Parts) (resolved root : Parts) : Type 0 where
    pub configured : Among root roots
    pub inside : contains_path root resolved ≡ true
    pub most_specific :
        All
          (λ (other : Parts). (contains_path other resolved ≡ false) ⊎ (length other ≤ length root))
          roots

  -- What holds of every root of a list.
  each_root :
      (P : Parts → Type 0) (roots : List Parts)
      → ((root : Parts) → Among root roots → P root)
      → All P roots
  each_root P [] h = tt
  each_root P (r ∷ roots) h = (h r (inl refl), each_root P roots (λ root a. h root (inr a)))

  shorter :
      (roots : List Parts) (path best other : Parts)
      → longest (containing roots path) ≡ some best
      → Among other roots
      → (contains_path other path ≡ false) ⊎ (length other ≤ length best)
  shorter roots path best other e a = elim (Bool-cases (contains_path other path)) [
    | inl inside ↦ inr (longest-le _ best other e (Among-containing roots path other a inside))
    | inr outside ↦ inl outside
  ]

  bind_root-IsBound :
      (roots : List Parts) (found : Option Parts) (resolved root : Parts)
      → bind_root paths roots found ≡ some (resolved, root)
      → IsBound roots resolved root
  unfolding bind_root
  bind_root-IsBound roots none resolved root h = cc
  bind_root-IsBound roots (some path) resolved root h =
      elim (Option-cases (longest (containing roots path))) [
        | inl e ↦ ground arith
        | inr (best, e) ↦
            let same_path : path ≡ resolved = ground arith in
            let same_root : best ≡ root = ground arith in
            let (a, c) = containing-Among roots path best (longest-Among _ best e) in
            subst (λ q. IsBound roots q root) same_path
              (subst (λ q. IsBound roots path q) same_root
                (record {
                  configured = a;
                  inside = c;
                  most_specific = each_root _ roots (λ other b. shorter roots path best other e b);
                }))
      ]

  -- The two lists hold the same roots, in whatever order and however often.
  abbrev pub SameRoots : List Parts → List Parts → Type 0
  SameRoots roots others = (root : Parts) → Among root roots ↔ Among root others

  no_root :
      (roots others : List Parts) (path best : Parts)
      → SameRoots roots others
      → longest (containing roots path) ≡ none
      → longest (containing others path) ≡ some best
      → ⊥
  no_root roots others path best same e f =
      let (a, c) = containing-Among others path best (longest-Among _ best f) in
      subst (Among best) (longest-none _ e) (Among-containing roots path best ((same best).1 a) c)

  one_root :
      (roots others : List Parts) (path best other : Parts)
      → SameRoots roots others
      → longest (containing roots path) ≡ some best
      → longest (containing others path) ≡ some other
      → best ≡ other
  one_root roots others path best other same e f =
      let (a, c) = containing-Among roots path best (longest-Among _ best e) in
      let (b, d) = containing-Among others path other (longest-Among _ other f) in
      let le = longest-le _ best other e (Among-containing roots path other ((same other).1 b) d) in
      let ge = longest-le _ other best f (Among-containing others path best ((same best).0 a) c) in
      contains_path_unique best other path c d (omega arith)

  bind_root-unordered :
      (roots others : List Parts) (found : Option Parts)
      → SameRoots roots others
      → bind_root paths roots found ≡ bind_root paths others found
  unfolding bind_root
  bind_root-unordered roots others none same = refl
  bind_root-unordered roots others (some path) same =
      elim (Option-cases (longest (containing roots path))) [
        | inl e ↦ elim (Option-cases (longest (containing others path))) [
          | inl f ↦ rw (e, bind_root) (rw (f, bind_root) refl)
          | inr (best, f) ↦ absurd (no_root roots others path best same e f)
        ]
        | inr (best, e) ↦ elim (Option-cases (longest (containing others path))) [
          | inl f ↦ absurd (no_root others roots path best (λ r. ((same r).1, (same r).0)) f e)
          | inr (other, f) ↦ ground (arith, one_root roots others path best other same e f)
        ]
      ]

  -- A destination that is accepted is bound to a configured root that contains it, the longest of
  -- those that do, whatever the order in which the roots are declared.
  pub resolve_with_root-IsBound :
      (roots others : List Parts) (path : String) (resolved root : Parts)
      → SameRoots roots others
      → resolve_with_root paths roots path ≡ some (resolved, root)
      → IsBound roots resolved root × (resolve_with_root paths others path ≡ some (resolved, root))
  unfolding resolve_with_root
  resolve_with_root-IsBound roots others path resolved root same h =
      let bound = bind_root-unordered roots others (paths.resolve path) same in
      elim (Option-cases (bind_root paths roots (paths.resolve path))) [
        | inl e ↦ absurd (ground arith)
        | inr (pair, e) ↦ (
          bind_root-IsBound roots (paths.resolve path) resolved root (ground arith),
          ground (arith, bound),
        )
      ]
