-- ===== src/Base/Fields.antt =====
-- Python's `partition`, `strip(chars)` and `lower` on `str`, as the reading of headers uses them.
use Prim.Native.Nat.{ℕ, ◌-◌, ◌*◌}
use Prim.Native.Char.{Char, code}
use Prim.Native.String.{String, slice, ◌++◌}
use mathlib.Core.Path.{◌≡◌, refl, sym, ap, ◌∙◌, subst}
use mathlib.Core.Logic.{inl, inr}
use mathlib.Core.Bool.{Bool, false, ◌||◌, ◌&&◌, not}
use mathlib.Core.Option.{Option, none, some}
use text.Mathlib.TextLemmas.{nil-append, cons-append}
use native.Mathlib.Omega.{arith}
use pullbackup.Base.Tests.{
  leb, ◌==◌, nat_comparable, text_comparable, if◌then◌else◌, if_cases, Bool-cases,
}

-- `any(test(char) for char in s)`
unfoldable pub any_char : (Char → Bool) → String → Bool
any_char test String.[] = false
any_char test (String.◌∷◌ c s) = test c || any_char test s

-- `char in s`, for the character of a code.
unfoldable pub has_char : ℕ → String → Bool
unfolding any_char
has_char n s = any_char (λ c. code c == n) s

-- `s.partition(separator)` for one character, `none` where the separator is not found.
unfoldable pub cut : ℕ → String → Option (String × String)
cut n String.[] = none
cut n (String.◌∷◌ c s) =
    let later = cut n s in
    if code c == n
    then some ("", s)
    else elim later [ none ↦ none | some (before, after) ↦ some (String.◌∷◌ c before, after) ]

-- `s.strip(chars)`, for the characters that a test picks.
unfoldable pub strip_left_of : (Char → Bool) → String → String
strip_left_of test String.[] = ""
strip_left_of test (String.◌∷◌ c s) =
    let rest = strip_left_of test s in if test c then rest else String.◌∷◌ c s

unfoldable pub strip_right_of : (Char → Bool) → String → String
strip_right_of test String.[] = ""
strip_right_of test (String.◌∷◌ c s) =
    let rest = strip_right_of test s in if test c && rest == "" then "" else String.◌∷◌ c rest

unfoldable pub strip_quotes : String → String
unfolding strip_left_of strip_right_of
strip_quotes s = strip_right_of (λ c. code c == 34) (strip_left_of (λ c. code c == 34) s)

-- One character of `lower`, for a character of Latin-1.
lower_char : Char → String
lower_char c =
    let k = code c in
    if leb 65 k && leb k 90
    then slice "abcdefghijklmnopqrstuvwxyz" (k - 65) (k - 64)
    else if leb 192 k && leb k 222 && not (k == 215)
    then slice "àáâãäåæçèéêëìíîïðñòóôõö÷øùúûüýþ" (2 * (k - 192)) (2 * (k - 191))
    else String.◌∷◌ c ""

-- `s.lower()`, for a text of Latin-1, as which a header is decoded.
unfoldable pub lower : String → String
unfolding lower_char
lower String.[] = ""
lower (String.◌∷◌ c s) = lower_char c ++ lower s

-- The two cases of `cut`, and the conditional that chooses.
cut_here : (n : ℕ) (c : Char) (s : String) → code c ≡ n → cut n (String.◌∷◌ c s) ≡ some ("", s)
unfolding cut
cut_here n c s e = if_cases (λ o. o ≡ some ("", s)) (code c == n) (λ _. refl) (λ no_. ground arith)

cut_later :
    (n : ℕ) (c : Char) (s before after : String)
    → (code c == n) ≡ false
    → cut n s ≡ some (before, after)
    → cut n (String.◌∷◌ c s) ≡ some (String.◌∷◌ c before, after)
unfolding cut
cut_later n c s before after other h = rw (other, cut) (rw h refl)

-- A text without the separator, the separator and a rest are cut into the two.
pub cut-append :
    (n : ℕ) (separator : Char) (s t : String)
    → code separator ≡ n
    → has_char n s ≡ false
    → cut n (s ++ String.◌∷◌ separator t) ≡ some (s, t)
unfolding has_char any_char
cut-append n separator String.[] t e h =
    rw (nil-append (String.◌∷◌ separator t)) (cut_here n separator t e)
cut-append n separator (String.◌∷◌ c s) t e h = rw (cons-append c s (String.◌∷◌ separator t)) (
    cut_later n c (s ++ String.◌∷◌ separator t) s t (ground arith)
      (cut-append n separator s t e (ground arith)))

-- What `cut` finds is the text: a part before a separator, and a part behind it.
abbrev pub IsCut : ℕ → String → String → String → Type 0
IsCut n s before after = (c : Char) × (code c ≡ n) × (s ≡ before ++ String.◌∷◌ c after)

found-IsCut :
    {n : ℕ} (s : String) {b a before after : String}
    → ◌≡◌ {A = Option (String × String)} (some (b, a)) (some (before, after))
    → IsCut n s b a
    → IsCut n s before after
found-IsCut {n} s {b} {a} {before} {after} h w =
    let e : b ≡ before = cc in
    let f : a ≡ after = cc in subst (λ x. IsCut n s x after) e (subst (λ y. IsCut n s b y) f w)

longer-IsCut :
    (n : ℕ) (c : Char) (s before after : String)
    → IsCut n s before after
    → IsCut n (String.◌∷◌ c s) (String.◌∷◌ c before) after
longer-IsCut n c s before after (d, e, h) =
    (d, e, ap (String.◌∷◌ c) h ∙ sym (cons-append c before (String.◌∷◌ d after)))

-- Behind the first character.
later-IsCut :
    (n : ℕ) (c : Char) (s before after : String)
    → ((b a : String) → cut n s ≡ some (b, a) → IsCut n s b a)
    → (later : Option (String × String)) → cut n s ≡ later
    → (elim later as (λ _. Option (String × String)) [
      | none ↦ none
      | some (b, a) ↦ some (String.◌∷◌ c b, a)
    ])
      ≡ some (before, after)
    → IsCut n (String.◌∷◌ c s) before after
later-IsCut n c s before after hyp none e h = cc
later-IsCut n c s before after hyp (some (b, a)) e h =
    found-IsCut (String.◌∷◌ c s) h (longer-IsCut n c s b a (hyp b a e))

cut_rest :
    (n : ℕ) (c : Char) (s : String)
    → (code c == n) ≡ false
    → (elim (cut n s) as (λ _. Option (String × String)) [
      | none ↦ none
      | some (b, a) ↦ some (String.◌∷◌ c b, a)
    ])
      ≡ cut n (String.◌∷◌ c s)
unfolding cut
cut_rest n c s other = rw (other, cut) refl

pub cut-IsCut :
    (n : ℕ) (s before after : String) → cut n s ≡ some (before, after) → IsCut n s before after
unfolding cut
cut-IsCut n String.[] before after h = cc
cut-IsCut n (String.◌∷◌ c s) before after h = elim (Bool-cases (code c == n)) [
  | inl here ↦
      let e : code c ≡ n = ground arith in
      found-IsCut (String.◌∷◌ c s) (sym (cut_here n c s e) ∙ h)
        (c, e, sym (nil-append (String.◌∷◌ c s)))
  | inr other ↦
      later-IsCut n c s before after (λ b a. cut-IsCut n s b a) (cut n s) refl
        (cut_rest n c s other ∙ h)
]
