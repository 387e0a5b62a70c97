-- ===== src/Base/Plain.antt =====
-- Texts without a character stay whole under the operations that split or strip at it.
use Prim.Native.Char.{Char, code}
use Prim.Native.String.{String, ◌++◌}
use text.Mathlib.TextLemmas.{nil-append, cons-append, append-nil, append_assoc}
use mathlib.Core.Path.{◌≡◌, refl, ap, ◌∙◌}
use mathlib.Core.Bool.{Bool, false, ◌||◌}
use mathlib.Core.List.{[], ◌∷◌}
use native.Mathlib.Omega.{arith}
use pullbackup.Base.Tests.{◌==◌, text_comparable, nat_comparable}
use pullbackup.Base.Words.{is_space, split_by, strip_left, strip_right, strip}
use pullbackup.Base.Fields.{any_char, strip_left_of, strip_right_of, strip_quotes}

module _ (test : Char → Bool) where
  pub split_by-unbroken :
      (part s : String) → any_char test s ≡ false → split_by test part s ≡ (part ++ s) ∷ []
  unfolding split_by any_char
  split_by-unbroken part String.[] h = rw (append-nil part) refl
  split_by-unbroken part (String.◌∷◌ c s) h =
      let longer = split_by-unbroken (part ++ String.◌∷◌ c "") s (ground arith) in
      let joined =
        append_assoc part (String.◌∷◌ c "") s
        ∙ ap (λ t. part ++ t) (cons-append c "" s ∙ ap (String.◌∷◌ c) (nil-append s)) in
      let here : test c ≡ false = ground arith in rw (here, longer, joined) refl

  strip_left_of-unbroken : (s : String) → any_char test s ≡ false → strip_left_of test s ≡ s
  unfolding strip_left_of any_char
  strip_left_of-unbroken String.[] h = refl
  strip_left_of-unbroken (String.◌∷◌ c s) h = ground arith

  strip_right_of-unbroken : (s : String) → any_char test s ≡ false → strip_right_of test s ≡ s
  unfolding strip_right_of any_char
  strip_right_of-unbroken String.[] h = refl
  strip_right_of-unbroken (String.◌∷◌ c s) h = ground (arith, strip_right_of-unbroken s)

strip_left-unbroken : (s : String) → any_char is_space s ≡ false → strip_left s ≡ s
unfolding strip_left any_char
strip_left-unbroken String.[] h = refl
strip_left-unbroken (String.◌∷◌ c s) h = ground arith

strip_right-unbroken : (s : String) → any_char is_space s ≡ false → strip_right s ≡ s
unfolding strip_right any_char
strip_right-unbroken String.[] h = refl
strip_right-unbroken (String.◌∷◌ c s) h = ground (arith, strip_right-unbroken s)

pub strip-unbroken : (s : String) → any_char is_space s ≡ false → strip s ≡ s
unfolding strip
strip-unbroken s h = ap strip_right (strip_left-unbroken s h) ∙ strip_right-unbroken s h

pub strip_quotes-unbroken :
    (s : String) → any_char (λ c. code c == 34) s ≡ false → strip_quotes s ≡ s
unfolding strip_quotes
strip_quotes-unbroken s h =
    ap (strip_right_of (λ c. code c == 34)) (strip_left_of-unbroken (λ c. code c == 34) s h)
    ∙ strip_right_of-unbroken (λ c. code c == 34) s h

-- The characters of two texts, one behind the other.
pub any_char-append :
    (test : Char → Bool) (s t : String)
    → any_char test (s ++ t) ≡ (any_char test s || any_char test t)
unfolding any_char
any_char-append test String.[] t = rw (nil-append t) refl
any_char-append test (String.◌∷◌ c s) t =
    rw (cons-append c s t, any_char-append test s t) (ground arith)
