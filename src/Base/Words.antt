-- ===== src/Base/Words.antt =====
-- Python's `split`, `strip`, `splitlines` and `len` on `str`, and numbers as text.
use Prim.Native.Nat.{ℕ, zero, suc, ◌+◌, ◌/◌, ◌%◌}
use Prim.Native.Char.{Char, code}
use Prim.Native.String.{String, slice, ◌++◌}
use mathlib.Core.Bool.{Bool, ◌||◌, ◌&&◌, not}
use mathlib.Core.List.{List, [], ◌∷◌, map}
use pullbackup.Base.Tests.{ltb, leb, ◌==◌, nat_comparable, text_comparable, if◌then◌else◌}
use pullbackup.Base.Lists.{any, keep}

-- `len(s)`, in characters.
unfoldable pub text_length : String → ℕ
text_length String.[] = 0
text_length (String.◌∷◌ c s) = suc (text_length s)

-- The parts of a text between the characters that a test picks.
unfoldable pub split_by : (Char → Bool) → String → String → List String
split_by separates part String.[] = part ∷ []
split_by separates part (String.◌∷◌ c s) =
    let next = split_by separates "" s in
    let longer = split_by separates (part ++ String.◌∷◌ c "") s in
    if separates c then part ∷ next else longer

-- `str.split(separator)` for one character, given by its code.
unfoldable pub split_on : ℕ → String → List String
unfolding split_by
split_on separator s = split_by (λ c. code c == separator) "" s

-- `str.isspace` on one character.
unfoldable pub is_space : Char → Bool
is_space c =
    let k = code c in
    (leb 9 k && leb k 13)
    || (leb 28 k && leb k 32)
    || (leb 8192 k && leb k 8202)
    || any (λ n. k == n) (133 ∷ 160 ∷ 5760 ∷ 8232 ∷ 8233 ∷ 8239 ∷ 8287 ∷ 12288 ∷ [])

-- The characters that `splitlines` splits at.
unfoldable pub is_line_break : Char → Bool
is_line_break c =
    let k = code c in
    (leb 10 k && leb k 13) || (leb 28 k && leb k 30) || any (λ n. k == n) (133 ∷ 8232 ∷ 8233 ∷ [])

unfoldable pub strip_left : String → String
unfolding is_space
strip_left String.[] = ""
strip_left (String.◌∷◌ c s) = let rest = strip_left s in if is_space c then rest else String.◌∷◌ c s

unfoldable pub strip_right : String → String
unfolding is_space
strip_right String.[] = ""
strip_right (String.◌∷◌ c s) =
    let rest = strip_right s in if is_space c && rest == "" then "" else String.◌∷◌ c rest

-- `str.strip()`
unfoldable pub strip : String → String
unfolding strip_left strip_right
strip s = strip_right (strip_left s)

-- `[p.strip() for p in s.split(separator) if p.strip()]`
unfoldable pub stripped_parts : ℕ → String → List String
unfolding split_on strip
stripped_parts separator s = keep (λ p. not (p == "")) (map strip (split_on separator s))

-- `str.split()`
unfoldable pub words : String → List String
unfolding split_by is_space
words s = keep (λ p. not (p == "")) (split_by is_space "" s)

-- The lines of `splitlines()` that are not blank, stripped. That "\r\n" ends one line and not two
-- makes no difference to them.
unfoldable pub stripped_lines : String → List String
unfolding split_by is_line_break strip
stripped_lines s = keep (λ p. not (p == "")) (map strip (split_by is_line_break "" s))

-- The last `fuel` digits of a number.
digits : ℕ → ℕ → String → String
digits zero n rest = rest
digits (suc fuel) n rest =
    let longer = digits fuel (n / 10) (slice "0123456789" (n % 10) (n % 10 + 1) ++ rest) in
    if ltb n 10 then slice "0123456789" n (n + 1) ++ rest else longer

-- `str(n)`. A number has no more digits than its value, and one.
unfoldable pub decimal : ℕ → String
unfolding digits
decimal n = digits (suc n) n ""
