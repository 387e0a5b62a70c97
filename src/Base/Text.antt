-- ===== src/Base/Text.antt =====
-- Python's operations on `str` that the services use: slicing, `in`, `startswith` and `repr`.
use Prim.Native.Nat.{ℕ, zero, suc, ◌+◌, ◌/◌, ◌%◌}
use Prim.Native.Char.{Char, code}
use Prim.Native.String.{String, slice, ◌++◌}
use mathlib.Core.Bool.{Bool, false, ◌||◌, ◌&&◌, not}
use text.Mathlib.Text.{starts_with as text_starts_with, find?}
use pullbackup.Base.Tests.{ltb, ◌==◌, nat_comparable, if◌then◌else◌}
use pullbackup.Base.Lists.{is_some}

-- `s.startswith(prefix)`
unfoldable pub starts_with : String → String → Bool
starts_with s prefix = text_starts_with s prefix

-- `needle in s`
unfoldable pub contains : String → String → Bool
contains needle s = is_some (find? s needle)

-- `s[:n]`, by characters.
unfoldable pub truncate : ℕ → String → String
truncate zero s = ""
truncate (suc n) String.[] = ""
truncate (suc n) (String.◌∷◌ c s) = String.◌∷◌ c (truncate n s)

infixr 65 ◌+s◌
abbrev pub ◌+s◌ : String → String → String
s +s t = s ++ t

has_code : ℕ → String → Bool
has_code n String.[] = false
has_code n (String.◌∷◌ c s) = code c == n || has_code n s

hex_digit : ℕ → String
hex_digit n = slice "0123456789abcdef" n (n + 1)

-- One character of `repr`, inside quotes of the code given.
escape : ℕ → Char → String
unfolding hex_digit
escape quote c =
    if code c == 92
    then "\\\\"
    else if code c == quote
    then String.◌∷◌ backslash (String.◌∷◌ c "")
    else if code c == 10
    then "\\n"
    else if code c == 13
    then "\\r"
    else if code c == 9
    then "\\t"
    else if ltb (code c) 32 || code c == 127
    then "\\x" ++ hex_digit (code c / 16) ++ hex_digit (code c % 16)
    else String.◌∷◌ c ""
  where
    backslash : Char
    backslash = "\\"

escape_all : ℕ → String → String
unfolding escape
escape_all quote String.[] = ""
escape_all quote (String.◌∷◌ c s) = escape quote c ++ escape_all quote s

-- `repr(s)`: double quotes are used if the text holds single ones and no double ones.
unfoldable pub repr : String → String
unfolding has_code escape_all
repr s =
    if has_code 39 s && not (has_code 34 s)
    then "\"" ++ escape_all 34 s ++ "\""
    else "'" ++ escape_all 39 s ++ "'"
