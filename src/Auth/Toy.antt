-- ===== src/Auth/Toy.antt =====
-- A signer and a hash that compute, for the examples on http_auth.py and api/auth.py.
use Prim.Native.Char.{code}
use pullbackup.Base.{
  ℕ, zero, suc, ◌≡◌, refl, ap, String, Bool, true, false, Option, none, some, ◌==◌, nat_comparable,
  text_comparable, if◌then◌else◌, Bool-cases, inl, inr,
}
use pullbackup.Models.{Instant}
use pullbackup.Auth.Session.{Payload, object, Signer}
use pullbackup.Auth.Gate.{Crypto, Credential}

-- A signer that writes the instant of issue in strokes before a full stop and the identifier.
abbrev pub strokes : ℕ → String → String
strokes zero sid = String.◌∷◌ "." sid
strokes (suc n) sid = String.◌∷◌ "x" (strokes n sid)

abbrev pub one_more : Option (Payload × Instant) → Option (Payload × Instant)
one_more none = none
one_more (some (p, at)) = some (p, suc at)

abbrev pub read_strokes : String → Option (Payload × Instant)
read_strokes String.[] = none
read_strokes (String.◌∷◌ c s) =
    let rest = read_strokes s in
    if code c == 46
    then some (object (some s), 0)
    else if code c == 120
    then one_more rest
    else none

pub read_strokes-strokes :
    (sid : String) (n : ℕ) → read_strokes (strokes n sid) ≡ some (object (some sid), n)
read_strokes-strokes sid zero = refl
read_strokes-strokes sid (suc n) = ap one_more (read_strokes-strokes sid n)

abbrev pub is_blank : String → Bool
is_blank String.[] = true
is_blank (String.◌∷◌ c s) = false

pub strokes-nonblank : (sid : String) (n : ℕ) → is_blank (strokes n sid) ≡ false
strokes-nonblank sid zero = refl
strokes-nonblank sid (suc n) = refl

pub nonblank : (s : String) → is_blank s ≡ false → (s == "") ≡ false
nonblank s h = elim (Bool-cases (s == "")) [
  | inl same ↦ cc (ap is_blank ((text_comparable.same_iff s "").0 same), h)
  | inr other ↦ other
]

abbrev pub toy_signer : Signer
toy_signer = record {
  loads = read_strokes;
  dumps = λ sid at. strokes at sid;
  loads-dumps = λ sid at. read_strokes-strokes sid at;
  dumps-nonempty = λ sid at. nonblank (strokes at sid) (strokes-nonblank sid at);
}

-- Texts as their own digests and encodings.
abbrev pub toy_crypto : Crypto
toy_crypto = record {
  digest = λ s. s;
  decode = λ s. some s;
  encode = λ s. s;
  decode-encode = λ s. refl;
}

abbrev pub operator : Credential
operator = record { username = "operator"; password = "0123456789abcdef0123456789abcdef" }
