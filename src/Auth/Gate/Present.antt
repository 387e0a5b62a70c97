-- ===== src/Auth/Gate/Present.antt =====
-- Basic credentials as a client presents them, against `_authorized` of http_auth.py.
use Prim.Native.Char.{Char}
use pullbackup.Base.{
  ◌≡◌, refl, subst, sym, ◌∙◌, String, Bool, true, false, Option, none, some, ◌==◌, text_comparable,
  arith,
}
use pullbackup.Base.Text.{◌+s◌}
use pullbackup.Base.Fields.{any_char, has_char, cut, lower, cut-append, IsCut, cut-IsCut}
use pullbackup.Auth.Gate.{
  Credential, Crypto, valid_configuration, constant_time_equal, matches, matches_encoded,
  authorized,
}

abbrev pub blank : Char
blank = " "

abbrev pub colon : Char
colon = ":"

-- "Basic " and the encoding of name and password, as RFC 7617 has it.
abbrev pub basic_header : Crypto → Credential → String
basic_header crypto c =
    "Basic" +s String.◌∷◌ blank (crypto.encode (c.username +s String.◌∷◌ colon c.password))

no_colon : (c : Credential) → valid_configuration c ≡ true → has_char 58 c.username ≡ false
unfolding valid_configuration
no_colon c h = ground arith

basic_unbroken : has_char 32 "Basic" ≡ false
unfolding has_char any_char
basic_unbroken = refl

same_digest :
    (crypto : Crypto) (c : Credential) → matches crypto c (some (c.username, c.password)) ≡ true
unfolding matches constant_time_equal
same_digest crypto c =
    let same : (s : String) → (s == s) ≡ true = λ s. (text_comparable.same_iff s s).1 refl in
    rw (same (crypto.digest c.username)) (same (crypto.digest c.password))

encoded_matches :
    (crypto : Crypto) (c : Credential)
    → valid_configuration c ≡ true
    → (elim (crypto.decode (crypto.encode (c.username +s String.◌∷◌ colon c.password)))
        as (λ _. Bool) [ none ↦ false | some decoded ↦ matches crypto c (cut 58 decoded) ])
      ≡ true
encoded_matches crypto c h =
    rw (crypto.decode-encode (c.username +s String.◌∷◌ colon c.password))
      (rw (cut-append 58 colon c.username c.password refl (no_colon c h)) (same_digest crypto c))

-- The configured credential, presented as basic credentials, is accepted, if the configuration is
-- valid.
pub authorized-basic_header :
    (crypto : Crypto) (c : Credential)
    → valid_configuration c ≡ true
    → authorized crypto c (basic_header crypto c) ≡ true
unfolding authorized matches_encoded lower
authorized-basic_header crypto c h =
    subst (λ o. matches_encoded crypto c o ≡ true)
      (sym (
        cut-append 32 blank "Basic" (crypto.encode (c.username +s String.◌∷◌ colon c.password)) refl
          basic_unbroken))
      (encoded_matches crypto c h)

-- A header that shows, behind a scheme that is "basic" but for case and a blank, the encoding of a name,
-- a colon and a password with the digests of the configured ones.
pub record Shows (crypto : Crypto) (c : Credential) (text : String) : Type 0 where
  pub scheme : String
  pub encoded : String
  pub decoded : String
  pub username : String
  pub password : String
  pub at_blank : IsCut 32 text scheme encoded
  pub is_basic : lower scheme ≡ "basic"
  pub is_decoded : crypto.decode encoded ≡ some decoded
  pub at_colon : IsCut 58 decoded username password
  pub same_name : crypto.digest username ≡ crypto.digest c.username
  pub same_password : crypto.digest password ≡ crypto.digest c.password

module _ (crypto : Crypto) (c : Credential) where
  matches_digests :
      (u p : String)
      → matches crypto c (some (u, p)) ≡ true
      → (crypto.digest u ≡ crypto.digest c.username) × (crypto.digest p ≡ crypto.digest c.password)
  unfolding matches constant_time_equal
  matches_digests u p h = (
    (text_comparable.same_iff _ _).0 (ground arith),
    (text_comparable.same_iff _ _).0 (ground arith),
  )

  decoded_steps :
      (o : Option String)
      → (elim o as (λ _. Bool) [ none ↦ false | some decoded ↦ matches crypto c (cut 58 decoded) ])
        ≡ true
      → (decoded : String) × (o ≡ some decoded) × (matches crypto c (cut 58 decoded) ≡ true)
  decoded_steps none h = cc
  decoded_steps (some decoded) h = (decoded, refl, h)

  encoded_steps :
      (scheme encoded : String) (b : Bool)
      → (lower scheme == "basic") ≡ b
      → matches_encoded crypto c (some (scheme, encoded)) ≡ true
      → (lower scheme ≡ "basic")
        × ((decoded : String) × (crypto.decode encoded ≡ some decoded)
            × (matches crypto c (cut 58 decoded) ≡ true))
  unfolding matches_encoded
  encoded_steps scheme encoded false e h = cc
  encoded_steps scheme encoded true e h = (
    (text_comparable.same_iff _ _).0 e,
    decoded_steps (crypto.decode encoded) (sym (rw (e, matches_encoded) refl) ∙ h),
  )

  matches_cut :
      (o : Option (String × String))
      → matches crypto c o ≡ true
      → (u : String) × (p : String) × (o ≡ some (u, p)) × (matches crypto c (some (u, p)) ≡ true)
  unfolding matches
  matches_cut none h = cc
  matches_cut (some (u, p)) h = (u, p, refl, h)

  encoded_cut :
      (o : Option (String × String))
      → matches_encoded crypto c o ≡ true
      → (scheme : String) × (encoded : String) × (o ≡ some (scheme, encoded))
        × (matches_encoded crypto c (some (scheme, encoded)) ≡ true)
  unfolding matches_encoded
  encoded_cut none h = cc
  encoded_cut (some (scheme, encoded)) h = (scheme, encoded, refl, h)

  -- Whatever is accepted shows the configured credential.
  pub authorized-Shows : (text : String) → authorized crypto c text ≡ true → Shows crypto c text
  unfolding authorized
  authorized-Shows text h =
      let (scheme, encoded, found, m) = encoded_cut (cut 32 text) h in
      let (basic, coded) = encoded_steps scheme encoded _ refl m in
      let (decoded, e, m') = coded in
      let (u, p, found', m'') = matches_cut (cut 58 decoded) m' in
      let (same_u, same_p) = matches_digests u p m'' in
      record {
        scheme = scheme;
        encoded = encoded;
        decoded = decoded;
        username = u;
        password = p;
        at_blank = cut-IsCut 32 text scheme encoded found;
        is_basic = basic;
        is_decoded = e;
        at_colon = cut-IsCut 58 decoded u p found';
        same_name = same_u;
        same_password = same_p;
      }
