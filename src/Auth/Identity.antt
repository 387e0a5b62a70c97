-- ===== src/Auth/Identity.antt =====
-- backend/pullbackup/http_auth.py, `resolve_client_identity`: whom a failed login is charged to, with
-- the address parsing and the networks of `ipaddress` as parameters.
pub mod Walk
use Prim.Native.Char.{Char, code}
use Prim.Native.String.{String, ◌++◌}
use pullbackup.Base.{
  ℕ, Bool, true, false, List, [], ◌∷◌, Option, none, some, any, is_some, ◌==◌, nat_comparable,
  text_comparable, ◌||◌, if◌then◌else◌, not, keep,
}
use pullbackup.Base.Words.{stripped_parts}
use mathlib.Core.List.{reverse}

-- `ipaddress.ip_address`, which raises `ValueError` where `parse` is `none`, and `address in network`.
pub record Addresses : Type 1 where
  pub Address : Type 0
  pub Network : Type 0
  pub parse : String → Option Address
  pub member : Address → Network → Bool

-- `[h.strip() for h in forwarded_for.split(",") if h.strip()]`
unfoldable pub hops : String → List String
unfolding stripped_parts
hops forwarded_for = stripped_parts 44 forwarded_for

module _ (a : Addresses) where
  open a use {Network, parse, member}

  unfoldable pub is_trusted : String → List Network → Bool
  is_trusted address [] = false
  is_trusted address (n ∷ ns) = elim (parse address) [
    | none ↦ false
    | some parsed ↦ any (member parsed) (n ∷ ns)
  ]

  -- The walk over the hops, the nearest first.
  unfoldable pub walk : String → List Network → List String → String
  walk peer networks [] = peer
  walk peer networks (hop ∷ rest) =
      let farther = walk peer networks rest in
      elim (parse hop) [ none ↦ peer | some _ ↦ if is_trusted hop networks then farther else hop ]

  unfoldable pub resolve_peer : String → List Network → List String → String
  resolve_peer peer networks forwarded =
      if not (is_trusted peer networks) then peer else walk peer networks (reverse forwarded)

  unfoldable pub resolve_client_identity : Option String → String → List Network → String
  unfolding hops
  resolve_client_identity none forwarded_for networks = "unknown"
  resolve_client_identity (some peer) forwarded_for networks =
      if peer == "" then "unknown" else resolve_peer peer networks (hops forwarded_for)
