-- ===== src/Auth/Examples.antt =====
-- The theorems on http_auth.py at concrete inputs, and tests by evaluation.
use pullbackup.Base.{
  ◌≡◌, ◌⊎◌, false, refl, String, Bool, true, List, [], ◌∷◌, none, some, ◌==◌, nat_comparable,
  text_comparable, if◌then◌else◌, arith, inl,
}
use pullbackup.Base.Words.{
  stripped_parts, split_on, split_by, strip, strip_left, strip_right, is_space,
}
use pullbackup.Models.{Instant, seconds}
use pullbackup.Auth.Store.{
  Config, Entry, Store, empty, enforce_tiers, protected_cap, place, wants_protection, pop_key,
  sweep_tier, sweep, enforce_cap, new_entry, set, get,
}
use pullbackup.Auth.Store.Invariant.{IsValid}
use pullbackup.Auth.Store.Calls.{set-IsValid, empty-IsValid}
use pullbackup.Auth.Store.Flood.{set_all, get-set_all}
use pullbackup.Auth.Session.{revoked_config}
use pullbackup.Auth.Throttle.{login_config}
use pullbackup.Auth.Identity.{
  Addresses, hops, is_trusted, resolve_client_identity, resolve_peer, walk,
}
use mathlib.Core.List.{reverse}
use pullbackup.Auth.Identity.Walk.{Nearest, resolve_client_identity-walk}

-- A store of four sessions at most; it holds one that was revoked at second 10.
abbrev small : Config Bool
small = revoked_config (seconds 3600) 4

abbrev one_revoked : Store Bool
one_revoked = set small "sid_1" true (seconds 10) (seconds 10) empty

one_revoked-IsValid : IsValid small (seconds 10) one_revoked
one_revoked-IsValid =
    set-IsValid small "sid_1" true 0 (seconds 10) (seconds 10) empty (omega arith)
      (empty-IsValid small)

abbrev two_entries : List (Entry Bool)
two_entries =
    record { key = "a"; expires_at = 5; value = true }
    ∷ record { key = "b"; expires_at = 9; value = true }
    ∷ []

-- A locked out client, and two failures of others.
abbrev locked : List Instant
locked = 1 ∷ 2 ∷ 3 ∷ 4 ∷ 5 ∷ []

abbrev one_locked : Store (List Instant)
one_locked = set (login_config 2) "10.0.0.9" locked 5 5 empty

get-set_all_example :
    (get "10.0.0.9" 20 (
      set_all
        (login_config 2)
        (("a", 6 ∷ [], 6, 6) ∷ ("b", 7 ∷ [], 7, 7) ∷ ("c", 8 ∷ [], 8, 8) ∷ [])
        one_locked)).1
    ≡ some locked
unfolding set enforce_cap enforce_tiers place wants_protection pop_key sweep sweep_tier empty
    protected_cap
get-set_all_example =
    get-set_all (login_config 2) (new_entry (login_config 2) "10.0.0.9" locked 5) 5 20
      (("a", 6 ∷ [], 6, 6) ∷ ("b", 7 ∷ [], 7, 7) ∷ ("c", 8 ∷ [], 8, 8) ∷ []) one_locked
      (set-IsValid (login_config 2) "10.0.0.9" locked 0 5 5 empty (omega arith)
        (empty-IsValid (login_config 2)))
      (tt, inl (refl, tt))
      ((
        refl,
        refl,
        omega arith,
        omega arith,
        (refl, refl, omega arith, omega arith, (refl, refl, omega arith, omega arith, tt)),
      ))
      (omega arith)

-- Addresses are names that begin with "10", and the one network holds the proxy.
abbrev toy_addresses : Addresses
toy_addresses = record {
  Address = String;
  Network = String;
  parse = λ s. if s == "" then none else some s;
  member = λ address network. address == network;
}

resolve_client_identity-walk_example :
    ((is_trusted toy_addresses "proxy" ("proxy" ∷ []) ≡ false)
      × (resolve_client_identity toy_addresses (some "proxy") "liar, client, proxy" ("proxy" ∷ [])
          ≡ "proxy"))
    ⊎ ((is_trusted toy_addresses "proxy" ("proxy" ∷ []) ≡ true)
        × Nearest toy_addresses "proxy" ("proxy" ∷ []) (reverse (hops "liar, client, proxy")) (
            resolve_client_identity toy_addresses
              (some "proxy")
              "liar, client, proxy"
              ("proxy" ∷ [])))
resolve_client_identity-walk_example =
    resolve_client_identity-walk toy_addresses "proxy" "liar, client, proxy" ("proxy" ∷ []) refl

nearest_client :
    resolve_client_identity toy_addresses (some "proxy") "liar, client, proxy" ("proxy" ∷ [])
    ≡ "client"
unfolding resolve_client_identity resolve_peer walk hops stripped_parts split_on split_by strip
    strip_left strip_right is_space is_trusted
nearest_client = refl
