-- ===== src/Auth/Identity/Walk.antt =====
-- What a client can do about the identity that http_auth.py gives it.
use pullbackup.Base.{
  ◌≡◌, ◌⊎◌, inl, inr, refl, ap, not, if_cases, Bool-cases, ◌∙◌, String, true, false, List, [], ◌∷◌,
  ◌++◌, some, if◌then◌else◌, arith, All, is_some, ◌==◌, text_comparable, Option-cases,
}
use mathlib.Core.List.{reverse}
use pullbackup.Auth.Identity.{
  Addresses, is_trusted, walk, hops, resolve_peer, resolve_client_identity,
}

module _ (a : Addresses) where
  open a use {Network, parse}

  -- An address that is trusted, as the hops that our own proxies append are.
  abbrev pub IsProxy : List Network → String → Type 0
  IsProxy networks hop = is_trusted a hop networks ≡ true

  walk_past :
      (peer : String) (networks : List Network) (o : String) (rest : List String)
      → IsProxy networks o
      → walk a peer networks (o ∷ rest) ≡ walk a peer networks rest
  unfolding walk is_trusted
  walk_past peer [] o rest proxy = cc
  walk_past peer (n ∷ ns) o rest proxy = ground arith

  -- The nearest hop that is not one of ours decides, whatever is written farther away.
  walk-stops :
      (peer : String) (networks : List Network) (ours : List String) (hop : String)
      (rest : List String)
      → All (IsProxy networks) ours
      → is_trusted a hop networks ≡ false
      → walk a peer networks (ours ++ hop ∷ rest) ≡ (if is_some (parse hop) then hop else peer)
  unfolding walk is_trusted
  walk-stops peer networks [] hop rest all stranger = elim (Option-cases (parse hop)) [
    | inl e ↦ ground arith
    | inr (x, e) ↦ ground arith
  ]
  walk-stops peer networks (o ∷ ours) hop rest all stranger =
      walk_past peer networks o (ours ++ hop ∷ rest) all.0
      ∙ walk-stops peer networks ours hop rest all.1 stranger

  -- The nearest hop that is not one of ours, where there is one, and whom that makes the client: the hop
  -- if it is an address, and otherwise the peer, as also where all hops are ours or there are none.
  abbrev pub Nearest : String → List Network → List String → String → Type 0
  Nearest peer networks nearest_first client =
      (All (IsProxy networks) nearest_first × (client ≡ peer))
      ⊎ ((ours : List String) × (hop : String) × (claimed : List String) × (nearest_first
            ≡ ours ++ hop ∷ claimed)
          × All (IsProxy networks) ours
          × (is_trusted a hop networks ≡ false)
          × (client ≡ (if is_some (parse hop) then hop else peer)))

  walk-Nearest :
      (peer : String) (networks : List Network) (nearest_first : List String)
      → Nearest peer networks nearest_first (walk a peer networks nearest_first)
  unfolding walk
  walk-Nearest peer networks [] = inl (tt, refl)
  walk-Nearest peer networks (o ∷ rest) = elim (Bool-cases (is_trusted a o networks)) [
    | inr stranger ↦
        inr ([], o, rest, refl, tt, stranger, walk-stops peer networks [] o rest tt stranger)
    | inl proxy ↦
        let past = walk_past peer networks o rest proxy in
        elim (walk-Nearest peer networks rest) [
          | inl (all, same) ↦ inl ((proxy, all), past ∙ same)
          | inr (ours, hop, claimed, read, all, stranger, same) ↦
              inr (
                o ∷ ours,
                hop,
                claimed,
                ap (λ hs. o ∷ hs) read,
                (proxy, all),
                stranger,
                past ∙ same,
              )
        ]
  ]

  -- A peer that is not a trusted proxy is charged itself, whatever it forwards. Behind one it is the
  -- nearest hop that is not a trusted proxy, or the peer if that hop is no address or there is none: the
  -- hops that a client claims beyond it change nothing.
  pub resolve_client_identity-walk :
      (peer forwarded_for : String) (networks : List Network)
      → (peer == "") ≡ false
      → ((is_trusted a peer networks ≡ false)
          × (resolve_client_identity a (some peer) forwarded_for networks ≡ peer))
        ⊎ ((is_trusted a peer networks ≡ true)
            × Nearest peer networks
                (reverse (hops forwarded_for))
                (resolve_client_identity a (some peer) forwarded_for networks))
  unfolding resolve_client_identity resolve_peer
  resolve_client_identity-walk peer forwarded_for networks named =
      if_cases
        (λ client.
          ((is_trusted a peer networks ≡ false) × (client ≡ peer))
          ⊎ ((is_trusted a peer networks ≡ true)
              × Nearest peer networks (reverse (hops forwarded_for)) client))
        (peer == "") (λ empty. absurd (ground arith))
        (λ _.
          if_cases
            (λ client.
              ((is_trusted a peer networks ≡ false) × (client ≡ peer))
              ⊎ ((is_trusted a peer networks ≡ true)
                  × Nearest peer networks (reverse (hops forwarded_for)) client))
            (not (is_trusted a peer networks)) (λ stranger. inl (ground arith, refl))
            (λ proxy.
              inr (ground arith, walk-Nearest peer networks (reverse (hops forwarded_for)))))
