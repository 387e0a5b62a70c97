-- ===== src/Auth/Store/Eviction.antt =====
-- What the warnings of the store of http_auth.py count.
use pullbackup.Base.{ℕ, ◌+◌, ◌≡◌, refl, true, List, [], ◌∷◌, text_comparable, length, arith}
use pullbackup.Auth.Store.{Entry, Config, Store, warn, enforce_tiers, enforce_cap}
use pullbackup.Auth.Store.Work.{live}

module _ {V : Type 0} (c : Config V) where
  -- The entries of two tiers that have not expired at `wall`.
  abbrev pub alive : ℕ → List (Entry V) → List (Entry V) → ℕ
  alive wall es ps = length (live wall es) + length (live wall ps)

  enforce_tiers-alive :
      (wall : ℕ) (es ps : List (Entry V)) (warnings : ℕ)
      → c.warn_on_live_eviction ≡ true
      → let out = enforce_tiers c wall es ps warnings in
        alive wall out.0 out.1 + out.2 ≡ alive wall es ps + warnings
  unfolding enforce_tiers warn
  enforce_tiers-alive wall [] [] warnings on = refl
  enforce_tiers-alive wall [] (p ∷ ps) warnings on =
      ground (arith, enforce_tiers-alive wall [] ps (warn c wall p warnings) on)
  enforce_tiers-alive wall (e ∷ es) ps warnings on =
      ground (arith, enforce_tiers-alive wall es ps (warn c wall e warnings) on)

  -- Where the warning is switched on, enforcing the cap logs one message for each entry that it drops
  -- alive: entries alive and messages together stay as many as they were.
  pub enforce_cap-alive :
      (wall : ℕ) (s : Store V)
      → c.warn_on_live_eviction ≡ true
      → let out = enforce_cap c wall s in
        alive wall out.entries out.protected + out.warnings
        ≡ alive wall s.entries s.protected + s.warnings
  unfolding enforce_cap
  enforce_cap-alive wall s on = enforce_tiers-alive wall s.entries s.protected s.warnings on
