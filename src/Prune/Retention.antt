-- ===== src/Prune/Retention.antt =====
-- For which snapshots the prune of services/runner.py starts a destruction.
use pullbackup.Base.{
  ℕ, ◌≤◌, ◌≡◌, ◌≢◌, ◌⊎◌, min2, refl, ap, String, true, List, [], ◌∷◌, ◌++◌, Option, some,
  text_comparable, nat_comparable, Option-cases, inl, inr, All, length,
}
use pullbackup.Base.Text.{starts_with}
use pullbackup.Models.{Instant, ℤ}
use pullbackup.Names.{is_dataset}
use pullbackup.Prune.{
  Process, Waited, result, late, stopped, forever, wait_bounded, Zfs, complete, Pruned,
  after_destroy, destroy_all, hourly_prefix, hourly_snaps,
}
use pullbackup.Commands.Boundary.{BelowRoot}
use mathlib.Core.List.{map}

-- The listing that a prune reads: the output of the listing that ends in time.
abbrev pub Listed : Zfs → String → Option Instant → Instant → String → Type 0
Listed zfs dataset deadline now output =
    (process : Process String) × (zfs.list dataset now ≡ some process)
    × (later : Instant) × (wait_bounded process deadline now ≡ result output later)

-- The snapshots for which a destruction was started begin a list; if the loop is done, they are all of
-- it, and each has its line in the log.
abbrev pub Begins : List String → Pruned → Type 0
Begins snaps p =
    (rest : List String) × (snaps ≡ p.asked ++ rest)
    × ((p.stop ≢ complete) ⊎ ((rest ≡ []) × (map (λ l. l.0) p.log ≡ p.asked)))

after_destroy-Begins :
    (s : String) (snaps : List String) (go_on : Instant → Pruned)
    → ((later : Instant) → Begins snaps (go_on later))
    → (w : Waited (ℤ × String)) (now : Instant) → Begins (s ∷ snaps) (after_destroy s go_on w now)
unfolding after_destroy
after_destroy-Begins s snaps go_on ih (result (code, output) later) now =
    let (rest, same, done) = ih later in
    (
      rest,
      ap (λ xs. s ∷ xs) same,
      elim done [
        | inl not_done ↦ inl not_done
        | inr (all, logged) ↦ inr (all, ap (λ xs. s ∷ xs) logged)
      ],
    )
after_destroy-Begins s snaps go_on ih (late later) now = (snaps, refl, inl (λ h. cc))
after_destroy-Begins s snaps go_on ih (stopped later) now = (snaps, refl, inl (λ h. cc))
after_destroy-Begins s snaps go_on ih forever now = (snaps, refl, inl (λ h. cc))

pub destroy_all-Begins :
    (zfs : Zfs) (deadline : Option Instant) (snaps : List String) (now : Instant)
    → Begins snaps (destroy_all zfs deadline snaps now)
unfolding destroy_all
destroy_all-Begins zfs deadline [] now = ([], refl, inr (refl, refl))
destroy_all-Begins zfs deadline (s ∷ snaps) now = elim (Option-cases (zfs.destroy s now)) [
  | inl absent ↦ rw (absent, destroy_all) (s ∷ snaps, refl, inl (λ h. cc))
  | inr (process, started) ↦
      rw (started, destroy_all)
        (after_destroy-Begins s snaps _ (λ later. destroy_all-Begins zfs deadline snaps later)
          (wait_bounded process deadline now) now)
]

-- The hourly snapshots of a listing are those for which a destruction was started and then those that
-- were not touched, which are as many as are to be kept, or all that there are; and just so many if the
-- prune is done, which then has a line in its log for each of the others.
abbrev pub Retains : ℕ → List String → Pruned → Type 0
Retains retention snaps p =
    (kept : List String) × (snaps ≡ p.asked ++ kept)
    × (min2 retention (length snaps) ≤ length kept)
    × ((p.stop ≢ complete)
        ⊎ ((length kept ≡ min2 retention (length snaps)) × (map (λ l. l.0) p.log ≡ p.asked)))

-- A prune that destroyed something, or that is done.
pub record Sound (roots : List String) (zfs : Zfs) (dataset : String) (retention : ℕ)
    (deadline : Option Instant) (now : Instant) (p : Pruned) : Type 0 where
  pub output : String
  pub listed : Listed zfs dataset deadline now output
  pub named : is_dataset dataset ≡ true
  pub below : BelowRoot roots dataset
  pub retained : Retains retention (hourly_snaps dataset output) p
  pub hourly : All (λ s. starts_with s (hourly_prefix dataset) ≡ true) p.asked

module _ (roots : List String) (zfs : Zfs) (dataset : String) (retention : ℕ)
    (deadline : Option Instant) (now : Instant) where
  abbrev pub HarmlessOrSound : Pruned → Type 0
  HarmlessOrSound p =
      ((p.asked ≡ []) × (p.stop ≢ complete)) ⊎ Sound roots zfs dataset retention deadline now p
