-- ===== src/Auth/Login/Attempt.antt =====
-- One login of a client through api/auth.py, on the throttle of http_auth.py: a wrong one that is let
-- through, one that is refused, and one that is tried.
use pullbackup.Base.{
  ℕ, ◌+◌, ◌≤◌, ◌<◌, ◌≡◌, inl, inr, refl, sym, ap, subst, ◌∙◌, String, true, false, not, List, [],
  ◌∷◌, ◌==◌, Option, none, some, nat_comparable, or_else, arith, if_cases, Option-cases,
  text_comparable, length, ltb, length-keep-le,
}
use mathlib.Core.Bool.{true≢false}
use pullbackup.Base.Words.{decimal}
use pullbackup.Models.{Instant}
use pullbackup.Auth.Store.Sub.{Sub-All}
use pullbackup.Auth.Store.Tiers.{sweep_tier-Sub}
use pullbackup.Auth.Store.Take.{none-Lacks}
use pullbackup.Auth.Store.{find_in, Store, Entry, new_entry, find, sweep, get}
use pullbackup.Auth.Store.Invariant.{IsValid, sweep-IsValid}
use pullbackup.Auth.Store.Lookup.{find_in-Lacks, Found, find-Found, sweep-Found, get-Found}
use pullbackup.Auth.Session.{Signer}
use pullbackup.Auth.Throttle.{
  login_config, login_lockout, append_failure, record_failed_login, recent, retry_after,
  login_throttle_retry_after,
}
use pullbackup.Auth.Throttle.Lockout.{Holds, record-Holds}
use pullbackup.Auth.Gate.{Crypto, valid_configuration}
use pullbackup.Auth.Login.{
  LoginRequest, Response, failed, Site, credentials_match, try_login, login_as,
}

few_failures :
    (now : ℕ) (failures : List Instant) → length failures < 5 → retry_after now failures ≡ 0
unfolding retry_after recent
few_failures now failures few =
    ground (arith, length-keep-le (λ t. ltb now (t + login_lockout)) failures)

-- The answer to a client that has to wait.
abbrev pub wait_answer : ℕ → Response
wait_answer wait =
    failed 429 "too many failed sign-in attempts" (("Retry-After", decimal wait) ∷ [])

module _ (signer : Signer) (crypto : Crypto) (site : Site) (client : String) where
  -- A failed login that the throttle lets through.
  wrong_login :
      (wrong : LoginRequest) (sid : String) (now wall : ℕ) (s : Store (List Instant))
      → valid_configuration site.credential ≡ true
      → credentials_match crypto site.credential wrong ≡ false
      → (login_throttle_retry_after client now s).1 ≡ 0
      → (login_as signer crypto site client wrong sid now wall s).0
        ≡ record_failed_login site.max_entries client now wall (sweep now s)
  unfolding login_as try_login login_throttle_retry_after get
  wrong_login wrong sid now wall s valid mismatch free =
      let lets : Store (List Instant) × Response → Type 0 =
        λ r. r.0 ≡ record_failed_login site.max_entries client now wall (sweep now s) in
      if_cases lets (not (valid_configuration site.credential))
        (λ bad. absurd (true≢false (sym valid ∙ ground arith)))
        (λ _.
          if_cases lets (not ((login_throttle_retry_after client now s).1 == 0))
            (λ busy. absurd (true≢false (ground arith)))
            (λ _.
              if_cases lets (not (credentials_match crypto site.credential wrong)) (λ _. refl)
                (λ match. absurd (true≢false (ground arith)))))

  -- What the throttle reads of a client whose failures the store holds.
  pub wait_of :
      (t now : ℕ) (failures : List Instant) (s : Store (List Instant))
      → now < t + login_lockout
      → Found
          (login_config site.max_entries)
          (new_entry (login_config site.max_entries) client failures t)
          s
      → (login_throttle_retry_after client now s).1 ≡ retry_after now failures
  unfolding login_throttle_retry_after
  wait_of t now failures s alive held =
      let c = login_config site.max_entries in
      ap (λ (o : Option (List Instant)). retry_after now (or_else o []))
        (get-Found c (new_entry c client failures t) now s alive held)

  wait_of_none :
      (now : ℕ) (s : Store (List Instant))
      → find client (sweep now s) ≡ none
      → (login_throttle_retry_after client now s).1 ≡ 0
  unfolding login_throttle_retry_after get
  wait_of_none now s absent = rw (absent, get) (few_failures now [] (omega arith))

  sweep_twice :
      (now : ℕ) (s : Store (List Instant))
      → find client (sweep now s) ≡ none
      → find client (sweep now (sweep now s)) ≡ none
  unfolding find sweep
  sweep_twice now s absent =
      let es = (sweep now s).entries in
      let ps = (sweep now s).protected in
      let no_entry : find_in client es ≡ none = elim (Option-cases (find_in client es)) [
        | inl e ↦ e
        | inr (x, here) ↦ absurd (ground arith)
      ] in
      let no_protected : find_in client ps ≡ none = cc in
      rw
        (
          find_in-Lacks client _
              (Sub-All _ (sweep_tier-Sub now es) (none-Lacks client es no_entry)),
          find,
        )
        (find_in-Lacks client _
          (Sub-All _ (sweep_tier-Sub now ps) (none-Lacks client ps no_protected)))

  -- One more failed login of a client with less than five failures.
  pub again-Holds :
      (wrong : LoginRequest) (sid : String) (t now wall : ℕ) (failures : List Instant)
      (s : Store (List Instant))
      → valid_configuration site.credential ≡ true
      → credentials_match crypto site.credential wrong ≡ false
      → 2 ≤ site.max_entries
      → t ≤ now
      → now < t + login_lockout
      → length failures < 5
      → Holds site.max_entries client t failures s
      → Holds site.max_entries client now
          (append_failure now (some failures))
          (login_as signer crypto site client wrong sid now wall s).0
  again-Holds wrong sid t now wall failures s valid mismatch room le alive few h =
      let c = login_config site.max_entries in
      let n = new_entry c client failures t in
      let once = sweep-Found c n now s alive h.held in
      subst (Holds site.max_entries client now (append_failure now (some failures)))
        (sym (
          wrong_login wrong sid now wall s valid mismatch
            (wait_of t now failures s alive h.held ∙ few_failures now failures few)))
        (record-Holds site.max_entries client now now wall (sweep now s) (some failures) room
          (sweep-IsValid c t now s le h.valid) (omega arith)
          (ap
            (λ (o : Option (Entry (List Instant))). elim o as (λ _. Option (List Instant)) [
              | none ↦ none
              | some e ↦ some e.value
            ])
            (find-Found c n (sweep now (sweep now s))
              (sweep-Found c n now (sweep now s) alive once))))

  pub first-Holds :
      (wrong : LoginRequest) (sid : String) (t now wall : ℕ) (s : Store (List Instant))
      → valid_configuration site.credential ≡ true
      → credentials_match crypto site.credential wrong ≡ false
      → 2 ≤ site.max_entries
      → t ≤ now
      → IsValid (login_config site.max_entries) t s
      → find client (sweep now s) ≡ none
      → Holds site.max_entries client now
          (append_failure now none)
          (login_as signer crypto site client wrong sid now wall s).0
  first-Holds wrong sid t now wall s valid mismatch room le w absent =
      let c = login_config site.max_entries in
      subst (Holds site.max_entries client now (append_failure now none))
        (sym (wrong_login wrong sid now wall s valid mismatch (wait_of_none now s absent)))
        (record-Holds site.max_entries client now now wall (sweep now s) none room
          (sweep-IsValid c t now s le w) (omega arith)
          (ap
            (λ (o : Option (Entry (List Instant))). elim o as (λ _. Option (List Instant)) [
              | none ↦ none
              | some e ↦ some e.value
            ])
            (sweep_twice now s absent)))

  pub refused_login :
      (request : LoginRequest) (sid : String) (now wall : ℕ) (s : Store (List Instant))
      → valid_configuration site.credential ≡ true
      → 1 ≤ (login_throttle_retry_after client now s).1
      → login_as signer crypto site client request sid now wall s
        ≡ (sweep now s, wait_answer (login_throttle_retry_after client now s).1)
  unfolding login_as login_throttle_retry_after get
  refused_login request sid now wall s valid busy =
      let wait = (login_throttle_retry_after client now s).1 in
      let refuses : Store (List Instant) × Response → Type 0 =
        λ r. r ≡ (sweep now s, wait_answer wait) in
      if_cases refuses (not (valid_configuration site.credential))
        (λ bad. absurd (true≢false (sym valid ∙ ground arith)))
        (λ _. if_cases refuses (not (wait == 0)) (λ _. refl) (λ free. absurd (ground arith)))

  pub tried_login :
      (request : LoginRequest) (sid : String) (now wall : ℕ) (s : Store (List Instant))
      → valid_configuration site.credential ≡ true
      → (login_throttle_retry_after client now s).1 ≡ 0
      → login_as signer crypto site client request sid now wall s
        ≡ try_login signer crypto site client request sid now wall (sweep now s)
  unfolding login_as login_throttle_retry_after get
  tried_login request sid now wall s valid free =
      let tries : Store (List Instant) × Response → Type 0 =
        λ r. r ≡ try_login signer crypto site client request sid now wall (sweep now s) in
      if_cases tries (not (valid_configuration site.credential))
        (λ bad. absurd (true≢false (sym valid ∙ ground arith)))
        (λ _.
          if_cases tries (not ((login_throttle_retry_after client now s).1 == 0))
            (λ busy. absurd (true≢false (ground arith))) (λ _. refl))
