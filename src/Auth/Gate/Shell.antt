-- ===== src/Auth/Gate/Shell.antt =====
-- What the middleware of http_auth.py lets through to the paths of the API.
use text.Mathlib.TextEquality.{starts_with_iff}
use text.Mathlib.TextLemmas.{append_assoc, append_inj}
use Prim.Native.String.{count}
use pullbackup.Base.{
  ◌≡◌, ◌⊎◌, refl, sym, ◌∙◌, String, Bool, true, false, not, ◌||◌, any, ◌==◌, text_comparable,
  Bool-cases, if_cases, inl, inr, arith, ℕ,
}
use mathlib.Core.Bool.{false≢true}
use pullbackup.Base.Text.{starts_with, ◌+s◌}
use pullbackup.Models.{Instant}
use pullbackup.Auth.Store.{Store}
use pullbackup.Auth.Session.{Signer}
use pullbackup.Auth.Gate.{
  unauthenticated_paths, is_public_shell, is_exempt, Scope, Answer, forwarded, refused, challenge,
  header_text, Credential, Crypto, valid_configuration, authorized, check_cookie, middleware,
}
use pullbackup.Auth.Gate.Present.{Shows, authorized-Shows}

-- Two beginnings of one length that differ.
apart :
    (path a b rest : String)
    → count a ≡ count b
    → (a == b) ≡ false
    → starts_with path a ≡ true
    → starts_with path (b +s rest) ≡ false
unfolding starts_with
apart path a b rest same_length differ h = elim (Bool-cases (starts_with path (b +s rest))) [
  | inr no_ ↦ no_
  | inl both ↦
      let (u, e) = (starts_with_iff path a).0 h in
      let (v, f) = (starts_with_iff path (b +s rest)).0 both in
      let g = e ∙ sym f ∙ append_assoc b rest v in
      let same = (text_comparable.same_iff a b).1 (append_inj g same_length).0 in cc
]

other_path :
    (path p : String)
    → starts_with p "/api/" ≡ false
    → starts_with path "/api/" ≡ true
    → (path == p) ≡ false
other_path path p no_ h = elim (Bool-cases (path == p)) [
  | inr differ ↦ differ
  | inl same ↦ let e = (text_comparable.same_iff path p).0 same in cc
]

not_api_runs : starts_with "/runs" "/api/" ≡ false
unfolding starts_with
not_api_runs = refl

not_api_sources : starts_with "/sources" "/api/" ≡ false
unfolding starts_with
not_api_sources = refl

not_api_tasks : starts_with "/tasks" "/api/" ≡ false
unfolding starts_with
not_api_tasks = refl

not_api_icon : starts_with "/favicon.svg" "/api/" ≡ false
unfolding starts_with
not_api_icon = refl

not_api_login : starts_with "/login" "/api/" ≡ false
unfolding starts_with
not_api_login = refl

not_api_root : starts_with "/" "/api/" ≡ false
unfolding starts_with
not_api_root = refl

-- A path of the API is none of the shell.
pub is_public_shell_api :
    (path : String) → starts_with path "/api/" ≡ true → is_public_shell path ≡ false
unfolding is_public_shell
is_public_shell_api path h =
    let tasks = apart path "/api/" "/task" "s/" refl refl h in
    let sources = apart path "/api/" "/sour" "ces/" refl refl h in
    let runs = apart path "/api/" "/runs" "/" refl refl h in
    let assets = apart path "/api/" "/asse" "ts/" refl refl h in
    let other : (p : String) → starts_with p "/api/" ≡ false → (path == p) ≡ false =
      λ p e. other_path path p e h in
    ground (
      arith,
      tasks,
      sources,
      runs,
      assets,
      other "/" not_api_root,
      other "/login" not_api_login,
      other "/favicon.svg" not_api_icon,
      other "/tasks" not_api_tasks,
      other "/sources" not_api_sources,
      other "/runs" not_api_runs,
    )

module _ (signer : Signer) (crypto : Crypto) (c : Credential) (age : ℕ) where
  -- The answer to a request that is not exempt: forwarded with a session or a basic credential, refused
  -- with 503 without a valid configuration, and with 401 without either credential.
  abbrev pub Guarded : Scope → Instant → Store Bool → Answer → Type 0
  Guarded scope now revoked forwarded =
      (valid_configuration c ≡ true)
      × (((check_cookie signer crypto c age scope.headers now revoked).1 ≡ true)
          ⊎ Shows crypto c (header_text "authorization" scope.headers))
  Guarded scope now revoked (refused status detail headers) =
      ((status ≡ 503) × (valid_configuration c ≡ false))
      ⊎ ((status ≡ 401)
          × (valid_configuration c ≡ true)
          × ((check_cookie signer crypto c age scope.headers now revoked).1 ≡ false)
          × (authorized crypto c (header_text "authorization" scope.headers) ≡ false))

  -- Either credential of a request.
  abbrev shown : Scope → Instant → Store Bool → Bool
  shown scope now revoked =
      (check_cookie signer crypto c age scope.headers now revoked).1
      || authorized crypto c (header_text "authorization" scope.headers)

  credential :
      (scope : Scope) (now : Instant) (revoked : Store Bool)
      → shown scope now revoked ≡ true
      → ((check_cookie signer crypto c age scope.headers now revoked).1 ≡ true)
        ⊎ Shows crypto c (header_text "authorization" scope.headers)
  credential scope now revoked either =
      elim (Bool-cases (check_cookie signer crypto c age scope.headers now revoked).1) [
        | inl valid ↦ inl valid
        | inr invalid ↦ inr (authorized-Shows crypto c _ (ground arith))
      ]

  guarded :
      (scope : Scope) (now : Instant) (revoked : Store Bool)
      → is_exempt scope ≡ false
      → Guarded scope now revoked (middleware signer crypto c age scope now revoked).1
  unfolding middleware challenge
  guarded scope now revoked guard =
      let G : Store Bool × Answer → Type 0 = λ r. Guarded scope now revoked r.1 in
      if_cases G (is_exempt scope) (λ exempt. absurd (false≢true (sym guard ∙ exempt)))
        (λ _.
          if_cases G (not (valid_configuration c)) (λ bad. inl (refl, ground arith))
            (λ good.
              if_cases (Guarded scope now revoked) (shown scope now revoked)
                (λ either. (ground arith, credential scope now revoked either))
                (λ neither. inr (refl, ground arith, ground arith, ground arith))))

  -- An HTTP request to a path of the API, other than the health check, login and logout, is forwarded
  -- only on a valid configuration with a session that is accepted or a header that shows the configured
  -- credential; it is refused with 503 exactly on an invalid configuration, and with 401 without either.
  pub middleware-Guarded :
      (scope : Scope) (now : Instant) (revoked : Store Bool)
      → scope.kind ≡ "http"
      → starts_with scope.path "/api/" ≡ true
      → any (λ p. scope.path == p) unauthenticated_paths ≡ false
      → Guarded scope now revoked (middleware signer crypto c age scope now revoked).1
  unfolding is_exempt
  middleware-Guarded scope now revoked http api other =
      guarded scope now revoked (rw (http, other, is_public_shell_api scope.path api) refl)
