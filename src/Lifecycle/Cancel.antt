-- ===== src/Lifecycle/Cancel.antt =====
-- backend/pullbackup/services/runner.py, `cancel_run`: the request, and what it reports once the execution
-- has settled or the wait for it has timed out.
use pullbackup.Base.{
  ◌≡◌, ◌≢◌, ◌⊎◌, inl, inr, refl, ap, ℕ, Bool, true, false, List, Option, none, some, ◌==◌,
  nat_comparable, if◌then◌else◌, if_cases, arith,
}
use pullbackup.Models.{Instant, pos, negsuc, RunState, Run, Db, is_active}
use pullbackup.Due.Settle.{get_run}
use pullbackup.Lifecycle.{Owner, is_owned, Ended, exited, was_cancelled, timed_out, final_run}
use pullbackup.Lifecycle.World.{request_cancel}

pub data CancelOutcome : Type 0 where
  run_cancelled already_finished not_owned still_running not_found : CancelOutcome

pub record CancelResult : Type 0 where
  pub outcome : CancelOutcome
  pub state : Option RunState

abbrev pub result : CancelOutcome → Option RunState → CancelResult
result outcome state = record { outcome = outcome; state = state }

abbrev pub state_of : Db → ℕ → Option RunState
state_of db id = elim (get_run db id) [ none ↦ none | some run ↦ some run.state ]

-- The first part: an answer, or the owners with the request to cancel noted.
unfoldable pub request : Option RunState → List Owner → ℕ → CancelResult ⊎ List Owner
unfolding is_owned request_cancel
request none owners id = inl (result not_found none)
request (some state) owners id =
    if is_active state
    then (if is_owned id owners
        then inr (request_cancel id owners)
        else inl (result not_owned (some state)))
    else inl (result already_finished (some state))

-- The last part, from the state that the row has then.
unfoldable pub report : Option RunState → CancelResult
report none = result already_finished none
report (some state) = elim state [
  | RunState.cancelled ↦ result run_cancelled (some RunState.cancelled)
  | RunState.pending ↦ result still_running (some RunState.pending)
  | RunState.running ↦ result still_running (some RunState.running)
  | RunState.success ↦ result already_finished (some RunState.success)
  | RunState.failed ↦ result already_finished (some RunState.failed)
]

-- `cancel_run`, on the tables at the request and on those after the wait.
unfoldable pub cancel_run : Db → List Owner → Db → ℕ → CancelResult
unfolding request report
cancel_run db owners settled id = elim (request (state_of db id) owners id) [
  | inl answer ↦ answer
  | inr requested ↦ report (state_of settled id)
]

-- The row is gone, or its run is over and was not cancelled.
abbrev pub EndedOtherwise : Option RunState → Type 0
EndedOtherwise none = Unit {0}
EndedOtherwise (some s) = (is_active s ≡ false) × (s ≢ RunState.cancelled)

-- What a report of a cancellation says is so: the state with it, and that the run was executed here.
abbrev pub IsHonest : Db → List Owner → Db → ℕ → CancelResult → Type 0
IsHonest db owners settled id answer = elim answer.outcome [
  | run_cancelled ↦ (state_of settled id ≡ some RunState.cancelled) × (is_owned id owners ≡ true)
  | still_running ↦
      ((s : RunState) × (state_of settled id ≡ some s) × (is_active s ≡ true))
      × (is_owned id owners ≡ true)
  | not_owned ↦ is_owned id owners ≡ false
  | not_found ↦ state_of db id ≡ none
  | already_finished ↦
      ((s : RunState) × (state_of db id ≡ some s) × (is_active s ≡ false) × (answer.state ≡ some s))
      ⊎ ((state_of settled id ≡ answer.state) × EndedOtherwise answer.state)
]

report-IsHonest :
    (db : Db) (owners : List Owner) (settled : Db) (id : ℕ) (o : Option RunState)
    → is_owned id owners ≡ true
    → state_of settled id ≡ o
    → IsHonest db owners settled id (report o)
unfolding report
report-IsHonest db owners settled id none owned e = inr (e, tt)
report-IsHonest db owners settled id (some RunState.cancelled) owned e = (e, owned)
report-IsHonest db owners settled id (some RunState.pending) owned e =
    ((RunState.pending, e, refl), owned)
report-IsHonest db owners settled id (some RunState.running) owned e =
    ((RunState.running, e, refl), owned)
report-IsHonest db owners settled id (some RunState.success) owned e = inr (e, (refl, λ h. cc))
report-IsHonest db owners settled id (some RunState.failed) owned e = inr (e, (refl, λ h. cc))

-- Every answer to a cancellation is so: a run reported as cancelled has that state after the wait and
-- was executed here, one reported as running has an active state then, one reported as not owned has
-- no entry, and one reported as finished was over before, or has the state reported after the wait
-- and is then gone, or over and not cancelled.
pub cancel_run-IsHonest :
    (db : Db) (owners : List Owner) (settled : Db) (id : ℕ)
    → IsHonest db owners settled id (cancel_run db owners settled id)
unfolding cancel_run request
cancel_run-IsHonest db owners settled id = go (state_of db id) refl
  where
    Answered : CancelResult ⊎ List Owner → Type 0
    Answered asked = IsHonest db owners settled id (elim asked as (λ _. CancelResult) [
      | inl answer ↦ answer
      | inr requested ↦ report (state_of settled id)
    ])

    go :
        (o : Option RunState)
        → state_of db id ≡ o
        → IsHonest db owners settled id (elim (request o owners id) as (λ _. CancelResult) [
          | inl answer ↦ answer
          | inr requested ↦ report (state_of settled id)
        ])
    go none e = e
    go (some state) e =
        if_cases Answered (is_active state)
          (λ on.
            if_cases Answered (is_owned id owners)
              (λ owned. report-IsHonest db owners settled id (state_of settled id) owned refl)
              (λ unowned. unowned))
          (λ off. inl (state, e, off, refl))

-- The state, the end and the exit code that the row of an ended run has.
abbrev pub Outcome : Ended → Bool → Instant → Run → Type 0
Outcome ended requested now final =
    (((final.state ≡ RunState.success) × (ended ≡ exited (pos 0)))
      ⊎ ((final.state ≡ RunState.cancelled) × (ended ≡ was_cancelled) × (requested ≡ true))
      ⊎ ((final.state ≡ RunState.failed) × (ended ≢ exited (pos 0))))
    × (final.finished_at ≡ some now)
    × (final.exit_code ≢ none)

-- How a run ends decides its state: success with the exit code zero, cancelled by a cancellation that
-- was requested, and failed otherwise; it is over in every case, with its end and its exit code set.
pub final_run-Outcome :
    (run : Run) (ended : Ended) (requested : Bool) (now : Instant)
    → Outcome ended requested now (final_run run ended requested now)
unfolding final_run
final_run-Outcome run (exited (pos n)) requested now =
    if_cases (Outcome (exited (pos n)) requested now) (n == 0)
      (λ zero_. (inl (refl, ap (λ k. exited (pos k)) (ground arith)), refl, λ h. cc))
      (λ other. (inr (inr (refl, λ h. ground (arith, ap code_of h))), refl, λ h. cc))
  where
    code_of : Ended → ℕ
    code_of (exited (pos k)) = k
    code_of (exited (negsuc k)) = 1
    code_of was_cancelled = 1
    code_of (timed_out timeout) = 1
final_run-Outcome run (exited (negsuc n)) requested now = (inr (inr (refl, λ h. cc)), refl, λ h. cc)
final_run-Outcome run was_cancelled true now = (inr (inl (refl, refl, refl)), refl, λ h. cc)
final_run-Outcome run was_cancelled false now = (inr (inr (refl, λ h. cc)), refl, λ h. cc)
final_run-Outcome run (timed_out timeout) requested now = (inr (inr (refl, λ h. cc)), refl, λ h. cc)
