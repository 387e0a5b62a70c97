-- ===== src/Lifecycle/World.antt =====
-- The runner, the watchdog and the dispatcher together: the steps that a process takes, in any order.
-- `executing` holds the runs whose execution has passed `claim_run` and has not ended.
use pullbackup.Base.{
  ℕ, ◌≡◌, ◌≢◌, subst, String, true, false, not, List, [], ◌∷◌, some, ◌==◌, nat_comparable,
  if◌then◌else◌, if_cases, keep, arith, Bool-cases, inl, inr, All,
}
use pullbackup.Models.{Instant, Db}
use pullbackup.Dispatch.{Environment, member, dispatch_due}
use pullbackup.Lifecycle.{
  Owner, is_owned, admit_run, sweep_orphaned_runs, terminalize_owned_run, claim_run, Ended,
  finish_run,
}
use pullbackup.Lifecycle.History.{active_at}

pub record World : Type 0 where
  pub db : Db
  pub owners : List Owner
  pub executing : List ℕ

-- The owners but those of one run, the entry that `execute_run` writes, and a request to cancel.
abbrev pub release : ℕ → List Owner → List Owner
release id owners = keep (λ (o : Owner). not (o.run_id == id)) owners

abbrev pub register : ℕ → List Owner → List Owner
register id owners = record { run_id = id; cancel_requested = false } ∷ release id owners

unfoldable pub request_cancel : ℕ → List Owner → List Owner
request_cancel id [] = []
request_cancel id (o ∷ owners) =
    (if o.run_id == id then record o { cancel_requested = true } else o) ∷ request_cancel id owners

abbrev pub without : ℕ → List ℕ → List ℕ
without id ids = keep (λ n. not (n == id)) ids

-- One step. An execution registers itself before it claims its run, and releases the entry when it is
-- over; a request to cancel only marks the entry.
pub data Step : World → World → Type 0 where
  dispatched :
      {w : World} (env : Environment) (now : Instant)
      → Step w (record w { db = (dispatch_due env w.db now).db })
  admitted :
      {w : World} (task_id : ℕ) (now : Instant)
      → Step w (record w { db = (admit_run w.db task_id now).0 })
  registered : {w : World} (id : ℕ) → Step w (record w { owners = register id w.owners })
  began :
      {w : World} {after : Db} (id : ℕ) (now : Instant)
      → is_owned id w.owners ≡ true
      → claim_run w.db id now ≡ some after
      → Step w (record w { db = after; executing = id ∷ without id w.executing })
  requested : {w : World} (id : ℕ) → Step w (record w { owners = request_cancel id w.owners })
  finished :
      {w : World} (id : ℕ) (ended : Ended) (now : Instant)
      → member id w.executing ≡ true
      → Step w (record w {
        db = finish_run w.db w.owners id ended now;
        executing = without id w.executing;
      })
  lost :
      {w : World} (id : ℕ) (message : String) (now : Instant)
      → Step w (record w {
        db = (terminalize_owned_run w.db w.owners id message now).0;
        executing = without id w.executing;
      })
  released :
      {w : World} (id : ℕ)
      → member id w.executing ≡ false
      → Step w (record w { owners = release id w.owners })
  swept :
      {w : World} (now : Instant)
      → Step w (record w { db = (sweep_orphaned_runs w.db w.owners now).0 })

pub data Reach : World → World → Type 0 where
  stay : {w : World} → Reach w w
  then_ : {u v w : World} → Step u v → Reach v w → Reach u w

-- What is executed is active and owned.
abbrev pub Runs : Db → List Owner → ℕ → Type 0
Runs db owners id = (active_at id db.runs ≡ true) × (is_owned id owners ≡ true)

abbrev pub IsLive : World → Type 0
IsLive w = All (Runs w.db w.owners) w.executing

pub member-All : (P : ℕ → Type 0) (id : ℕ) (ids : List ℕ) → member id ids ≡ true → All P ids → P id
member-All P id [] h all = cc
member-All P id (n ∷ ids) h all = elim (Bool-cases (n == id)) [
  | inl hit ↦ subst P (ground arith) all.0
  | inr miss ↦ member-All P id ids (ground arith) all.1
]

pub without-All :
    (P Q : ℕ → Type 0) (id : ℕ) (ids : List ℕ)
    → ((n : ℕ) → id ≢ n → P n → Q n)
    → All P ids
    → All Q (without id ids)
without-All P Q id [] f all = tt
without-All P Q id (n ∷ ids) f all =
    if_cases (All Q) (not (n == id))
      (λ other. (f n (λ same. absurd (ground (arith, same))) all.0, without-All P Q id ids f all.1))
      (λ _. without-All P Q id ids f all.1)

owned_cons :
    (o : Owner) (n : ℕ) (owners later : List Owner)
    → is_owned n (o ∷ owners) ≡ true
    → (is_owned n owners ≡ true → is_owned n later ≡ true)
    → is_owned n (o ∷ later) ≡ true
unfolding is_owned
owned_cons o n owners later h f = elim (Bool-cases (o.run_id == n)) [
  | inl hit ↦ ground arith
  | inr miss ↦ let rest = f (ground arith) in ground arith
]

owned_later :
    (o : Owner) (n : ℕ) (owners : List Owner)
    → is_owned n (o ∷ owners) ≡ true
    → (o.run_id ≡ n → ⊥)
    → is_owned n owners ≡ true
unfolding is_owned
owned_later o n owners h f = elim (Bool-cases (o.run_id == n)) [
  | inl hit ↦ absurd (f (ground arith))
  | inr miss ↦ ground arith
]

different : (a b : ℕ) → (a == b) ≡ false → a ≡ b → ⊥
different a b h e = ground arith

pub release-owned :
    (id n : ℕ) (owners : List Owner)
    → id ≢ n
    → is_owned n owners ≡ true
    → is_owned n (release id owners) ≡ true
unfolding is_owned
release-owned id n [] other h = h
release-owned id n (o ∷ owners) other h =
    if_cases (λ left. is_owned n left ≡ true) (not (o.run_id == id))
      (λ stays.
        owned_cons o n owners (release id owners) h
          (λ later. release-owned id n owners other later))
      (λ gone.
        release-owned id n owners other (owned_later o n owners h (λ same. other (ground arith))))

pub register-owned :
    (id n : ℕ) (owners : List Owner)
    → is_owned n owners ≡ true
    → is_owned n (register id owners) ≡ true
unfolding is_owned
register-owned id n owners h = elim (Bool-cases (id == n)) [
  | inl same ↦ ground arith
  | inr other ↦ ground (arith, release-owned id n owners (λ e. different id n other e) h)
]

pub request_cancel-owned :
    (id n : ℕ) (owners : List Owner)
    → is_owned n owners ≡ true
    → is_owned n (request_cancel id owners) ≡ true
unfolding is_owned request_cancel
request_cancel-owned id n [] h = h
request_cancel-owned id n (o ∷ owners) h =
    if_cases (λ (x : Owner). is_owned n (x ∷ request_cancel id owners) ≡ true) (o.run_id == id)
      (λ _.
        owned_cons (record o { cancel_requested = true }) n owners (request_cancel id owners) h
          (λ later. request_cancel-owned id n owners later))
      (λ _.
        owned_cons o n owners (request_cancel id owners) h
          (λ later. request_cancel-owned id n owners later))
