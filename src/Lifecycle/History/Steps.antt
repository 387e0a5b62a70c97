-- ===== src/Lifecycle/History/Steps.antt =====
-- The steps that change the run table, and what each leaves of it.
use pullbackup.Base.{
  ℕ, ◌≡◌, refl, sym, ap, ◌∙◌, subst, String, Bool, true, false, not, List, [], ◌∷◌, Option, none,
  some, ◌==◌, nat_comparable, text_comparable, if◌then◌else◌, if_cases, arith, Bool-cases,
  Option-cases, inl, inr,
}
use pullbackup.Models.{
  Instant, RunState, Run, TaskDue, Db, find_by, find_by-key, find_by-put_by, put_by, is_active,
}
use pullbackup.Due.Settle.{get_run}
use pullbackup.Due.Rows.{apply_run_outcome}
use pullbackup.Lifecycle.{
  Owner, put_run, is_owned, is_orphan, reclaim, cancel_was_requested, terminalize_owned_run,
  is_pending, claimed, claim_run, Ended, exited, was_cancelled, timed_out, final_run, find_owed,
  settle_outcome, finish_run, is_zero,
}
use pullbackup.Lifecycle.History.{run_at, active_state, active_at, Moves, put_run-Moves}

settle_outcome-runs :
    (db : Db) (o : Option TaskDue) (run : Run) (now : Instant)
    → (settle_outcome db o run now).runs ≡ db.runs
unfolding settle_outcome
settle_outcome-runs db none run now = refl
settle_outcome-runs db (some row) run now = elim (Option-cases (apply_run_outcome row run now)) [
  | inl e ↦ rw (e, settle_outcome) refl
  | inr (after, e) ↦ rw (e, settle_outcome) refl
]

final_run-id :
    (run : Run) (ended : Ended) (requested : Bool) (now : Instant)
    → (final_run run ended requested now).id ≡ run.id
unfolding final_run
final_run-id run (exited code) requested now =
    if_cases (λ (r : Run). r.id ≡ run.id) (is_zero code) (λ _. refl) (λ _. refl)
final_run-id run was_cancelled requested now = refl
final_run-id run (timed_out timeout) requested now = refl

same-Moves : (but : Option ℕ) (runs : List Run) → Moves but runs runs
same-Moves but runs = record { over = λ id r e off. e; alive = λ id other on. on }

-- The run that `get_run` finds has the identifier that it was looked for by.
own_id :
    (runs : List Run) (id : ℕ) (run : Run)
    → run_at id runs ≡ some run
    → (run.id ≡ id) × (run_at run.id runs ≡ some run)
own_id runs id run e =
    let same = find_by-key (λ (r : Run). r.id) id runs run e in
    (same, subst (λ k. run_at k runs ≡ some run) (sym same) e)

write-Moves :
    (runs : List Run) (id : ℕ) (run after : Run)
    → run_at id runs ≡ some run
    → is_active run.state ≡ true
    → after.id ≡ run.id
    → Moves (some id) runs (put_by (λ (r : Run). r.id) after runs)
write-Moves runs id run after found on same =
    let (own, there) = own_id runs id run found in
    subst (λ k. Moves (some k) runs (put_by (λ (r : Run). r.id) after runs)) own
      (put_run-Moves runs run after there on same)

pub finish_run-Moves :
    (db : Db) (owners : List Owner) (id : ℕ) (ended : Ended) (now : Instant)
    → active_at id db.runs ≡ true
    → Moves (some id) db.runs (finish_run db owners id ended now).runs
unfolding finish_run get_run
finish_run-Moves db owners id ended now on = elim (Option-cases (run_at id db.runs)) [
  | inl e ↦ rw (e, finish_run) (same-Moves (some id) db.runs)
  | inr (run, e) ↦
      let final = final_run run ended (cancel_was_requested owners id) now in
      rw (e, finish_run)
        (subst (Moves (some id) db.runs)
          (sym (settle_outcome-runs (put_run db final) (find_owed id db.dues) final now))
          (write-Moves db.runs id run final e (sym (ap active_state e) ∙ on)
            (final_run-id run ended _ now)))
]

pub terminalize_owned_run-Moves :
    (db : Db) (owners : List Owner) (id : ℕ) (message : String) (now : Instant)
    → Moves (some id) db.runs (terminalize_owned_run db owners id message now).0.runs
unfolding terminalize_owned_run get_run
terminalize_owned_run-Moves db owners id message now = elim (Option-cases (run_at id db.runs)) [
  | inl e ↦ rw (e, terminalize_owned_run) (same-Moves (some id) db.runs)
  | inr (run, e) ↦
      rw (e, terminalize_owned_run)
        (if_cases {A = Db × Bool} (λ out. Moves (some id) db.runs out.0.runs)
          (not (is_active run.state)) (λ _. same-Moves (some id) db.runs)
          (λ on. write-Moves db.runs id run _ e (ground arith) refl))
]

pending_active : (state : RunState) → is_pending state ≡ true → is_active state ≡ true
pending_active RunState.pending h = refl
pending_active RunState.running h = refl
pending_active RunState.success h = cc
pending_active RunState.failed h = cc
pending_active RunState.cancelled h = cc

claimed-active :
    (runs : List Run) (id : ℕ) (run : Run) (now : Instant)
    → run.id ≡ id
    → active_at id (put_by (λ (r : Run). r.id) (claimed run now) runs) ≡ true
claimed-active runs id run now own =
    ap active_state (find_by-put_by (λ (r : Run). r.id) id (claimed run now) runs)
    ∙ ap active_state
        (hit_first (run.id == id) (some (claimed run now)) (run_at id runs) (ground arith))
  where
    hit_first : (b : Bool) (x y : Option Run) → b ≡ true → (if b then x else y) ≡ x
    hit_first true x y h = refl
    hit_first false x y h = cc

pub claim_run-Moves :
    (db after : Db) (id : ℕ) (now : Instant)
    → claim_run db id now ≡ some after
    → Moves (some id) db.runs after.runs × (active_at id after.runs ≡ true)
unfolding claim_run get_run
claim_run-Moves db after id now h = elim (Option-cases (run_at id db.runs)) [
  | inl e ↦ absurd (ground arith)
  | inr (run, e) ↦ elim (Bool-cases (is_pending run.state)) [
    | inr over ↦ absurd (ground arith)
    | inl pending ↦
        let wrote : put_run db (claimed run now) ≡ after = ground arith in
        subst (λ (d : Db). Moves (some id) db.runs d.runs × (active_at id d.runs ≡ true)) wrote
          (
            write-Moves db.runs id run (claimed run now) e (pending_active run.state pending) refl,
            claimed-active db.runs id run now (own_id db.runs id run e).0,
          )
  ]
]

orphan-active :
    (owners : List Owner) (now : Instant) (run : Run)
    → is_orphan owners now run ≡ true
    → (is_active run.state ≡ true) × (is_owned run.id owners ≡ false)
unfolding is_orphan
orphan-active owners now run h = ground arith

pub at_odds : (x r : Run) → x ≡ r → is_active x.state ≡ true → is_active r.state ≡ false → ⊥
at_odds x r same on off = cc

owned_twice :
    (owners : List Owner) (x : Run) (id : ℕ)
    → x.id ≡ id
    → is_owned x.id owners ≡ false
    → is_owned id owners ≡ true
    → ⊥
owned_twice owners x id same unowned owned = cc

past :
    (x : Run) (runs : List Run) (id : ℕ)
    → (x.id == id) ≡ false
    → active_at id (x ∷ runs) ≡ true
    → active_at id runs ≡ true
unfolding find_by
past x runs id miss on =
    subst (λ b. active_state (if b then some x else run_at id runs) ≡ true) miss on

first_active :
    (x : Run) (runs : List Run) (id : ℕ)
    → (x.id == id) ≡ true
    → active_at id (x ∷ runs) ≡ true
    → is_active x.state ≡ true
unfolding find_by
first_active x runs id hit on =
    subst (λ b. active_state (if b then some x else run_at id runs) ≡ true) hit on

-- What the sweep of the watchdog leaves: what is over, and the active runs that are owned.
pub reclaim-over :
    (owners : List Owner) (now : Instant) (runs : List Run) (id : ℕ) (r : Run)
    → run_at id runs ≡ some r
    → is_active r.state ≡ false
    → run_at id (reclaim owners now runs) ≡ some r
unfolding reclaim is_orphan find_by
reclaim-over owners now [] id r e off = cc
reclaim-over owners now (x ∷ runs) id r e off =
    if_cases (λ (y : Run). run_at id (y ∷ reclaim owners now runs) ≡ some r)
      (is_orphan owners now x)
      (λ orphan. elim (Bool-cases (x.id == id)) [
        | inl hit ↦
            let same : x ≡ r = ground arith in
            absurd (at_odds x r same (orphan-active owners now x orphan).0 off)
        | inr miss ↦ rw (miss, find_by) (reclaim-over owners now runs id r (ground arith) off)
      ])
      (λ kept. elim (Bool-cases (x.id == id)) [
        | inl hit ↦ ground arith
        | inr miss ↦ rw (miss, find_by) (reclaim-over owners now runs id r (ground arith) off)
      ])

pub reclaim-alive :
    (owners : List Owner) (now : Instant) (runs : List Run) (id : ℕ)
    → is_owned id owners ≡ true
    → active_at id runs ≡ true
    → active_at id (reclaim owners now runs) ≡ true
unfolding reclaim is_orphan find_by
reclaim-alive owners now [] id owned on = on
reclaim-alive owners now (x ∷ runs) id owned on =
    if_cases (λ (y : Run). active_at id (y ∷ reclaim owners now runs) ≡ true)
      (is_orphan owners now x)
      (λ orphan. elim (Bool-cases (x.id == id)) [
        | inl hit ↦
            let same : x.id ≡ id = ground arith in
            absurd (owned_twice owners x id same (orphan-active owners now x orphan).1 owned)
        | inr miss ↦
            rw (miss, find_by) (reclaim-alive owners now runs id owned (past x runs id miss on))
      ])
      (λ kept. elim (Bool-cases (x.id == id)) [
        | inl hit ↦ rw (hit, find_by) (first_active x runs id hit on)
        | inr miss ↦
            rw (miss, find_by) (reclaim-alive owners now runs id owned (past x runs id miss on))
      ])
