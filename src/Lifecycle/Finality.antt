-- ===== src/Lifecycle/Finality.antt =====
-- The steps of the runner, the watchdog and the dispatcher, and runs that are over.
use pullbackup.Base.{ℕ, ◌≡◌, ◌≢◌, false, List, [], ◌∷◌, none, some, nat_comparable, arith, All}
use pullbackup.Models.{Run, Db, is_active}
use pullbackup.Auth.Store.Sub.{All-map}
use pullbackup.Dispatch.{member, dispatch_due}
use pullbackup.Lifecycle.{admit_run, sweep_orphaned_runs, terminalize_owned_run, finish_run}
use pullbackup.Lifecycle.History.{
  run_at, Moves, Extends-Moves, dispatch_due-Extends, admit_run-Extends,
}
use pullbackup.Lifecycle.History.Steps.{
  finish_run-Moves, terminalize_owned_run-Moves, claim_run-Moves, reclaim-over, reclaim-alive,
}
use pullbackup.Lifecycle.World.{
  World, Step, dispatched, admitted, registered, began, requested, finished, lost, released, swept,
  Reach, stay, then_, Runs, IsLive, without, member-All, without-All, release, release-owned,
  register-owned, request_cancel-owned,
}

-- What is over at one run table is the same at another.
abbrev pub Over : List Run → List Run → Type 0
Over runs later =
    (id : ℕ) (r : Run)
    → run_at id runs ≡ some r
    → is_active r.state ≡ false
    → run_at id later ≡ some r

moved :
    (w : World) (id : ℕ) (later : Db)
    → Moves (some id) w.db.runs later.runs
    → IsLive w
    → All (Runs later w.owners) (without id w.executing)
moved w id later m live =
    without-All (Runs w.db w.owners) (Runs later w.owners) id w.executing
      (λ n other r. (m.alive n (λ same. other (some_same id n same)) r.0, r.1)) live
  where
    some_same : (a b : ℕ) → some a ≡ some b → a ≡ b
    some_same a b e = cc

grown :
    (w : World) (later : Db)
    → Moves none w.db.runs later.runs
    → IsLive w
    → All (Runs later w.owners) w.executing
grown w later m live =
    All-map (Runs w.db w.owners) (Runs later w.owners) (λ n r. (m.alive n (never n) r.0, r.1))
      w.executing live
  where
    never : (n : ℕ) → none ≢ some n
    never n e = cc

absent-without :
    (id : ℕ) (P Q : ℕ → Type 0) (ids : List ℕ)
    → member id ids ≡ false
    → ((n : ℕ) → id ≢ n → P n → Q n)
    → All P ids
    → All Q ids
absent-without id P Q [] h f all = tt
absent-without id P Q (n ∷ ids) h f all =
    (f n (λ same. ground (arith, same)) all.0, absent-without id P Q ids (ground arith) f all.1)

step-IsLive : {u v : World} → Step u v → IsLive u → (IsLive v × Over u.db.runs v.db.runs)
unfolding sweep_orphaned_runs
step-IsLive {u = u} (dispatched env now) live =
    let m = Extends-Moves u.db.runs _ (dispatch_due-Extends env u.db now) in
    (grown u (dispatch_due env u.db now).db m live, m.over)
step-IsLive {u = u} (admitted task_id now) live =
    let m = Extends-Moves u.db.runs _ (admit_run-Extends u.db task_id now) in
    (grown u (admit_run u.db task_id now).0 m live, m.over)
step-IsLive {u = u} (registered id) live = (
  All-map _ _ (λ n (r : Runs u.db u.owners n). (r.0, register-owned id n u.owners r.1)) u.executing
      live,
  λ i r e _. e,
)
step-IsLive {u = u} (began {after = after} id now owned claimed) live =
    let (m, on) = claim_run-Moves u.db after id now claimed in
    (((on, owned), moved u id after m live), m.over)
step-IsLive {u = u} (requested id) live = (
  All-map _ _ (λ n (r : Runs u.db u.owners n). (r.0, request_cancel-owned id n u.owners r.1))
      u.executing live,
  λ i r e _. e,
)
step-IsLive {u = u} (finished id ended now executed) live =
    let m =
      finish_run-Moves u.db u.owners id ended now
        (member-All (Runs u.db u.owners) id u.executing executed live).0 in
    (moved u id (finish_run u.db u.owners id ended now) m live, m.over)
step-IsLive {u = u} (lost id message now) live =
    let m = terminalize_owned_run-Moves u.db u.owners id message now in
    (moved u id (terminalize_owned_run u.db u.owners id message now).0 m live, m.over)
step-IsLive {u = u} (released id idle) live = (
  absent-without id (Runs u.db u.owners) (Runs u.db (release id u.owners)) u.executing idle
      (λ n other r. (r.0, release-owned id n u.owners other r.1)) live,
  λ i r e _. e,
)
step-IsLive {u = u} (swept now) live = (
  All-map _ _
      (λ n (r : Runs u.db u.owners n). (reclaim-alive u.owners now u.db.runs n r.1 r.0, r.1))
      u.executing live,
  λ id r e off. reclaim-over u.owners now u.db.runs id r e off,
)

-- From tables in which every run that is executed is active and owned, whatever steps of the runner,
-- the watchdog and the dispatcher follow in whatever order, a run that is over stays as it is, and what
-- is executed is active and owned.
pub reach-IsLive :
    {u w : World} (id : ℕ) (r : Run)
    → Reach u w
    → IsLive u
    → run_at id u.db.runs ≡ some r
    → is_active r.state ≡ false
    → IsLive w × (run_at id w.db.runs ≡ some r)
reach-IsLive id r stay live e off = (live, e)
reach-IsLive id r (then_ step rest) live e off =
    let (still, over) = step-IsLive step live in reach-IsLive id r rest still (over id r e off) off
