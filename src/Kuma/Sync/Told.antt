-- ===== src/Kuma/Sync/Told.antt =====
-- What a sweep of services/kuma_sync.py tells Uptime Kuma, against the projection of freshness.py.
use pullbackup.Base.{
  ℕ, ◌≡◌, ◌⊎◌, inl, inr, refl, ap, sym, ◌∙◌, subst, String, true, false, List, [], ◌∷◌, Option,
  none, some, All, Option-cases,
}
use mathlib.Core.List.{map}
use pullbackup.Models.{Instant, Task, Db}
use pullbackup.Schedule.{Calendar}
use pullbackup.Cadence.{Croniter}
use pullbackup.Due.Settle.{get_task}
use pullbackup.Freshness.{KumaStatus, Freshness}
use pullbackup.Freshness.Load.{project_task}
use pullbackup.Kuma.Push.{Failure, PushResult}
use pullbackup.Kuma.Sync.{
  SyncOutcome, Memory, Pushed, returned, push_raised, Push, synced, message_for, token_of, silent,
  told, unknown, tell, remember, caught, add_outcome, monitored, sync_result, sweep_ids, sweep,
  state_text, reason_text,
}

Pushed-cases :
    (p : Pushed) → ((r : PushResult) × (p ≡ returned r)) ⊎ ((e : Failure) × (p ≡ push_raised e))
Pushed-cases (returned r) = inl (r, refl)
Pushed-cases (push_raised e) = inr (e, refl)

module _ (isoformat : Instant → String) (push : Push) where
  -- An outcome that says what a projection does: nothing was pushed if it says nothing, and otherwise its
  -- status was, with the answer of the push; or the push raised, and the outcome is none of the projection.
  abbrev pub Tells : ℕ → String → Freshness → SyncOutcome → Type 0
  Tells task_id token f o =
      ((o.state ≡ state_text f.state)
        × (o.reason ≡ reason_text f.reason)
        × (f.kuma_status ≡ none)
        × (o.status ≡ none)
        × (o.pushed ≡ false)
        × (o.ok ≡ true))
      ⊎ ((status : KumaStatus) × (f.kuma_status ≡ some status)
          × (o.state ≡ state_text f.state)
          × (o.reason ≡ reason_text f.reason)
          × (o.status ≡ some status)
          × (o.pushed ≡ true)
          × ((result : PushResult) × (push task_id token status (message_for isoformat f)
                ≡ returned result)
              × (o.ok ≡ result.ok)
              × (o.error ≡ result.error)))
      ⊎ ((status : KumaStatus) × (f.kuma_status ≡ some status)
          × (o.status ≡ none)
          × (o.ok ≡ false)
          × ((e : Failure) × (push task_id token status (message_for isoformat f) ≡ push_raised e)))

  caught-tell :
      (task_id : ℕ) (token : String) (f : Freshness) (now : Instant)
      → (o : SyncOutcome) × (o.task_id ≡ task_id)
        × (caught now task_id (tell isoformat push task_id token f now) ≡ synced o)
        × Tells task_id token f o
  unfolding tell caught silent told unknown
  caught-tell task_id token f now = go f.kuma_status refl
    where
      go :
          (s : Option KumaStatus)
          → f.kuma_status ≡ s
          → (o : SyncOutcome) × (o.task_id ≡ task_id)
            × (caught now task_id (tell isoformat push task_id token f now) ≡ synced o)
            × Tells task_id token f o
      go none h =
          (silent task_id f now, refl, rw (h, tell) refl, inl (refl, refl, h, refl, refl, refl))
      go (some status) h =
          elim (Pushed-cases (push task_id token status (message_for isoformat f))) [
            | inl (result, e) ↦ (
              told task_id f status result now,
              refl,
              rw (h, tell, e) refl,
              inr (inl (status, h, refl, refl, refl, refl, (result, e, refl, refl))),
            )
            | inr (failure, e) ↦ (
              unknown task_id failure now,
              refl,
              rw (h, tell, e) refl,
              inr (inr (status, h, refl, refl, (failure, e))),
            )
          ]

module _ (cal : Calendar) (croniter : Croniter) (isoformat : Instant → String) (push : Push)
    (db : Db) (now clock : Instant) where
  -- An outcome of a monitored task that says what its projection does.
  abbrev pub Reports : SyncOutcome → Type 0
  Reports o =
      (task : Task) × (token : String) × (get_task db o.task_id ≡ some task)
      × (token_of task ≡ some token)
      × Tells isoformat push o.task_id token (project_task cal croniter db task now clock) o

  -- A task that a sweep visits, as its primary key finds it.
  abbrev pub Visited : ℕ → Type 0
  Visited id =
      (task : Task) × (token : String) × (get_task db id ≡ some task) × (token_of task ≡ some token)

  outcome_of_visit :
      (id : ℕ)
      → Visited id
      → (o : SyncOutcome) × (o.task_id ≡ id)
        × (caught now id (sync_result cal croniter isoformat push db now clock id) ≡ synced o)
        × Reports o
  unfolding sync_result
  outcome_of_visit id (task, token, found, watched) =
      let f = project_task cal croniter db task now clock in
      let (o, own, result, tells) = caught-tell isoformat push id token f now in
      (
        o,
        own,
        rw (found, sync_result, watched) result,
        (
          task,
          token,
          ap (get_task db) own ∙ found,
          watched,
          subst (λ k. Tells isoformat push k token f o) (sym own) tells,
        ),
      )

  swept :
      (ids : List ℕ) (m : Memory)
      → All Visited ids
      → (map
            (λ (o : SyncOutcome). o.task_id)
            (sweep_ids cal croniter isoformat push db now clock ids m).1
          ≡ ids)
        × All Reports (sweep_ids cal croniter isoformat push db now clock ids m).1
  unfolding sweep_ids
  swept [] m h = (refl, tt)
  swept (id ∷ ids) m h =
      let (o, own, result, reports) = outcome_of_visit id h.0 in
      let later = sweep_ids cal croniter isoformat push db now clock ids (remember m (synced o)) in
      let rest = swept ids (remember m (synced o)) h.1 in
      subst
        (λ c.
          let out = (sweep_ids cal croniter isoformat push db now clock ids (remember m c)).1 in
          (map (λ (x : SyncOutcome). x.task_id) (add_outcome c out) ≡ id ∷ ids)
          × All Reports (add_outcome c out))
        (sym result)
        (
          ap (λ k. k ∷ map (λ (x : SyncOutcome). x.task_id) later.1) own ∙ ap (λ l. id ∷ l) rest.0,
          (reports, rest.1),
        )

  -- Each task is the one that its primary key finds.
  abbrev pub IsKeyed : List Task → Type 0
  IsKeyed tasks = All (λ (t : Task). get_task db t.id ≡ some t) tasks

  monitored-Visited : (tasks : List Task) → IsKeyed tasks → All Visited (monitored tasks)
  unfolding monitored
  monitored-Visited [] h = tt
  monitored-Visited (t ∷ tasks) h = elim (Option-cases (token_of t)) [
    | inl none_ ↦ rw none_ (monitored-Visited tasks h.1)
    | inr (token, e) ↦ rw e ((t, token, h.0, e), monitored-Visited tasks h.1)
  ]

  -- A sweep answers one outcome for each monitored task, in the order of the table, whatever its pushes
  -- answer or raise, if each task is the one that its primary key finds. Each says what the task's
  -- projection does: pushed with its status and the answer of the push, or not pushed where the
  -- projection says nothing; or its push raised, and it is not in order.
  pub sweep-Reports :
      (m : Memory)
      → IsKeyed db.tasks
      → (map (λ (o : SyncOutcome). o.task_id) (sweep cal croniter isoformat push db now clock m).1
          ≡ monitored db.tasks)
        × All Reports (sweep cal croniter isoformat push db now clock m).1
  unfolding sweep
  sweep-Reports m keyed = swept (monitored db.tasks) m (monitored-Visited db.tasks keyed)
