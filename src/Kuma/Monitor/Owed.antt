-- ===== src/Kuma/Monitor/Owed.antt =====
-- The operations on a monitor that `_sync_kuma` of api/tasks.py owes, does and leaves.
use pullbackup.Base.{
  ℕ, ◌≡◌, ◌⊎◌, inl, inr, refl, ap, Bool, false, ◌||◌, List, [], ◌∷◌, ◌++◌, none, some,
  nat_comparable, Option-cases, Bool-cases,
}
use pullbackup.Kuma.Push.{Failure}
use pullbackup.Kuma.Sync.{Op, interval, active}
use pullbackup.Kuma.Monitor.{owes, todo_ops, Applied, KumaClient, apply_op, apply_ops}

-- The queues of operations: an interval and then an activation, either of them or none.
pub data IsQueue : List Op → Type 0 where
  idle : IsQueue []
  an_interval : IsQueue (Op.interval ∷ [])
  an_active : IsQueue (Op.active ∷ [])
  both : IsQueue (Op.interval ∷ Op.active ∷ [])

pub todo_ops-IsQueue :
    (pending : List Op) (rescheduled toggled : Bool)
    → IsQueue (todo_ops pending rescheduled toggled)
unfolding todo_ops
todo_ops-IsQueue pending rescheduled toggled =
    elim (Bool-cases (owes interval pending || rescheduled)) [
      | inl i ↦ elim (Bool-cases (owes active pending || toggled)) [
        | inl a ↦ rw (i, a) both
        | inr a ↦ rw (i, a) an_interval
      ]
      | inr i ↦ elim (Bool-cases (owes active pending || toggled)) [
        | inl a ↦ rw (i, a) an_active
        | inr a ↦ rw (i, a) idle
      ]
    ]

-- A queue is what is to be done when nothing is edited.
pub queue_todo : {ops : List Op} → IsQueue ops → todo_ops ops false false ≡ ops
unfolding todo_ops owes
queue_todo idle = refl
queue_todo an_interval = refl
queue_todo an_active = refl
queue_todo both = refl

behind_first : {op : Op} {ops : List Op} → IsQueue (op ∷ ops) → IsQueue ops
behind_first an_interval = idle
behind_first an_active = idle
behind_first both = an_active

-- What became of a queue: all of it was done, or a part, and the rest is left, from the failed one on.
abbrev pub Accounted : List Op → Applied → Type 0
Accounted ops applied =
    ((applied.stopped ≡ none) × (applied.done ≡ ops))
    ⊎ ((e : Failure) × (op : Op) × (left : List Op) × (applied.stopped ≡ some (e, op ∷ left))
        × (applied.done ++ op ∷ left ≡ ops)
        × IsQueue (op ∷ left))

add_done :
    (op : Op) (ops : List Op) (applied : Applied)
    → Accounted ops applied
    → Accounted (op ∷ ops) (record applied { done = op ∷ applied.done })
add_done op ops applied (inl (stopped, done)) = inl (stopped, ap (λ l. op ∷ l) done)
add_done op ops applied (inr (e, failed, left, stopped, split, queue)) =
    inr (e, failed, left, stopped, ap (λ l. op ∷ l) split, queue)

module _ (client : KumaClient) (monitor expiry : ℕ) (enabled : Bool) where
  pub apply_ops-Accounted :
      (ops : List Op) → IsQueue ops → Accounted ops (apply_ops client monitor expiry enabled ops)
  unfolding apply_ops
  apply_ops-Accounted [] queue = inl (refl, refl)
  apply_ops-Accounted (op ∷ ops) queue =
      elim (Option-cases (apply_op client monitor expiry enabled op)) [
        | inl fine ↦
            rw (fine, apply_ops) (add_done op ops _ (apply_ops-Accounted ops (behind_first queue)))
        | inr (e, bad) ↦ rw (bad, apply_ops) (inr (e, op, ops, refl, refl, queue))
      ]
