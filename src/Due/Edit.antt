-- ===== src/Due/Edit.antt =====
-- An edit or a removal of a task against its obligation: `on_task_edited` and `forget_task` of
-- backend/pullbackup/services/due.py.
use pullbackup.Base.{ℕ, Bool, ◌||◌, not, Option, none, some, if◌then◌else◌}
use pullbackup.Models.{Instant, Task, TaskDue, Db}
use pullbackup.Due.Settle.{get_due, rearm, is_exhausted, is_blocked}
use pullbackup.Due.Reconcile.{put_task, put_due, delete_due}

-- The old generation is dropped, whatever its state.
unfoldable pub new_generation : Db → Task → Instant → Db
new_generation db task now =
    delete_due
      (put_task db (record task { schedule_baseline_at = some now; schedule_epoch_at = some now }))
      task.id

-- Another edit may have fixed what blocked the obligation.
unfoldable pub unblock : Db → Option TaskDue → Instant → Db
unblock db none now = db
unblock db (some row) now =
    if is_blocked row.status || is_exhausted row.status
    then put_due db (record (rearm row) { updated_at = now })
    else db

unfoldable pub on_task_edited : Db → Task → Bool → Instant → Db
on_task_edited db task schedule_changed now =
    if schedule_changed || not task.enabled
    then new_generation db task now
    else unblock db (get_due db task.id) now

unfoldable pub forget_task : Db → ℕ → Db
forget_task db task_id = delete_due db task_id
