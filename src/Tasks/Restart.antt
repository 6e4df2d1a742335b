-- ===== src/Tasks/Restart.antt =====
-- packages/task/src/service.py: `restart_task`, with reset_failed_items and reset_for_restart of
-- repository.py.
use plomio.Prelude.{ℕ, update_where, none, Bool, not, ◌+◌, ◌==◌, ◌&&◌}
use plomio.Core.Enums.{queued, TaskItemStatus}
use plomio.Core.Result.{invalid_task_transition}
use plomio.Database.{Task, TaskItem, Action, raise_if, modify, transaction, ◌>>=◌, ◌>>◌}
use plomio.Tasks.{get_task, update_task, is_restartable, ensure_owner_can_spend, ensure_can_spend}
use plomio.Tasks.Items.{is_failed_item}

-- `reset_failed_items`
abbrev pub reset_item : TaskItem → TaskItem
reset_item i = record i { status = TaskItemStatus.pending; error_reason = none }

abbrev pub is_failed_item_of : ℕ → TaskItem → Bool
is_failed_item_of task_id i = (i.task_id == task_id) && is_failed_item i.status

-- `reset_for_restart`
abbrev pub restart : ℕ → Task → Task
restart expires t = record t {
  status = queued;
  queue_expires_at = expires;
  error_reason = none;
  finished_at = none;
  claimed_by = none;
  claimed_at = none;
  lease_expires_at = none;
}

unfoldable pub restart_task : ℕ → ℕ → ℕ → Action Task
unfolding update_task ensure_can_spend
restart_task now task_id ttl = transaction do
  task ← get_task task_id
  raise_if (not (is_restartable task.status)) invalid_task_transition
  ensure_owner_can_spend now task
  modify (λ db. record db {
    task_items = update_where (is_failed_item_of task_id) reset_item db.task_items;
  })
  update_task task_id (restart (now + ttl))
