-- ===== src/Tasks.antt =====
-- packages/task/src/service.py: what the calls on a task share, and its cancellation, pause,
-- resumption and deletion. The columns that `BaseRepository.update` is given as `None` keep their
-- value (core/repository.py).
pub mod Items
pub mod Creation
pub mod Restart
pub mod Queue
pub mod Calls
pub mod Steps
pub mod Lifecycle
pub mod Transitions
pub mod Effects
pub mod ItemEffects
pub mod Refinement
pub mod Sweeps
pub mod Claims
pub mod Atomic
pub mod Progress
pub mod Completion
pub mod Exclusion
use plomio.Prelude.{
  ℕ, List, none, Option, String, some, if◌then◌else◌, is_some, ◌||◌, ◌+◌, find_where, ◌++◌, not,
  Bool, ◌∷◌, update_where, true, ◌==◌, [], false, filter_where, update_first, map, is_in,
}
use plomio.Core.Enums.{
  Marketplace, ParseType, TaskStatus, queued, running, paused, failed, expired, cancelled,
  TaskItemStatus, ReferenceType, EventCode,
}
use plomio.Core.Result.{object_not_found, invalid_task_transition}
use plomio.Database.{
  Database, Task, TaskItem, Payload, Action, pure, gets, or_raise, raise_if, modify, fresh_id,
  transaction, ◌>>=◌, ◌>>◌,
}
use plomio.Prelude.Int.{ℤ, pos}
use plomio.Billing.Wallets.{Charge, BillingConfig, charge, notify}
use plomio.Billing.Limits
use plomio.ApiKeys

-- `PAUSABLE_STATUSES`, `CANCELLABLE_STATUSES` and `RESTARTABLE_STATUSES`
abbrev pub is_pausable : TaskStatus → Bool
is_pausable queued = true
is_pausable running = true
is_pausable _ = false

abbrev pub is_cancellable : TaskStatus → Bool
is_cancellable queued = true
is_cancellable paused = true
is_cancellable running = true
is_cancellable _ = false

abbrev pub is_restartable : TaskStatus → Bool
is_restartable failed = true
is_restartable expired = true
is_restartable _ = false

abbrev pub is_paused : TaskStatus → Bool
is_paused paused = true
is_paused _ = false

abbrev pub is_failed : TaskStatus → Bool
is_failed failed = true
is_failed _ = false

abbrev pub find_task : ℕ → List Task → Option Task
find_task id = find_where (λ t. t.id == id)

-- `get_by_id`, and `lock_by_id`, which also locks the row.
abbrev pub get_task : ℕ → Action Task
get_task id = do or_raise (← gets (λ db. find_task id db.tasks)) object_not_found

abbrev pub set_tasks : (List Task → List Task) → Action (Unit {0})
set_tasks change = modify (λ db. record db { tasks = change db.tasks })

-- `BaseRepository.update`, with the columns that it sets as a function on the row.
pub update_task : ℕ → (Task → Task) → Action Task
update_task id change = do set_tasks (update_first (λ t. t.id == id) change); get_task id

-- The owner check of a caller: the administrator's and the worker's calls pass no user.
abbrev pub is_foreign : Option ℕ → Task → Bool
is_foreign none task = false
is_foreign (some user_id) task = not (task.user_id == user_id)

-- `_ensure_can_spend`
pub ensure_can_spend : ℕ → ℕ → Option ℕ → Action (Unit {0})
ensure_can_spend now user_id api_key_id = do
  Limits.ensure_can_spend now user_id
  elim api_key_id [ none ↦ pure tt | some id ↦ ApiKeys.ensure_can_spend now id ]

-- `_can_continue`
pub can_continue : ℕ → Task → Database → Bool
can_continue now task db =
    if Limits.can_spend now task.user_id db
    then elim task.api_key_id [ none ↦ true | some id ↦ ApiKeys.can_spend now id db ]
    else false

-- The guard that all calls make for a task of a user, and none for a check of an automation.
abbrev pub ensure_owner_can_spend : ℕ → Task → Action (Unit {0})
ensure_owner_can_spend now task = elim task.automation_id [
  | none ↦ ensure_can_spend now task.user_id task.api_key_id
  | some a ↦ pure tt
]

abbrev pub cancel : ℕ → Task → Task
cancel now t = record t { status = cancelled; finished_at = some now }

pub cancel_task : ℕ → ℕ → Option ℕ → Action Task
unfolding update_task
cancel_task now task_id user_id = transaction do
  task ← get_task task_id
  raise_if (is_foreign user_id task) object_not_found
  raise_if (not (is_cancellable task.status)) invalid_task_transition
  update_task task_id (cancel now)

abbrev pub pause : Task → Task
pause t = record t { status = paused }

pub pause_task : ℕ → Option ℕ → Action Task
unfolding update_task
pause_task task_id user_id = do
  task ← transaction do
    task ← get_task task_id
    raise_if (is_foreign user_id task) object_not_found
    raise_if (not (is_pausable task.status)) invalid_task_transition
    update_task task_id pause
  elim task.automation_id [
    | none ↦
        notify task.user_id EventCode.task_paused_insufficient_credits (Payload.paused task_id)
        >> pure task
    | some a ↦ pure task
  ]

pub pause_task_system : ℕ → Action Task
unfolding update_task
pause_task_system task_id = transaction do
  task ← get_task task_id
  (if is_pausable task.status then update_task task_id pause else pure task)

abbrev pub requeue : ℕ → Task → Task
requeue expires t = record t { status = queued; queue_expires_at = expires }

pub resume_task : ℕ → ℕ → ℕ → Option ℕ → Action Task
unfolding update_task ensure_can_spend
resume_task now task_id ttl user_id = transaction do
  task ← get_task task_id
  raise_if (is_foreign user_id task) object_not_found
  raise_if (not (is_paused task.status)) invalid_task_transition
  ensure_owner_can_spend now task
  update_task task_id (requeue (now + ttl))

abbrev pub is_pending : (ℕ → Bool) → Option ℕ → Bool
is_pending is_deleted none = false
is_pending is_deleted (some task_id) = is_deleted task_id

-- The references to a deleted task: its items and their results go with it (`ON DELETE CASCADE`), and
-- an automation that waits for it waits no more (`SET NULL`).
abbrev pub delete_tasks : (Task → Bool) → (ℕ → Bool) → Database → Database
delete_tasks is_deleted is_deleted_id db =
    let gone = map (λ i. i.id) (filter_where (λ i. is_deleted_id i.task_id) db.task_items) in
    record db {
      tasks = filter_where (λ t. not (is_deleted t)) db.tasks;
      task_items = filter_where (λ i. not (is_deleted_id i.task_id)) db.task_items;
      results = filter_where (λ r. not (is_in r.task_item_id gone)) db.results;
      automations =
          update_where (λ a. is_pending is_deleted_id a.pending_task_id)
            (λ a. record a { pending_task_id = none }) db.automations;
    }

pub delete_task : ℕ → ℕ → Action (Unit {0})
delete_task task_id user_id = transaction do
  task ← get_task task_id
  raise_if (not (task.user_id == user_id)) object_not_found
  modify (delete_tasks (λ t. t.id == task_id) (λ id. id == task_id))
