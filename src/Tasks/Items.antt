-- ===== src/Tasks/Items.antt =====
-- packages/task/src/service.py: the items of a task, what the worker reports of them, and how they
-- end the task; and the choice of items in process_claimed_task of
-- apps/worker_parser/src/task_runner.py.
use plomio.Prelude.{
  ℕ, length, none, Option, String, List, Bool, not, some, find_where, filter_where, count_where,
  true, sum_where, if◌then◌else◌, ◌==◌, any_where, ltb, false, ◌-◌, update_first,
}
use plomio.Core.Enums.{
  ParseType, TaskStatus, queued, succeeded, failed, TaskItemStatus, ReferenceType, EventCode,
}
use plomio.Core.Result.{object_not_found, task_item_not_excludable}
use plomio.Database.{
  Database, Task, TaskItem, Payload, Action, pure, gets, or_raise, raise_if, modify, transaction,
  ◌>>=◌, ◌>>◌,
}
use plomio.Billing.Wallets.{Charge, BillingConfig, charge, notify}
use plomio.Tasks.{
  get_task, update_task, is_failed, ensure_owner_can_spend, ensure_can_spend, can_continue,
  pause_task_system,
}

-- `ACTIVE_ITEM_STATUSES` and `TERMINAL_ITEM_STATUSES`
abbrev pub is_active_item : TaskItemStatus → Bool
is_active_item TaskItemStatus.pending = true
is_active_item TaskItemStatus.failed = true
is_active_item _ = false

abbrev pub is_terminal_item : TaskItemStatus → Bool
is_terminal_item TaskItemStatus.succeeded = true
is_terminal_item TaskItemStatus.failed = true
is_terminal_item TaskItemStatus.excluded = true
is_terminal_item _ = false

abbrev pub is_failed_item : TaskItemStatus → Bool
is_failed_item TaskItemStatus.failed = true
is_failed_item _ = false

abbrev pub find_item : ℕ → List TaskItem → Option TaskItem
find_item id = find_where (λ i. i.id == id)

abbrev pub get_item : ℕ → Action TaskItem
get_item id = do or_raise (← gets (λ db. find_item id db.task_items)) object_not_found

unfoldable pub update_item : ℕ → (TaskItem → TaskItem) → Action TaskItem
update_item id change = do
  modify (λ db. record db { task_items = update_first (λ i. i.id == id) change db.task_items })
  get_item id

-- `retrieve_all_by_filter` on `task_id`, in the order of the table.
abbrev pub items_of : ℕ → List TaskItem → List TaskItem
items_of task_id = filter_where (λ i. i.task_id == task_id)

abbrev pub set_status : TaskStatus → Task → Task
set_status s t = record t { status = s }

abbrev pub finish : ℕ → TaskStatus → Task → Task
finish now s t = record t { status = s; finished_at = some now }

abbrev pub exclude : TaskItem → TaskItem
exclude i = record i { status = TaskItemStatus.excluded }

-- What `exclude_task_item` does to the task, once the item is excluded.
unfoldable pub settle_exclusion : ℕ → ℕ → Task → List TaskItem → Action Task
unfolding update_task ensure_can_spend
settle_exclusion now task_id task items =
    if any_where (λ i. is_active_item i.status) items
    then (if is_failed task.status
        then ensure_owner_can_spend now task >> update_task task_id (set_status queued)
        else pure task)
    else update_task task_id (finish now succeeded)

unfoldable pub exclude_task_item : ℕ → ℕ → ℕ → Action Task
unfolding update_item settle_exclusion
exclude_task_item now task_id item_id = transaction do
  item ← get_item item_id
  raise_if (not (item.task_id == task_id)) object_not_found
  raise_if (not (is_failed_item item.status)) task_item_not_excludable
  update_item item_id exclude
  task ← get_task task_id
  items ← gets (λ db. items_of task_id db.task_items)
  settle_exclusion now task_id task items

-- The action of a charge for results.
abbrev pub result_action : ParseType → String
result_action ParseType.product_page = "result.PRODUCT_PAGE"
result_action ParseType.search_query = "result.SEARCH_QUERY"
result_action ParseType.reviews = "result.REVIEWS"
result_action ParseType.category = "result.CATEGORY"
result_action ParseType.seller = "result.SELLER"

abbrev pub result_charge : Task → ℕ → Charge
result_charge task delta = record {
  user_id = task.user_id;
  action_code = result_action task.parse_type;
  quantity = delta;
  dimension_code = task.pricing_dimension_code;
  dimension_value = task.pricing_dimension_value;
  reference_type = some ReferenceType.task;
  reference_id = some task.id;
  automation_id = task.automation_id;
  api_key_id = task.api_key_id;
}

abbrev pub or_kept {ℓ} : {A : Type ℓ} → Option A → Option A → Option A
or_kept none kept = kept
or_kept (some a) kept = some a

abbrev pub advance : Option ℕ → ℕ → TaskItem → TaskItem
advance cursor result_count i = record i {
  cursor = or_kept cursor i.cursor;
  result_count = result_count;
}

-- The first transaction of `record_item_progress`: the task is read where the count has grown.
unfoldable pub save_progress : ℕ → Option ℕ → ℕ → Action (Option Task × ℕ)
unfolding update_item
save_progress item_id cursor result_count = do
  item ← get_item item_id
  updated_item ← update_item item_id (advance cursor result_count)
  (if ltb item.result_count result_count
      then (get_task updated_item.task_id >>= λ task.
          pure (some task, result_count - item.result_count))
      else pure (none, 0))

-- What follows the transaction: the charge, and the pause of a task that may not go on.
unfoldable pub charge_progress : BillingConfig → ℕ → Task → ℕ → Action (Unit {0})
unfolding can_continue pause_task_system
charge_progress config now task delta = do
  charge config now (result_charge task delta)
  continues ← gets (can_continue now task)
  (if continues then pure tt else pause_task_system task.id >> pure tt)

unfoldable pub record_item_progress : BillingConfig → ℕ → ℕ → Option ℕ → ℕ → Action (Unit {0})
unfolding save_progress charge_progress
record_item_progress config now item_id cursor result_count = do
  (task, delta) ← transaction (save_progress item_id cursor result_count)
  elim task [ none ↦ pure tt | some task ↦ charge_progress config now task delta ]

abbrev pub complete : TaskItemStatus → Option String → TaskItem → TaskItem
complete status error_reason i = record i {
  status = status;
  error_reason = or_kept error_reason i.error_reason;
}

abbrev pub final_status : List TaskItem → TaskStatus
final_status items = if any_where (λ i. is_failed_item i.status) items then failed else succeeded

abbrev pub final_reason : List TaskItem → Option String
final_reason items =
    if any_where (λ i. is_failed_item i.status) items then some "item_failed" else none

abbrev pub finish_all : ℕ → List TaskItem → Task → Task
finish_all now items t = record t {
  status = final_status items;
  error_reason = or_kept (final_reason items) t.error_reason;
  finished_at = some now;
}

-- The transaction of `complete_item`: the task and its items where all of them have ended.
unfoldable pub complete_row :
    ℕ → ℕ → TaskItemStatus → Option String → Action (Option (Task × List TaskItem))
unfolding update_item update_task
complete_row now item_id status error_reason = do
  item ← get_item item_id
  locked_task ← get_task item.task_id
  completed_item ← update_item item_id (complete status error_reason)
  items ← gets (λ db. items_of completed_item.task_id db.task_items)
  (if any_where (λ i. not (is_terminal_item i.status)) items
      then pure none
      else update_task completed_item.task_id (finish_all now items)
        >> pure (some (locked_task, items)))

abbrev pub finished_event : List TaskItem → EventCode
finished_event items =
    if any_where (λ i. is_failed_item i.status) items
    then EventCode.task_failed
    else EventCode.task_completed

abbrev pub result_total : List TaskItem → ℕ
result_total = sum_where (λ _. true) (λ i. i.result_count)

unfoldable pub complete_item : ℕ → ℕ → TaskItemStatus → Option String → Action (Unit {0})
unfolding complete_row
complete_item now item_id status error_reason = do
  ended ← transaction (complete_row now item_id status error_reason)
  elim ended [
    | none ↦ pure tt
    | some (task, items) ↦ elim task.automation_id [
      | none ↦
          notify task.user_id (finished_event items)
            (Payload.finished task.id (final_reason items) (result_total items))
      | some a ↦ pure tt
    ]
  ]

pub record Progress : Type 0 where
  pub total_items : ℕ
  pub processed_items : ℕ
  pub result_count : ℕ

unfoldable pub get_progress : ℕ → Database → Progress
get_progress task_id db =
    let items = items_of task_id db.task_items in
    record {
      total_items = length items;
      processed_items = count_where (λ i. is_terminal_item i.status) items;
      result_count = result_total items;
    }

-- The items that the worker starts for a claimed task.
unfoldable pub pending_items : ℕ → List TaskItem → List TaskItem
pending_items task_id items =
    filter_where (λ i. not (is_terminal_item i.status)) (items_of task_id items)
