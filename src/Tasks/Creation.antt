-- ===== src/Tasks/Creation.antt =====
-- packages/task/src/service.py: `create_task`.
use plomio.Prelude.{
  ℕ, List, none, Option, String, some, if◌then◌else◌, is_some, ◌||◌, ◌+◌, ◌++◌, ◌∷◌, [],
}
use plomio.Core.Enums.{Marketplace, ParseType, queued, TaskItemStatus, ReferenceType}
use plomio.Database.{Task, TaskItem, Action, pure, modify, fresh_id, transaction, ◌>>=◌, ◌>>◌}
use plomio.Prelude.Int.{ℤ, pos}
use plomio.Billing.Wallets.{Charge, BillingConfig, charge}
use plomio.Tasks.{ensure_can_spend}

-- The arguments of `create_task`.
pub record NewTask : Type 0 where
  pub parse_type : ParseType
  pub marketplace : Marketplace
  pub inputs : List String
  pub priority : ℕ
  pub ttl : ℕ
  pub user_id : ℕ
  pub result_limit : Option ℕ
  pub automation_id : Option ℕ
  pub pricing_dimension_code : Option String
  pub pricing_dimension_value : Option ℤ
  pub api_key_id : Option ℕ

-- The pricing snapshot: the priority, unless the caller has set a dimension.
abbrev pub snapshot_code : NewTask → Option String
snapshot_code n =
    if is_some n.pricing_dimension_code || is_some n.pricing_dimension_value
    then n.pricing_dimension_code
    else some "task_priority"

abbrev pub snapshot_value : NewTask → Option ℤ
snapshot_value n =
    if is_some n.pricing_dimension_code || is_some n.pricing_dimension_value
    then n.pricing_dimension_value
    else some (pos n.priority)

abbrev pub new_task : ℕ → NewTask → ℕ → Task
new_task now n id = record {
  id = id;
  parse_type = n.parse_type;
  marketplace = n.marketplace;
  status = queued;
  priority = n.priority;
  queue_expires_at = now + n.ttl;
  result_limit = n.result_limit;
  claimed_by = none;
  claimed_at = none;
  lease_expires_at = none;
  started_at = none;
  finished_at = none;
  error_reason = none;
  user_id = n.user_id;
  automation_id = n.automation_id;
  pricing_dimension_code = snapshot_code n;
  pricing_dimension_value = snapshot_value n;
  api_key_id = n.api_key_id;
  created_at = now;
}

-- The loop over `enumerate(inputs)`.
unfoldable pub create_items : ℕ → ℕ → List String → Action (Unit {0})
create_items task_id position [] = pure tt
create_items task_id position (input ∷ inputs) = do
  id ← fresh_id
  modify (λ db. record db { task_items = db.task_items ++ new_item id ∷ [] })
  create_items task_id (position + 1) inputs
  where
    new_item : ℕ → TaskItem
    new_item id = record {
      id = id;
      task_id = task_id;
      position = position;
      input_value = input;
      status = TaskItemStatus.pending;
      cursor = none;
      result_count = 0;
      error_reason = none;
    }

-- The first transaction of `create_task`.
unfoldable pub insert_task : ℕ → NewTask → Action Task
unfolding create_items
insert_task now n = do
  id ← fresh_id
  let task = new_task now n id
  modify (λ db. record db { tasks = db.tasks ++ task ∷ [] })
  create_items id 0 n.inputs
  pure task

abbrev pub creation_charge : NewTask → ℕ → Charge
creation_charge n id = record {
  user_id = n.user_id;
  action_code = "task.create";
  quantity = 1;
  dimension_code = none;
  dimension_value = none;
  reference_type = some ReferenceType.task;
  reference_id = some id;
  automation_id = none;
  api_key_id = n.api_key_id;
}

unfoldable pub create_task : BillingConfig → ℕ → NewTask → Action Task
unfolding insert_task ensure_can_spend
create_task config now n = do
  elim n.automation_id [ none ↦ ensure_can_spend now n.user_id n.api_key_id | some a ↦ pure tt ]
  task ← transaction (insert_task now n)
  elim n.automation_id [
    | none ↦ charge config now (creation_charge n task.id) >> pure task
    | some a ↦ pure task
  ]
