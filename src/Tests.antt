-- ===== src/Tests.antt =====
-- A small database, and runs of the modelled operations on it.
pub mod BillingTests
pub mod ApiKeysTests
pub mod TasksTests
pub mod WorkerTests
pub mod PagesTests
pub mod AutomationsTests
pub mod NotificationsTests
pub mod SessionsTests
use plomio.Prelude.{ℕ, none, some, [], ◌∷◌, true, List, ◌+◌, ◌*◌}
use plomio.Prelude.Int.{pos}
use plomio.Core.Enums.{ParseType, Marketplace, ozon, TaskStatus, TaskItemStatus, ReferenceType}
use plomio.Core.Time.{minute, day}
use plomio.Database.{
  Database, CreditWallet, CreditTransaction, ApiKey, PricingMultiplierRule, Task, TaskItem,
}
use plomio.Billing.Wallets.{BillingConfig, Charge}

abbrev pub config : BillingConfig
config = record { notifies = true; low_balance_threshold = 20 }

-- Noon of 1970-01-20.
abbrev pub noon : ℕ
noon = 19 * day + 720 * minute

abbrev pub wallet : CreditWallet
wallet = record { user_id = 1; balance = pos 100 }

abbrev pub bonus : CreditTransaction
bonus = record {
  id = 1;
  user_id = 1;
  amount = pos 100;
  balance_after = pos 100;
  action_code = none;
  reference_type = none;
  reference_id = none;
  transaction_metadata = none;
  granted_by_admin_id = none;
  api_key_id = none;
  created_at = 5;
}

abbrev pub rule : PricingMultiplierRule
rule = record {
  id = 3;
  dimension_code = "task_priority";
  value_min = pos 1;
  value_max = pos 3;
  multiplier = 150;
}

abbrev pub key : ApiKey
key = record {
  id = 7;
  user_id = 1;
  name = "shop";
  key_hash = "h";
  credit_limit = some 50;
  expires_at = none;
  revoked_at = none;
  last_used_at = none;
  created_at = 9;
}

abbrev pub task : Task
task = record {
  id = 20;
  parse_type = ParseType.reviews;
  marketplace = ozon;
  status = TaskStatus.queued;
  priority = 2;
  queue_expires_at = noon + day;
  result_limit = none;
  claimed_by = none;
  claimed_at = none;
  lease_expires_at = none;
  started_at = none;
  finished_at = none;
  error_reason = none;
  user_id = 1;
  automation_id = none;
  pricing_dimension_code = some "task_priority";
  pricing_dimension_value = some (pos 2);
  api_key_id = some 7;
  created_at = noon;
}

abbrev pub item : ℕ → TaskItemStatus → TaskItem
item id status = record {
  id = id;
  task_id = 20;
  position = id;
  input_value = "https://example.org";
  status = status;
  cursor = none;
  result_count = 0;
  error_reason = none;
}

-- The shop of user 1: a wallet of 100 credits, a key with a limit of 50, a task with two items.
abbrev pub shop : Database
shop = record {
  tasks = task ∷ [];
  task_items = item 21 TaskItemStatus.pending ∷ item 22 TaskItemStatus.pending ∷ [];
  billing_actions =
      record { action_code = "task.create"; base_cost = 5 }
      ∷ record { action_code = "result.REVIEWS"; base_cost = 3 }
      ∷ [];
  pricing_rules = rule ∷ [];
  credit_wallets = wallet ∷ [];
  credit_transactions = bonus ∷ [];
  spending_limits = record { user_id = 1; daily_limit = some 40; monthly_limit = none } ∷ [];
  api_keys = key ∷ [];
  automations = [];
  check_logs = [];
  results = [];
  notices = [];
  next_id = 100;
}

-- 30 reviews of a task of priority 2: 135 credits.
abbrev pub reviews : Charge
reviews = record {
  user_id = 1;
  action_code = "result.REVIEWS";
  quantity = 30;
  dimension_code = some "task_priority";
  dimension_value = some (pos 2);
  reference_type = some ReferenceType.task;
  reference_id = some 20;
  automation_id = none;
  api_key_id = some 7;
}
