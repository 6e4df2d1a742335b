-- ===== src/Automations/Checks/Dispatch.antt =====
-- packages/automation/src/service.py: `dispatch_due_checks`.
pub mod Created
pub mod Postponed
use plomio.Core.Enums.{ParseType, ApiKeyBlockReason}
use plomio.Core.Time.{minute}
use plomio.Database.{Action, pure, gets, transaction, ◌>>=◌, ◌>>◌}
use plomio.Database.AutomationTables.{Automation}
use plomio.Prelude.Int.{pos}
use plomio.Billing.Wallets.{BillingConfig}
use plomio.Billing.Limits.{BlockReason, Blocked, lookup_reason, get_blocked_user_ids}
use plomio.ApiKeys.{BlockedKeys, lookup_key_reason, get_blocked_api_key_ids}
use plomio.Tasks.Creation.{NewTask, create_task}
use plomio.Automations.Checks.{
  claim_due_for_dispatch, set_pending_task, finalize_row, List, ◌∷◌, Option, String, ℕ, [], some,
  map,
}
use plomio.Prelude.{List, String, ℕ, ◌∷◌, Option, [], ◌+◌, none, some, ◌*◌, map}

-- The check of a claimed automation, `DISPATCH_PRIORITY` 5, `DISPATCH_TTL` 10 minutes.
abbrev pub check_task : Automation → NewTask
check_task a = record {
  parse_type = ParseType.product_page;
  marketplace = a.marketplace;
  inputs = a.input_value ∷ [];
  priority = 5;
  ttl = 10 * minute;
  user_id = a.user_id;
  result_limit = some 1;
  automation_id = some a.id;
  pricing_dimension_code = some "automation_check_frequency";
  pricing_dimension_value = some (pos a.check_frequency_minutes);
  api_key_id = a.api_key_id;
}

-- The texts of the reasons.
abbrev pub user_reason : BlockReason → String
user_reason BlockReason.insufficient = "insufficient_credits"
user_reason BlockReason.spending_limit = "spending_limit"

abbrev pub key_reason : ApiKeyBlockReason → String
key_reason ApiKeyBlockReason.inactive = "api_key_inactive"
key_reason ApiKeyBlockReason.credit_limit = "api_key_credit_limit"

abbrev pub key_block_reason : Option ℕ → BlockedKeys → Option String
key_block_reason none blocked_api_keys = none
key_block_reason (some id) blocked_api_keys = elim (lookup_key_reason id blocked_api_keys) [
  | none ↦ none
  | some r ↦ some (key_reason r)
]

unfoldable pub block_reason : Automation → Blocked → BlockedKeys → Option String
block_reason a blocked_reasons blocked_api_keys = elim (lookup_reason a.user_id blocked_reasons) [
  | none ↦ key_block_reason a.api_key_id blocked_api_keys
  | some r ↦ some (user_reason r)
]

-- One round of the loop: 1 where a task was created.
unfoldable pub dispatch_check : BillingConfig → ℕ → Blocked → BlockedKeys → Automation → Action ℕ
unfolding create_task block_reason
dispatch_check config now blocked_reasons blocked_api_keys a =
    elim (block_reason a blocked_reasons blocked_api_keys) [
      | some reason ↦ transaction (finalize_row a.id now (some reason) [] none) >> pure 0
      | none ↦ do
        task ← create_task config now (check_task a)
        transaction (set_pending_task a.id task.id)
        pure 1
    ]

unfoldable pub dispatch_checks :
    BillingConfig → ℕ → Blocked → BlockedKeys → List Automation → ℕ → Action ℕ
unfolding dispatch_check
dispatch_checks config now blocked_reasons blocked_api_keys [] dispatched_count =
    pure dispatched_count
dispatch_checks config now blocked_reasons blocked_api_keys (a ∷ rows) dispatched_count = do
  n ← dispatch_check config now blocked_reasons blocked_api_keys a
  dispatch_checks config now blocked_reasons blocked_api_keys rows (dispatched_count + n)

-- The keys of the claimed automations that have one.
abbrev pub api_key_ids_of : List Automation → List ℕ
api_key_ids_of [] = []
api_key_ids_of (a ∷ rows) = elim a.api_key_id [
  | none ↦ api_key_ids_of rows
  | some id ↦ id ∷ api_key_ids_of rows
]

unfoldable pub dispatch_due_checks : BillingConfig → ℕ → ℕ → ℕ → Action ℕ
unfolding claim_due_for_dispatch dispatch_checks
dispatch_due_checks config now batch_size out_of_stock_minutes = do
  claimed ← transaction (claim_due_for_dispatch now batch_size out_of_stock_minutes)
  blocked_reasons ← gets (get_blocked_user_ids now (map (λ a. a.user_id) claimed))
  blocked_api_keys ← gets (get_blocked_api_key_ids now (api_key_ids_of claimed))
  dispatch_checks config now blocked_reasons blocked_api_keys claimed 0
