-- ===== src/Automations/Creation.antt =====
-- packages/automation/src/service.py: `create_automation`, with `find_duplicate` of
-- packages/automation/src/repository.py.
pub mod Unique
pub mod Bulk
pub mod Batch
use plomio.Core.Enums.{Marketplace, ozon, wildberries, ReferenceType}
use plomio.Core.Result.{
  Error, Result, ok, err, duplicated_object, integrity_error, invalid_check_frequency,
  duplicate_automation, insufficient_credits, spending_limit_exceeded,
  api_key_credit_limit_exceeded, api_key_inactive,
}
use plomio.Database.{
  Database, Action, pure, raise, gets, raise_if, modify, fresh_id, transaction, ◌>>=◌, ◌>>◌,
}
use plomio.Database.AutomationTables.{Automation, AutomationStatus}
use plomio.Billing.Wallets.{BillingConfig, Charge, charge}
use plomio.Tasks.{ensure_can_spend}
use Prim.Native.Nat.{ℕ}
use plomio.Prelude.{
  ◌∷◌, ◌++◌, ℕ, Bool, List, Option, String, any_where, none, some, true, false, if◌then◌else◌, ◌==◌,
  is_some, ◌||◌, ltb, find_where, ◌&&◌, str_eq, leb, [], not, ◌++◌, filter_where,
}
use plomio.Automations.{find_automation}

-- `extract_article` and `normalize_product_input` of core/marketplace_article.py.
pub record Articles : Type 0 where
  pub extract_article : Marketplace → String → Option String
  pub normalize_product_input : Marketplace → String → String

-- `AutomationCreateData`
pub record AutomationCreateData : Type 0 where
  pub marketplace : Marketplace
  pub input_value : String
  pub price_drop_threshold_percent : ℕ
  pub check_frequency_minutes : ℕ
  pub history_retention_days : ℕ

abbrev pub same_marketplace : Marketplace → Marketplace → Bool
same_marketplace ozon ozon = true
same_marketplace wildberries wildberries = true
same_marketplace _ _ = false

-- `column == value` for a text that may be null.
abbrev pub is_text : Option String → String → Bool
is_text none s = false
is_text (some t) s = str_eq t s

-- The condition of `find_duplicate`: the article, or the input of a product without one.
abbrev pub is_duplicate : ℕ → Marketplace → Option String → String → Automation → Bool
is_duplicate user_id marketplace none input_value a =
    (a.user_id == user_id)
    && (same_marketplace a.marketplace marketplace && str_eq a.input_value input_value)
is_duplicate user_id marketplace (some article) input_value a =
    (a.user_id == user_id)
    && (same_marketplace a.marketplace marketplace && is_text a.article article)

abbrev pub is_duplicate_of : Automation → Automation → Bool
is_duplicate_of e = is_duplicate e.user_id e.marketplace e.article e.input_value

-- The unique index on the user, the marketplace and the article, where there is one.
abbrev pub collides : Automation → Automation → Bool
collides e a = is_some e.article && is_duplicate_of e a

-- `ck_automations_price_drop_threshold_range`
abbrev pub is_threshold : ℕ → Bool
is_threshold percent = leb 1 percent && leb percent 100

abbrev pub new_automation : Articles → ℕ → ℕ → Option ℕ → AutomationCreateData → ℕ → Automation
new_automation articles now user_id api_key_id item id = record {
  id = id;
  user_id = user_id;
  marketplace = item.marketplace;
  input_value = articles.normalize_product_input item.marketplace item.input_value;
  article = articles.extract_article item.marketplace item.input_value;
  status = AutomationStatus.active;
  price_drop_threshold_percent = item.price_drop_threshold_percent;
  check_frequency_minutes = item.check_frequency_minutes;
  history_retention_days = item.history_retention_days;
  baseline_price = none;
  baseline_discounted_price = none;
  baseline_original_price = none;
  available = none;
  name = none;
  price_kopecks = none;
  discounted_price_kopecks = none;
  original_price_kopecks = none;
  next_check_at = now;
  pending_task_id = none;
  last_checked_at = none;
  last_check_error = none;
  api_key_id = api_key_id;
  created_at = now;
}

-- `BaseRepository.create`: a row that breaks a constraint is refused.
unfoldable pub create_row : Automation → Action Automation
create_row a = do
  taken ← gets (λ db. any_where (collides a) db.automations)
  raise_if (taken || not (is_threshold a.price_drop_threshold_percent)) duplicated_object
  modify (λ db. record db { automations = db.automations ++ a ∷ [] })
  pure a

-- `except DuplicatedObjectError`
abbrev pub translated : {A : Type 0} → Result A × Database → Result A × Database
translated (err duplicated_object, db) = (err duplicate_automation, db)
translated r = r

abbrev pub automation_charge : ℕ → Option ℕ → ℕ → Charge
automation_charge user_id api_key_id id = record {
  user_id = user_id;
  action_code = "automation.create";
  quantity = 1;
  dimension_code = none;
  dimension_value = none;
  reference_type = some ReferenceType.automation;
  reference_id = some id;
  automation_id = none;
  api_key_id = api_key_id;
}

-- The transaction of `create_automation`.
unfoldable pub insert_automation :
    Articles → ℕ → ℕ → Option ℕ → AutomationCreateData → Action Automation
unfolding create_row
insert_automation articles now user_id api_key_id item = do
  id ← fresh_id
  let a = new_automation articles now user_id api_key_id item id
  duplicate ← gets (λ db. find_where (is_duplicate_of a) db.automations)
  raise_if (is_some duplicate) duplicate_automation
  (λ db. translated (create_row a db))

unfoldable pub create_automation :
    Articles → BillingConfig → ℕ → ℕ → AutomationCreateData → ℕ → Option ℕ → Action Automation
unfolding insert_automation
create_automation articles config now user_id item min_check_frequency_minutes api_key_id = do
  raise_if (ltb item.check_frequency_minutes min_check_frequency_minutes) invalid_check_frequency
  ensure_can_spend now user_id api_key_id
  created ← transaction (insert_automation articles now user_id api_key_id item)
  charge config now (automation_charge user_id api_key_id created.id)
  pure created
