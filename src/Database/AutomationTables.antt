-- ===== src/Database/AutomationTables.antt =====
-- The tables of packages/automation/src/models.py and entities.py, the product page of
-- packages/result/src/entities.py with the fields that the checks read, and the enums of
-- packages/automation/src/enums.py. Prices are kopecks; a rating is compared only, and a number
-- stands for it.
use plomio.Prelude.{ℕ, Bool, true, false, not, Option, none, some, List, String, ◌==◌, str_eq}
use plomio.Core.Enums.{Marketplace}

pub data AutomationStatus : Type 0 where
  active paused : AutomationStatus

pub data TrackedField : Type 0 where
  price discounted_price original_price in_stock title rating review_count seller_name :
      TrackedField

pub data TrackedFieldKind : Type 0 where
  kopecks boolean numeric text : TrackedFieldKind

-- The columns of an automation that a tracked field is compared with.
pub data BaselineAttribute : Type 0 where
  baseline_price_kopecks baseline_discounted_price_kopecks baseline_original_price_kopecks :
      BaselineAttribute
  in_stock : BaselineAttribute

-- A value of a tracked field.
pub data FieldValue : Type 0 where
  number : ℕ → FieldValue
  flag : Bool → FieldValue
  word : String → FieldValue

abbrev pub same_flag : Bool → Bool → Bool
same_flag true b = b
same_flag false b = not b

abbrev pub same_value : FieldValue → FieldValue → Bool
same_value (FieldValue.number a) (FieldValue.number b) = a == b
same_value (FieldValue.flag a) (FieldValue.flag b) = same_flag a b
same_value (FieldValue.word a) (FieldValue.word b) = str_eq a b
same_value _ _ = false

-- `previous == new` where the previous value may be missing.
abbrev pub is_value : Option FieldValue → FieldValue → Bool
is_value none v = false
is_value (some w) v = same_value w v

-- The dictionary of a snapshot: a key for every tracked field.
abbrev pub Snapshot : Type 0
Snapshot = TrackedField → Option FieldValue

pub record Change : Type 0 where
  pub field : TrackedField
  pub old_value : Option FieldValue
  pub new_value : FieldValue
  pub threshold_breached : Bool

pub record Automation : Type 0 where
  pub id : ℕ
  pub user_id : ℕ
  pub marketplace : Marketplace
  pub input_value : String
  pub article : Option String
  pub status : AutomationStatus
  pub price_drop_threshold_percent : ℕ
  pub check_frequency_minutes : ℕ
  pub history_retention_days : ℕ
  pub baseline_price : Option ℕ
  pub baseline_discounted_price : Option ℕ
  pub baseline_original_price : Option ℕ
  pub available : Option Bool
  pub name : Option String
  pub price_kopecks : Option ℕ
  pub discounted_price_kopecks : Option ℕ
  pub original_price_kopecks : Option ℕ
  pub next_check_at : ℕ
  pub pending_task_id : Option ℕ
  pub last_checked_at : Option ℕ
  pub last_check_error : Option String
  pub api_key_id : Option ℕ
  pub created_at : ℕ

pub record AutomationCheckLog : Type 0 where
  pub id : ℕ
  pub automation_id : ℕ
  pub succeeded : Bool
  pub error_message : Option String
  pub snapshot : Option Snapshot
  pub changes : List Change
  pub has_changes : Bool
  pub threshold_breached : Bool
  pub checked_at : ℕ

pub record ProductPagePayload : Type 0 where
  pub product_url : String
  pub title : String
  pub seller_name : String
  pub price_kopecks : Option ℕ
  pub discounted_price_kopecks : Option ℕ
  pub original_price_kopecks : Option ℕ
  pub rating : Option ℕ
  pub review_count : Option ℕ
  pub available : Bool

-- Of a task of type PRODUCT_PAGE.
pub record ResultItem : Type 0 where
  pub id : ℕ
  pub task_item_id : ℕ
  pub payload : ProductPagePayload
  pub created_at : ℕ

-- The payload of `automation.change_detected`, with the `changed_fields` of the call.
-- `previous` and `current` hold the `*_old` and `*_new` variables of the templates.
pub record ChangeNotice : Type 0 where
  pub automation_id : ℕ
  pub task_id : Option ℕ
  pub product_name : Option String
  pub link : Option String
  pub changes : List Change
  pub threshold_breached : Bool
  pub baseline : Snapshot
  pub previous : Snapshot
  pub current : Snapshot
  pub changed_fields : List TrackedField
