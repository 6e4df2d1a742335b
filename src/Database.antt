-- ===== src/Database.antt =====
-- The tables: the models.py and entities.py of packages/task, packages/billing and
-- packages/api_keys, with the columns that the services read or write (those of packages/automation
-- are in Database/AutomationTables). An id, an instant and a foreign key are natural numbers; a
-- nullable column is an `Option`; a credit amount is an integer.
pub mod Laws
pub mod Preserves
pub mod AutomationTables
use plomio.Prelude.{ℕ, ◌+◌, Bool, true, false, Option, none, some, List, String}
use plomio.Prelude.Int.{ℤ}
use plomio.Core.Enums.{Marketplace, ParseType, TaskStatus, TaskItemStatus, ReferenceType, EventCode}
use plomio.Database.AutomationTables.{Automation, AutomationCheckLog, ResultItem, ChangeNotice}
use plomio.Core.Result.{Error, Result, ok, err}

pub record Task : Type 0 where
  pub id : ℕ
  pub parse_type : ParseType
  pub marketplace : Marketplace
  pub status : TaskStatus
  pub priority : ℕ
  pub queue_expires_at : ℕ
  pub result_limit : Option ℕ
  pub claimed_by : Option String
  pub claimed_at : Option ℕ
  pub lease_expires_at : Option ℕ
  pub started_at : Option ℕ
  pub finished_at : Option ℕ
  pub error_reason : Option String
  pub user_id : ℕ
  pub automation_id : Option ℕ
  pub pricing_dimension_code : Option String
  pub pricing_dimension_value : Option ℤ
  pub api_key_id : Option ℕ
  pub created_at : ℕ

-- `cursor` is opaque to the domain: a number stands for the JSON value.
pub record TaskItem : Type 0 where
  pub id : ℕ
  pub task_id : ℕ
  pub position : ℕ
  pub input_value : String
  pub status : TaskItemStatus
  pub cursor : Option ℕ
  pub result_count : ℕ
  pub error_reason : Option String

pub record BillingAction : Type 0 where
  pub action_code : String
  pub base_cost : ℕ

-- `multiplier` is the column `Numeric(5, 2)` in hundredths.
pub record PricingMultiplierRule : Type 0 where
  pub id : ℕ
  pub dimension_code : String
  pub value_min : ℤ
  pub value_max : ℤ
  pub multiplier : ℕ

pub record CreditWallet : Type 0 where
  pub user_id : ℕ
  pub balance : ℤ

-- The dictionary in `transaction_metadata`: of a charge, with `unit_cost` and `multiplier` in
-- hundredths, or the comment of a grant.
pub data Metadata : Type 0 where
  charged :
      (quantity unit_cost multiplier : ℕ) (dimension_code : Option String)
      (dimension_value : Option ℤ) (automation_id : Option ℕ)
      → Metadata
  comment : String → Metadata

pub record CreditTransaction : Type 0 where
  pub id : ℕ
  pub user_id : ℕ
  pub amount : ℤ
  pub balance_after : ℤ
  pub action_code : Option String
  pub reference_type : Option ReferenceType
  pub reference_id : Option ℕ
  pub transaction_metadata : Option Metadata
  pub granted_by_admin_id : Option ℕ
  pub api_key_id : Option ℕ
  pub created_at : ℕ

pub record SpendingLimit : Type 0 where
  pub user_id : ℕ
  pub daily_limit : Option ℕ
  pub monthly_limit : Option ℕ

pub record ApiKey : Type 0 where
  pub id : ℕ
  pub user_id : ℕ
  pub name : String
  pub key_hash : String
  pub credit_limit : Option ℕ
  pub expires_at : Option ℕ
  pub revoked_at : Option ℕ
  pub last_used_at : Option ℕ
  pub created_at : ℕ

-- The payloads of the events, less their links.
pub data Payload : Type 0 where
  balance : (balance_after : ℤ) (threshold : Option ℕ) → Payload
  paused : (task_id : ℕ) → Payload
  finished : (task_id : ℕ) (error_reason : Option String) (result_count : ℕ) → Payload
  change_detected : ChangeNotice → Payload

-- A call of `NotificationService.notify`.
pub record Notice : Type 0 where
  pub user_id : ℕ
  pub event_code : EventCode
  pub payload : Payload

-- `next_id` stands for the sequences and for `uuid4`: ids not given out before.
pub record Database : Type 0 where
  pub tasks : List Task
  pub task_items : List TaskItem
  pub billing_actions : List BillingAction
  pub pricing_rules : List PricingMultiplierRule
  pub credit_wallets : List CreditWallet
  pub credit_transactions : List CreditTransaction
  pub spending_limits : List SpendingLimit
  pub api_keys : List ApiKey
  pub automations : List Automation
  pub check_logs : List AutomationCheckLog
  pub results : List ResultItem
  pub notices : List Notice
  pub next_id : ℕ

-- A service method: it returns or raises, and leaves a database.
abbrev pub Action : Type 0 → Type 0
Action A = Database → Result A × Database

module _ {A : Type 0} where
  abbrev pub pure : A → Action A
  pure a db = (ok a, db)

  abbrev pub raise : Error → Action A
  raise e db = (err e, db)

  abbrev pub gets : (Database → A) → Action A
  gets f db = (ok (f db), db)

  abbrev pub or_raise : Option A → Error → Action A
  or_raise none e db = (err e, db)
  or_raise (some a) e db = (ok a, db)

  -- The `async with self.transaction_manager(...)` block of core/transaction_manager.py: it commits
  -- where its body returns; where the body raises, nothing is committed.
  abbrev pub transaction : Action A → Action A
  transaction body db =
      let (r, db') = body db in elim r [ ok a ↦ (ok a, db') | err e ↦ (err e, db) ]

abbrev pub modify : (Database → Database) → Action (Unit {0})
modify f db = (ok tt, f db)

abbrev pub fresh_id : Action ℕ
fresh_id db = (ok db.next_id, record db { next_id = db.next_id + 1 })

abbrev pub raise_if : Bool → Error → Action (Unit {0})
raise_if true e db = (err e, db)
raise_if false e db = (ok tt, db)

infixl 5 ◌>>=◌ ◌>>◌
abbrev pub ◌>>=◌ : {A B : Type 0} → Action A → (A → Action B) → Action B
◌>>=◌ m f db = let (r, db') = m db in elim r [ ok a ↦ f a db' | err e ↦ (err e, db') ]

abbrev pub ◌>>◌ : {A B : Type 0} → Action A → Action B → Action B
m >> k = m >>= λ _. k
