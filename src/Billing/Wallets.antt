-- ===== src/Billing/Wallets.antt =====
-- The wallets and the journal: `CreditWalletRepository` and `BillingService.charge`, `grant`,
-- `_notify_balance_crossing`, `get_balance` (packages/billing/src).
pub mod Ledger
pub mod Debits
pub mod Charges
pub mod Prices
pub mod Crossing
use plomio.Billing.Pricing.{get_by_action_code, find_matching}
use plomio.Prelude.{
  ℕ, ◌+◌, ◌*◌, ◌/◌, Bool, true, false, ◌&&◌, Option, none, some, List, [], ◌∷◌, ◌++◌, String,
  str_eq, ltb, ◌==◌, if◌then◌else◌, find_where, update_where,
}
use plomio.Prelude.Int.{ℤ, pos, ◌+ℤ◌, ◌-ℤ◌, ltb_ℤ, leb_ℤ}
use plomio.Core.Enums.{ReferenceType, EventCode, balance_depleted, balance_low}
use plomio.Core.Result.{ok, err, no_result_found}
use plomio.Database.{
  Database, BillingAction, PricingMultiplierRule, CreditWallet, CreditTransaction, Metadata,
  Payload, Notice, Action, pure, gets, or_raise, modify, fresh_id, transaction, ◌>>=◌, ◌>>◌,
}

-- The constructor arguments of `BillingService`; `notifies` says whether a notification service
-- was given.
pub record BillingConfig : Type 0 where
  pub notifies : Bool
  pub low_balance_threshold : ℕ

-- The arguments of `charge`. A negative quantity returns as early as 0 does.
pub record Charge : Type 0 where
  pub user_id : ℕ
  pub action_code : String
  pub quantity : ℕ
  pub dimension_code : Option String
  pub dimension_value : Option ℤ
  pub reference_type : Option ReferenceType
  pub reference_id : Option ℕ
  pub automation_id : Option ℕ
  pub api_key_id : Option ℕ

abbrev pub find_wallet : ℕ → List CreditWallet → Option CreditWallet
find_wallet user_id = find_where (λ w. w.user_id == user_id)

-- `get_balance`: no wallet is a balance of 0.
unfoldable pub get_balance : ℕ → List CreditWallet → ℤ
get_balance user_id wallets = elim (find_wallet user_id wallets) [
  | none ↦ pos 0
  | some w ↦ w.balance
]

pub lock_or_create : ℕ → List CreditWallet → List CreditWallet
lock_or_create user_id wallets = elim (find_wallet user_id wallets) [
  | none ↦ wallets ++ record { user_id = user_id; balance = pos 0 } ∷ []
  | some w ↦ wallets
]

pub add_to_balance : ℕ → ℤ → List CreditWallet → List CreditWallet
add_to_balance user_id delta =
    update_where (λ w. w.user_id == user_id) (λ w. record w { balance = w.balance +ℤ delta })

-- `scalar_one` raises where the wallet is missing.
pub adjust_balance : ℕ → ℤ → Action ℤ
unfolding add_to_balance
adjust_balance user_id delta = do
  modify (λ db. record db { credit_wallets = add_to_balance user_id delta db.credit_wallets })
  wallet ← or_raise (← gets (λ db. find_wallet user_id db.credit_wallets)) no_result_found
  pure wallet.balance

-- `math.ceil(base_cost * multiplier * quantity)`, with the multiplier in hundredths.
pub ceil_credits : ℕ → ℕ → ℕ → ℕ
ceil_credits base_cost multiplier quantity = (base_cost * multiplier * quantity + 99) / 100

-- The multiplier that `charge` looks up; 1.00 without a dimension or a rule.
pub resolve_multiplier : Option String → Option ℤ → List PricingMultiplierRule → ℕ
resolve_multiplier (some code) (some value) rules = elim (find_matching code value rules) [
  | none ↦ 100
  | some rule ↦ rule.multiplier
]
resolve_multiplier _ _ rules = 100

-- What `charge` and `grant` share: lock the wallet, change its balance, write one row of the journal.
pub post : ℕ → ℤ → (ℤ → ℕ → CreditTransaction) → Action CreditTransaction
post user_id delta entry = do
  modify (λ db. record db { credit_wallets = lock_or_create user_id db.credit_wallets })
  new_balance ← adjust_balance user_id delta
  id ← fresh_id
  let row = entry new_balance id
  modify (λ db. record db { credit_transactions = db.credit_transactions ++ row ∷ [] })
  pure row

-- The row of a charge.
abbrev pub charge_entry : ℕ → Charge → ℕ → ℕ → ℕ → ℤ → ℕ → CreditTransaction
charge_entry now request unit_cost multiplier credits new_balance id = record {
  id = id;
  user_id = request.user_id;
  amount = pos 0 -ℤ pos credits;
  balance_after = new_balance;
  action_code = some request.action_code;
  reference_type = request.reference_type;
  reference_id = request.reference_id;
  transaction_metadata = some (
      Metadata.charged request.quantity unit_cost multiplier request.dimension_code
        request.dimension_value request.automation_id);
  granted_by_admin_id = none;
  api_key_id = request.api_key_id;
  created_at = now;
}

debit : ℕ → Charge → ℕ → ℕ → ℕ → Action (Option CreditTransaction)
debit now request unit_cost multiplier credits = do
  row ←
      post request.user_id (pos 0 -ℤ pos credits)
        (charge_entry now request unit_cost multiplier credits)
  pure (some row)

charge_action : ℕ → Charge → BillingAction → Action (Option CreditTransaction)
unfolding debit
charge_action now request action = do
  multiplier ←
      gets
        (λ db. resolve_multiplier request.dimension_code request.dimension_value db.pricing_rules)
  let credits = ceil_credits action.base_cost multiplier request.quantity
  (if credits == 0
      then pure none
      else debit now request (action.base_cost * multiplier) multiplier credits)

-- The transaction of `charge`: `none` where nothing is to be paid.
pub charge_row : ℕ → Charge → Action (Option CreditTransaction)
unfolding charge_action
charge_row now request = do
  action ← gets (λ db. get_by_action_code request.action_code db.billing_actions)
  elim action [
    | none ↦ pure none
    | some a ↦ if a.base_cost == 0 then pure none else charge_action now request a
  ]

-- The event of `_notify_balance_crossing`: only where the balance passes a threshold.
pub crossing : BillingConfig → ℤ → ℤ → Option (EventCode × Option ℕ)
crossing config before after =
    if ltb_ℤ (pos 0) before && leb_ℤ after (pos 0)
    then some (balance_depleted, none)
    else (if ltb 0 config.low_balance_threshold
          && (ltb_ℤ (pos config.low_balance_threshold) before
              && (leb_ℤ after (pos config.low_balance_threshold) && ltb_ℤ (pos 0) after))
        then some (balance_low, some config.low_balance_threshold)
        else none)

-- `NotificationService.notify`
unfoldable pub notify : ℕ → EventCode → Payload → Action (Unit {0})
notify user_id event_code payload = modify (λ db. record db {
  notices =
      db.notices ++ record { user_id = user_id; event_code = event_code; payload = payload } ∷ [];
})

unfoldable pub notify_balance_crossing : BillingConfig → ℕ → ℤ → ℤ → Action (Unit {0})
unfolding notify
notify_balance_crossing config user_id before after =
    if config.notifies
    then elim (crossing config before after) [
      | none ↦ pure tt
      | some (event_code, threshold) ↦ notify user_id event_code (Payload.balance after threshold)
    ]
    else pure tt

-- `balance_before` is `new_balance + credits`, where the row's amount is `-credits`.
pub charge : BillingConfig → ℕ → Charge → Action (Option CreditTransaction)
charge config now request = if request.quantity == 0 then pure none else do
  created ← transaction (charge_row now request)
  elim created [
    | none ↦ pure none
    | some row ↦ do
      notify_balance_crossing config request.user_id (row.balance_after -ℤ row.amount)
          row.balance_after
      pure (some row)
  ]

-- The row of a grant; `admin_id` is null for the signup bonus.
abbrev pub grant_entry : ℕ → ℕ → ℤ → Option ℕ → Option String → ℤ → ℕ → CreditTransaction
grant_entry now user_id amount admin_id comment new_balance id = record {
  id = id;
  user_id = user_id;
  amount = amount;
  balance_after = new_balance;
  action_code = none;
  reference_type = none;
  reference_id = none;
  transaction_metadata = elim comment [
    | none ↦ none
    | some c ↦ if str_eq c "" then none else some (Metadata.comment c)
  ];
  granted_by_admin_id = admin_id;
  api_key_id = none;
  created_at = now;
}

pub grant : ℕ → ℕ → ℤ → Option ℕ → Option String → Action CreditTransaction
grant now user_id amount admin_id comment =
    transaction (post user_id amount (grant_entry now user_id amount admin_id comment))
