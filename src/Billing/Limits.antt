-- ===== src/Billing/Limits.antt =====
-- Who may spend: `SpendingLimitRepository`, the sums of `CreditTransactionRepository` and the
-- guards of `BillingService` (packages/billing/src/repository.py, packages/billing/src/service.py).
pub mod Blocked
pub mod Stats
use plomio.Prelude.{
  ℕ, ◌+◌, List, Bool, Option, if◌then◌else◌, filter_where, find_where, none, false, ◌∷◌, not, ◌||◌,
  sum_where, ◌==◌, is_some, some, [], leb, is_in, ◌&&◌, ◌++◌, update_where,
}
use plomio.Prelude.Int.{ℤ, pos, neg_part, ltb_ℤ, leb_ℤ}
use plomio.Core.Enums.{ReferenceType, task, automation, direct}
use plomio.Core.Result.{Error, insufficient_credits, spending_limit_exceeded}
use plomio.Core.Time.{day_start, month_start}
use plomio.Database.{
  Database, SpendingLimit, CreditTransaction, CreditWallet, Action, pure, raise, gets, modify,
  transaction, ◌>>=◌, ◌>>◌,
}
use plomio.Billing.Wallets.{get_balance}

-- `-amount` of a debit.
abbrev pub spent : CreditTransaction → ℕ
spent t = neg_part t.amount

-- `amount < 0`
abbrev pub is_debit : CreditTransaction → Bool
is_debit t = ltb_ℤ t.amount (pos 0)

pub get_spent_since : ℕ → ℕ → List CreditTransaction → ℕ
get_spent_since user_id since =
    sum_where (λ t. (t.user_id == user_id) && (is_debit t && leb since t.created_at)) spent

pub get_for_user : ℕ → List SpendingLimit → Option SpendingLimit
get_for_user user_id = find_where (λ l. l.user_id == user_id)

pub record SpendingStatus : Type 0 where
  pub daily_limit : Option ℕ
  pub monthly_limit : Option ℕ
  pub spent_today : ℕ
  pub spent_this_month : ℕ
  pub is_limit_reached : Bool

-- `limit is not None and spent >= limit`
abbrev pub reaches : Option ℕ → ℕ → Bool
reaches none total = false
reaches (some limit) total = leb limit total

status_of : Option ℕ → Option ℕ → ℕ → ℕ → SpendingStatus
status_of daily monthly today this_month = record {
  daily_limit = daily;
  monthly_limit = monthly;
  spent_today = today;
  spent_this_month = this_month;
  is_limit_reached = reaches daily today || reaches monthly this_month;
}

pub get_spending_status : ℕ → ℕ → Database → SpendingStatus
unfolding status_of
get_spending_status now user_id db =
    let today = get_spent_since user_id (day_start now) db.credit_transactions in
    let this_month = get_spent_since user_id (month_start now) db.credit_transactions in
    elim (get_for_user user_id db.spending_limits) [
      | none ↦ status_of none none today this_month
      | some limit ↦ status_of limit.daily_limit limit.monthly_limit today this_month
    ]

pub has_positive_balance : ℕ → Database → Bool
has_positive_balance user_id db = ltb_ℤ (pos 0) (get_balance user_id db.credit_wallets)

-- `_get_block_error`
pub get_block_error : ℕ → ℕ → Database → Option Error
unfolding has_positive_balance
get_block_error now user_id db =
    if has_positive_balance user_id db
    then (if (get_spending_status now user_id db).is_limit_reached
        then some spending_limit_exceeded
        else none)
    else some insufficient_credits

pub can_spend : ℕ → ℕ → Database → Bool
unfolding get_block_error
can_spend now user_id db = not (is_some (get_block_error now user_id db))

pub ensure_can_spend : ℕ → ℕ → Action (Unit {0})
unfolding get_block_error
ensure_can_spend now user_id = do
  error ← gets (get_block_error now user_id)
  elim error [ none ↦ pure tt | some e ↦ raise e ]

-- The reasons in the dictionary of `get_blocked_user_ids`.
pub data BlockReason : Type 0 where
  insufficient spending_limit : BlockReason

abbrev pub Blocked : Type 0
Blocked = List (ℕ × BlockReason)

abbrev pub lookup_reason : ℕ → Blocked → Option BlockReason
lookup_reason user_id [] = none
lookup_reason user_id ((u, reason) ∷ blocked) =
    if u == user_id then some reason else lookup_reason user_id blocked

-- The users of a batch whose balance, 0 without a wallet, is not positive.
without_balance : List ℕ → Database → Blocked
without_balance [] db = []
without_balance (u ∷ us) db =
    if leb_ℤ (get_balance u db.credit_wallets) (pos 0)
    then (u, insufficient) ∷ without_balance us db
    else without_balance us db

-- `get_for_users`: the limits of the users in the batch.
pub get_for_users : List ℕ → List SpendingLimit → List SpendingLimit
get_for_users user_ids = filter_where (λ l. is_in l.user_id user_ids)

-- The loop over the users that have a limit.
over_limit : ℕ → Database → List SpendingLimit → Blocked → Blocked
over_limit now db [] blocked = blocked
over_limit now db (l ∷ limits) blocked = over_limit now db limits (
    if is_some (lookup_reason l.user_id blocked)
    then blocked
    else (if (get_spending_status now l.user_id db).is_limit_reached
        then (l.user_id, spending_limit) ∷ blocked
        else blocked))

pub get_blocked_user_ids : ℕ → List ℕ → Database → Blocked
unfolding without_balance get_for_users over_limit
get_blocked_user_ids now user_ids db =
    over_limit now db (get_for_users user_ids db.spending_limits) (without_balance user_ids db)

-- `set_limits` replaces both limits; a row with neither is deleted.
pub set_spending_limits : ℕ → Option ℕ → Option ℕ → Action (Option SpendingLimit)
set_spending_limits user_id none none = transaction do
  modify (λ db. record db {
    spending_limits = filter_where (λ l. not (l.user_id == user_id)) db.spending_limits;
  })
  pure none
set_spending_limits user_id daily monthly = transaction do
  existing ← gets (λ db. get_for_user user_id db.spending_limits)
  let row = limit_row
  modify (λ db. record db {
    spending_limits = elim existing [
      | none ↦ db.spending_limits ++ row ∷ []
      | some l ↦ update_where (λ l. l.user_id == user_id) (λ l. row) db.spending_limits
    ];
  })
  pure (some row)
  where
    limit_row : SpendingLimit
    limit_row = record { user_id = user_id; daily_limit = daily; monthly_limit = monthly }
