-- ===== src/Billing/Limits/Blocked.antt =====
-- The batch guard `BillingService.get_blocked_user_ids` and the guard of a single user.
use plomio.Prelude.{
  ℕ, ◌≡◌, refl, arith, Bool, true, false, ◌&&◌, Option, none, some, List, [], ◌∷◌, ◌==◌,
  if◌then◌else◌, is_some, ◌⊎◌, ◌||◌, not,
}
use plomio.Prelude.Int.{pos, leb_ℤ}
use plomio.Core.Result.{Error, ok, err, insufficient_credits, spending_limit_exceeded}
use plomio.Database.{Database, SpendingLimit}
use plomio.Billing.Wallets.{get_balance}
use plomio.Billing.Limits.{
  get_spending_status, get_for_user, get_block_error, can_spend, ensure_can_spend, BlockReason,
  insufficient, spending_limit, Blocked, lookup_reason, without_balance, get_for_users, over_limit,
  get_blocked_user_ids, is_in, not,
}

-- The reason that stands for the exception of the single guard.
abbrev pub reason : Option Error → Option BlockReason
reason none = none
reason (some insufficient_credits) = some insufficient
reason (some _) = some spending_limit

abbrev reached : ℕ → ℕ → Database → Bool
reached now u db = (get_spending_status now u db).is_limit_reached

has_limit : ℕ → List SpendingLimit → Bool
has_limit u [] = false
has_limit u (l ∷ ls) = (l.user_id == u) || has_limit u ls

without_balance-lookup :
    (u : ℕ) (us : List ℕ) (db : Database)
    → lookup_reason u (without_balance us db) ≡ (
        if is_in u us && leb_ℤ (get_balance u db.credit_wallets) (pos 0)
        then some insufficient
        else none)
unfolding without_balance
without_balance-lookup u [] db = refl
without_balance-lookup u (v ∷ us) db = ground (arith, without_balance-lookup u us db)

over_limit-lookup :
    (now u : ℕ) (db : Database) (ls : List SpendingLimit) (blocked : Blocked)
    → lookup_reason u (over_limit now db ls blocked) ≡ (
        if is_some (lookup_reason u blocked)
        then lookup_reason u blocked
        else (if has_limit u ls && reached now u db then some spending_limit else none))
unfolding over_limit has_limit
over_limit-lookup now u db [] blocked = ground arith
over_limit-lookup now u db (l ∷ ls) blocked = ground (
  arith,
  over_limit-lookup now u db ls blocked,
  over_limit-lookup now u db ls ((l.user_id, spending_limit) ∷ blocked),
)

has_limit-get_for_users :
    (u : ℕ) (us : List ℕ) (ls : List SpendingLimit)
    → has_limit u (get_for_users us ls) ≡ (has_limit u ls && is_in u us)
unfolding get_for_users has_limit
has_limit-get_for_users u us [] = refl
has_limit-get_for_users u us (l ∷ ls) = ground (arith, has_limit-get_for_users u us ls)

find-no_limit :
    (u : ℕ) (ls : List SpendingLimit) → has_limit u ls ≡ false → get_for_user u ls ≡ none
unfolding get_for_user has_limit
find-no_limit u [] e = refl
find-no_limit u (l ∷ ls) e = ground (arith, find-no_limit u ls)

-- Without a limit none is reached.
reached-no_limit :
    (now u : ℕ) (db : Database) → has_limit u db.spending_limits ≡ false → reached now u db ≡ false
unfolding get_spending_status
reached-no_limit now u db h = ground (arith, find-no_limit u db.spending_limits h)

-- For a user of the batch get_blocked_user_ids holds the reason for which the single guard would
-- raise, and no entry where it lets the user spend; other users have no entry.
pub get_blocked_user_ids-lookup :
    (now u : ℕ) (user_ids : List ℕ) (db : Database)
    → lookup_reason u (get_blocked_user_ids now user_ids db)
      ≡ (if is_in u user_ids then reason (get_block_error now u db) else none)
unfolding get_blocked_user_ids get_block_error
get_blocked_user_ids-lookup now u user_ids db = ground (
  arith,
  over_limit-lookup now u db (get_for_users user_ids db.spending_limits)
      (without_balance user_ids db),
  without_balance-lookup u user_ids db,
  has_limit-get_for_users u user_ids db.spending_limits,
  reached-no_limit now u db,
)

-- The batch holds the users of the batch that may not spend.
pub get_blocked_user_ids-can_spend :
    (now u : ℕ) (user_ids : List ℕ) (db : Database)
    → is_in u user_ids ≡ true
    → is_some (lookup_reason u (get_blocked_user_ids now user_ids db)) ≡ not (can_spend now u db)
unfolding can_spend get_block_error
get_blocked_user_ids-can_spend now u user_ids db h =
    ground (arith, h, get_blocked_user_ids-lookup now u user_ids db)

-- ensure_can_spend changes nothing, and raises exactly where can_spend says no.
pub ensure_can_spend-can_spend :
    (now u : ℕ) (db : Database)
    → ((can_spend now u db ≡ true) × (ensure_can_spend now u db ≡ (ok tt, db)))
      ⊎ ((can_spend now u db ≡ false)
          × ((ensure_can_spend now u db ≡ (err insufficient_credits, db))
              ⊎ (ensure_can_spend now u db ≡ (err spending_limit_exceeded, db))))
unfolding can_spend ensure_can_spend
ensure_can_spend-can_spend now u db = ground arith
