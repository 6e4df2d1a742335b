-- ===== src/Tests/BillingTests.antt =====
-- The billing of a small shop.
use plomio.Prelude.{none, some, [], ◌∷◌, refl, arith, ◌≤◌, ◌<◌, ◌≡◌, ◌⊎◌, count_where, ◌+◌, ℕ}
use plomio.Prelude.Int.{pos, int_laws, ◌+ℤ◌, ◌-ℤ◌, ◌≤ℤ◌}
use plomio.Core.Result.{ok}
use plomio.Tests.{config, noon, bonus, shop, reviews}
use plomio.Billing.Pricing.{matches, create_pricing_rule}
use plomio.Billing.Pricing.Disjoint.{IsDisjoint, create_pricing_rule-IsDisjoint}
use plomio.Billing.Wallets.{charge, get_balance}
use plomio.Database.{CreditTransaction}
use plomio.Billing.Wallets.Ledger.{IsBalanced, ledger_total}
use plomio.Billing.Wallets.Charges.{
  IsChargeRow, charge_debits, BillingCall, run_calls, run_calls-IsBalanced,
}
use plomio.Billing.Wallets.Prices.{IsPrice}
use plomio.Billing.Wallets.Crossing.{
  depleted_notices, passes_zero, run_charges, depleted-run_charges,
}
use plomio.Billing.Limits.{get_blocked_user_ids, lookup_reason, get_block_error}
use plomio.Billing.Limits.Blocked.{get_blocked_user_ids-lookup, reason}
use plomio.Billing.Journal.{list_all_transactions, selected}
use plomio.Billing.Journal.Export.{list_all_transactions-eq}

zero_sums : (pos 100 +ℤ pos 0 ≡ pos 100) × (pos 0 +ℤ pos 0 ≡ pos 0)
zero_sums = (omega int_laws, omega int_laws)

shop-IsBalanced : IsBalanced shop
unfolding get_balance ledger_total
shop-IsBalanced u = ground (arith, zero_sums.0, zero_sums.1)

shop-IsDisjoint : IsDisjoint shop.pricing_rules
shop-IsDisjoint code value = ground arith

run_calls-IsBalanced_example :
    let db =
      run_calls config
        (BillingCall.charges noon reviews ∷ BillingCall.grants noon 2 (pos 30) none none ∷ [])
        shop in
    get_balance 1 db.credit_wallets ≡ ledger_total 1 db.credit_transactions
run_calls-IsBalanced_example =
    run_calls-IsBalanced config
      (BillingCall.charges noon reviews ∷ BillingCall.grants noon 2 (pos 30) none none ∷ []) shop
      shop-IsBalanced 1

charge_debits_example :
    let (result, db) = charge config noon reviews shop in
    (base : ℕ) × (multiplier : ℕ) × (credits : ℕ) × IsPrice reviews.action_code reviews.quantity
      reviews.dimension_code reviews.dimension_value shop base multiplier credits
    × (((credits ≡ 0) × (result ≡ ok none) × (db ≡ shop))
        ⊎ ((0 < credits)
            × ((row : CreditTransaction) × IsChargeRow noon reviews shop base multiplier credits row
                × (result ≡ ok (some row))
                × (db.credit_transactions ≡ bonus ∷ row ∷ [])
                × (get_balance 1 db.credit_wallets
                    ≡ get_balance 1 shop.credit_wallets +ℤ (pos 0 -ℤ pos credits)))))
charge_debits_example = charge_debits config noon reviews shop 1

depleted-run_charges_example :
    let db = run_charges config ((noon, reviews) ∷ (noon, reviews) ∷ []) shop in
    (depleted_notices 1 db.notices
      ≡ depleted_notices 1 []
        + passes_zero (get_balance 1 shop.credit_wallets) (get_balance 1 db.credit_wallets))
    × (get_balance 1 db.credit_wallets ≤ℤ get_balance 1 shop.credit_wallets)
depleted-run_charges_example =
    depleted-run_charges config ((noon, reviews) ∷ (noon, reviews) ∷ []) 1 shop refl

create_pricing_rule-IsDisjoint_example :
    let db = (create_pricing_rule "task_priority" (pos 4) (pos 10) 80 shop).1 in
    count_where (matches "task_priority" (pos 4)) db.pricing_rules ≤ 1
create_pricing_rule-IsDisjoint_example =
    create_pricing_rule-IsDisjoint "task_priority" (pos 4) (pos 10) 80 shop shop-IsDisjoint
      "task_priority" (pos 4)

get_blocked_user_ids-lookup_example :
    lookup_reason 2 (get_blocked_user_ids noon (1 ∷ 2 ∷ []) shop)
    ≡ reason (get_block_error noon 2 shop)
get_blocked_user_ids-lookup_example = get_blocked_user_ids-lookup noon 2 (1 ∷ 2 ∷ []) shop

list_all_transactions-eq_example :
    list_all_transactions 1 none (bonus ∷ []) ≡ some (selected 1 none (bonus ∷ []))
list_all_transactions-eq_example = list_all_transactions-eq 1 none (bonus ∷ [])
