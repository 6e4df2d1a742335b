-- ===== src/Billing/Wallets/Charges.antt =====
-- What `BillingService.charge` writes and takes, and runs of charges and grants.
use native.Mathlib.Decide.{dec_lt}
use plomio.Prelude.{
  ℕ, ◌*◌, ◌<◌, ◌≡◌, arith, none, some, inl, inr, ◌⊎◌, ◌++◌, [], if◌then◌else◌, ◌==◌, refl,
}
use plomio.Prelude.Int.{pos, ◌+ℤ◌, ◌-ℤ◌}
use plomio.Core.Result.{ok}
use plomio.Database.{Database, CreditTransaction, Metadata}
use plomio.Billing.Wallets.Prices.{
  charge_cost, multiplier_of, base_of, IsPrice, charge_cost-IsPrice,
}
use plomio.Billing.Wallets.{
  BillingConfig, Charge, charge, get_balance, List, ℤ, grant, ◌∷◌, Option, String,
}
use plomio.Billing.Wallets.Ledger.{IsBalanced, grant-IsBalanced, posting-IsBalanced}
use plomio.Billing.Wallets.Debits.{
  charged_row, charge-free, charge-paid, after_charge-books, charge-cases,
}

-- The row says what was charged: whom, for what, at which unit cost and multiplier, how many credits,
-- and the balance that is left.
pub record IsChargeRow (now : ℕ) (r : Charge) (db : Database) (base multiplier credits : ℕ)
    (row : CreditTransaction) : Type 0 where
  pub id : row.id ≡ db.next_id
  pub user_id : row.user_id ≡ r.user_id
  pub amount : row.amount ≡ pos 0 -ℤ pos credits
  pub balance_after :
      row.balance_after ≡ get_balance r.user_id db.credit_wallets +ℤ (pos 0 -ℤ pos credits)
  pub action_code : row.action_code ≡ some r.action_code
  pub reference_type : row.reference_type ≡ r.reference_type
  pub reference_id : row.reference_id ≡ r.reference_id
  pub transaction_metadata :
      row.transaction_metadata
      ≡ some (
          Metadata.charged r.quantity
            (base * multiplier)
            multiplier
            r.dimension_code
            r.dimension_value
            r.automation_id)
  pub granted_by_admin_id : row.granted_by_admin_id ≡ none
  pub api_key_id : row.api_key_id ≡ r.api_key_id
  pub created_at : row.created_at ≡ now

charged_row-IsChargeRow :
    (now : ℕ) (r : Charge) (db : Database)
    → IsChargeRow now r db
        (base_of r db)
        (multiplier_of r db)
        (charge_cost r db)
        (charged_row now r db)
charged_row-IsChargeRow now r db = record {
  id = refl;
  user_id = refl;
  amount = refl;
  balance_after = refl;
  action_code = refl;
  reference_type = refl;
  reference_id = refl;
  transaction_metadata = refl;
  granted_by_admin_id = refl;
  api_key_id = refl;
  created_at = refl;
}

-- The credits of a charge are the quantity times the base cost of a row of the catalogue with the
-- action's code (0 without one) times the multiplier of a rule that covers the value of the
-- dimension (1.00 without one), rounded up to whole credits. Where they are 0, charge returns
-- nothing and changes nothing. Otherwise they leave the balance of the user and of nobody else, and
-- charge returns and appends to the journal one row with the next id: of this user, for minus these
-- credits, with the balance that is left, the action, the reference and the key of the request, the
-- quantity, the unit cost and the multiplier, and the time.
pub charge_debits :
    (config : BillingConfig) (now : ℕ) (r : Charge) (db : Database) (j : ℕ)
    → let (result, db') = charge config now r db in
      (base : ℕ) × (multiplier : ℕ) × (credits : ℕ) × IsPrice r.action_code r.quantity
        r.dimension_code r.dimension_value db base multiplier credits
      × (((credits ≡ 0) × (result ≡ ok none) × (db' ≡ db))
          ⊎ ((0 < credits)
              × ((row : CreditTransaction) × IsChargeRow now r db base multiplier credits row
                  × (result ≡ ok (some row))
                  × (db'.credit_transactions ≡ db.credit_transactions ++ row ∷ [])
                  × (get_balance j db'.credit_wallets
                      ≡ get_balance j db.credit_wallets
                        +ℤ (if r.user_id == j then pos 0 -ℤ pos credits else pos 0)))))
charge_debits config now r db j = (
  base_of r db,
  multiplier_of r db,
  charge_cost r db,
  charge_cost-IsPrice r db,
  elim (charge-cases config now r db j) [
    | inl free ↦ inl free
    | inr (paid, result, rows, balance) ↦
        inr (paid, (charged_row now r db, charged_row-IsChargeRow now r db, result, rows, balance))
  ],
)

pub charge-IsBalanced :
    (config : BillingConfig) (now : ℕ) (r : Charge) (db : Database)
    → IsBalanced db
    → IsBalanced (charge config now r db).1
charge-IsBalanced config now r db h j = elim (dec_lt 0 (charge_cost r db)) [
  | yes p ↦
      rw
        (
          charge-paid config now r db p,
          (after_charge-books config now r db).0,
          (after_charge-books config now r db).1,
        )
        (posting-IsBalanced r.user_id _ (charged_row now r db) db refl refl h j)
  | no p ↦ rw (charge-free config now r db (omega arith)) (h j)
]

-- What changes a balance.
pub data BillingCall : Type 0 where
  charges : ℕ → Charge → BillingCall
  grants : ℕ → ℕ → ℤ → Option ℕ → Option String → BillingCall

abbrev pub call : BillingConfig → BillingCall → Database → Database
call config (charges now r) db = (charge config now r db).1
call config (grants now u amount admin comment) db = (grant now u amount admin comment db).1

pub run_calls : BillingConfig → List BillingCall → Database → Database
run_calls config [] db = db
run_calls config (c ∷ cs) db = run_calls config cs (call config c db)

-- If every balance is the sum of the amounts in the user's journal, then the same holds after any
-- sequence of charges and grants.
pub run_calls-IsBalanced :
    (config : BillingConfig) (cs : List BillingCall) (db : Database)
    → IsBalanced db
    → IsBalanced (run_calls config cs db)
unfolding run_calls
run_calls-IsBalanced config [] db h = h
run_calls-IsBalanced config (charges now r ∷ cs) db h =
    run_calls-IsBalanced config cs _ (charge-IsBalanced config now r db h)
run_calls-IsBalanced config (grants now u amount admin comment ∷ cs) db h =
    run_calls-IsBalanced config cs _ (grant-IsBalanced now u amount admin comment db h)
