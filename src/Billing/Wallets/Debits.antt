-- ===== src/Billing/Wallets/Debits.antt =====
-- What `BillingService.charge` does on every branch, by its computed cost.
use native.Mathlib.Decide.{dec_lt}
use plomio.Prelude.{
  ℕ, ◌*◌, ◌<◌, ◌≡◌, arith, none, some, Option-cases, inl, inr, ◌⊎◌, ◌++◌, [], if◌then◌else◌, ◌==◌,
  ap, ◌∙◌, refl,
}
use plomio.Prelude.Int.{pos, ◌+ℤ◌, ◌-ℤ◌}
use plomio.Core.Result.{ok}
use plomio.Database.{Database, CreditTransaction}
use plomio.Billing.Wallets.Prices.{
  charge_cost, multiplier_of, base_of, ceil_zero_base, ceil_zero_quantity,
}
use plomio.Billing.Pricing.{get_by_action_code}
use plomio.Billing.Wallets.{
  BillingConfig, Charge, ceil_credits, charge_entry, debit, charge_row, notify_balance_crossing,
  charge, get_balance, ℤ, ◌∷◌,
}
use plomio.Billing.Wallets.Ledger.{posted, post-eq, settled, get_balance-settled}

abbrev pub charged_row : ℕ → Charge → Database → CreditTransaction
charged_row now r db =
    charge_entry now r (base_of r db * multiplier_of r db) (multiplier_of r db) (charge_cost r db)
      (get_balance r.user_id db.credit_wallets +ℤ (pos 0 -ℤ pos (charge_cost r db))) db.next_id

-- The books once the row is written, and then the notice of a threshold passed.
abbrev pub after_charge : BillingConfig → ℕ → Charge → Database → Database
after_charge config now r db =
    let row = charged_row now r db in
    (notify_balance_crossing config r.user_id (row.balance_after -ℤ row.amount) row.balance_after
      (posted r.user_id row.amount row db)).1

debit-eq :
    (now : ℕ) (r : Charge) (unit_cost multiplier credits : ℕ) (db : Database)
    → let amount = pos 0 -ℤ pos credits in
      let row =
        charge_entry now r unit_cost multiplier credits
          (get_balance r.user_id db.credit_wallets +ℤ amount)
          db.next_id in
      debit now r unit_cost multiplier credits db ≡ (ok (some row), posted r.user_id amount row db)
unfolding debit
debit-eq now r unit_cost multiplier credits db = ground (
  arith,
  post-eq r.user_id (pos 0 -ℤ pos credits) (charge_entry now r unit_cost multiplier credits) db,
)

charge_row-free :
    (now : ℕ) (r : Charge) (db : Database)
    → charge_cost r db ≡ 0
    → charge_row now r db ≡ (ok none, db)
unfolding charge_row charge_cost
charge_row-free now r db h = ground arith

charge_row-paid :
    (now : ℕ) (r : Charge) (db : Database)
    → 0 < charge_cost r db
    → charge_row now r db ≡ (
      ok (some (charged_row now r db)),
      posted r.user_id (pos 0 -ℤ pos (charge_cost r db)) (charged_row now r db) db,
    )
unfolding charge_row charge_cost
charge_row-paid now r db h =
    elim (Option-cases (get_by_action_code r.action_code db.billing_actions)) [
      | inl e ↦ absurd (no_price e)
      | inr (a, e) ↦ ground (
        arith,
        e,
        debit-eq now r (a.base_cost * multiplier_of r db) (multiplier_of r db)
            (ceil_credits a.base_cost (multiplier_of r db) r.quantity) db,
        ceil_zero_base (multiplier_of r db) r.quantity,
      )
    ]
  where
    no_price : get_by_action_code r.action_code db.billing_actions ≡ none → ⊥
    no_price e = ground (arith, e, h)

pub charge-free :
    (config : BillingConfig) (now : ℕ) (r : Charge) (db : Database)
    → charge_cost r db ≡ 0
    → charge config now r db ≡ (ok none, db)
unfolding charge
charge-free config now r db h = ground (arith, charge_row-free now r db h)

pub cost-zero_quantity : (r : Charge) (db : Database) → r.quantity ≡ 0 → charge_cost r db ≡ 0
unfolding charge_cost
cost-zero_quantity r db h = ground (arith, ceil_zero_quantity (base_of r db) (multiplier_of r db))

pub charge-paid :
    (config : BillingConfig) (now : ℕ) (r : Charge) (db : Database)
    → 0 < charge_cost r db
    → charge config now r db ≡ (ok (some (charged_row now r db)), after_charge config now r db)
unfolding charge notify_balance_crossing
charge-paid config now r db h = ground (arith, charge_row-paid now r db h, cost-zero_quantity r db)

-- The notice changes neither the wallets nor the journal.
notify_balance_crossing-books :
    (config : BillingConfig) (u : ℕ) (before after : ℤ) (db : Database)
    → let db' = (notify_balance_crossing config u before after db).1 in
      (db'.credit_wallets ≡ db.credit_wallets) × (db'.credit_transactions ≡ db.credit_transactions)
unfolding notify_balance_crossing
notify_balance_crossing-books config u before after db = (ground arith, ground arith)

pub after_charge-books :
    (config : BillingConfig) (now : ℕ) (r : Charge) (db : Database)
    → let db' = after_charge config now r db in
      (db'.credit_wallets ≡ settled r.user_id (pos 0 -ℤ pos (charge_cost r db)) db.credit_wallets)
      × (db'.credit_transactions ≡ db.credit_transactions ++ charged_row now r db ∷ [])
after_charge-books config now r db =
    notify_balance_crossing-books config r.user_id _ _
      (posted r.user_id _ (charged_row now r db) db)

-- What a charge does, by its computed cost.
pub charge-cases :
    (config : BillingConfig) (now : ℕ) (r : Charge) (db : Database) (j : ℕ)
    → let (result, db') = charge config now r db in
      ((charge_cost r db ≡ 0) × (result ≡ ok none) × (db' ≡ db))
      ⊎ ((0 < charge_cost r db)
          × (result ≡ ok (some (charged_row now r db)))
          × (db'.credit_transactions ≡ db.credit_transactions ++ charged_row now r db ∷ [])
          × (get_balance j db'.credit_wallets
              ≡ get_balance j db.credit_wallets
                +ℤ (if r.user_id == j then pos 0 -ℤ pos (charge_cost r db) else pos 0)))
charge-cases config now r db j = elim (dec_lt 0 (charge_cost r db)) [
  | yes h ↦ rw (charge-paid config now r db h) (
      inr (
        h,
        refl,
        (after_charge-books config now r db).1,
        ap (get_balance j) (after_charge-books config now r db).0
            ∙ get_balance-settled j r.user_id _ db.credit_wallets,
      ))
  | no h ↦
      let e : charge_cost r db ≡ 0 = omega arith in
      rw (charge-free config now r db e) (inl (e, refl, refl))
]
