-- ===== src/Tasks/Progress.antt =====
-- What the progress of an item costs: `TaskService.record_item_progress`.
use native.Mathlib.Decide.{dec_lt}
use plomio.Prelude.{
  ℕ, none, some, Option, Bool, true, false, ◌≡◌, inl, inr, refl, arith, ◌-◌, ltb, update_first,
  if◌then◌else◌, ◌==◌, sym, ap, ◌<◌, ◌≤◌, ◌∙◌, String,
}
use plomio.Prelude.Int.{ℤ, pos, ◌+ℤ◌, ◌-ℤ◌, int_laws}
use plomio.Core.Result.{ok}
use plomio.Database.{Database, Task, TaskItem, transaction}
use plomio.Billing.Wallets.{BillingConfig, get_balance, charge, Charge}
use plomio.Billing.Wallets.Debits.{charge-cases, cost-zero_quantity}
use plomio.Billing.Wallets.Prices.{
  charge_cost, IsPrice, charge_cost-IsPrice, base_of, multiplier_of,
}
use plomio.Tasks.{find_task, pause_task_system, update_task, ParseType}
use plomio.Tasks.Items.{
  find_item, advance, result_charge, save_progress, charge_progress, record_item_progress,
  update_item, result_action,
}
use plomio.Tasks.Effects.{charge-tasks}
use plomio.Tasks.ItemEffects.{find_item-update}
use plomio.Core.Enums.{ParseType}

-- The database with the progress of an item saved.
abbrev pub saved : ℕ → Option ℕ → ℕ → Database → Database
saved item cursor count db = record db {
  task_items = update_first (λ i. i.id == item) (advance cursor count) db.task_items;
}

pub save_progress-eq :
    (item : ℕ) (cursor : Option ℕ) (count : ℕ) (i : TaskItem) (t : Task) (db : Database)
    → find_item item db.task_items ≡ some i
    → find_task i.task_id db.tasks ≡ some t
    → transaction (save_progress item cursor count) db ≡ (
      ok (if ltb i.result_count count then (some t, count - i.result_count) else (none, 0)),
      saved item cursor count db,
    )
unfolding save_progress update_item
save_progress-eq item cursor count i t db e k =
    ground (arith, e, k, find_item-update item (advance cursor count) db.task_items (λ i. refl))

charge_progress-wallets :
    (config : BillingConfig) (now : ℕ) (t : Task) (delta : ℕ) (db : Database)
    → (charge_progress config now t delta db).1.credit_wallets
      ≡ (charge config now (result_charge t delta) db).1.credit_wallets
unfolding charge_progress pause_task_system update_task
charge_progress-wallets config now t delta db =
    ground (arith, charge-tasks config now (result_charge t delta) db)

add_nothing : (a : ℤ) (b : Bool) → a +ℤ (if b then pos 0 -ℤ pos 0 else pos 0) ≡ a
add_nothing a true = omega int_laws
add_nothing a false = omega int_laws

-- What a charge takes, whether there is something to pay or not.
charge-balance :
    (config : BillingConfig) (now : ℕ) (r : Charge) (db : Database) (j : ℕ)
    → get_balance j (charge config now r db).1.credit_wallets
      ≡ get_balance j db.credit_wallets
        +ℤ (if r.user_id == j then pos 0 -ℤ pos (charge_cost r db) else pos 0)
charge-balance config now r db j = elim (charge-cases config now r db j) [
  | inl (free, result, same) ↦ rw (free, same) (sym (add_nothing _ (r.user_id == j)))
  | inr (paid, result, rows, balance) ↦ balance
]

charge_cost-saved :
    (r : Charge) (item : ℕ) (cursor : Option ℕ) (count : ℕ) (db : Database)
    → charge_cost r (saved item cursor count db) ≡ charge_cost r db
unfolding charge_cost
charge_cost-saved r item cursor count db = refl

charge_progress-balance :
    (config : BillingConfig) (now : ℕ) (t : Task) (delta : ℕ) (db : Database) (j : ℕ)
    → get_balance j (charge_progress config now t delta db).1.credit_wallets
      ≡ get_balance j db.credit_wallets
        +ℤ (if t.user_id == j then pos 0 -ℤ pos (charge_cost (result_charge t delta) db) else pos 0)
charge_progress-balance config now t delta db j =
    ap (λ ws. get_balance j ws) (charge_progress-wallets config now t delta db)
    ∙ charge-balance config now (result_charge t delta) db j

module _ (config : BillingConfig) (now item : ℕ) (cursor : Option ℕ) (count : ℕ) (i : TaskItem)
    (t : Task) (db : Database) (e : find_item item db.task_items ≡ some i)
    (k : find_task i.task_id db.tasks ≡ some t) where
  grown-wallets :
      i.result_count < count
      → (record_item_progress config now item cursor count db).1.credit_wallets
        ≡ (charge_progress config now t
            (count - i.result_count)
            (saved item cursor count db)).1.credit_wallets
  unfolding record_item_progress
  grown-wallets h = ground (arith, h, save_progress-eq item cursor count i t db e k)

  same-wallets :
      count ≤ i.result_count
      → (record_item_progress config now item cursor count db).1.credit_wallets ≡ db.credit_wallets
  unfolding record_item_progress
  same-wallets h = ground (arith, h, save_progress-eq item cursor count i t db e k)

-- The action of the catalogue that a result of this kind of task costs.
pub result_code : ParseType → String
result_code ParseType.product_page = "result.PRODUCT_PAGE"
result_code ParseType.search_query = "result.SEARCH_QUERY"
result_code ParseType.reviews = "result.REVIEWS"
result_code ParseType.category = "result.CATEGORY"
result_code ParseType.seller = "result.SELLER"

result_action-eq : (p : ParseType) → result_action p ≡ result_code p
unfolding result_code
result_action-eq ParseType.product_page = refl
result_action-eq ParseType.search_query = refl
result_action-eq ParseType.reviews = refl
result_action-eq ParseType.category = refl
result_action-eq ParseType.seller = refl

result_charge-IsPrice :
    (t : Task) (delta : ℕ) (db : Database)
    → let r = result_charge t delta in
      IsPrice
        (result_code t.parse_type)
        delta
        t.pricing_dimension_code
        t.pricing_dimension_value
        db
        (base_of r db)
        (multiplier_of r db)
        (charge_cost r db)
result_charge-IsPrice t delta db =
    let r = result_charge t delta in rw (← result_action-eq t.parse_type) (charge_cost-IsPrice r db)

record_item_progress-cost :
    (config : BillingConfig) (now item : ℕ) (cursor : Option ℕ) (count : ℕ) (i : TaskItem)
    (t : Task) (db : Database) (j : ℕ)
    → find_item item db.task_items ≡ some i
    → find_task i.task_id db.tasks ≡ some t
    → get_balance j (record_item_progress config now item cursor count db).1.credit_wallets
      ≡ get_balance j db.credit_wallets
        +ℤ (if t.user_id == j
            then pos 0 -ℤ pos (charge_cost (result_charge t (count - i.result_count)) db)
            else pos 0)
record_item_progress-cost config now item cursor count i t db j e k =
    let delta = count - i.result_count in
    elim (dec_lt i.result_count count) [
      | yes grown ↦
          ap (λ ws. get_balance j ws) (grown-wallets config now item cursor count i t db e k grown)
          ∙ charge_progress-balance config now t delta (saved item cursor count db) j
          ∙ ap
              (λ (c : ℕ).
                get_balance j db.credit_wallets
                +ℤ (if t.user_id == j then pos 0 -ℤ pos c else pos 0))
              (charge_cost-saved (result_charge t delta) item cursor count db)
      | no same ↦
          ap (λ ws. get_balance j ws)
            (same-wallets config now item cursor count i t db e k (omega (arith, same)))
          ∙ rw (cost-zero_quantity (result_charge t delta) db (omega (arith, same)))
              (sym (add_nothing _ (t.user_id == j)))
    ]

-- For an item and its task that exist, record_item_progress takes from the balance of the owner of
-- the task, and from nobody else's, the price of the results that are new since the last report:
-- that many units of the action result.<TYPE> of the task, at the base cost of a row of the
-- catalogue with that code (0 without one) times the multiplier of a rule that covers the task's
-- dimension (1.00 without one), rounded up to whole credits.
pub record_item_progress-balance :
    (config : BillingConfig) (now item : ℕ) (cursor : Option ℕ) (count : ℕ) (i : TaskItem)
    (t : Task) (db : Database) (j : ℕ)
    → find_item item db.task_items ≡ some i
    → find_task i.task_id db.tasks ≡ some t
    → (base : ℕ) × (multiplier : ℕ) × (credits : ℕ) × IsPrice
        (result_code t.parse_type)
        (count - i.result_count)
        t.pricing_dimension_code
        t.pricing_dimension_value
        db
        base
        multiplier
        credits
      × (get_balance j (record_item_progress config now item cursor count db).1.credit_wallets
          ≡ get_balance j db.credit_wallets
            +ℤ (if t.user_id == j then pos 0 -ℤ pos credits else pos 0))
record_item_progress-balance config now item cursor count i t db j e k =
    let delta = count - i.result_count in
    let r = result_charge t delta in
    (
      base_of r db,
      multiplier_of r db,
      charge_cost r db,
      result_charge-IsPrice t delta db,
      record_item_progress-cost config now item cursor count i t db j e k,
    )
