-- ===== src/Billing/Wallets/Prices.antt =====
-- What a charge is to cost, said by the rows of the catalogue and of the rules and by the bounds of
-- the rounding.
use mathlib.Core.List.{Memᴰ, List}
use text.Mathlib.TextEquality.{eq_iff}
use plomio.Prelude.{
  find_where-cases, &&-eq_true, &&_intro, none, some, inl, inr, true, String, Option, ◌≡◌, List, ℕ,
  ◌⊎◌, ◌*◌, All, ◌≤◌, ◌<◌, ◌+◌, All-imp, str_eq, refl, arith,
}
use plomio.Prelude.Int.{ℤ, ◌≤ℤ◌, leb_ℤ→≤, ≤→leb_ℤ}
use plomio.Database.{Database, BillingAction, PricingMultiplierRule}
use plomio.Billing.Pricing.{get_by_action_code, matches, find_matching}
use plomio.Billing.Wallets.{Charge, ceil_credits, resolve_multiplier, Option, String, ℕ, str_eq}

-- The price of a request: nothing without an action of that code.
unfoldable pub charge_cost : Charge → Database → ℕ
charge_cost r db = elim (get_by_action_code r.action_code db.billing_actions) [
  | none ↦ 0
  | some a ↦
      ceil_credits a.base_cost
        (resolve_multiplier r.dimension_code r.dimension_value db.pricing_rules) r.quantity
]

-- The exact price, in hundredths of a credit, is rounded up to whole credits: by less than one
-- credit.
pub ceil_credits-bounds :
    (base multiplier quantity : ℕ)
    → let credits = ceil_credits base multiplier quantity in
      (base * multiplier * quantity ≤ 100 * credits)
      × (100 * credits < base * multiplier * quantity + 100)
unfolding ceil_credits
ceil_credits-bounds base multiplier quantity = (omega arith, omega arith)

-- The multiplier and the unit cost that the row records.
abbrev pub multiplier_of : Charge → Database → ℕ
multiplier_of r db = resolve_multiplier r.dimension_code r.dimension_value db.pricing_rules

abbrev pub base_of : Charge → Database → ℕ
base_of r db = elim (get_by_action_code r.action_code db.billing_actions) [
  | none ↦ 0
  | some a ↦ a.base_cost
]

pub ceil_zero_base : (multiplier quantity : ℕ) → ceil_credits 0 multiplier quantity ≡ 0
unfolding ceil_credits
ceil_zero_base multiplier quantity = omega arith

pub ceil_zero_quantity : (base multiplier : ℕ) → ceil_credits base multiplier 0 ≡ 0
unfolding ceil_credits
ceil_zero_quantity base multiplier = omega arith

-- The rule prices this value of the dimension.
abbrev pub Covers : String → ℤ → PricingMultiplierRule → Type 0
Covers code value r = (r.dimension_code ≡ code) × (r.value_min ≤ℤ value) × (value ≤ℤ r.value_max)

-- The multiplier of a rule that covers the value, or 1.00 where none does.
abbrev pub IsRuleMultiplier : String → ℤ → List PricingMultiplierRule → ℕ → Type 0
IsRuleMultiplier code value rules multiplier =
    ((r : PricingMultiplierRule) × Memᴰ r rules × Covers code value r × (multiplier ≡ r.multiplier))
    ⊎ (All (λ r. ¬ Covers code value r) rules × (multiplier ≡ 100))

abbrev pub IsMultiplier : Option String → Option ℤ → List PricingMultiplierRule → ℕ → Type 0
IsMultiplier (some code) (some value) rules multiplier =
    IsRuleMultiplier code value rules multiplier
IsMultiplier none value rules multiplier = multiplier ≡ 100
IsMultiplier (some code) none rules multiplier = multiplier ≡ 100

-- The cost of an action of the catalogue with this code, or nothing where there is none.
abbrev pub IsBaseCost : String → List BillingAction → ℕ → Type 0
IsBaseCost code actions base =
    ((a : BillingAction) × Memᴰ a actions × (a.action_code ≡ code) × (base ≡ a.base_cost))
    ⊎ (All (λ a. ¬ (a.action_code ≡ code)) actions × (base ≡ 0))

-- The unit cost and the multiplier are those of the action and of the rule, and the credits are the
-- exact price, a number of hundredths, rounded up.
pub record IsPrice (code : String) (quantity : ℕ) (dimension_code : Option String)
    (dimension_value : Option ℤ) (db : Database) (base multiplier credits : ℕ) : Type 0 where
  pub base_cost : IsBaseCost code db.billing_actions base
  pub rule : IsMultiplier dimension_code dimension_value db.pricing_rules multiplier
  pub enough : base * multiplier * quantity ≤ 100 * credits
  pub least : 100 * credits < base * multiplier * quantity + 100

matches-Covers :
    (code : String) (value : ℤ) (r : PricingMultiplierRule)
    → matches code value r ≡ true
    → Covers code value r
unfolding matches
matches-Covers code value r h =
    let (same, range) = &&-eq_true _ _ h in
    let (low, high) = &&-eq_true _ _ range in
    (
      (eq_iff r.dimension_code code).0 same,
      leb_ℤ→≤ r.value_min value low,
      leb_ℤ→≤ value r.value_max high,
    )

Covers-matches :
    (code : String) (value : ℤ) (r : PricingMultiplierRule)
    → Covers code value r
    → matches code value r ≡ true
unfolding matches
Covers-matches code value r (same, low, high) =
    &&_intro _ _ ((eq_iff r.dimension_code code).1 same)
      (&&_intro _ _ (≤→leb_ℤ r.value_min value low) (≤→leb_ℤ value r.value_max high))

found-IsRuleMultiplier :
    (code : String) (value : ℤ) (rules : List PricingMultiplierRule)
    → IsRuleMultiplier code value rules (resolve_multiplier (some code) (some value) rules)
unfolding resolve_multiplier find_matching
found-IsRuleMultiplier code value rules = elim (find_where-cases (matches code value) rules) [
  | inl (e, over) ↦
      inr (All-imp rules (λ r k c. cc (k, Covers-matches code value r c)) over, ground (arith, e))
  | inr (r, e, member, h) ↦ inl (r, member, matches-Covers code value r h, ground (arith, e))
]

resolve_multiplier-IsMultiplier :
    (code : Option String) (value : Option ℤ) (rules : List PricingMultiplierRule)
    → IsMultiplier code value rules (resolve_multiplier code value rules)
unfolding resolve_multiplier
resolve_multiplier-IsMultiplier (some code) (some value) rules =
    found-IsRuleMultiplier code value rules
resolve_multiplier-IsMultiplier none value rules = refl
resolve_multiplier-IsMultiplier (some code) none rules = refl

base_of-IsBaseCost :
    (r : Charge) (db : Database) → IsBaseCost r.action_code db.billing_actions (base_of r db)
base_of-IsBaseCost r db =
    elim (find_where-cases (λ a. str_eq a.action_code r.action_code) db.billing_actions) [
      | inl (e, over) ↦ inr (
        All-imp db.billing_actions (λ a k c. cc (k, (eq_iff a.action_code r.action_code).1 c)) over,
        ground (arith, e),
      )
      | inr (a, e, member, h) ↦
          inl (a, member, (eq_iff a.action_code r.action_code).0 h, ground (arith, e))
    ]

charge_cost-eq :
    (r : Charge) (db : Database)
    → charge_cost r db ≡ ceil_credits (base_of r db) (multiplier_of r db) r.quantity
unfolding charge_cost
charge_cost-eq r db = ground (arith, ceil_zero_base (multiplier_of r db) r.quantity)

-- The charge costs its price.
pub charge_cost-IsPrice :
    (r : Charge) (db : Database)
    → IsPrice r.action_code r.quantity r.dimension_code r.dimension_value db
        (base_of r db)
        (multiplier_of r db)
        (charge_cost r db)
charge_cost-IsPrice r db =
    let (enough, least) = ceil_credits-bounds (base_of r db) (multiplier_of r db) r.quantity in
    rw (charge_cost-eq r db) (record {
      base_cost = base_of-IsBaseCost r db;
      rule = resolve_multiplier-IsMultiplier r.dimension_code r.dimension_value db.pricing_rules;
      enough = enough;
      least = least;
    })
