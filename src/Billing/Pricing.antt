-- ===== src/Billing/Pricing.antt =====
-- The catalogue of actions and the multiplier rules: `BillingActionRepository` and
-- `PricingMultiplierRuleRepository` (packages/billing/src/repository.py) and the methods of
-- `BillingService` over them (packages/billing/src/service.py).
pub mod Disjoint
use plomio.Prelude.{
  ℕ, ◌+◌, ◌*◌, ◌/◌, Bool, true, false, ◌&&◌, not, Option, none, some, List, ◌∷◌, [], ◌++◌, String,
  str_eq, ◌==◌, if◌then◌else◌, find_where, filter_where, update_where, any_where, is_some,
}
use plomio.Prelude.Int.{ℤ, leb_ℤ}
use plomio.Core.Result.{Result, ok, err, object_not_found, overlapping_pricing_rule}
use plomio.Database.{
  Database, BillingAction, PricingMultiplierRule, Action, pure, gets, or_raise, raise_if, modify,
  fresh_id, transaction, ◌>>=◌, ◌>>◌,
}

abbrev pub get_by_action_code : String → List BillingAction → Option BillingAction
get_by_action_code action_code = find_where (λ a. str_eq a.action_code action_code)

-- The rows that the `SELECT` of `find_matching` may return.
unfoldable pub matches : String → ℤ → PricingMultiplierRule → Bool
matches dimension_code value r =
    str_eq r.dimension_code dimension_code && (leb_ℤ r.value_min value && leb_ℤ value r.value_max)

unfoldable pub find_matching :
    String → ℤ → List PricingMultiplierRule → Option PricingMultiplierRule
find_matching dimension_code value = find_where (matches dimension_code value)

pub overlaps : String → ℤ → ℤ → PricingMultiplierRule → Bool
overlaps dimension_code value_min value_max r =
    str_eq r.dimension_code dimension_code
    && (leb_ℤ r.value_min value_max && leb_ℤ value_min r.value_max)

pub has_overlap : String → ℤ → ℤ → List PricingMultiplierRule → Bool
has_overlap dimension_code value_min value_max =
    any_where (overlaps dimension_code value_min value_max)

pub create_pricing_rule : String → ℤ → ℤ → ℕ → Action PricingMultiplierRule
create_pricing_rule dimension_code value_min value_max multiplier = transaction do
  raise_if (← gets (λ db. has_overlap dimension_code value_min value_max db.pricing_rules))
      overlapping_pricing_rule
  id ← fresh_id
  let rule = new_rule id
  modify (λ db. record db { pricing_rules = db.pricing_rules ++ rule ∷ [] })
  pure rule
  where
    new_rule : ℕ → PricingMultiplierRule
    new_rule id = record {
      id = id;
      dimension_code = dimension_code;
      value_min = value_min;
      value_max = value_max;
      multiplier = multiplier;
    }

pub delete_pricing_rule : ℕ → Action (Unit {0})
delete_pricing_rule rule_id = transaction do
  or_raise (← gets (λ db. find_where (λ r. r.id == rule_id) db.pricing_rules)) object_not_found
  modify (λ db. record db {
    pricing_rules = filter_where (λ r. not (r.id == rule_id)) db.pricing_rules;
  })

pub update_action_cost : String → ℕ → Action BillingAction
update_action_cost action_code base_cost = transaction do
  action ←
      or_raise (← gets (λ db. get_by_action_code action_code db.billing_actions)) object_not_found
  modify (λ db. record db {
    billing_actions =
        update_where (λ a. str_eq a.action_code action_code)
          (λ a. record a { base_cost = base_cost }) db.billing_actions;
  })
  pure (record action { base_cost = base_cost })
