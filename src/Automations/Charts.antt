-- ===== src/Automations/Charts.antt =====
-- The charts of an automation: `price_chart_step_seconds`, `align_to_step`, `fill_empty_buckets`,
-- `get_price_change_frequency` and `get_price_dynamics` of packages/automation/src/service.py, with
-- the two queries of packages/automation/src/repository.py. Steps are microseconds, as instants are.
pub mod Grid
pub mod Dynamics
pub mod Totals
use plomio.Core.Result.{object_not_found}
use plomio.Database.{Database, Action, pure, gets, raise_if, ◌>>=◌, ◌>>◌}
use plomio.Database.AutomationTables.{
  AutomationCheckLog, TrackedField, FieldValue, Snapshot, is_value, price, discounted_price,
  original_price,
}
use plomio.Automations.{get_automation_row, Bool, ℕ, Option, List, [], not, ◌∷◌, filter_where}
use plomio.Prelude.{
  zero, none, some, true, false, Option, Bool, List, ℕ, leb, ◌/◌, ◌||◌, if◌then◌else◌, ◌∷◌, [],
  filter_where, not, ◌+◌, ◌*◌, suc, ◌==◌, ◌&&◌, ◌-◌,
}

abbrev pub second : ℕ
second = 1_000_000

-- `PRICE_CHART_MAX_POINTS`
abbrev pub price_chart_max_points : ℕ
price_chart_max_points = 30

-- `PRICE_CHART_STEPS_SECONDS`, and its last element.
abbrev pub price_chart_steps : List ℕ
price_chart_steps =
    300 ∷ 900 ∷ 1800 ∷ 3600 ∷ 7200 ∷ 14400 ∷ 21600 ∷ 43200 ∷ 86400 ∷ 172800 ∷ 259200 ∷ 604800
    ∷ 1209600 ∷ []

abbrev pub longest_step : ℕ
longest_step = 1209600

-- The first step that is at least a thirtieth of the span.
unfoldable pub first_step : ℕ → List ℕ → ℕ
first_step span [] = longest_step
first_step span (step ∷ steps) =
    if leb span (step * second * price_chart_max_points) then step else first_step span steps

unfoldable pub price_chart_step_seconds : ℕ → ℕ
unfolding first_step
price_chart_step_seconds span = first_step span price_chart_steps

abbrev pub align_to_step : ℕ → ℕ → ℕ
align_to_step moment step = moment / step * step

abbrev pub Bucket : Type 0
Bucket = ℕ × ℕ

-- `counts.get(current, 0)`
abbrev pub count_at : ℕ → List Bucket → ℕ
count_at moment [] = 0
count_at moment ((start, n) ∷ points) = if start == moment then n else count_at moment points

-- The loop `while current <= until`, on fuel.
unfoldable pub fill_from : ℕ → List Bucket → ℕ → ℕ → ℕ → List Bucket
fill_from zero points until step current = []
fill_from (suc fuel) points until step current =
    let rest = fill_from fuel points until step (current + step) in
    if leb current until then (current, count_at current points) ∷ rest else []

-- A round for each point of the grid, and one more.
unfoldable pub fill_empty_buckets : List Bucket → ℕ → ℕ → ℕ → List Bucket
unfolding fill_from
fill_empty_buckets points since until step =
    fill_from (until / step + 2) points until step (align_to_step since step)

-- A row of `ticks`: the three prices of a succeeded check.
pub record Tick : Type 0 where
  pub checked_at : ℕ
  pub prices : Option FieldValue × Option FieldValue × Option FieldValue
  pub available : Option FieldValue

abbrev pub tick_of : AutomationCheckLog → Snapshot → Tick
tick_of l s = record {
  checked_at = l.checked_at;
  prices = (s price, s discounted_price, s original_price);
  available = s TrackedField.in_stock;
}

-- `ORDER BY checked_at`
unfoldable pub insert_tick : Tick → List Tick → List Tick
insert_tick t [] = t ∷ []
insert_tick t (u ∷ us) =
    let rest = insert_tick t us in if leb t.checked_at u.checked_at then t ∷ u ∷ us else u ∷ rest

abbrev pub tick_row : ℕ → AutomationCheckLog → Option Tick
tick_row automation_id l =
    if l.automation_id == automation_id && l.succeeded
    then elim l.snapshot [ none ↦ none | some s ↦ some (tick_of l s) ]
    else none

unfoldable pub ticks_of : ℕ → List AutomationCheckLog → List Tick
unfolding insert_tick
ticks_of automation_id [] = []
ticks_of automation_id (l ∷ ls) = elim (tick_row automation_id l) [
  | none ↦ ticks_of automation_id ls
  | some t ↦ insert_tick t (ticks_of automation_id ls)
]

-- `IS DISTINCT FROM`
abbrev pub is_distinct : Option FieldValue → Option FieldValue → Bool
is_distinct none none = false
is_distinct none (some v) = true
is_distinct (some v) none = true
is_distinct (some v) (some w) = not (is_value (some v) w)

abbrev pub price_changed : Tick → Tick → Bool
price_changed t u =
    is_distinct t.prices.0 u.prices.0
    || (is_distinct t.prices.1 u.prices.1 || is_distinct t.prices.2 u.prices.2)

-- The instants at which the price differs from the tick before.
unfoldable pub change_times : List Tick → List ℕ
change_times [] = []
change_times (t ∷ []) = []
change_times (t ∷ u ∷ us) =
    let rest = change_times (u ∷ us) in if price_changed t u then u.checked_at ∷ rest else rest

abbrev pub is_between : ℕ → ℕ → ℕ → Bool
is_between since until t = leb since t && leb t until

-- `GROUP BY`
abbrev pub add_to : ℕ → List Bucket → List Bucket
add_to start [] = (start, 1) ∷ []
add_to start ((s, n) ∷ points) =
    if s == start then (s, n + 1) ∷ points else (s, n) ∷ add_to start points

unfoldable pub group_by_bucket : ℕ → List ℕ → List Bucket
group_by_bucket step [] = []
group_by_bucket step (t ∷ ts) = add_to (align_to_step t step) (group_by_bucket step ts)

-- The changes of the price in the period.
unfoldable pub changes_between : ℕ → ℕ → ℕ → List AutomationCheckLog → List ℕ
unfolding ticks_of change_times
changes_between automation_id since until ls =
    filter_where (is_between since until) (change_times (ticks_of automation_id ls))

unfoldable pub get_price_change_frequency : ℕ → ℕ → ℕ → ℕ → Action (ℕ × List Bucket)
unfolding price_chart_step_seconds changes_between group_by_bucket fill_empty_buckets
get_price_change_frequency automation_id user_id since until = do
  automation ← get_automation_row automation_id
  raise_if (not (automation.user_id == user_id)) object_not_found
  times ← gets (λ db. changes_between automation_id since until db.check_logs)
  let step_seconds = price_chart_step_seconds (until - since)
  let step = step_seconds * second
  pure (step_seconds, fill_empty_buckets (group_by_bucket step times) since until step)
