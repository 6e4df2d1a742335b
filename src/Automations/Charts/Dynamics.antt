-- ===== src/Automations/Charts/Dynamics.antt =====
-- The chart of the prices: `get_price_dynamics` of packages/automation/src/service.py and of
-- packages/automation/src/repository.py.
use plomio.Core.Result.{object_not_found}
use plomio.Database.{Action, pure, gets, raise_if, ◌>>=◌, ◌>>◌}
use plomio.Database.AutomationTables.{AutomationCheckLog}
use plomio.Automations.{get_automation_row, ℕ, List, Bool, not, none, [], Option, ◌∷◌, some, false}
use plomio.Automations.Charts.{
  Tick, ticks_of, price_changed, align_to_step, price_chart_step_seconds, second, suc, leb,
}
use plomio.Prelude.{
  ℕ, List, not, Bool, [], none, Option, ◌==◌, ◌/◌, suc, ◌+◌, ◌-◌, if◌then◌else◌, some, leb, false,
  ◌*◌, zero,
}

-- `AutomationPricePointEntity`
pub record PricePoint : Type 0 where
  pub at : ℕ
  pub tick : Tick
  pub changed : Bool

-- `least(g + step, until)` over `generate_series(start, until, step)`, on fuel.
unfoldable pub grid_ends : ℕ → ℕ → ℕ → ℕ → List ℕ
grid_ends zero until step g = []
grid_ends (suc fuel) until step g =
    let rest = grid_ends fuel until step (g + step) in
    if leb g until then (if leb (g + step) until then g + step else until) ∷ rest else []

-- The last tick of the ordered ticks that is not later.
unfoldable pub tick_at : ℕ → List Tick → Option Tick
tick_at moment [] = none
tick_at moment (t ∷ ts) =
    if leb t.checked_at moment
    then elim (tick_at moment ts) [ none ↦ some t | some u ↦ some u ]
    else none

-- The points of the grid that have a tick, each marked where its price differs from the one before.
unfoldable pub points_from : List Tick → Option Tick → List ℕ → List PricePoint
unfolding tick_at
points_from ticks previous [] = []
points_from ticks previous (moment ∷ moments) = elim (tick_at moment ticks) [
  | none ↦ points_from ticks previous moments
  | some t ↦
      record {
        at = moment;
        tick = t;
        changed = elim previous [ none ↦ false | some p ↦ price_changed p t ];
      }
      ∷ points_from ticks (some t) moments
]

unfoldable pub price_points : ℕ → ℕ → ℕ → ℕ → List AutomationCheckLog → List PricePoint
unfolding grid_ends points_from
price_points automation_id since until step ls =
    points_from (ticks_of automation_id ls) none
      (grid_ends (until / step + 2) until step (align_to_step since step))

unfoldable pub get_price_dynamics : ℕ → ℕ → ℕ → ℕ → Action (ℕ × List PricePoint)
unfolding price_points price_chart_step_seconds
get_price_dynamics automation_id user_id since until = do
  automation ← get_automation_row automation_id
  raise_if (not (automation.user_id == user_id)) object_not_found
  let step_seconds = price_chart_step_seconds (until - since)
  points ← gets (λ db. price_points automation_id since until (step_seconds * second) db.check_logs)
  pure (step_seconds, points)
