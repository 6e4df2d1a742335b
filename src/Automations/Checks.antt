-- ===== src/Automations/Checks.antt =====
-- The checks of automations: `claim_due_for_dispatch`, `set_pending_task`, `get_awaiting_result`,
-- `finalize_check` of packages/automation/src/repository.py. The children hold the service.
pub mod Dispatch
pub mod Results
use plomio.Core.Time.{minute}
use plomio.Database.{Database, Action, gets, ◌>>=◌, ◌>>◌}
use plomio.Database.AutomationTables.{
  Automation, AutomationStatus, ProductPagePayload, FieldValue, BaselineAttribute,
}
use plomio.Automations.{
  set_automations, some, Bool, Option, ℕ, List, false, ◌∷◌, map, not, filter_where, is_in,
}
use plomio.Automations.Changes
use plomio.Prelude.{
  List, ℕ, some, Bool, Option, ◌+◌, update_where, take, true, String, map, false, ◌&&◌, ◌∷◌, none,
  leb, not, filter_where, ◌==◌, if◌then◌else◌, [], ◌*◌, is_some,
}

abbrev pub is_active : AutomationStatus → Bool
is_active AutomationStatus.active = true
is_active AutomationStatus.paused = false

-- Due, and not being checked.
abbrev pub is_due_automation : ℕ → Automation → Bool
is_due_automation now a =
    is_active a.status && (leb a.next_check_at now && not (is_some a.pending_task_id))

-- `ORDER BY next_check_at ASC`
unfoldable pub insert_due : Automation → List Automation → List Automation
insert_due a [] = a ∷ []
insert_due a (b ∷ bs) =
    let rest = insert_due a bs in
    if leb a.next_check_at b.next_check_at then a ∷ b ∷ bs else b ∷ rest

unfoldable pub earliest_first : List Automation → List Automation
unfolding insert_due
earliest_first [] = []
earliest_first (a ∷ rows) = insert_due a (earliest_first rows)

unfoldable pub due_ids : ℕ → ℕ → List Automation → List ℕ
unfolding earliest_first
due_ids now limit rows =
    map (λ a. a.id) (take limit (earliest_first (filter_where (is_due_automation now) rows)))

-- The next check: of a product that is out of stock, by the interval of the configuration.
abbrev pub is_out_of_stock : Option Bool → Bool
is_out_of_stock none = false
is_out_of_stock (some b) = not b

abbrev pub postpone : ℕ → ℕ → Automation → Automation
postpone now out_of_stock_minutes a = record a {
  next_check_at =
      now
      + (if is_out_of_stock a.available then out_of_stock_minutes else a.check_frequency_minutes)
        * minute;
}

unfoldable pub claim_due_for_dispatch : ℕ → ℕ → ℕ → Action (List Automation)
unfolding due_ids
claim_due_for_dispatch now limit out_of_stock_minutes = do
  claimed_ids ← gets (λ db. due_ids now limit db.automations)
  set_automations (update_where (λ a. is_in a.id claimed_ids) (postpone now out_of_stock_minutes))
  gets (λ db. filter_where (λ a. is_in a.id claimed_ids) db.automations)

abbrev pub set_pending_task : ℕ → ℕ → Action (Unit {0})
set_pending_task automation_id task_id =
    set_automations
      (update_where (λ a. a.id == automation_id) (λ a. record a { pending_task_id = some task_id }))

-- The entries of `baseline_updates` and of `current_values`.
abbrev pub set_baseline : Changes.BaselineUpdate → Automation → Automation
set_baseline (BaselineAttribute.baseline_price_kopecks, FieldValue.number n) a = record a {
  baseline_price = some n;
}
set_baseline (BaselineAttribute.baseline_discounted_price_kopecks, FieldValue.number n) a =
    record a { baseline_discounted_price = some n }
set_baseline (BaselineAttribute.baseline_original_price_kopecks, FieldValue.number n) a = record a {
  baseline_original_price = some n;
}
set_baseline (BaselineAttribute.in_stock, FieldValue.flag b) a = record a { available = some b }
set_baseline _ a = a

unfoldable pub set_baselines : List Changes.BaselineUpdate → Automation → Automation
set_baselines [] a = a
set_baselines (u ∷ us) a = set_baselines us (set_baseline u a)

abbrev pub set_current : Option ProductPagePayload → Automation → Automation
set_current none a = a
set_current (some p) a = record a {
  name = some p.title;
  price_kopecks = p.price_kopecks;
  discounted_price_kopecks = p.discounted_price_kopecks;
  original_price_kopecks = p.original_price_kopecks;
}

unfoldable pub finalized :
    ℕ
    → Option String
    → List Changes.BaselineUpdate
    → Option ProductPagePayload
    → Automation
    → Automation
unfolding set_baselines
finalized last_checked_at last_check_error baseline_updates current_values a =
    set_current current_values (
      set_baselines baseline_updates (record a {
        pending_task_id = none;
        last_checked_at = some last_checked_at;
        last_check_error = last_check_error;
      }))

-- `finalize_check` of the repository.
abbrev pub finalize_row :
    ℕ
    → ℕ
    → Option String
    → List Changes.BaselineUpdate
    → Option ProductPagePayload
    → Action (Unit {0})
finalize_row automation_id now error baseline_updates current_values = set_automations (
    update_where (λ a. a.id == automation_id) (finalized now error baseline_updates current_values))

-- `ORDER BY last_checked_at ASC NULLS FIRST`
abbrev pub leb_checked : Option ℕ → Option ℕ → Bool
leb_checked none b = true
leb_checked (some a) none = false
leb_checked (some a) (some b) = leb a b

unfoldable pub insert_awaiting : Automation → List Automation → List Automation
insert_awaiting a [] = a ∷ []
insert_awaiting a (b ∷ bs) =
    let rest = insert_awaiting a bs in
    if leb_checked a.last_checked_at b.last_checked_at then a ∷ b ∷ bs else b ∷ rest

unfoldable pub longest_unchecked_first : List Automation → List Automation
unfolding insert_awaiting
longest_unchecked_first [] = []
longest_unchecked_first (a ∷ rows) = insert_awaiting a (longest_unchecked_first rows)

unfoldable pub get_awaiting_result : ℕ → List Automation → List Automation
unfolding longest_unchecked_first
get_awaiting_result limit rows =
    take limit (longest_unchecked_first (filter_where (λ a. is_some a.pending_task_id) rows))
