-- ===== src/Automations.antt =====
-- packages/automation/src/service.py: what the calls on an automation share, its baseline, pause,
-- resumption, deletion and display.
pub mod Calls
pub mod Consistency
pub mod Untouched
pub mod History
pub mod Changes
pub mod Charts
pub mod Listings
pub mod Creation
pub mod Checks
use plomio.Core.Result.{object_not_found}
use plomio.Database.AutomationTables.{Automation, AutomationStatus, AutomationCheckLog, Snapshot}
use plomio.Database.{
  Database, Action, pure, gets, or_raise, raise_if, modify, transaction, ◌>>=◌, ◌>>◌, Task,
}
use plomio.Tasks.{delete_tasks}
use plomio.Tasks.Items.{or_kept}
use Prim.Native.Nat.{ℕ}
use plomio.Prelude.{
  List, Option, ℕ, update_first, some, none, not, Bool, find_where, map, filter_where, is_id,
  if◌then◌else◌, false, is_in, ◌==◌, ◌∷◌, ltb, ◌&&◌, [],
}

abbrev pub find_automation : ℕ → List Automation → Option Automation
find_automation id = find_where (λ a. a.id == id)

-- `get_by_id`
abbrev pub get_automation_row : ℕ → Action Automation
get_automation_row id = do
  or_raise (← gets (λ db. find_automation id db.automations)) object_not_found

abbrev pub set_automations : (List Automation → List Automation) → Action (Unit {0})
set_automations change = modify (λ db. record db { automations = change db.automations })

-- `BaseRepository.update`, with the columns that it sets as a function on the row.
unfoldable pub update_automation : ℕ → (Automation → Automation) → Action Automation
update_automation id change = do
  set_automations (update_first (λ a. a.id == id) change)
  get_automation_row id

-- The owner check: an administrator's call passes no user.
abbrev pub is_foreign : Option ℕ → Automation → Bool
is_foreign none automation = false
is_foreign (some user_id) automation = not (automation.user_id == user_id)

abbrev pub with_baselines : Option ℕ → Option ℕ → Option ℕ → Automation → Automation
with_baselines price discounted original a = record a {
  baseline_price = or_kept price a.baseline_price;
  baseline_discounted_price = or_kept discounted a.baseline_discounted_price;
  baseline_original_price = or_kept original a.baseline_original_price;
}

unfoldable pub update_baseline : ℕ → ℕ → Option ℕ → Option ℕ → Option ℕ → Action Automation
unfolding update_automation
update_baseline automation_id user_id price discounted original = transaction do
  automation ← get_automation_row automation_id
  raise_if (not (automation.user_id == user_id)) object_not_found
  update_automation automation_id (with_baselines price discounted original)

abbrev pub pause : Automation → Automation
pause a = record a { status = AutomationStatus.paused }

unfoldable pub pause_automation : ℕ → Option ℕ → Action Automation
unfolding update_automation
pause_automation automation_id user_id = transaction do
  automation ← get_automation_row automation_id
  raise_if (is_foreign user_id automation) object_not_found
  update_automation automation_id pause

abbrev pub resume : ℕ → Automation → Automation
resume now a = record a { status = AutomationStatus.active; next_check_at = now }

unfoldable pub resume_automation : ℕ → ℕ → Option ℕ → Action Automation
unfolding update_automation
resume_automation now automation_id user_id = transaction do
  automation ← get_automation_row automation_id
  raise_if (is_foreign user_id automation) object_not_found
  update_automation automation_id (resume now)

-- `TaskRepository.delete_by_automation_id`
abbrev pub is_check_of : ℕ → Task → Bool
is_check_of automation_id t = is_id t.automation_id automation_id

unfoldable pub delete_by_automation_id : ℕ → Database → Database
delete_by_automation_id automation_id db =
    let ids = map (λ t. t.id) (filter_where (is_check_of automation_id) db.tasks) in
    delete_tasks (is_check_of automation_id) (λ id. is_in id ids) db

-- A deleted automation takes its log with it (`ON DELETE CASCADE`); none of its tasks is left.
abbrev pub delete_row : ℕ → Database → Database
delete_row automation_id db = record db {
  automations = filter_where (λ a. not (a.id == automation_id)) db.automations;
  check_logs = filter_where (λ l. not (l.automation_id == automation_id)) db.check_logs;
}

unfoldable pub delete_automation : ℕ → Option ℕ → Action (Unit {0})
unfolding delete_by_automation_id
delete_automation automation_id user_id = transaction do
  automation ← get_automation_row automation_id
  raise_if (is_foreign user_id automation) object_not_found
  modify (delete_by_automation_id automation_id)
  modify (delete_row automation_id)

-- The later of two ticks; of two at one instant, the one of the row before.
abbrev pub later : AutomationCheckLog → Option AutomationCheckLog → AutomationCheckLog
later l none = l
later l (some m) = if ltb l.checked_at m.checked_at then m else l

-- `ORDER BY checked_at DESC LIMIT 1`
unfoldable pub latest : List AutomationCheckLog → Option AutomationCheckLog
latest [] = none
latest (l ∷ ls) = some (later l (latest ls))

abbrev pub is_success_of : ℕ → AutomationCheckLog → Bool
is_success_of automation_id l = (l.automation_id == automation_id) && l.succeeded

unfoldable pub get_latest_succeeded : ℕ → List AutomationCheckLog → Option AutomationCheckLog
unfolding latest
get_latest_succeeded automation_id ls = latest (filter_where (is_success_of automation_id) ls)

-- The snapshot of a row that may be missing.
abbrev pub snapshot_of : Option AutomationCheckLog → Option Snapshot
snapshot_of none = none
snapshot_of (some l) = l.snapshot

unfoldable pub get_automation : ℕ → Option ℕ → Action (Automation × Option Snapshot)
unfolding get_latest_succeeded
get_automation automation_id user_id = do
  automation ← get_automation_row automation_id
  raise_if (is_foreign user_id automation) object_not_found
  latest_succeeded ← gets (λ db. get_latest_succeeded automation_id db.check_logs)
  pure (automation, snapshot_of latest_succeeded)
