-- ===== src/Automations/Checks/Results.antt =====
-- packages/automation/src/service.py: `process_pending_results` and `_finalize_check`, with
-- `ResultItemRepository.get_by_task_id` (packages/result/src/repository.py).
pub mod Sweep
pub mod Repeated
pub mod Ticks
pub mod Swept
pub mod Settled
use plomio.Core.Enums.{TaskStatus, EventCode}
use plomio.Database.{
  Database, Task, Payload, Action, pure, gets, modify, fresh_id, transaction, ◌>>=◌, ◌>>◌,
}
use plomio.Database.AutomationTables.{
  Automation, AutomationCheckLog, ProductPagePayload, TrackedField, price, discounted_price,
  original_price, FieldValue, Snapshot, Change, ChangeNotice, ResultItem,
}
use plomio.Billing.Wallets.{notify}
use plomio.Tasks.Items.{items_of}
use plomio.Automations.{
  get_latest_succeeded, snapshot_of, Bool, Option, ℕ, List, find_where, [], ◌∷◌, map, ltb,
  filter_where, is_id, is_in,
}
use plomio.Automations.Changes
use plomio.Automations.Changes.{build_snapshot, number_of, any_breached, has_any}
use plomio.Automations.Checks.{get_awaiting_result, finalize_row, String, is_some}
use plomio.Prelude.{
  List, String, ℕ, Bool, Option, none, some, true, false, ◌++◌, map, ◌+◌, [], if◌then◌else◌,
  find_where, is_some, ltb, is_id, filter_where,
}

-- `ORDER BY created_at ASC LIMIT 1`: of two at one instant, the first of the table.
abbrev pub earlier_result : ResultItem → Option ResultItem → ResultItem
earlier_result r none = r
earlier_result r (some s) = if ltb s.created_at r.created_at then s else r

unfoldable pub first_result : List ResultItem → Option ResultItem
first_result [] = none
first_result (r ∷ rs) = some (earlier_result r (first_result rs))

-- `get_results_for_task` with `CHECK_TASK_RESULT_LIMIT`, which is 1.
unfoldable pub get_result_for_task : Option ℕ → Database → Option ProductPagePayload
unfolding first_result
get_result_for_task none db = none
get_result_for_task (some task_id) db =
    let items = map (λ i. i.id) (items_of task_id db.task_items) in
    elim (first_result (filter_where (λ r. is_in r.task_item_id items) db.results)) [
      | none ↦ none
      | some r ↦ some r.payload
    ]

-- `check_task_{task_status.value.lower()}`
abbrev pub status_error : TaskStatus → String
status_error TaskStatus.queued = "check_task_queued"
status_error TaskStatus.running = "check_task_running"
status_error TaskStatus.paused = "check_task_paused"
status_error TaskStatus.succeeded = "check_task_succeeded"
status_error TaskStatus.failed = "check_task_failed"
status_error TaskStatus.expired = "check_task_expired"
status_error TaskStatus.cancelled = "check_task_cancelled"

abbrev pub is_succeeded : TaskStatus → Bool
is_succeeded TaskStatus.succeeded = true
is_succeeded _ = false

-- The row of the log of a tick.
abbrev pub check_log :
    ℕ → ℕ → Option String → Option ProductPagePayload → List Change → ℕ → AutomationCheckLog
check_log now automation_id error payload changes id = record {
  id = id;
  automation_id = automation_id;
  succeeded = is_some payload;
  error_message = error;
  snapshot = elim payload [ none ↦ none | some p ↦ some (build_snapshot p) ];
  changes = changes;
  has_changes = has_any changes;
  threshold_breached = any_breached changes;
  checked_at = now;
}

-- `baseline_by_field`
abbrev pub baseline_of : Automation → TrackedField → Option FieldValue
baseline_of a price = number_of a.baseline_price
baseline_of a discounted_price = number_of a.baseline_discounted_price
baseline_of a original_price = number_of a.baseline_original_price
baseline_of a _ = none

-- The old price of a notice is the baseline, where there is one.
abbrev pub from_baseline : Automation → Change → Change
from_baseline a c = record c {
  old_value = elim (baseline_of a c.field) [ none ↦ c.old_value | some v ↦ some v ];
}

abbrev pub NotifyCall : Type 0
NotifyCall = ℕ × ChangeNotice

abbrev pub change_notice :
    Automation → ProductPagePayload → Option Snapshot → List Change → NotifyCall
change_notice a payload previous_snapshot changes = (
  a.user_id,
  record {
    automation_id = a.id;
    task_id = a.pending_task_id;
    product_name = some payload.title;
    link = some payload.product_url;
    changes = map (from_baseline a) changes;
    threshold_breached = any_breached changes;
    baseline = baseline_of a;
    previous = Changes.previous_value previous_snapshot;
    current = build_snapshot payload;
    changed_fields = map (λ c. c.field) changes;
  },
)

-- The call of `notify` for the changes of a tick, if any is worth it.
unfoldable pub notify_call :
    Automation → ProductPagePayload → Option Snapshot → List Change → Option NotifyCall
notify_call a payload previous_snapshot [] = none
notify_call a payload previous_snapshot (c ∷ cs) =
    some (change_notice a payload previous_snapshot (c ∷ cs))

abbrev pub write_log : (ℕ → AutomationCheckLog) → Action (Unit {0})
write_log row = do
  id ← fresh_id
  modify (λ db. record db { check_logs = db.check_logs ++ row id ∷ [] })

-- A tick without a result: the task has not succeeded, or it has none.
unfoldable pub finalize_failed : ℕ → Automation → String → Action (ℕ × Option NotifyCall)
finalize_failed now a error = do
  write_log (check_log now a.id (some error) none [])
  finalize_row a.id now (some error) [] none
  pure (0, none)

unfoldable pub finalize_succeeded :
    ℕ → Automation → ProductPagePayload → Action (ℕ × Option NotifyCall)
unfolding get_latest_succeeded Changes.diff Changes.filter_notifiable_changes notify_call
finalize_succeeded now a payload = do
  previous_log ← gets (λ db. get_latest_succeeded a.id db.check_logs)
  let previous_snapshot = snapshot_of previous_log
  let (changes, baseline_updates) = Changes.diff a payload previous_snapshot
  write_log (check_log now a.id none (some payload) changes)
  finalize_row a.id now none baseline_updates (some payload)
  pure (
    if has_any changes then 1 else 0,
    notify_call a payload previous_snapshot (Changes.filter_notifiable_changes changes),
  )

-- `_finalize_check`
unfoldable pub finalize_check : ℕ → Automation → TaskStatus → Action (ℕ × Option NotifyCall)
unfolding get_result_for_task finalize_failed finalize_succeeded
finalize_check now a task_status =
    if is_succeeded task_status
    then (gets (get_result_for_task a.pending_task_id) >>= λ result. elim result [
      | none ↦ finalize_failed now a "check_task_no_result"
      | some payload ↦ finalize_succeeded now a payload
    ])
    else finalize_failed now a (status_error task_status)
