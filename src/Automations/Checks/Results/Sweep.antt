-- ===== src/Automations/Checks/Results/Sweep.antt =====
-- packages/automation/src/service.py: `process_pending_results`, the sweep over the automations that
-- await a result.
use plomio.Prelude.{
  none, some, [], ◌∷◌, true, false, List, ℕ, Option, Bool, ◌+◌, if◌then◌else◌, find_where, ◌++◌,
  is_id,
}
use plomio.Core.Enums.{TaskStatus, EventCode}
use plomio.Database.{Action, Task, Payload, pure, gets, transaction, ◌>>=◌, ◌>>◌}
use plomio.Database.AutomationTables.{Automation}
use plomio.Billing.Wallets.{notify}
use plomio.Automations.Changes
use plomio.Automations.Checks.{get_awaiting_result, Option, Bool, ℕ, List}
use plomio.Automations.Checks.Results.{NotifyCall, finalize_check, find_where, is_id}

-- The statuses that end a check.
abbrev pub is_ended : TaskStatus → Bool
is_ended TaskStatus.succeeded = true
is_ended TaskStatus.failed = true
is_ended TaskStatus.expired = true
is_ended TaskStatus.cancelled = true
is_ended _ = false

-- `tasks_by_id.get(automation.pending_task_id)`
abbrev pub pending_task : Automation → List Task → Option Task
pending_task a tasks = find_where (λ t. is_id a.pending_task_id t.id) tasks

abbrev pub ended_task : Option Task → Option Task
ended_task none = none
ended_task (some t) = if is_ended t.status then some t else none

pub record Swept : Type 0 where
  pub processed_count : ℕ
  pub changes_detected_count : ℕ
  pub pending_notifications : List NotifyCall

abbrev pub nothing_swept : Swept
nothing_swept = record {
  processed_count = 0;
  changes_detected_count = 0;
  pending_notifications = [];
}

abbrev pub add_tick : ℕ → Option NotifyCall → Swept → Swept
add_tick changes call s = record {
  processed_count = s.processed_count + 1;
  changes_detected_count = s.changes_detected_count + changes;
  pending_notifications = s.pending_notifications ++ Changes.push call [];
}

-- The loop over the automations that await a result.
unfoldable pub process_each : ℕ → List Task → List Automation → Swept → Action Swept
unfolding finalize_check
process_each now tasks [] s = pure s
process_each now tasks (a ∷ rows) s = elim (ended_task (pending_task a tasks)) [
  | none ↦ process_each now tasks rows s
  | some task ↦ do
    (changes, call) ← finalize_check now a task.status
    process_each now tasks rows (add_tick changes call s)
]

unfoldable pub notify_each : List NotifyCall → Action (Unit {0})
unfolding notify
notify_each [] = pure tt
notify_each ((user_id, notice) ∷ calls) = do
  notify user_id EventCode.automation_change_detected (Payload.change_detected notice)
  notify_each calls

-- The transaction of `process_pending_results`.
unfoldable pub sweep_results : ℕ → ℕ → Action Swept
unfolding get_awaiting_result process_each
sweep_results now batch_size = do
  awaiting ← gets (λ db. get_awaiting_result batch_size db.automations)
  tasks ← gets (λ db. db.tasks)
  process_each now tasks awaiting nothing_swept

-- The notices are sent once the transaction is committed.
unfoldable pub report : Swept → Action (ℕ × ℕ)
unfolding notify_each
report s = do
  notify_each s.pending_notifications
  pure (s.processed_count, s.changes_detected_count)

unfoldable pub process_pending_results : ℕ → ℕ → Action (ℕ × ℕ)
unfolding sweep_results report
process_pending_results now batch_size = transaction (sweep_results now batch_size) >>= report
