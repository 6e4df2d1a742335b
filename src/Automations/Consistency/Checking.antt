-- ===== src/Automations/Consistency/Checking.antt =====
-- The checks of automations keep them consistent.
use plomio.Core.Enums.{TaskStatus, EventCode}
use plomio.Database.{Task, Payload}
use plomio.Database.Preserves.{
  Preserves, >>=-Preserves, transaction-Preserves, pure-Preserves, gets-Preserves, if-Preserves,
  Option-Preserves,
}
use plomio.Database.AutomationTables.{Automation, AutomationCheckLog, ProductPagePayload}
use plomio.Billing.Wallets.{BillingConfig}
use plomio.Billing.Limits.{Blocked, get_blocked_user_ids}
use plomio.ApiKeys.{BlockedKeys, get_blocked_api_key_ids}
use plomio.Automations.Untouched.{create_task-Preserves, notify-Preserves}
use plomio.Automations.{
  get_latest_succeeded, snapshot_of, ℕ, List, ◌∷◌, Option, is_in, some, none, map, [], filter_where,
}
use plomio.Automations.Changes.{BaselineUpdate, diff}
use plomio.Automations.Checks.{
  set_baseline, set_baselines, finalized, finalize_row, set_pending_task, claim_due_for_dispatch,
  postpone, due_ids, get_awaiting_result,
}
use plomio.Automations.Checks.Dispatch.{
  dispatch_check, dispatch_checks, dispatch_due_checks, block_reason, check_task, api_key_ids_of,
}
use plomio.Automations.Checks.Results.{
  NotifyCall, check_log, write_log, finalize_failed, finalize_succeeded, finalize_check,
  get_result_for_task, status_error, is_succeeded,
}
use plomio.Automations.Checks.Results.Sweep.{
  process_each, process_pending_results, Swept, notify_each, add_tick, ended_task, pending_task,
  nothing_swept, report, sweep_results,
}
use plomio.Automations.Creation.Unique.{index_key}
use plomio.Automations.Consistency.{
  IsConsistent, AreConsistent, IsTick, update_where-Preserves, ◌≡◌,
}
use plomio.Prelude.{
  ℕ, List, ◌≡◌, arith, All-append, String, map, none, ◌==◌, Option, some, ◌+◌, ◌∙◌, [],
  filter_where, refl,
}

set_baseline-key :
    (u : BaselineUpdate) (a : Automation) → index_key (set_baseline u a) ≡ index_key a
set_baseline-key u a = ground arith

set_baselines-key :
    (us : List BaselineUpdate) (a : Automation) → index_key (set_baselines us a) ≡ index_key a
unfolding set_baselines
set_baselines-key [] a = refl
set_baselines-key (u ∷ us) a = set_baselines-key us (set_baseline u a) ∙ set_baseline-key u a

finalized-key :
    (now : ℕ) (error : Option String) (us : List BaselineUpdate) (c : Option ProductPagePayload)
    (a : Automation)
    → index_key (finalized now error us c a) ≡ index_key a
unfolding finalized
finalized-key now error us none a =
    set_baselines-key us
      (record a { pending_task_id = none; last_checked_at = some now; last_check_error = error })
finalized-key now error us (some p) a =
    set_baselines-key us
      (record a { pending_task_id = none; last_checked_at = some now; last_check_error = error })

row-Preserves :
    (id now : ℕ) (error : Option String) (us : List BaselineUpdate) (c : Option ProductPagePayload)
    → Preserves IsConsistent (finalize_row id now error us c)
row-Preserves id now error us c =
    update_where-Preserves (λ a. a.id == id) (finalized now error us c)
      (finalized-key now error us c)

pending-Preserves : (id task_id : ℕ) → Preserves IsConsistent (set_pending_task id task_id)
pending-Preserves id task_id =
    update_where-Preserves (λ a. a.id == id) (λ a. record a { pending_task_id = some task_id })
      (λ a. refl)

log-Preserves :
    (row : ℕ → AutomationCheckLog)
    → ((id : ℕ) → IsTick (row id))
    → Preserves IsConsistent (write_log row)
log-Preserves row ticks = record {
  kept = λ db h.
      (h.0, All-append IsTick db.check_logs (row db.next_id ∷ []) h.1 (ticks db.next_id, tt));
}

failed-Preserves :
    (now : ℕ) (a : Automation) (error : String)
    → Preserves IsConsistent (finalize_failed now a error)
unfolding finalize_failed
failed-Preserves now a error =
    >>=-Preserves IsConsistent
      (log-Preserves (check_log now a.id (some error) none []) (λ id. (refl, refl, refl, refl)))
      (λ _.
        >>=-Preserves IsConsistent (row-Preserves a.id now (some error) [] none)
          (λ _. pure-Preserves IsConsistent (0, none)))

succeeded-Preserves :
    (now : ℕ) (a : Automation) (p : ProductPagePayload)
    → Preserves IsConsistent (finalize_succeeded now a p)
unfolding finalize_succeeded
succeeded-Preserves now a p = record {
  kept = λ db h.
      let s = snapshot_of (get_latest_succeeded a.id db.check_logs) in
      let found = diff a p s in
      (>>=-Preserves IsConsistent
          (log-Preserves (check_log now a.id none (some p) found.0)
            (λ id. (refl, refl, refl, refl)))
          (λ _. row-Preserves a.id now none found.1 (some p))).kept
        db h;
}

check-Preserves :
    (now : ℕ) (a : Automation) (status : TaskStatus)
    → Preserves IsConsistent (finalize_check now a status)
unfolding finalize_check
check-Preserves now a status =
    if-Preserves IsConsistent (is_succeeded status)
      (>>=-Preserves IsConsistent
        (gets-Preserves IsConsistent (get_result_for_task a.pending_task_id))
        (λ result.
          Option-Preserves IsConsistent result (failed-Preserves now a "check_task_no_result")
            (λ p. succeeded-Preserves now a p)))
      (failed-Preserves now a (status_error status))

each-Preserves :
    (now : ℕ) (tasks : List Task) (rows : List Automation) (s : Swept)
    → Preserves IsConsistent (process_each now tasks rows s)
unfolding process_each
each-Preserves now tasks [] s = pure-Preserves IsConsistent s
each-Preserves now tasks (a ∷ rows) s =
    Option-Preserves IsConsistent (ended_task (pending_task a tasks))
      (each-Preserves now tasks rows s)
      (λ task.
        >>=-Preserves IsConsistent (check-Preserves now a task.status)
          (λ r. each-Preserves now tasks rows (add_tick r.0 r.1 s)))

notify_each-Preserves : (calls : List NotifyCall) → Preserves IsConsistent (notify_each calls)
unfolding notify_each
notify_each-Preserves [] = pure-Preserves IsConsistent tt
notify_each-Preserves ((u, notice) ∷ calls) =
    >>=-Preserves IsConsistent
      (notify-Preserves AreConsistent u EventCode.automation_change_detected
        (Payload.change_detected notice))
      (λ _. notify_each-Preserves calls)

sweep-Preserves : (now batch_size : ℕ) → Preserves IsConsistent (sweep_results now batch_size)
unfolding sweep_results
sweep-Preserves now batch_size =
    >>=-Preserves IsConsistent
      (gets-Preserves IsConsistent (λ db. get_awaiting_result batch_size db.automations))
      (λ awaiting.
        >>=-Preserves IsConsistent (gets-Preserves IsConsistent (λ db. db.tasks))
          (λ tasks. each-Preserves now tasks awaiting nothing_swept))

report-Preserves : (s : Swept) → Preserves IsConsistent (report s)
unfolding report
report-Preserves s =
    >>=-Preserves IsConsistent (notify_each-Preserves s.pending_notifications)
      (λ _. pure-Preserves IsConsistent (s.processed_count, s.changes_detected_count))

pub process-Preserves :
    (now batch_size : ℕ) → Preserves IsConsistent (process_pending_results now batch_size)
unfolding process_pending_results
process-Preserves now batch_size =
    >>=-Preserves IsConsistent (transaction-Preserves IsConsistent (sweep-Preserves now batch_size))
      report-Preserves

dispatch_check-Preserves :
    (config : BillingConfig) (now : ℕ) (blocked : Blocked) (keys : BlockedKeys) (a : Automation)
    → Preserves IsConsistent (dispatch_check config now blocked keys a)
unfolding dispatch_check
dispatch_check-Preserves config now blocked keys a =
    Option-Preserves IsConsistent (block_reason a blocked keys)
      (>>=-Preserves IsConsistent (create_task-Preserves AreConsistent config now (check_task a))
        (λ task.
          >>=-Preserves IsConsistent
            (transaction-Preserves IsConsistent (pending-Preserves a.id task.id))
            (λ _. pure-Preserves IsConsistent 1)))
      (λ reason.
        >>=-Preserves IsConsistent
          (transaction-Preserves IsConsistent (row-Preserves a.id now (some reason) [] none))
          (λ _. pure-Preserves IsConsistent 0))

dispatch_checks-Preserves :
    (config : BillingConfig) (now : ℕ) (blocked : Blocked) (keys : BlockedKeys)
    (rows : List Automation) (n : ℕ)
    → Preserves IsConsistent (dispatch_checks config now blocked keys rows n)
unfolding dispatch_checks
dispatch_checks-Preserves config now blocked keys [] n = pure-Preserves IsConsistent n
dispatch_checks-Preserves config now blocked keys (a ∷ rows) n =
    >>=-Preserves IsConsistent (dispatch_check-Preserves config now blocked keys a)
      (λ k. dispatch_checks-Preserves config now blocked keys rows (n + k))

claim-Preserves :
    (now limit minutes : ℕ) → Preserves IsConsistent (claim_due_for_dispatch now limit minutes)
unfolding claim_due_for_dispatch
claim-Preserves now limit minutes =
    >>=-Preserves IsConsistent
      (gets-Preserves IsConsistent (λ db. due_ids now limit db.automations))
      (λ ids.
        >>=-Preserves IsConsistent
          (update_where-Preserves (λ a. is_in a.id ids) (postpone now minutes) (λ a. refl))
          (λ _.
            gets-Preserves IsConsistent (λ db. filter_where (λ a. is_in a.id ids) db.automations)))

pub dispatch-Preserves :
    (config : BillingConfig) (now batch_size minutes : ℕ)
    → Preserves IsConsistent (dispatch_due_checks config now batch_size minutes)
unfolding dispatch_due_checks
dispatch-Preserves config now batch_size minutes =
    >>=-Preserves IsConsistent
      (transaction-Preserves IsConsistent (claim-Preserves now batch_size minutes))
      (λ claimed.
        >>=-Preserves IsConsistent
          (gets-Preserves IsConsistent (get_blocked_user_ids now (map (λ a. a.user_id) claimed)))
          (λ blocked.
            >>=-Preserves IsConsistent
              (gets-Preserves IsConsistent (get_blocked_api_key_ids now (api_key_ids_of claimed)))
              (λ keys. dispatch_checks-Preserves config now blocked keys claimed 0)))
