-- ===== src/Tasks/Calls.antt =====
-- The calls that write tasks: those of `TaskService`, from the API, the worker and the scheduler.
use plomio.Prelude.{ℕ, [], ◌∷◌, String, List, Option, Bool, true, false}
use plomio.Core.Enums.{TaskItemStatus}
use plomio.Database.{Database}
use plomio.Billing.Wallets.{BillingConfig}
use plomio.Tasks.{cancel_task, pause_task, resume_task, delete_task}
use plomio.Tasks.Creation.{NewTask, create_task}
use plomio.Tasks.Items.{exclude_task_item, record_item_progress, complete_item}
use plomio.Tasks.Restart.{restart_task}
use plomio.Tasks.Queue.{claim_next, expire_stale_queued, reclaim_expired_leases, heartbeat}

pub data TaskCall : Type 0 where
  create_call : (now : ℕ) (n : NewTask) → TaskCall
  cancel_call : (now task_id : ℕ) (user_id : Option ℕ) → TaskCall
  pause_call : (task_id : ℕ) (user_id : Option ℕ) → TaskCall
  resume_call : (now task_id ttl : ℕ) (user_id : Option ℕ) → TaskCall
  restart_call : (now task_id ttl : ℕ) → TaskCall
  exclude_call : (now task_id item_id : ℕ) → TaskCall
  progress_call : (now item_id : ℕ) (cursor : Option ℕ) (result_count : ℕ) → TaskCall
  complete_call :
      (now item_id : ℕ) (status : TaskItemStatus) (error_reason : Option String) → TaskCall
  claim_call : (now : ℕ) (worker_id : String) (lease : ℕ) → TaskCall
  heartbeat_call : (now task_id : ℕ) (worker_id : String) (lease : ℕ) → TaskCall
  expire_call : (now : ℕ) → TaskCall
  reclaim_call : (now requeue_ttl : ℕ) → TaskCall
  delete_call : (task_id user_id : ℕ) → TaskCall

-- The database after a call, whether it returns or raises.
unfoldable pub run_call : BillingConfig → TaskCall → Database → Database
run_call config (create_call now n) db = (create_task config now n db).1
run_call config (cancel_call now id u) db = (cancel_task now id u db).1
run_call config (pause_call id u) db = (pause_task id u db).1
run_call config (resume_call now id ttl u) db = (resume_task now id ttl u db).1
run_call config (restart_call now id ttl) db = (restart_task now id ttl db).1
run_call config (exclude_call now id item) db = (exclude_task_item now id item db).1
run_call config (progress_call now item cursor count) db =
    (record_item_progress config now item cursor count db).1
run_call config (complete_call now item status reason) db =
    (complete_item now item status reason db).1
run_call config (claim_call now w lease) db = (claim_next now w lease db).1
run_call config (heartbeat_call now id w lease) db = (heartbeat now id w lease db).1
run_call config (expire_call now) db = (expire_stale_queued now db).1
run_call config (reclaim_call now ttl) db = (reclaim_expired_leases now ttl db).1
run_call config (delete_call id u) db = (delete_task id u db).1

unfoldable pub run_calls : BillingConfig → List TaskCall → Database → Database
unfolding run_call
run_calls config [] db = db
run_calls config (c ∷ cs) db = run_calls config cs (run_call config c db)

-- The calls that report on an item.
abbrev pub is_report : TaskCall → Bool
is_report (exclude_call now id item) = true
is_report (complete_call now item status reason) = true
is_report _ = false
