-- ===== src/Tasks/Refinement.antt =====
-- The calls on tasks and the state machine of Tasks/Steps.antt.
use plomio.Database.{Database}
use plomio.Billing.Wallets.{BillingConfig}
use plomio.Tasks.Calls.{
  TaskCall, create_call, cancel_call, pause_call, resume_call, restart_call, exclude_call,
  progress_call, complete_call, claim_call, heartbeat_call, expire_call, reclaim_call, delete_call,
  run_call, is_report,
}
use plomio.Tasks.Steps.{Step}
use plomio.Tasks.Effects.{
  cancel-Step, pause-Step, resume-Step, restart-Step, heartbeat-Step, expire-Step, reclaim-Step,
  delete-Step, claim-Step, create-Step,
}
use plomio.Tasks.ItemEffects.{exclude-Step, complete-Step, progress-Step}

-- Whatever a call on tasks does, and whether it returns or raises, it changes the table of tasks by
-- one step of the state machine of Tasks/Steps.antt: nothing, a new queued task, an allowed change
-- of one task, a sweep of allowed changes, or a removal.
pub run_call-Step :
    (config : BillingConfig) (call : TaskCall) (db : Database)
    → Step (is_report call) db.tasks (run_call config call db).tasks
unfolding run_call
run_call-Step config (create_call now n) db = create-Step config now n db
run_call-Step config (cancel_call now id u) db = cancel-Step now id u db
run_call-Step config (pause_call id u) db = pause-Step id u db
run_call-Step config (resume_call now id ttl u) db = resume-Step now id ttl u db
run_call-Step config (restart_call now id ttl) db = restart-Step now id ttl db
run_call-Step config (exclude_call now id item) db = exclude-Step now id item db
run_call-Step config (progress_call now item cursor count) db =
    progress-Step config now item cursor count db
run_call-Step config (complete_call now item s reason) db = complete-Step now item s reason db
run_call-Step config (claim_call now w lease) db = claim-Step now w lease db
run_call-Step config (heartbeat_call now id w lease) db = heartbeat-Step now id w lease db
run_call-Step config (expire_call now) db = expire-Step now db
run_call-Step config (reclaim_call now ttl) db = reclaim-Step now ttl db
run_call-Step config (delete_call id u) db = delete-Step id u db
