-- ===== src/Automations/Calls.antt =====
-- The calls on automations, and runs of them.
use plomio.Database.{Database}
use plomio.Automations.{
  update_baseline, pause_automation, resume_automation, delete_automation, List, ℕ, Option,
}
use plomio.Billing.Wallets.{BillingConfig}
use plomio.Automations.Creation.{Articles, AutomationCreateData, create_automation}
use plomio.Automations.Creation.Batch.{bulk_create_automations}
use plomio.Automations.Checks.Dispatch.{dispatch_due_checks}
use plomio.Automations.Checks.Results.Sweep.{process_pending_results}
use plomio.Automations.History.{sweep_history_retention}
use plomio.Prelude.{ℕ, List, Option, [], ◌∷◌}

-- A call with its arguments.
pub data AutomationCall : Type 0 where
  creates : (user_id : ℕ) → AutomationCreateData → (min_frequency : ℕ) → Option ℕ → AutomationCall
  creates_many :
      (user_id : ℕ) → List AutomationCreateData → (min_frequency : ℕ) → Option ℕ → AutomationCall
  sets_baseline : (id user_id : ℕ) (price discounted original : Option ℕ) → AutomationCall
  pauses : (id : ℕ) → Option ℕ → AutomationCall
  resumes : (id : ℕ) → Option ℕ → AutomationCall
  deletes : (id : ℕ) → Option ℕ → AutomationCall
  dispatches : (batch_size out_of_stock_minutes : ℕ) → AutomationCall
  processes : (batch_size : ℕ) → AutomationCall
  sweeps_history : AutomationCall

module _ (articles : Articles) (config : BillingConfig) where
  -- What a call leaves at an instant.
  abbrev pub run_call : ℕ → AutomationCall → Database → Database
  run_call now (creates user_id item min_frequency key) db =
      (create_automation articles config now user_id item min_frequency key db).1
  run_call now (creates_many user_id items min_frequency key) db =
      (bulk_create_automations articles config now user_id items min_frequency key db).1
  run_call now (sets_baseline id user_id price discounted original) db =
      (update_baseline id user_id price discounted original db).1
  run_call now (pauses id user_id) db = (pause_automation id user_id db).1
  run_call now (resumes id user_id) db = (resume_automation now id user_id db).1
  run_call now (deletes id user_id) db = (delete_automation id user_id db).1
  run_call now (dispatches batch_size minutes) db =
      (dispatch_due_checks config now batch_size minutes db).1
  run_call now (processes batch_size) db = (process_pending_results now batch_size db).1
  run_call now sweeps_history db = (sweep_history_retention now db).1

  unfoldable pub run_calls : List (ℕ × AutomationCall) → Database → Database
  run_calls [] db = db
  run_calls ((now, call) ∷ calls) db = run_calls calls (run_call now call db)
