-- ===== src/Automations/Consistency/Runs.antt =====
-- The consistency of the automations over runs of calls.
use plomio.Database.{Database}
use plomio.Database.Preserves.{Preserves}
use plomio.Billing.Wallets.{BillingConfig}
use plomio.Automations.Creation.{Articles}
use plomio.Automations.Calls.{AutomationCall, run_call, run_calls}
use plomio.Automations.History.{sweep_history_retention, is_expired}
use plomio.Automations.Consistency.{
  IsConsistent, IsTick, All-filter, baseline-Preserves, pause-Preserves, resume-Preserves,
  delete-Preserves, List, ℕ, not,
}
use plomio.Automations.Consistency.Creating.{create-Preserves, create_many-Preserves}
use plomio.Automations.Consistency.Checking.{process-Preserves, dispatch-Preserves}
use plomio.Prelude.{List, ℕ, not, ◌∷◌, []}

sweep-Preserves : (now : ℕ) → Preserves IsConsistent (sweep_history_retention now)
unfolding sweep_history_retention
sweep-Preserves now = record {
  kept = λ db h.
      (h.0, All-filter IsTick (λ l. not (is_expired now db.automations l)) db.check_logs h.1);
}

module _ (articles : Articles) (config : BillingConfig) where
  run_call-IsConsistent :
      (now : ℕ) (call : AutomationCall) (db : Database)
      → IsConsistent db
      → IsConsistent (run_call articles config now call db)
  run_call-IsConsistent now (AutomationCall.creates u item m k) db h =
      (create-Preserves articles config now u item m k).kept db h
  run_call-IsConsistent now (AutomationCall.creates_many u items m k) db h =
      (create_many-Preserves articles config now u items m k).kept db h
  run_call-IsConsistent now (AutomationCall.sets_baseline id u p d o) db h =
      (baseline-Preserves id u p d o).kept db h
  run_call-IsConsistent now (AutomationCall.pauses id u) db h = (pause-Preserves id u).kept db h
  run_call-IsConsistent now (AutomationCall.resumes id u) db h =
      (resume-Preserves now id u).kept db h
  run_call-IsConsistent now (AutomationCall.deletes id u) db h = (delete-Preserves id u).kept db h
  run_call-IsConsistent now (AutomationCall.dispatches n m) db h =
      (dispatch-Preserves config now n m).kept db h
  run_call-IsConsistent now (AutomationCall.processes n) db h = (process-Preserves now n).kept db h
  run_call-IsConsistent now AutomationCall.sweeps_history db h = (sweep-Preserves now).kept db h

  -- If no user has two automations for one article of a marketplace, and every row of the log has a
  -- snapshot exactly if its check succeeded, an error exactly if not, and flags that agree with its
  -- changes, then the same holds after any sequence of calls on automations, whether these return
  -- or raise.
  pub run_calls-IsConsistent :
      (calls : List (ℕ × AutomationCall)) (db : Database)
      → IsConsistent db
      → IsConsistent (run_calls articles config calls db)
  unfolding run_calls
  run_calls-IsConsistent [] db h = h
  run_calls-IsConsistent ((now, call) ∷ calls) db h =
      run_calls-IsConsistent calls (run_call articles config now call db)
        (run_call-IsConsistent now call db h)
