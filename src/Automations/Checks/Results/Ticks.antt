-- ===== src/Automations/Checks/Results/Ticks.antt =====
-- What a tick does to its automation and to the log.
use plomio.Core.Enums.{TaskStatus}
use plomio.Core.Result.{ok}
use plomio.Database.{Database, Action}
use plomio.Database.AutomationTables.{Automation, AutomationCheckLog, ProductPagePayload}
use plomio.Automations.{get_latest_succeeded, snapshot_of, List, ℕ, ◌∷◌, Option, none, some, Action}
use plomio.Automations.Changes.{BaselineUpdate, diff, has_any, filter_notifiable_changes}
use plomio.Automations.Checks.{set_baseline, set_baselines, finalized, String, update_where}
use plomio.Automations.Checks.Results.{
  NotifyCall, finalize_check, finalize_failed, finalize_succeeded, check_log, notify_call,
  get_result_for_task,
}
use plomio.Prelude.{
  ℕ, ◌≡◌, List, arith, Option, String, update_where, ◌∙◌, none, ◌==◌, if◌then◌else◌, ◌++◌, some, [],
  refl,
}

set_baseline-pending :
    (u : BaselineUpdate) (a : Automation) → (set_baseline u a).pending_task_id ≡ a.pending_task_id
set_baseline-pending u a = ground arith

set_baselines-pending :
    (us : List BaselineUpdate) (a : Automation)
    → (set_baselines us a).pending_task_id ≡ a.pending_task_id
unfolding set_baselines
set_baselines-pending [] a = refl
set_baselines-pending (u ∷ us) a =
    set_baselines-pending us (set_baseline u a) ∙ set_baseline-pending u a

finalized-pending :
    (now : ℕ) (error : Option String) (us : List BaselineUpdate) (c : Option ProductPagePayload)
    (a : Automation)
    → (finalized now error us c a).pending_task_id ≡ none
unfolding finalized
finalized-pending now error us none a = set_baselines-pending us _
finalized-pending now error us (some p) a = set_baselines-pending us _

-- A tick returns, takes the task from the automation and adds one row to the log.
pub record IsTicked (id : ℕ) (db db' : Database) : Type 0 where
  pub change : Automation → Automation
  pub row : AutomationCheckLog
  pub rows : db'.automations ≡ update_where (λ b. b.id == id) change db.automations
  pub done : (b : Automation) → (change b).pending_task_id ≡ none
  pub log : db'.check_logs ≡ db.check_logs ++ row ∷ []
  pub tasks : db'.tasks ≡ db.tasks

-- The call returns, and is a tick of this automation.
abbrev pub Ticks : ℕ → Action (ℕ × Option NotifyCall) → Database → Type 0
Ticks id m db = (r : ℕ × Option NotifyCall) × ((m db).0 ≡ ok r) × IsTicked id db (m db).1

failed-Ticks :
    (now : ℕ) (a : Automation) (error : String) (db : Database)
    → Ticks a.id (finalize_failed now a error) db
unfolding finalize_failed
failed-Ticks now a error db = (
  (0, none),
  refl,
  record {
    change = finalized now (some error) [] none;
    row = check_log now a.id (some error) none [] db.next_id;
    rows = refl;
    done = finalized-pending now (some error) [] none;
    log = refl;
    tasks = refl;
  },
)

succeeded-Ticks :
    (now : ℕ) (a : Automation) (p : ProductPagePayload) (db : Database)
    → Ticks a.id (finalize_succeeded now a p) db
unfolding finalize_succeeded
succeeded-Ticks now a p db =
    let s = snapshot_of (get_latest_succeeded a.id db.check_logs) in
    let found = diff a p s in
    (
      (if has_any found.0 then 1 else 0, notify_call a p s (filter_notifiable_changes found.0)),
      refl,
      record {
        change = finalized now none found.1 (some p);
        row = check_log now a.id none (some p) found.0 db.next_id;
        rows = refl;
        done = finalized-pending now none found.1 (some p);
        log = refl;
        tasks = refl;
      },
    )

found-Ticks :
    (now : ℕ) (a : Automation) (found : Option ProductPagePayload) (db : Database)
    → Ticks a.id
        (elim found [
          | none ↦ finalize_failed now a "check_task_no_result"
          | some payload ↦ finalize_succeeded now a payload
        ])
        db
found-Ticks now a none db = failed-Ticks now a "check_task_no_result" db
found-Ticks now a (some p) db = succeeded-Ticks now a p db

pub finalize_check-Ticks :
    (now : ℕ) (a : Automation) (status : TaskStatus) (db : Database)
    → Ticks a.id (finalize_check now a status) db
unfolding finalize_check
finalize_check-Ticks now a TaskStatus.succeeded db =
    found-Ticks now a (get_result_for_task a.pending_task_id db) db
finalize_check-Ticks now a TaskStatus.queued db = failed-Ticks now a "check_task_queued" db
finalize_check-Ticks now a TaskStatus.running db = failed-Ticks now a "check_task_running" db
finalize_check-Ticks now a TaskStatus.paused db = failed-Ticks now a "check_task_paused" db
finalize_check-Ticks now a TaskStatus.failed db = failed-Ticks now a "check_task_failed" db
finalize_check-Ticks now a TaskStatus.expired db = failed-Ticks now a "check_task_expired" db
finalize_check-Ticks now a TaskStatus.cancelled db = failed-Ticks now a "check_task_cancelled" db
