-- ===== src/Automations/Checks/Results/Repeated.antt =====
-- A check that finds the page of the check before says nothing to the user.
use mathlib.Core.Option.{some-injective}
use plomio.Core.Enums.{TaskStatus}
use plomio.Core.Result.{ok}
use plomio.Database.{Database, Action}
use plomio.Database.AutomationTables.{Automation, AutomationCheckLog, ProductPagePayload, Snapshot}
use plomio.Automations.{
  find_automation, latest, get_latest_succeeded, is_success_of, snapshot_of, ℕ, List, some, [],
  Option, none, Action,
}
use plomio.Automations.Changes.{
  build_snapshot, diff, filter_notifiable_changes, BaselineUpdate, has_any,
}
use plomio.Automations.Changes.Repeated.{filter_notifiable_changes-repeated, set_baselines-diff}
use plomio.Automations.Checks.{finalized, set_baselines, true, update_where, set_baseline, String}
use plomio.Automations.Checks.Results.{
  finalize_check, finalize_succeeded, get_result_for_task, notify_call, NotifyCall, check_log,
  finalize_failed,
}
use plomio.Prelude.{
  ℕ, ◌<◌, List, All, ◌≡◌, some, true, update_where, ◌++◌, ◌==◌, ◌∷◌, arith, [], Bool-cases, inl,
  inr, none, Option, refl, ap, String, if◌then◌else◌, ◌∙◌, sym,
}

abbrev pub WasChecked : ℕ → AutomationCheckLog → Type 0
WasChecked now l = l.checked_at < now

-- The newest row is the latest.
latest-newest :
    (automation_id : ℕ) (l : AutomationCheckLog) (ls : List AutomationCheckLog)
    → All (WasChecked l.checked_at) ls
    → is_success_of automation_id l ≡ true
    → get_latest_succeeded automation_id (ls ++ l ∷ []) ≡ some l
unfolding get_latest_succeeded
latest-newest automation_id l [] h e = unfold latest in ground (arith, e)
latest-newest automation_id l (m ∷ ls) h e = elim (Bool-cases (is_success_of automation_id m)) [
  | inl own ↦ rw own (unfold latest in ground (arith, latest-newest automation_id l ls h.1 e, h))
  | inr other ↦ rw other (latest-newest automation_id l ls h.1 e)
]

-- The row of an automation after an update by its id.
pub find_where-update :
    (id : ℕ) (f : Automation → Automation) (rows : List Automation) {a : Automation}
    → ((b : Automation) → (f b).id ≡ b.id)
    → find_automation id rows ≡ some a
    → find_automation id (update_where (λ b. b.id == id) f rows) ≡ some (f a)
find_where-update id f [] keep e = ground (arith, e)
find_where-update id f (b ∷ rows) {a} keep e = elim (Bool-cases (b.id == id)) [
  | inl here ↦ ground (arith, here, keep b, e)
  | inr there ↦ ground (arith, there, e, find_where-update id f rows {a = a} keep)
]

set_baseline-id : (u : BaselineUpdate) (a : Automation) → (set_baseline u a).id ≡ a.id
set_baseline-id u a = ground arith

pub set_baselines-id : (us : List BaselineUpdate) (a : Automation) → (set_baselines us a).id ≡ a.id
unfolding set_baselines
set_baselines-id [] a = refl
set_baselines-id (u ∷ us) a = set_baselines-id us (set_baseline u a) ∙ set_baseline-id u a

pub finalized-id :
    (now : ℕ) (error : Option String) (us : List BaselineUpdate) (c : Option ProductPagePayload)
    (a : Automation)
    → (finalized now error us c a).id ≡ a.id
unfolding finalized
finalized-id now error us none a = set_baselines-id us _
finalized-id now error us (some p) a = set_baselines-id us _

module _ (now : ℕ) (a : Automation) (p : ProductPagePayload) (db : Database) where
  abbrev before : Option Snapshot
  before = snapshot_of (get_latest_succeeded a.id db.check_logs)

  -- The row of an automation after a check that has succeeded.
  abbrev checked_row : Automation
  checked_row = finalized now none (diff a p before).1 (some p) a

  checked_row-available : checked_row.available ≡ some p.available
  unfolding finalized
  checked_row-available = set_baselines-diff a p before _ refl

  finalize_check-succeeded :
      get_result_for_task a.pending_task_id db ≡ some p
      → finalize_check now a TaskStatus.succeeded db ≡ finalize_succeeded now a p db
  unfolding finalize_check
  finalize_check-succeeded r =
      ap
        (λ o.
          (elim o as (λ x. Action (ℕ × Option NotifyCall)) [
            | none ↦ finalize_failed now a "check_task_no_result"
            | some payload ↦ finalize_succeeded now a payload
          ])
            db)
        r

  finalize_succeeded-row :
      find_automation a.id db.automations ≡ some a
      → find_automation a.id (finalize_succeeded now a p db).1.automations ≡ some checked_row
  unfolding finalize_succeeded
  finalize_succeeded-row e =
      find_where-update a.id (finalized now none (diff a p before).1 (some p)) db.automations
        (finalized-id now none (diff a p before).1 (some p)) e

  finalize_succeeded-logs :
      All (WasChecked now) db.check_logs
      → snapshot_of (get_latest_succeeded a.id (finalize_succeeded now a p db).1.check_logs)
        ≡ some (build_snapshot p)
  unfolding finalize_succeeded
  finalize_succeeded-logs h = ap snapshot_of (
      latest-newest a.id (check_log now a.id none (some p) (diff a p before).0 db.next_id)
        db.check_logs h (ground arith))

  no_call :
      before ≡ some (build_snapshot p)
      → a.available ≡ some p.available
      → notify_call a p before (filter_notifiable_changes (diff a p before).0) ≡ none
  no_call e k =
      ap (λ s. notify_call a p s (filter_notifiable_changes (diff a p s).0)) e
      ∙ (ap (notify_call a p (some (build_snapshot p))) (filter_notifiable_changes-repeated a p k)
          ∙ (unfold notify_call in refl))

  finalize_succeeded-call :
      before ≡ some (build_snapshot p)
      → a.available ≡ some p.available
      → (n : ℕ) × ((finalize_succeeded now a p db).0 ≡ ok (n, none))
  unfolding finalize_succeeded
  finalize_succeeded-call e k = (
    if has_any (diff a p before).0 then 1 else 0,
    ap (λ c. ok (if has_any (diff a p before).0 then 1 else 0, c)) (no_call e k),
  )

-- If a check has succeeded with a page after all the checks in the log, and a later check of that
-- automation, with the stock that the first has left and no other row in the log since, finds the
-- same page, then the later check has no notice to send, whatever the price and the threshold are.
pub finalize_check-repeated :
    (now now' : ℕ) (a a' b : Automation) (p : ProductPagePayload) (db db' : Database)
    → get_result_for_task a.pending_task_id db ≡ some p
    → find_automation a.id db.automations ≡ some a
    → All (WasChecked now) db.check_logs
    → find_automation a.id (finalize_check now a TaskStatus.succeeded db).1.automations ≡ some b
    → a'.id ≡ a.id
    → a'.available ≡ b.available
    → db'.check_logs ≡ (finalize_check now a TaskStatus.succeeded db).1.check_logs
    → get_result_for_task a'.pending_task_id db' ≡ some p
    → (n : ℕ) × ((finalize_check now' a' TaskStatus.succeeded db').0 ≡ ok (n, none))
finalize_check-repeated now now' a a' b p db db' r e h found same_id same_stock same_logs r' =
    let first = finalize_check-succeeded now a p db r in
    let row = finalize_succeeded-row now a p db e in
    let b_row : b ≡ checked_row now a p db =
      some-injective _ _
        (sym found ∙ (ap (λ x. find_automation a.id x.1.automations) first ∙ row)) in
    let stock : a'.available ≡ some p.available =
      same_stock ∙ (ap (λ x. x.available) b_row ∙ checked_row-available now a p db) in
    let logs : db'.check_logs ≡ (finalize_succeeded now a p db).1.check_logs =
      same_logs ∙ ap (λ x. x.1.check_logs) first in
    let snapshot : before now' a' p db' ≡ some (build_snapshot p) =
      ap (λ i. snapshot_of (get_latest_succeeded i db'.check_logs)) same_id
      ∙ (ap (λ ls. snapshot_of (get_latest_succeeded a.id ls)) logs
          ∙ finalize_succeeded-logs now a p db h) in
    let (n, call) = finalize_succeeded-call now' a' p db' snapshot stock in
    (n, ap (λ x. x.0) (finalize_check-succeeded now' a' p db' r') ∙ call)
