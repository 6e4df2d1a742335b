-- ===== src/Automations/Untouched.antt =====
-- The calls of other components that the automations make leave the automations and their log.
use plomio.Core.Enums.{EventCode}
use plomio.Database.{Database, Payload, modify, fresh_id}
use plomio.Database.Preserves.{
  Preserves, modify-Preserves, >>=-Preserves, transaction-Preserves, pure-Preserves,
  Option-Preserves,
}
use plomio.Database.AutomationTables.{Automation, AutomationCheckLog}
use plomio.Billing.Wallets.{BillingConfig, Charge, charge, notify, notify_balance_crossing}
use plomio.Billing.Wallets.Debits.{charge-paid, charge-free}
use plomio.Billing.Wallets.Prices.{charge_cost}
use native.Mathlib.Decide.{dec_lt}
use plomio.Prelude.{List, ◌≡◌, ℕ, Option, String, arith, ◌∷◌, ◌+◌, []}
use plomio.Tasks.Creation.{
  create_items, create_task, NewTask, insert_task, new_task, creation_charge,
}
use plomio.Tasks.{ensure_can_spend}
use plomio.Tasks.Effects.{ensure_can_spend_reads}

module _ (config : BillingConfig) (now : ℕ) (r : Charge) (db : Database) where
  charge-automations : (charge config now r db).1.automations ≡ db.automations
  unfolding notify_balance_crossing notify
  charge-automations = elim (dec_lt 0 (charge_cost r db)) [
    | yes paid ↦ ground (arith, charge-paid config now r db paid)
    | no free ↦ ground (arith, charge-free config now r db (omega (arith, free)))
  ]

  charge-logs : (charge config now r db).1.check_logs ≡ db.check_logs
  unfolding notify_balance_crossing notify
  charge-logs = elim (dec_lt 0 (charge_cost r db)) [
    | yes paid ↦ ground (arith, charge-paid config now r db paid)
    | no free ↦ ground (arith, charge-free config now r db (omega (arith, free)))
  ]

-- A property of the automations and of their log.
module _ (Q : List Automation → List AutomationCheckLog → Type 0) where
  abbrev pub Of : Database → Type 0
  Of db = Q db.automations db.check_logs

  -- What does not write the two tables keeps the property.
  elsewhere :
      (f : Database → Database)
      → ((db : Database) → (f db).automations ≡ db.automations)
      → ((db : Database) → (f db).check_logs ≡ db.check_logs)
      → Preserves Of (modify f)
  elsewhere f e k = modify-Preserves Of f (λ db h. rw (e db, k db) h)

  pub fresh_id-Preserves : Preserves Of fresh_id
  fresh_id-Preserves = record { kept = λ db h. h }

  pub charge-Preserves :
      (config : BillingConfig) (now : ℕ) (r : Charge) → Preserves Of (charge config now r)
  charge-Preserves config now r = record {
    kept = λ db h. rw (charge-automations config now r db, charge-logs config now r db) h;
  }

  pub guard-Preserves : (now u : ℕ) (k : Option ℕ) → Preserves Of (ensure_can_spend now u k)
  guard-Preserves now u k = record { kept = λ db h. rw (ensure_can_spend_reads now u k db) h }

  pub notify-Preserves :
      (u : ℕ) (code : EventCode) (payload : Payload) → Preserves Of (notify u code payload)
  unfolding notify
  notify-Preserves u code payload = record { kept = λ db h. h }

  create_items-Preserves :
      (id position : ℕ) (inputs : List String) → Preserves Of (create_items id position inputs)
  unfolding create_items
  create_items-Preserves id position [] = pure-Preserves Of tt
  create_items-Preserves id position (input ∷ inputs) = record {
    kept = λ db h. (create_items-Preserves id (position + 1) inputs).kept _ h;
  }

  insert_task-Preserves : (now : ℕ) (n : NewTask) → Preserves Of (insert_task now n)
  unfolding insert_task
  insert_task-Preserves now n = record {
    kept = λ db h.
        (>>=-Preserves Of (create_items-Preserves db.next_id 0 n.inputs)
            (λ _. pure-Preserves Of (new_task now n db.next_id))).kept
          _ h;
  }

  pub create_task-Preserves :
      (config : BillingConfig) (now : ℕ) (n : NewTask) → Preserves Of (create_task config now n)
  unfolding create_task
  create_task-Preserves config now n =
      >>=-Preserves Of
        (Option-Preserves Of n.automation_id (guard-Preserves now n.user_id n.api_key_id)
          (λ a. pure-Preserves Of tt))
        (λ _. >>=-Preserves Of (transaction-Preserves Of (insert_task-Preserves now n)) (λ task.
          Option-Preserves Of n.automation_id
            (>>=-Preserves Of (charge-Preserves config now (creation_charge n task.id))
              (λ _. pure-Preserves Of task))
            (λ a. pure-Preserves Of task)))
