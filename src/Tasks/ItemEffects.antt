-- ===== src/Tasks/ItemEffects.antt =====
-- The calls that report on items as steps of the state machine of Tasks/Steps.antt.
use plomio.Prelude.{
  ℕ, none, some, [], ◌∷◌, String, List, Option, true, ◌≡◌, ◌⊎◌, inl, inr, refl, ◌==◌, Option-cases,
  arith, ◌∙◌, Bool, false, update_first,
}
use plomio.Core.Enums.{queued, succeeded, TaskItemStatus}
use plomio.Core.Result.{ok, err, Result}
use plomio.Database.{Database, Task, TaskItem, transaction}
use plomio.Billing.Wallets.{BillingConfig, charge, notify}
use plomio.Tasks.{is_failed, find_task, update_task, pause_task_system}
use plomio.Tasks.Items.{
  find_item, update_item, complete, exclude, items_of, finish, finish_all, set_status,
  settle_exclusion, exclude_task_item, save_progress, record_item_progress, complete_row,
  complete_item, charge_progress, result_charge,
}
use plomio.Tasks.Steps.{Step, Step-to, unchanged, one, revives, ends, all_ended}
use plomio.Tasks.Effects.{ensure_can_spend_reads, charge-tasks, pause_system-Step}

settle-tasks :
    (now id : ℕ) (t : Task) (items : List TaskItem) (db : Database)
    → let us = (settle_exclusion now id t items db).1.tasks in
      (us ≡ db.tasks)
      ⊎ ((us ≡ update_first (λ r. r.id == id) (finish now succeeded) db.tasks)
          ⊎ ((is_failed t.status ≡ true)
              × (us ≡ update_first (λ r. r.id == id) (set_status queued) db.tasks)))
unfolding settle_exclusion update_task
settle-tasks now id t items db =
    ground (arith, ensure_can_spend_reads now t.user_id t.api_key_id db)

exclude-tasks :
    (now id item : ℕ) (t : Task) (db : Database)
    → find_task id db.tasks ≡ some t
    → let excluded = record db {
      task_items = update_first (λ i. i.id == item) exclude db.task_items;
    } in
      let us = (exclude_task_item now id item db).1.tasks in
      (us ≡ db.tasks)
      ⊎ (us ≡ (settle_exclusion now id t (items_of id excluded.task_items) excluded).1.tasks)
unfolding exclude_task_item update_item
exclude-tasks now id item t db e = ground (arith, e)

exclude-missing :
    (now id item : ℕ) (db : Database)
    → find_task id db.tasks ≡ none
    → (exclude_task_item now id item db).1.tasks ≡ db.tasks
unfolding exclude_task_item update_item
exclude-missing now id item db e = ground (arith, e)

pub exclude-Step :
    (now id item : ℕ) (db : Database)
    → Step true db.tasks (exclude_task_item now id item db).1.tasks
exclude-Step now id item db = elim (Option-cases (find_task id db.tasks)) [
  | inl e ↦ Step-to unchanged (exclude-missing now id item db e)
  | inr (t, e) ↦ elim (exclude-tasks now id item t db e) [
    | inl same ↦ Step-to unchanged same
    | inr settled ↦ elim (settle-tasks now id t _ _) [
      | inl same ↦ Step-to unchanged (settled ∙ same)
      | inr (inl over) ↦ Step-to (one id t _ (λ r. refl) e (ends now)) (settled ∙ over)
      | inr (inr (dead, back)) ↦ Step-to (one id t _ (λ r. refl) e (revives dead)) (settled ∙ back)
    ]
  ]
]

-- A row that is changed is found changed.
pub find_item-update :
    (id : ℕ) (f : TaskItem → TaskItem) (items : List TaskItem)
    → ((i : TaskItem) → (f i).id ≡ i.id)
    → find_item id (update_first (λ i. i.id == id) f items)
      ≡ elim (find_item id items) [ none ↦ none | some i ↦ some (f i) ]
find_item-update id f [] k = refl
find_item-update id f (i ∷ items) k = ground (arith, k i, find_item-update id f items k)

-- The items of a task once one of them is completed.
abbrev pub items_after : ℕ → TaskItemStatus → Option String → ℕ → List TaskItem → List TaskItem
items_after item s reason task_id items =
    items_of task_id (update_first (λ i. i.id == item) (complete s reason) items)

complete-tasks :
    (now item : ℕ) (s : TaskItemStatus) (reason : Option String) (i : TaskItem) (db : Database)
    → find_item item db.task_items ≡ some i
    → let us = (complete_item now item s reason db).1.tasks in
      (us ≡ db.tasks)
      ⊎ (us
          ≡ update_first
              (λ r. r.id == i.task_id)
              (finish_all now (items_after item s reason i.task_id db.task_items))
              db.tasks)
unfolding complete_item complete_row update_item update_task notify
complete-tasks now item s reason i db e =
    ground (arith, e, find_item-update item (complete s reason) db.task_items (λ i. refl))

complete-missing :
    (now item : ℕ) (s : TaskItemStatus) (reason : Option String) (db : Database)
    → find_item item db.task_items ≡ none
    → (complete_item now item s reason db).1.tasks ≡ db.tasks
unfolding complete_item complete_row update_item update_task notify
complete-missing now item s reason db e = ground (arith, e)

complete-no_task :
    (now item : ℕ) (s : TaskItemStatus) (reason : Option String) (i : TaskItem) (db : Database)
    → find_item item db.task_items ≡ some i
    → find_task i.task_id db.tasks ≡ none
    → (complete_item now item s reason db).1.tasks ≡ db.tasks
unfolding complete_item complete_row update_item update_task notify
complete-no_task now item s reason i db e k = ground (arith, e, k)

pub complete-Step :
    (now item : ℕ) (s : TaskItemStatus) (reason : Option String) (db : Database)
    → Step true db.tasks (complete_item now item s reason db).1.tasks
complete-Step now item s reason db = elim (Option-cases (find_item item db.task_items)) [
  | inl e ↦ Step-to unchanged (complete-missing now item s reason db e)
  | inr (i, e) ↦ elim (Option-cases (find_task i.task_id db.tasks)) [
    | inl k ↦ Step-to unchanged (complete-no_task now item s reason i db e k)
    | inr (t, k) ↦ elim (complete-tasks now item s reason i db e) [
      | inl same ↦ Step-to unchanged same
      | inr over ↦
          Step-to
            (one i.task_id t _ (λ r. refl) k
              (all_ended now (items_after item s reason i.task_id db.task_items)))
            over
    ]
  ]
]

save_progress-tasks :
    (item : ℕ) (cursor : Option ℕ) (count : ℕ) (db : Database)
    → (transaction (save_progress item cursor count) db).1.tasks ≡ db.tasks
unfolding save_progress update_item
save_progress-tasks item cursor count db = ground arith

charge_progress-tasks :
    (config : BillingConfig) (now : ℕ) (t : Task) (delta : ℕ) (db : Database)
    → let charged = (charge config now (result_charge t delta) db).1 in
      let us = (charge_progress config now t delta db).1.tasks in
      (us ≡ charged.tasks) ⊎ (us ≡ (pause_task_system t.id charged).1.tasks)
unfolding charge_progress
charge_progress-tasks config now t delta db =
    ground (arith, charge-tasks config now (result_charge t delta) db)

-- A step from a table that is equal.
Step-from : {b : Bool} {ts us vs : List Task} → ts ≡ us → Step b ts vs → Step b us vs
Step-from e s = rw (← e) s

charge_progress-Step :
    (config : BillingConfig) (now : ℕ) (t : Task) (delta : ℕ) (db : Database)
    → Step false db.tasks (charge_progress config now t delta db).1.tasks
charge_progress-Step config now t delta db =
    let charged = charge config now (result_charge t delta) db in
    let kept = (charge-tasks config now (result_charge t delta) db).0 in
    elim (charge_progress-tasks config now t delta db) [
      | inl same ↦ Step-to unchanged (same ∙ kept)
      | inr halted ↦ Step-from kept (Step-to (pause_system-Step t.id charged.1) halted)
    ]

record-tasks :
    (config : BillingConfig) (now item : ℕ) (cursor : Option ℕ) (count : ℕ) (db : Database)
    → let (r, saved) = transaction (save_progress item cursor count) db in
      let us = (record_item_progress config now item cursor count db).1.tasks in
      (us ≡ saved.tasks)
      ⊎ ((t : Task) × (delta : ℕ) × (us ≡ (charge_progress config now t delta saved).1.tasks))
unfolding record_item_progress
record-tasks config now item cursor count db =
    by_result (transaction (save_progress item cursor count) db).0 refl
  where
    by_result :
        (r : Result (Option Task × ℕ))
        → (transaction (save_progress item cursor count) db).0 ≡ r
        → let (r, saved) = transaction (save_progress item cursor count) db in
          let us = (record_item_progress config now item cursor count db).1.tasks in
          (us ≡ saved.tasks)
          ⊎ ((t : Task) × (delta : ℕ) × (us ≡ (charge_progress config now t delta saved).1.tasks))
    by_result (ok (none, delta)) e = inl (ground (arith, e))
    by_result (ok (some t, delta)) e = inr (t, delta, ground (arith, e))
    by_result (err x) e = inl (ground (arith, e))

pub progress-Step :
    (config : BillingConfig) (now item : ℕ) (cursor : Option ℕ) (count : ℕ) (db : Database)
    → Step false db.tasks (record_item_progress config now item cursor count db).1.tasks
progress-Step config now item cursor count db =
    let kept = save_progress-tasks item cursor count db in
    elim (record-tasks config now item cursor count db) [
      | inl same ↦ Step-to unchanged (same ∙ kept)
      | inr (t, delta, billed) ↦
          Step-from kept (Step-to (charge_progress-Step config now t delta _) billed)
    ]
