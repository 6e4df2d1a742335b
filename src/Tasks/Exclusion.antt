-- ===== src/Tasks/Exclusion.antt =====
-- What `TaskService.exclude_task_item` leaves for the worker.
use plomio.Prelude.{
  ℕ, none, some, [], ◌∷◌, List, ◌≡◌, ◌⊎◌, inl, inr, refl, arith, update_first, ◌==◌, Option-cases,
  ap, ◌∙◌,
}
use plomio.Database.{Database, Task, TaskItem}
use plomio.Tasks.{find_task, update_task}
use plomio.Tasks.Items.{
  items_of, exclude, settle_exclusion, exclude_task_item, pending_items, update_item,
}
use plomio.Tasks.Effects.{ensure_can_spend_reads}

pending-exclude :
    (id item : ℕ) (items : List TaskItem)
    → pending_items id items ≡ []
    → pending_items id (update_first (λ i. i.id == item) exclude items) ≡ []
unfolding pending_items
pending-exclude id item [] h = refl
pending-exclude id item (i ∷ items) h = ground (arith, h, pending-exclude id item items)

settle-items :
    (now id : ℕ) (t : Task) (items : List TaskItem) (db : Database)
    → (settle_exclusion now id t items db).1.task_items ≡ db.task_items
unfolding settle_exclusion update_task
settle-items now id t items db =
    ground (arith, ensure_can_spend_reads now t.user_id t.api_key_id db)

exclude-items :
    (now id item : ℕ) (t : Task) (db : Database)
    → find_task id db.tasks ≡ some t
    → let items = (exclude_task_item now id item db).1.task_items in
      (items ≡ db.task_items) ⊎ (items ≡ update_first (λ i. i.id == item) exclude db.task_items)
unfolding exclude_task_item update_item
exclude-items now id item t db e =
    let excluded = record db {
      task_items = update_first (λ i. i.id == item) exclude db.task_items;
    } in
    ground (arith, e, settle-items now id t (items_of id excluded.task_items) excluded)

exclude-missing_items :
    (now id item : ℕ) (db : Database)
    → find_task id db.tasks ≡ none
    → (exclude_task_item now id item db).1.task_items ≡ db.task_items
unfolding exclude_task_item update_item
exclude-missing_items now id item db e = ground (arith, e)

-- If no item of a task is left for the worker to start, then none is after exclude_task_item
-- either, also where this puts the failed task back in the queue for its other failed items.
pub exclude_task_item-pending_items :
    (now id item : ℕ) (db : Database)
    → pending_items id db.task_items ≡ []
    → pending_items id (exclude_task_item now id item db).1.task_items ≡ []
exclude_task_item-pending_items now id item db h = elim (Option-cases (find_task id db.tasks)) [
  | inl e ↦ ap (pending_items id) (exclude-missing_items now id item db e) ∙ h
  | inr (t, e) ↦ elim (exclude-items now id item t db e) [
    | inl same ↦ ap (pending_items id) same ∙ h
    | inr excluded ↦ ap (pending_items id) excluded ∙ pending-exclude id item db.task_items h
  ]
]
