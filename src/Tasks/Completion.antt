-- ===== src/Tasks/Completion.antt =====
-- How the items of a task end it (`complete_item`), as `get_progress` counts them.
pub mod Ends
use plomio.Prelude.{
  ℕ, none, some, [], ◌∷◌, ◌++◌, List, Option, true, false, not, ◌≡◌, ◌⊎◌, ◌<◌, inl, inr, refl,
  arith, String, count_where, any_where, All, length, ◌≤◌, update_first, ◌==◌, Bool-cases,
}
use plomio.Core.Enums.{TaskItemStatus}
use plomio.Core.Result.{ok}
use plomio.Database.{Database, Task, TaskItem, Notice, Payload}
use plomio.Billing.Wallets.{notify}
use plomio.Tasks.{find_task, update_task}
use plomio.Tasks.Items.{
  find_item, items_of, complete, is_terminal_item, final_reason, finished_event, result_total,
  finish_all, complete_row, complete_item, get_progress, update_item,
}
use plomio.Tasks.ItemEffects.{find_item-update, items_after}
use plomio.Tasks.Completion.Ends.{
  told, completed, results, IsOpen, IsOutcome, IsOpen-cases, result_total-eq, finish_all-IsOutcome,
}
use mathlib.Core.List.{Memᴰ}
use plomio.Tasks.Transitions.{find-one}

-- The items of which some has not ended are those of which fewer are processed than there are.
processed-lt :
    (items : List TaskItem)
    → (count_where (λ i. is_terminal_item i.status) items ≤ length items)
      × (any_where (λ i. not (is_terminal_item i.status)) items ≡ true
          → count_where (λ i. is_terminal_item i.status) items < length items)
      × (any_where (λ i. not (is_terminal_item i.status)) items ≡ false
          → count_where (λ i. is_terminal_item i.status) items ≡ length items)
processed-lt [] = (omega arith, (λ h. ground (arith, h)), λ h. refl)
processed-lt (i ∷ items) =
    let (some_left, left, all_done) = processed-lt items in
    (
      ground (arith, some_left),
      (λ h. ground (arith, h, some_left, left)),
      (λ h. ground (arith, h, all_done)),
    )

-- The items of the task once `item` is completed.
module _ (now item : ℕ) (s : TaskItemStatus) (reason : Option String) (i : TaskItem) (t : Task)
    (db : Database) (e : find_item item db.task_items ≡ some i)
    (k : find_task i.task_id db.tasks ≡ some t) where
  complete-open :
      any_where
          (λ x. not (is_terminal_item x.status))
          (items_after item s reason i.task_id db.task_items)
        ≡ true
      → complete_item now item s reason db ≡ (
        ok tt,
        record db {
          task_items = update_first (λ x. x.id == item) (complete s reason) db.task_items;
        },
      )
  unfolding complete_item complete_row update_item
  complete-open h =
      ground (arith, h, e, k, find_item-update item (complete s reason) db.task_items (λ x. refl))

  complete-last :
      any_where
          (λ x. not (is_terminal_item x.status))
          (items_after item s reason i.task_id db.task_items)
        ≡ false
      → let items = items_after item s reason i.task_id db.task_items in
        complete_item now item s reason db ≡ (
          ok tt,
          record db {
            task_items = update_first (λ x. x.id == item) (complete s reason) db.task_items;
            tasks = update_first (λ r. r.id == i.task_id) (finish_all now items) db.tasks;
            notices =
                told t (finished_event items) (final_reason items) (result_total items) db.notices;
          },
        )
  unfolding complete_item complete_row update_item update_task notify
  complete-last h = ground (
    arith,
    h,
    e,
    k,
    find_item-update item (complete s reason) db.task_items (λ x. refl),
    find-one i.task_id i.task_id
        (finish_all now (items_after item s reason i.task_id db.task_items)) db.tasks (λ r. refl),
  )

completed-eq :
    (s : TaskItemStatus) (reason : Option String) (i : TaskItem)
    → complete s reason i ≡ completed s reason i
completed-eq s none i = refl
completed-eq s (some r) i = refl

find-completed :
    (item : ℕ) (s : TaskItemStatus) (reason : Option String) (i : TaskItem) (items : List TaskItem)
    → find_item item items ≡ some i
    → find_item item (update_first (λ x. x.id == item) (complete s reason) items)
      ≡ some (completed s reason i)
find-completed item s reason i items e =
    ground (
      arith,
      e,
      find_item-update item (complete s reason) items (λ x. refl),
      completed-eq s reason i,
    )

find-finished :
    (now : ℕ) (items : List TaskItem) (id : ℕ) (t : Task) (ts : List Task)
    → find_task id ts ≡ some t
    → find_task id (update_first (λ r. r.id == id) (finish_all now items) ts)
      ≡ some (finish_all now items t)
find-finished now items id t ts k =
    ground (arith, k, find-one id id (finish_all now items) ts (λ r. refl))

-- For an item and its task that exist, complete_item returns, and the item is found with the given
-- status, and with the given reason if there is one. While some item of the task is pending or
-- running, fewer are processed in get_progress than there are, and neither a task nor a notice
-- changes. Otherwise all are processed, and the task is found ended now: failed, with the reason
-- item_failed, where some item has failed, and succeeded, with its reason kept, where none has. Its
-- owner, unless the task is a check of an automation, is told by one more notice, task_failed with
-- that reason or task_completed with none, with the sum of the results of the items, which
-- get_progress counts too.
pub complete_item-progress :
    (now item : ℕ) (s : TaskItemStatus) (reason : Option String) (i : TaskItem) (t : Task)
    (db : Database)
    → find_item item db.task_items ≡ some i
    → find_task i.task_id db.tasks ≡ some t
    → let (result, db') = complete_item now item s reason db in
      let progress = get_progress i.task_id db' in
      let items = items_of i.task_id db'.task_items in
      (result ≡ ok tt)
      × (find_item item db'.task_items ≡ some (completed s reason i))
      × (progress.result_count ≡ results items)
      × (((progress.processed_items < progress.total_items)
            × ((x : TaskItem) × Memᴰ x items × IsOpen x)
            × (db'.tasks ≡ db.tasks)
            × (db'.notices ≡ db.notices))
          ⊎ ((progress.processed_items ≡ progress.total_items)
              × All (λ x. ¬ IsOpen x) items
              × IsOutcome now items t
                  (results items)
                  (find_task i.task_id db'.tasks)
                  db.notices
                  db'.notices))
unfolding get_progress
complete_item-progress now item s reason i t db e k =
    let items = items_after item s reason i.task_id db.task_items in
    let (bound, left, over) = processed-lt items in
    elim (IsOpen-cases items) [
      | inl (h, some_open) ↦ rw (complete-open now item s reason i t db e k h) (
        refl,
        find-completed item s reason i db.task_items e,
        result_total-eq items,
        inl (left h, some_open, refl, refl),
      )
      | inr (h, all_closed) ↦ rw (complete-last now item s reason i t db e k h) (
        refl,
        find-completed item s reason i db.task_items e,
        result_total-eq items,
        inr (
          over h,
          all_closed,
          rw (find-finished now items i.task_id t db.tasks k, result_total-eq items)
              (finish_all-IsOutcome now items t (results items) db.notices),
        ),
      )
    ]
