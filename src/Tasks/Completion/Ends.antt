-- ===== src/Tasks/Completion/Ends.antt =====
-- What `complete_item` writes and tells at the end of a task, said of the items themselves.
use mathlib.Core.List.{Memᴰ}
use plomio.Prelude.{
  any_where-cases, ℕ, none, some, [], ◌∷◌, ◌++◌, List, Option, true, false, ◌≡◌, ◌⊎◌, inl, inr,
  refl, arith, String, any_where, All, All-imp, not, ◌+◌, ap,
}
use plomio.Core.Enums.{TaskStatus, TaskItemStatus, EventCode}
use plomio.Database.{Task, TaskItem, Notice, Payload}
use plomio.Tasks.Items.{
  is_terminal_item, is_failed_item, finish_all, finished_event, final_reason, result_total,
}

abbrev pub IsOpen : TaskItem → Type 0
IsOpen x = (x.status ≡ TaskItemStatus.pending) ⊎ (x.status ≡ TaskItemStatus.running)

abbrev pub HasFailed : TaskItem → Type 0
HasFailed x = x.status ≡ TaskItemStatus.failed

abbrev pub results : List TaskItem → ℕ
results [] = 0
results (i ∷ items) = i.result_count + results items

abbrev pub completed : TaskItemStatus → Option String → TaskItem → TaskItem
completed s reason i = record i {
  status = s;
  error_reason = elim reason [ none ↦ i.error_reason | some r ↦ some r ];
}

-- The owner is told of the end; the checks of automations are silent.
abbrev pub told : Task → EventCode → Option String → ℕ → List Notice → List Notice
told t event reason count notices = elim t.automation_id [
  | none ↦
      notices
      ++ record {
        user_id = t.user_id;
        event_code = event;
        payload = Payload.finished t.id reason count;
      }
        ∷ []
  | some a ↦ notices
]

-- The row at the end and what the owner is told: failed where some item has, succeeded where none
-- has.
abbrev pub IsOutcome :
    ℕ → List TaskItem → Task → ℕ → Option Task → List Notice → List Notice → Type 0
IsOutcome now items t count found before after =
    (((x : TaskItem) × Memᴰ x items
        × HasFailed x
        × (found
            ≡ some (record t {
              status = TaskStatus.failed;
              error_reason = some "item_failed";
              finished_at = some now;
            }))
        × (after ≡ told t EventCode.task_failed (some "item_failed") count before))
      ⊎ (All (λ x. ¬ HasFailed x) items
          × (found ≡ some (record t { status = TaskStatus.succeeded; finished_at = some now }))
          × (after ≡ told t EventCode.task_completed none count before)))

is_failed_item-eq : (s : TaskItemStatus) → is_failed_item s ≡ true → s ≡ TaskItemStatus.failed
is_failed_item-eq TaskItemStatus.pending h = absurd (cc h)
is_failed_item-eq TaskItemStatus.running h = absurd (cc h)
is_failed_item-eq TaskItemStatus.succeeded h = absurd (cc h)
is_failed_item-eq TaskItemStatus.failed h = refl
is_failed_item-eq TaskItemStatus.excluded h = absurd (cc h)

not_terminal-IsOpen :
    (x : TaskItem) (s : TaskItemStatus) → x.status ≡ s → not (is_terminal_item s) ≡ true → IsOpen x
not_terminal-IsOpen x TaskItemStatus.pending e h = inl e
not_terminal-IsOpen x TaskItemStatus.running e h = inr e
not_terminal-IsOpen x TaskItemStatus.succeeded e h = absurd (cc h)
not_terminal-IsOpen x TaskItemStatus.failed e h = absurd (cc h)
not_terminal-IsOpen x TaskItemStatus.excluded e h = absurd (cc h)

terminal-closed : (x : TaskItem) → not (is_terminal_item x.status) ≡ false → ¬ IsOpen x
terminal-closed x h (inl e) = cc (h, e)
terminal-closed x h (inr e) = cc (h, e)

-- The test of the code finds an item that is still open, or all of them are closed.
pub IsOpen-cases :
    (items : List TaskItem)
    → ((any_where (λ i. not (is_terminal_item i.status)) items ≡ true)
        × ((x : TaskItem) × Memᴰ x items × IsOpen x))
      ⊎ ((any_where (λ i. not (is_terminal_item i.status)) items ≡ false)
          × All (λ x. ¬ IsOpen x) items)
IsOpen-cases items = elim (any_where-cases (λ i. not (is_terminal_item i.status)) items) [
  | inl (e, (x, member, h)) ↦ inl (e, (x, member, not_terminal-IsOpen x x.status refl h))
  | inr (e, over) ↦ inr (e, All-imp items (λ x k. terminal-closed x k) over)
]

pub result_total-eq : (items : List TaskItem) → result_total items ≡ results items
result_total-eq [] = refl
result_total-eq (i ∷ items) = ground (arith, result_total-eq items)

pub finish_all-IsOutcome :
    (now : ℕ) (items : List TaskItem) (t : Task) (count : ℕ) (before : List Notice)
    → IsOutcome now items t count
        (some (finish_all now items t))
        before
        (told t (finished_event items) (final_reason items) count before)
finish_all-IsOutcome now items t count before =
    elim (any_where-cases (λ i. is_failed_item i.status) items) [
      | inl (e, (x, member, h)) ↦
          inl (x, member, is_failed_item-eq x.status h, rw e refl, rw e refl)
      | inr (e, over) ↦
          inr (All-imp items (λ x k c. cc (k, ap is_failed_item c)) over, rw e refl, rw e refl)
    ]
