-- ===== src/Results/Pages.antt =====
-- The pages of a task's results: their number, and the first one, which a check of an automation reads.
use plomio.Prelude.{
  none, some, [], ◌∷◌, inl, inr, List, Option, ℕ, ◌≡◌, take, Bool-cases, filter_where, ◌∙◌, refl,
  ap, ltb, sym, arith,
}
use plomio.Database.{Database}
use plomio.Database.AutomationTables.{ResultItem, ProductPagePayload}
use plomio.Automations.Checks.Results.{earlier_result, first_result, get_result_for_task}
use plomio.Results.{
  is_result_of, insert_result, in_time_order, get_by_task_id, get_results_for_task,
}

-- The row of a page with at most one.
abbrev pub first_row : List ResultItem → Option ResultItem
first_row [] = none
first_row (r ∷ rs) = some r

insert-first :
    (r : ResultItem) (rs : List ResultItem)
    → first_row (insert_result r rs) ≡ some (earlier_result r (first_row rs))
unfolding insert_result
insert-first r [] = refl
insert-first r (s ∷ ss) = elim (Bool-cases (ltb s.created_at r.created_at)) [
  | inl e ↦ ground (arith, e)
  | inr e ↦ ground (arith, e)
]

order-first : (rs : List ResultItem) → first_row (in_time_order rs) ≡ first_result rs
unfolding in_time_order first_result
order-first [] = refl
order-first (r ∷ rs) =
    insert-first r (in_time_order rs) ∙ ap (λ o. some (earlier_result r o)) (order-first rs)

take-first : (rs : List ResultItem) → first_row (take 1 rs) ≡ first_row rs
take-first [] = refl
take-first (r ∷ rs) = refl

abbrev pub payload_of : Option ResultItem → Option ProductPagePayload
payload_of none = none
payload_of (some r) = some r.payload

-- A check reads the payload of the first page of one row.
pub get_result_for_task-first :
    (task_id : ℕ) (db : Database)
    → get_result_for_task (some task_id) db
      ≡ payload_of (first_row (get_results_for_task task_id 1 0 db).0)
unfolding get_result_for_task get_results_for_task get_by_task_id
get_result_for_task-first task_id db =
    let rows = filter_where (is_result_of task_id db) db.results in
    read (first_result rows)
    ∙ ap payload_of (sym (take-first (in_time_order rows) ∙ order-first rows))
  where
    read :
        (o : Option ResultItem)
        → (elim o as (λ x. Option ProductPagePayload) [ none ↦ none | some r ↦ some r.payload ])
          ≡ payload_of o
    read none = refl
    read (some r) = refl
