-- ===== src/Results.antt =====
-- packages/result/src/service.py and repository.py: the results that the worker stores and the pages
-- of a task's results, for the payloads of product pages.
pub mod Pages
use plomio.Prelude.{
  none, some, [], ◌∷◌, ℕ, List, ◌++◌, take, count_where, Bool, if◌then◌else◌, drop, is_in, leb, map,
  filter_where,
}
use plomio.Database.{Database, Action, Task, pure, gets, modify, fresh_id, transaction, ◌>>=◌, ◌>>◌}
use plomio.Database.AutomationTables.{ResultItem, ProductPagePayload}
use plomio.Tasks.Items.{items_of}

-- The loop of `record_results`, one `create` for each payload.
unfoldable pub create_each : ℕ → ℕ → List ProductPagePayload → Action (Unit {0})
create_each now task_item_id [] = pure tt
create_each now task_item_id (payload ∷ payloads) = do
  id ← fresh_id
  modify (λ db. record db {
    results =
        db.results
        ++ record { id = id; task_item_id = task_item_id; payload = payload; created_at = now }
          ∷ [];
  })
  create_each now task_item_id payloads

unfoldable pub record_results : ℕ → ℕ → List ProductPagePayload → Action (Unit {0})
unfolding create_each
record_results now task_item_id payloads = transaction (create_each now task_item_id payloads)

-- `JOIN task_items ... WHERE task_id`
abbrev pub is_result_of : ℕ → Database → ResultItem → Bool
is_result_of task_id db r = is_in r.task_item_id (map (λ i. i.id) (items_of task_id db.task_items))

-- `ORDER BY created_at ASC`
unfoldable pub insert_result : ResultItem → List ResultItem → List ResultItem
insert_result r [] = r ∷ []
insert_result r (s ∷ ss) =
    let rest = insert_result r ss in if leb r.created_at s.created_at then r ∷ s ∷ ss else s ∷ rest

unfoldable pub in_time_order : List ResultItem → List ResultItem
unfolding insert_result
in_time_order [] = []
in_time_order (r ∷ rs) = insert_result r (in_time_order rs)

unfoldable pub get_by_task_id : ℕ → ℕ → ℕ → Database → List ResultItem
unfolding in_time_order
get_by_task_id task_id limit offset db =
    take limit (drop offset (in_time_order (filter_where (is_result_of task_id db) db.results)))

unfoldable pub count_by_task_id : ℕ → Database → ℕ
count_by_task_id task_id db = count_where (is_result_of task_id db) db.results

unfoldable pub get_results_for_task : ℕ → ℕ → ℕ → Database → List ResultItem × ℕ
unfolding get_by_task_id count_by_task_id
get_results_for_task task_id limit offset db =
    (get_by_task_id task_id limit offset db, count_by_task_id task_id db)
