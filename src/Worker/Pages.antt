-- ===== src/Worker/Pages.antt =====
-- apps/worker_parser/src/task_runner.py: `process_item_pages`, the loop over the pages of an item.
-- What a page fetch ends with is a parameter, of the number of the page, the cursor and the limit;
-- the results that ResultService stores are kept in order. A result is a number.
pub mod Limit
use plomio.Prelude.{
  ℕ, zero, suc, ◌+◌, ◌-◌, Bool, true, false, Option, none, some, List, [], ◌∷◌, ◌++◌, String, leb,
  not, if◌then◌else◌, length, take, is_some, ◌||◌,
}
use plomio.Core.Enums.{ParseType, TaskItemStatus}
use plomio.Core.Result.{Error, Result, ok, err}
use plomio.Database.{Database, Task, TaskItem, Action}
use plomio.Billing.Wallets.{BillingConfig}
use plomio.Tasks.{find_task}
use plomio.Tasks.Items.{record_item_progress, complete_item}
use plomio.Tasks.Queue.{is_running}

-- `Page`
pub record Page : Type 0 where
  pub items : List ℕ
  pub next_cursor : Option ℕ

-- A page, or `FetchFailedError` with the status and the reason that it ends the item with.
pub data Fetched : Type 0 where
  page : Page → Fetched
  fetch_failed : TaskItemStatus → String → Fetched

-- `LIMITED_PARSE_TYPES`
abbrev pub is_limited : ParseType → Bool
is_limited ParseType.product_page = false
is_limited _ = true

-- The local variables of the loop, the database and the results stored.
pub record PageState : Type 0 where
  pub cursor : Option ℕ
  pub result_count : ℕ
  pub pages : ℕ
  pub pages_since_status_check : ℕ
  pub results : List ℕ
  pub db : Database

-- How the loop ends: `break`, the item ended by a failed fetch, the task no longer running, or an
-- exception of a service.
pub data LoopEnd : Type 0 where
  finished item_failed stopped : LoopEnd
  service_error : Error → LoopEnd

-- `remaining_limit`; the count does not pass the limit.
abbrev pub remaining_limit : Task → ℕ → Option ℕ
remaining_limit task count =
    if is_limited task.parse_type
    then elim task.result_limit [ none ↦ none | some limit ↦ some (limit - count) ]
    else none

abbrev pub cut : Option ℕ → List ℕ → List ℕ
cut none items = items
cut (some n) items = take n items

-- `remaining_limit is not None and remaining_limit - len(items) <= 0`
abbrev pub is_used_up : Option ℕ → ℕ → Bool
is_used_up none n = false
is_used_up (some remaining) n = leb remaining n

abbrev pub still_running : ℕ → Database → Result Bool
still_running task_id db = elim (find_task task_id db.tasks) [
  | none ↦ err Error.object_not_found
  | some t ↦ ok (is_running t.status)
]

module _ (config : BillingConfig) (now check_interval : ℕ) (task : Task) (item_id : ℕ)
    (fetch : ℕ → Option ℕ → Option ℕ → Fetched) where
  -- The state once a page is stored.
  abbrev pub store_page : PageState → Page → PageState
  store_page st p =
      let items = cut (remaining_limit task st.result_count) p.items in
      record st {
        cursor = p.next_cursor;
        result_count = st.result_count + length items;
        pages = st.pages + 1;
        results = st.results ++ items;
      }

  -- The loop on fuel.
  unfoldable pub page_loop : ℕ → PageState → Option (LoopEnd × PageState)
  page_loop zero st = none
  page_loop (suc fuel) st = elim (fetch st.pages st.cursor (remaining_limit task st.result_count)) [
    | fetch_failed status reason ↦
        let (r, db) = complete_item now item_id status (some reason) st.db in
        elim r [
          | err e ↦ some (service_error e, record st { db = db })
          | ok u ↦ some (item_failed, record st { db = db })
        ]
    | page p ↦
        let stored = store_page st p in
        let (r, db) =
          record_item_progress config now item_id p.next_cursor stored.result_count st.db in
        let checked = record stored { db = db; pages_since_status_check = 0 } in
        let unchecked = record stored {
          db = db;
          pages_since_status_check = st.pages_since_status_check + 1;
        } in
        let rest_checked = page_loop fuel checked in
        let rest_unchecked = page_loop fuel unchecked in
        elim r [
          | err e ↦ some (service_error e, record stored { db = db })
          | ok u ↦
              if not (is_some p.next_cursor)
                || is_used_up (remaining_limit task st.result_count)
                    (length (cut (remaining_limit task st.result_count) p.items))
              then some (finished, record stored { db = db })
              else (if leb check_interval (st.pages_since_status_check + 1)
                  then elim (still_running task.id db) [
                    | err e ↦ some (service_error e, checked)
                    | ok true ↦ rest_checked
                    | ok false ↦ some (stopped, checked)
                  ]
                  else rest_unchecked)
        ]
  ]
