-- ===== src/Tests/AutomationsTests.antt =====
-- The automations of a small shop.
use mathlib.Core.List.{Memᴰ}
use plomio.Prelude.{
  ℕ, none, some, [], ◌∷◌, List, true, false, refl, arith, ◌<◌, ◌≤◌, ◌≡◌, any_where, count_where,
  All, ◌+◌, ◌*◌, ◌++◌, ◌-◌, length, is_in, filter_where,
}
use plomio.Core.Enums.{TaskStatus, TaskItemStatus, ozon, wildberries, ParseType}
use plomio.Core.Result.{ok}
use plomio.Core.Time.{minute, day}
use plomio.Database.{Database, Task, TaskItem}
use plomio.Database.AutomationTables.{
  Automation, AutomationStatus, ProductPagePayload, TrackedField,
}
use plomio.Tests.{config, noon, task, shop}
use plomio.Automations.{find_automation}
use plomio.Automations.Calls.{AutomationCall, run_calls}
use plomio.Automations.Consistency.{IsConsistent}
use plomio.Automations.Consistency.Runs.{run_calls-IsConsistent}
use plomio.Automations.Changes.{diff, filter_notifiable_changes}
use plomio.Automations.Changes.Notified.{is_change_of, tells_of, filter_notifiable_changes-tells}
use plomio.Automations.Creation.{Articles, AutomationCreateData, is_duplicate_of}
use plomio.Automations.Creation.Batch.{find_duplicates}
use plomio.Automations.Creation.Bulk.{find_duplicates-eq}
use plomio.Automations.Checks.{due_ids, claim_due_for_dispatch, finalized}
use plomio.Automations.Checks.Dispatch.{dispatch_due_checks}
use plomio.Automations.Checks.Dispatch.Created.{
  dispatch_due_checks-tasks, checked_ids, some_ids, may_spend,
}
use plomio.Automations.Checks.Dispatch.Postponed.{claim_due_for_dispatch-once}
use plomio.Automations.Checks.Results.{get_result_for_task, finalize_check}
use plomio.Automations.Checks.Results.Sweep.{process_pending_results}
use plomio.Automations.Checks.Results.Repeated.{WasChecked, finalize_check-repeated}
use plomio.Automations.Checks.Results.Swept.{is_checked}
use plomio.Automations.Checks.Results.Settled.{process_pending_results-settles}
use plomio.Automations.Charts.{
  second, price_chart_step_seconds, price_chart_max_points, fill_empty_buckets, align_to_step,
  Bucket, get_price_change_frequency, is_between, change_times, ticks_of,
}
use plomio.Automations.Charts.Totals.{total, get_price_change_frequency-total}
use plomio.Automations.Charts.Grid.{fill_empty_buckets-length, fill_empty_buckets-31}

-- Checked every hour; the price was 100 roubles, and a fall by a tenth counts.
abbrev kettle : Automation
kettle = record {
  id = 31;
  user_id = 1;
  marketplace = ozon;
  input_value = "https://ozon.ru/product/5";
  article = some "5";
  status = AutomationStatus.active;
  price_drop_threshold_percent = 10;
  check_frequency_minutes = 60;
  history_retention_days = 30;
  baseline_price = some 10000;
  baseline_discounted_price = none;
  baseline_original_price = none;
  available = some true;
  name = some "Kettle";
  price_kopecks = some 10000;
  discounted_price_kopecks = none;
  original_price_kopecks = none;
  next_check_at = noon;
  pending_task_id = some 40;
  last_checked_at = none;
  last_check_error = none;
  api_key_id = none;
  created_at = 5;
}

-- An automation without an article whose check is due.
abbrev teapot : Automation
teapot = record kettle {
  id = 32;
  input_value = "teapot";
  article = none;
  pending_task_id = none;
  next_check_at = 7;
}

-- The price has fallen to 85 roubles.
abbrev page : ProductPagePayload
page = record {
  product_url = "https://ozon.ru/product/5";
  title = "Kettle";
  seller_name = "Shop";
  price_kopecks = some 8500;
  discounted_price_kopecks = none;
  original_price_kopecks = none;
  rating = some 5;
  review_count = some 12;
  available = true;
}

abbrev check : Task
check = record task {
  id = 40;
  parse_type = ParseType.product_page;
  status = TaskStatus.succeeded;
  automation_id = some 31;
}

abbrev check_item : TaskItem
check_item = record {
  id = 41;
  task_id = 40;
  position = 0;
  input_value = "https://ozon.ru/product/5";
  status = TaskItemStatus.succeeded;
  cursor = none;
  result_count = 1;
  error_reason = none;
}

-- The check of the kettle has ended with a page.
abbrev store : Database
store = record shop {
  tasks = check ∷ [];
  task_items = check_item ∷ [];
  automations = kettle ∷ teapot ∷ [];
  results = record { id = 42; task_item_id = 41; payload = page; created_at = noon } ∷ [];
}

-- Articles are the inputs as they are.
abbrev articles : Articles
articles = record { extract_article = λ m s. some s; normalize_product_input = λ m s. s }

abbrev order : AutomationCreateData
order = record {
  marketplace = wildberries;
  input_value = "77";
  price_drop_threshold_percent = 5;
  check_frequency_minutes = 30;
  history_retention_days = 7;
}

abbrev calls : List (ℕ × AutomationCall)
calls =
    (noon, AutomationCall.creates 1 order 10 none)
    ∷ (noon, AutomationCall.creates_many 1 (order ∷ order ∷ []) 10 none)
    ∷ (noon, AutomationCall.processes 10)
    ∷ (noon, AutomationCall.dispatches 10 240)
    ∷ (noon, AutomationCall.pauses 32 (some 1))
    ∷ (noon + day, AutomationCall.deletes 31 (some 1))
    ∷ []

store-IsConsistent : IsConsistent store
store-IsConsistent = ground arith

run_calls-IsConsistent_example : IsConsistent (run_calls articles config calls store)
run_calls-IsConsistent_example =
    run_calls-IsConsistent articles config calls store store-IsConsistent

filter_notifiable_changes-tells_example :
    any_where
      (is_change_of TrackedField.price)
      (filter_notifiable_changes (diff kettle page none).0)
    ≡ tells_of kettle page none TrackedField.price
filter_notifiable_changes-tells_example =
    filter_notifiable_changes-tells kettle page none TrackedField.price

find_duplicates-eq_example :
    find_duplicates 1 (teapot ∷ kettle ∷ []) store.automations kettle
    ≡ any_where (is_duplicate_of kettle) store.automations
find_duplicates-eq_example =
    find_duplicates-eq kettle (teapot ∷ kettle ∷ []) (Memᴰ.tail (Memᴰ.head refl)) store.automations

store-WasChecked : All (WasChecked noon) store.check_logs
store-WasChecked = tt

teapot_is_due : is_in 32 (due_ids noon 10 store.automations) ≡ true
unfolding due_ids
teapot_is_due = refl

claim_due_for_dispatch-once_example :
    is_in 32 (due_ids (noon + minute) 5 (claim_due_for_dispatch noon 10 240 store).1.automations)
    ≡ false
claim_due_for_dispatch-once_example =
    claim_due_for_dispatch-once noon (noon + minute) 10 5 240 60 32 store
      (omega arith, (omega arith, tt)) (omega arith) (omega arith) teapot_is_due

dispatch_due_checks-tasks_example :
    let (claimed, db) = claim_due_for_dispatch noon 10 240 store in
    (rows : List Automation) × (ts : List Task) × (claimed ≡ ok rows)
    × ((dispatch_due_checks config noon 10 240 store).0 ≡ ok (length ts))
    × ((dispatch_due_checks config noon 10 240 store).1.tasks ≡ store.tasks ++ ts)
    × (checked_ids ts ≡ some_ids (filter_where (may_spend noon db) rows))
dispatch_due_checks-tasks_example = dispatch_due_checks-tasks config noon 10 240 store

page_of_check : get_result_for_task (some 40) store ≡ some page
unfolding get_result_for_task
page_of_check = refl

abbrev kettle_checked : Automation
kettle_checked = record kettle {
  price_kopecks = some 8500;
  pending_task_id = none;
  last_checked_at = some noon;
}

kettle_after_check :
    find_automation 31 (finalize_check noon kettle TaskStatus.succeeded store).1.automations
    ≡ some kettle_checked
unfolding finalize_check finalized
kettle_after_check = refl

abbrev second_store : Database
second_store = record store {
  check_logs = (finalize_check noon kettle TaskStatus.succeeded store).1.check_logs;
}

page_of_second : get_result_for_task (some 40) second_store ≡ some page
unfolding get_result_for_task
page_of_second = refl

finalize_check-repeated_example :
    (n : ℕ) × ((finalize_check (noon + day) kettle TaskStatus.succeeded second_store).0
      ≡ ok (n, none))
finalize_check-repeated_example =
    finalize_check-repeated noon (noon + day) kettle kettle kettle_checked page store second_store
      page_of_check refl store-WasChecked kettle_after_check refl refl refl page_of_second

process_pending_results-settles_example :
    let (result, db') = process_pending_results noon 10 store in
    (changes : ℕ) × (result ≡ ok (count_where (is_checked store.tasks) store.automations, changes))
    × (length db'.check_logs
        ≡ length store.check_logs + count_where (is_checked store.tasks) store.automations)
    × All (λ a. is_checked store.tasks a ≡ false) db'.automations
process_pending_results-settles_example =
    process_pending_results-settles noon 10 store (omega arith)

get_price_change_frequency-total_example :
    (points : List Bucket) × (get_price_change_frequency 31 1 0 (noon + day) second_store
      ≡ (ok (price_chart_step_seconds (noon + day - 0), points), second_store))
    × (total points
        ≡ count_where
            (is_between 0 (noon + day))
            (change_times (ticks_of 31 second_store.check_logs)))
get_price_change_frequency-total_example =
    get_price_change_frequency-total 31 1 0 (noon + day) kettle second_store refl refl

fill_empty_buckets-length_example :
    let step = price_chart_step_seconds (noon - 0) * second in
    let filled = fill_empty_buckets [] 0 noon step in
    (length filled ≤ 31) × (noon < align_to_step 0 step + length filled * step)
fill_empty_buckets-length_example = fill_empty_buckets-length [] 0 noon (omega arith) (omega arith)

fill_empty_buckets-31_example :
    length (fill_empty_buckets [] (4 * 900) (4 * 900 + 900 * price_chart_max_points) 900) ≡ 31
fill_empty_buckets-31_example = fill_empty_buckets-31 [] 4 900 (omega arith)
