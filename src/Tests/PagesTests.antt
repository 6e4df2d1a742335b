-- ===== src/Tests/PagesTests.antt =====
-- An item of three pages under a limit of five results.
use plomio.Prelude.{
  ℕ, none, some, [], ◌∷◌, Option, true, refl, arith, ◌≤◌, ◌≡◌, length, is_some, ◌<◌,
}
use plomio.Core.Result.{Error}
use plomio.Database.{Task}
use plomio.Tests.{config, noon, task, shop}
use plomio.Tasks.Items.{record_item_progress, save_progress}
use plomio.Worker.Pages.{Page, Fetched, page, PageState, LoopEnd, page_loop}
use plomio.Worker.Pages.Limit.{page_loop-limit, page_loop-ends}

abbrev limited_task : Task
limited_task = record task { result_limit = some 5 }

-- Each page has three results, and there is always a next one.
abbrev fetch : ℕ → Option ℕ → Option ℕ → Fetched
fetch n cursor limit = page (record { items = n ∷ n ∷ n ∷ []; next_cursor = some n })

abbrev start : PageState
start = record {
  cursor = none;
  result_count = 0;
  pages = 0;
  pages_since_status_check = 0;
  results = [];
  db = shop;
}

abbrev missing : PageState
missing = record start { result_count = 3; pages = 1; results = 0 ∷ 0 ∷ 0 ∷ []; cursor = some 0 }

full : (n : ℕ) (c r : Option ℕ) (p : Page) → fetch n c r ≡ page p → 0 < length p.items
full n c r p h = ground (arith, h)

-- The first report on an item that does not exist ends the loop.
runs :
    page_loop config noon 10 limited_task 99 fetch 6 start
    ≡ some (LoopEnd.service_error Error.object_not_found, missing)
unfolding page_loop record_item_progress save_progress
runs = refl

page_loop-limit_example : missing.result_count ≤ 5
page_loop-limit_example =
    page_loop-limit config noon 10 limited_task 99 fetch 5 6 start
      (LoopEnd.service_error Error.object_not_found) missing refl refl (omega arith) runs

page_loop-ends_example : is_some (page_loop config noon 10 limited_task 21 fetch 6 start) ≡ true
page_loop-ends_example =
    page_loop-ends config noon 10 limited_task 21 fetch 5 6 start refl refl (omega arith)
      (omega arith) full
