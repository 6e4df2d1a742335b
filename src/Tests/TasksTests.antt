-- ===== src/Tests/TasksTests.antt =====
-- The tasks of a small shop.
use plomio.Prelude.{none, some, [], ◌∷◌, List, true, refl, arith, ◌<◌, ◌≡◌, ◌⊎◌, All, ◌+◌, ℕ}
use plomio.Prelude.Int.{pos, ◌+ℤ◌, ◌-ℤ◌}
use plomio.Core.Enums.{TaskStatus, TaskItemStatus, queued}
use plomio.Core.Result.{ok}
use plomio.Core.Time.{minute}
use plomio.Database.{Database, Task, TaskItem}
use plomio.Billing.Wallets.{get_balance}
use plomio.Billing.Wallets.Prices.{IsPrice}
use plomio.Tests.{config, noon, task, item, shop}
use plomio.Tasks.{find_task}
use plomio.Tasks.Calls.{
  TaskCall, claim_call, heartbeat_call, progress_call, complete_call, exclude_call, is_report,
  run_call, run_calls,
}
use plomio.Tasks.Items.{
  find_item, exclude_task_item, pending_items, set_status, record_item_progress, complete_item,
  get_progress, items_of, update_item, settle_exclusion,
}
use plomio.Tasks.Queue.{claim, claim_next, next_task, expire_stale_queued, reclaim_expired_leases}
use plomio.Tasks.Lifecycle.{is_sound, IsSound, run_calls-IsSound}
use plomio.Tasks.Transitions.{may_follow, run_call-may_follow}
use plomio.Tasks.Atomic.{returns, run_call-raises}
use mathlib.Core.List.{Memᴰ}
use plomio.Tasks.Claims.Selection.{IsBest, IsNotWaiting}
use plomio.Tasks.Claims.{IsClaimed, IsClaimWrite, claim_next-IsBest}
use plomio.Tasks.Sweeps.{HoldsLease, reclaim_expired_leases-HoldsLease, expire_stale_queued-reclaim}
use plomio.Tasks.Progress.{result_code, record_item_progress-balance}
use plomio.Tasks.Completion.{complete_item-progress}
use plomio.Tasks.Completion.Ends.{IsOpen, IsOutcome, results}
use plomio.Tasks.Exclusion.{exclude_task_item-pending_items}
use plomio.Tasks.Steps.{Step}
use plomio.Tasks.Refinement.{run_call-Step}

-- A worker claims the task, reports on both items, and renews its lease.
abbrev calls : List TaskCall
calls =
    claim_call noon "worker" minute
    ∷ progress_call noon 21 (some 1) 4
    ∷ heartbeat_call (noon + 30) 20 "worker" minute
    ∷ complete_call (noon + 60) 21 TaskItemStatus.succeeded none
    ∷ complete_call (noon + 70) 22 TaskItemStatus.failed (some "timeout")
    ∷ []

abbrev claimed : Task
claimed = claim noon "worker" minute task

-- The worker has lost the task of the first row; the second is too old.
abbrev late_shop : Database
late_shop = record shop { tasks = claimed ∷ record task { id = 30; queue_expires_at = noon } ∷ [] }

-- A check of an automation that failed on both items.
abbrev failed_task : Task
failed_task = record task {
  status = TaskStatus.failed;
  automation_id = some 3;
  finished_at = some noon;
  error_reason = some "item_failed";
}

abbrev failed_shop : Database
failed_shop = record shop {
  tasks = failed_task ∷ [];
  task_items = item 21 TaskItemStatus.failed ∷ item 22 TaskItemStatus.failed ∷ [];
}

run_call-Step_example :
    Step true shop.tasks
      (run_call config (complete_call noon 21 TaskItemStatus.succeeded none) shop).tasks
run_call-Step_example =
    run_call-Step config (complete_call noon 21 TaskItemStatus.succeeded none) shop

run_calls-IsSound_example : IsSound (run_calls config calls shop).tasks
unfolding is_sound
run_calls-IsSound_example = run_calls-IsSound config calls shop (refl, tt)

run_call-may_follow_example :
    may_follow (is_report (claim_call noon "worker" minute)) task.status claimed.status ≡ true
unfolding run_call claim_next next_task
run_call-may_follow_example =
    run_call-may_follow config (claim_call noon "worker" minute) shop 20 task claimed refl refl

run_call-raises_example : run_call config (exclude_call noon 20 21) shop ≡ shop
unfolding returns exclude_task_item
run_call-raises_example = run_call-raises config (exclude_call noon 20 21) shop refl

claim_next-IsBest_example :
    let (result, db) = claim_next noon "worker" minute shop in
    (All (IsNotWaiting noon) shop.tasks × (result ≡ ok none) × (db ≡ shop))
    ⊎ ((t : Task) × (r : Task) × IsBest noon shop.tasks t
        × IsClaimed noon "worker" minute t r
        × (result ≡ ok (some r))
        × Memᴰ r db.tasks
        × IsClaimWrite noon "worker" minute t.id shop.tasks db.tasks
        × (db ≡ record shop { tasks = db.tasks }))
claim_next-IsBest_example = claim_next-IsBest noon "worker" minute shop

reclaim_expired_leases-HoldsLease_example :
    All
      (HoldsLease (noon + minute))
      (reclaim_expired_leases (noon + minute) minute late_shop).1.tasks
unfolding is_sound
reclaim_expired_leases-HoldsLease_example =
    reclaim_expired_leases-HoldsLease (noon + minute) minute late_shop (refl, (refl, tt))

expire_stale_queued-reclaim_example :
    (expire_stale_queued
      (noon + minute)
      (reclaim_expired_leases (noon + minute) minute late_shop).1).0
    ≡ (expire_stale_queued (noon + minute) late_shop).0
expire_stale_queued-reclaim_example =
    expire_stale_queued-reclaim (noon + minute) minute late_shop (omega arith)

record_item_progress-balance_example :
    (base : ℕ) × (multiplier : ℕ) × (credits : ℕ) × IsPrice
      (result_code task.parse_type)
      4
      task.pricing_dimension_code
      task.pricing_dimension_value
      shop
      base
      multiplier
      credits
    × (get_balance 1 (record_item_progress config noon 21 none 4 shop).1.credit_wallets
        ≡ pos 100 +ℤ (pos 0 -ℤ pos credits))
unfolding get_balance
record_item_progress-balance_example =
    record_item_progress-balance config noon 21 none 4 (item 21 TaskItemStatus.pending) task shop 1
      refl refl

complete_item-progress_example :
    let (result, db) = complete_item noon 21 TaskItemStatus.succeeded none shop in
    let progress = get_progress 20 db in
    let items = items_of 20 db.task_items in
    (result ≡ ok tt)
    × (find_item 21 db.task_items ≡ some (item 21 TaskItemStatus.succeeded))
    × (progress.result_count ≡ results items)
    × (((progress.processed_items < progress.total_items)
          × ((x : TaskItem) × Memᴰ x items × IsOpen x)
          × (db.tasks ≡ shop.tasks)
          × (db.notices ≡ []))
        ⊎ ((progress.processed_items ≡ progress.total_items)
            × All (λ x. ¬ IsOpen x) items
            × IsOutcome noon items task (results items) (find_task 20 db.tasks) [] db.notices))
complete_item-progress_example =
    complete_item-progress noon 21 TaskItemStatus.succeeded none (item 21 TaskItemStatus.pending)
      task shop refl refl

exclude_task_item-pending_items_example :
    pending_items 20 (exclude_task_item noon 20 21 failed_shop).1.task_items ≡ []
unfolding pending_items
exclude_task_item-pending_items_example =
    exclude_task_item-pending_items noon 20 21 failed_shop refl

-- The same exclusion puts the task back in the queue.
exclusion_requeues :
    (exclude_task_item noon 20 21 failed_shop).0 ≡ ok (set_status queued failed_task)
unfolding exclude_task_item update_item settle_exclusion
exclusion_requeues = refl
