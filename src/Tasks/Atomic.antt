-- ===== src/Tasks/Atomic.antt =====
-- The calls of `TaskService` that raise (packages/task/src/service.py).
use plomio.Prelude.{
  ℕ, Option, Bool, true, false, ◌≡◌, arith, String, List, is_some, Option-cases, refl, some, ◌∷◌,
  inl, inr, ap, [], ◌∙◌, ◌-◌,
}
use plomio.Core.Enums.{TaskItemStatus}
use plomio.Core.Result.{is_ok}
use plomio.Database.{Database, Task}
use plomio.Billing.Wallets.{BillingConfig, notify, charge}
use plomio.Tasks.Progress.{saved, save_progress-eq}
use plomio.Tasks.{
  cancel_task, pause_task, resume_task, delete_task, update_task, pause_task_system, find_task,
  pause,
}
use plomio.Tasks.Creation.{NewTask, creation_charge, create_task, insert_task}
use plomio.Tasks.Items.{
  exclude_task_item, record_item_progress, complete_item, save_progress, charge_progress,
  update_item, find_item, result_charge, advance,
}
use plomio.Tasks.Restart.{restart_task}
use plomio.Tasks.Queue.{claim_next, expire_stale_queued, reclaim_expired_leases, heartbeat}
use plomio.Tasks.Calls.{
  TaskCall, create_call, cancel_call, pause_call, resume_call, restart_call, exclude_call,
  progress_call, complete_call, claim_call, heartbeat_call, expire_call, reclaim_call, delete_call,
  run_call,
}
use plomio.Tasks.Effects.{ensure_can_spend_reads, insert_task-tasks, charge-tasks}
use plomio.Tasks.Transitions.{find-one}
use plomio.Tasks.ItemEffects.{find_item-update}
use plomio.Tasks.Progress.{save_progress-eq}

-- Whether a call returns.
unfoldable pub returns : BillingConfig → TaskCall → Database → Bool
returns config (create_call now n) db = is_ok (create_task config now n db).0
returns config (cancel_call now id u) db = is_ok (cancel_task now id u db).0
returns config (pause_call id u) db = is_ok (pause_task id u db).0
returns config (resume_call now id ttl u) db = is_ok (resume_task now id ttl u db).0
returns config (restart_call now id ttl) db = is_ok (restart_task now id ttl db).0
returns config (exclude_call now id item) db = is_ok (exclude_task_item now id item db).0
returns config (progress_call now item cursor count) db =
    is_ok (record_item_progress config now item cursor count db).0
returns config (complete_call now item status reason) db =
    is_ok (complete_item now item status reason db).0
returns config (claim_call now w lease) db = is_ok (claim_next now w lease db).0
returns config (heartbeat_call now id w lease) db = is_ok (heartbeat now id w lease db).0
returns config (expire_call now) db = is_ok (expire_stale_queued now db).0
returns config (reclaim_call now ttl) db = is_ok (reclaim_expired_leases now ttl db).0
returns config (delete_call id u) db = is_ok (delete_task id u db).0

create-raises :
    (config : BillingConfig) (now : ℕ) (n : NewTask) (db : Database)
    → is_ok (create_task config now n db).0 ≡ false
    → (create_task config now n db).1 ≡ db
unfolding create_task
create-raises config now n db h = ground (
  arith,
  h,
  ensure_can_spend_reads now n.user_id n.api_key_id db,
  insert_task-tasks now n db,
  charge-tasks config now (creation_charge n db.next_id) (insert_task now n db).1,
)

pause-raises :
    (id : ℕ) (u : Option ℕ) (db : Database)
    → is_ok (pause_task id u db).0 ≡ false
    → (pause_task id u db).1 ≡ db
unfolding pause_task update_task notify
pause-raises id u db h = ground (arith, h)

complete-raises :
    (now item : ℕ) (s : TaskItemStatus) (reason : Option String) (db : Database)
    → is_ok (complete_item now item s reason db).0 ≡ false
    → (complete_item now item s reason db).1 ≡ db
unfolding complete_item notify
complete-raises now item s reason db h = ground (arith, h)

claim-raises :
    (now : ℕ) (w : String) (lease : ℕ) (db : Database) → is_ok (claim_next now w lease db).0 ≡ true
unfolding claim_next
claim-raises now w lease db = ground arith

find_task_self :
    (j : ℕ) (ts : List Task) {t : Task}
    → find_task j ts ≡ some t
    → is_some (find_task t.id ts) ≡ true
find_task_self j [] e = ground (arith, e)
find_task_self j (x ∷ ts) {t} e = ground (arith, e, find_task_self j ts {t = t})

pause_system-returns :
    (id : ℕ) (db : Database)
    → is_some (find_task id db.tasks) ≡ true
    → is_ok (pause_task_system id db).0 ≡ true
unfolding pause_task_system update_task
pause_system-returns id db h = ground (arith, h, find-one id id pause db.tasks (λ r. refl))

charge_progress-returns :
    (config : BillingConfig) (now : ℕ) (t : Task) (delta : ℕ) (db : Database)
    → is_some (find_task t.id db.tasks) ≡ true
    → is_ok (charge_progress config now t delta db).0 ≡ true
unfolding charge_progress
charge_progress-returns config now t delta db h =
    let charged = charge config now (result_charge t delta) db in
    let (kept, returned) = charge-tasks config now (result_charge t delta) db in
    ground (
      arith,
      returned,
      pause_system-returns t.id charged.1 (ap (λ ts. is_some (find_task t.id ts)) kept ∙ h),
    )

progress-raises :
    (config : BillingConfig) (now item : ℕ) (cursor : Option ℕ) (count : ℕ) (db : Database)
    → is_ok (record_item_progress config now item cursor count db).0 ≡ false
    → (record_item_progress config now item cursor count db).1 ≡ db
unfolding record_item_progress save_progress update_item
progress-raises config now item cursor count db h =
    elim (Option-cases (find_item item db.task_items)) [
      | inl e ↦ ground (arith, h, e)
      | inr (i, e) ↦ elim (Option-cases (find_task i.task_id db.tasks)) [
        | inl k ↦
            ground (
              arith,
              h,
              e,
              k,
              find_item-update item (advance cursor count) db.task_items (λ i. refl),
            )
        | inr (t, k) ↦ ground (
          arith,
          h,
          save_progress-eq item cursor count i t db e k,
          charge_progress-returns config now t (count - i.result_count) (saved item cursor count db)
              (find_task_self i.task_id db.tasks k),
        )
      ]
    ]

sweep-raises : (b : Bool) {db db' : Database} → b ≡ true → b ≡ false → db' ≡ db
sweep-raises b h k = ground (arith, h, k)

-- A call on tasks that raises leaves the whole database as it was.
pub run_call-raises :
    (config : BillingConfig) (call : TaskCall) (db : Database)
    → returns config call db ≡ false
    → run_call config call db ≡ db
unfolding returns run_call cancel_task resume_task restart_task exclude_task_item delete_task
    heartbeat expire_stale_queued reclaim_expired_leases
run_call-raises config (create_call now n) db h = create-raises config now n db h
run_call-raises config (cancel_call now id u) db h = ground (arith, h)
run_call-raises config (pause_call id u) db h = pause-raises id u db h
run_call-raises config (resume_call now id ttl u) db h = ground (arith, h)
run_call-raises config (restart_call now id ttl) db h = ground (arith, h)
run_call-raises config (exclude_call now id item) db h = ground (arith, h)
run_call-raises config (progress_call now item cursor count) db h =
    progress-raises config now item cursor count db h
run_call-raises config (complete_call now item s reason) db h =
    complete-raises now item s reason db h
run_call-raises config (claim_call now w lease) db h =
    sweep-raises (is_ok (claim_next now w lease db).0) (claim-raises now w lease db) h
run_call-raises config (heartbeat_call now id w lease) db h = sweep-raises _ refl h
run_call-raises config (expire_call now) db h = sweep-raises _ refl h
run_call-raises config (reclaim_call now ttl) db h = sweep-raises _ refl h
run_call-raises config (delete_call id u) db h = ground (arith, h)
