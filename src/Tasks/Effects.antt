-- ===== src/Tasks/Effects.antt =====
-- The calls on a task and on the queue as steps of the state machine of Tasks/Steps.antt.
use native.Mathlib.Decide.{dec_lt}
use plomio.Prelude.{
  ℕ, none, some, [], ◌∷◌, ◌++◌, String, List, Option, true, ◌≡◌, ◌⊎◌, inl, inr, refl, ◌==◌,
  Option-cases, ◌+◌, arith, Bool-cases, &&-eq_true, false,
}
use plomio.Core.Result.{ok, is_ok}
use plomio.Database.{Database}
use plomio.Billing.Wallets.{BillingConfig, Charge, charge, notify, notify_balance_crossing}
use plomio.Billing.Limits.Blocked.{ensure_can_spend-can_spend}
use plomio.Billing.Wallets.Debits.{charge-paid, charge-free}
use plomio.Billing.Wallets.Prices.{charge_cost}
use plomio.ApiKeys.Blocked.{ensure_can_spend-reason}
use plomio.Tasks.{
  is_cancellable, is_pausable, is_paused, is_restartable, cancel, pause, requeue, find_task,
  update_task, ensure_can_spend, cancel_task, pause_task, pause_task_system, resume_task,
  delete_task,
}
use plomio.Tasks.Creation.{
  NewTask, new_task, create_items, insert_task, create_task, creation_charge,
}
use plomio.Tasks.Restart.{restart, restart_task}
use plomio.Tasks.Queue.{
  claim, is_claimable, is_stale_queued, is_lost, is_held, next_task, claim_next,
  expire_stale_queued, reclaim_expired_leases, heartbeat, is_selected,
}
use plomio.Tasks.Steps.{
  Step, guarded, Step-to, unchanged, added, sweep, removed, cancels, pauses, resumes, restarts,
  claims, renews, expires_at, reclaims,
}

-- The guard of a new expense only reads.
pub ensure_can_spend_reads :
    (now u : ℕ) (k : Option ℕ) (db : Database) → (ensure_can_spend now u k db).1 ≡ db
unfolding ensure_can_spend
ensure_can_spend_reads now u none db = ground (arith, ensure_can_spend-can_spend now u db)
ensure_can_spend_reads now u (some id) db =
    ground (arith, ensure_can_spend-can_spend now u db, ensure_can_spend-reason now id db)

pub cancel-Step :
    (now id : ℕ) (u : Option ℕ) (db : Database)
    → Step false db.tasks (cancel_task now id u db).1.tasks
unfolding cancel_task update_task
cancel-Step now id u db =
    guarded id (λ t. is_cancellable t.status) (cancel now) db.tasks _ (λ t g. cancels now g)
      (λ r. refl) (λ e. ground (arith, e)) (λ t e. ground (arith, e))

pub pause-Step :
    (id : ℕ) (u : Option ℕ) (db : Database) → Step false db.tasks (pause_task id u db).1.tasks
unfolding pause_task update_task notify
pause-Step id u db =
    guarded id (λ t. is_pausable t.status) pause db.tasks _ (λ t g. pauses g) (λ r. refl)
      (λ e. ground (arith, e)) (λ t e. ground (arith, e))

pub pause_system-Step :
    (id : ℕ) (db : Database) → Step false db.tasks (pause_task_system id db).1.tasks
unfolding pause_task_system update_task
pause_system-Step id db =
    guarded id (λ t. is_pausable t.status) pause db.tasks _ (λ t g. pauses g) (λ r. refl)
      (λ e. ground (arith, e)) (λ t e. ground (arith, e))

pub resume-Step :
    (now id ttl : ℕ) (u : Option ℕ) (db : Database)
    → Step false db.tasks (resume_task now id ttl u db).1.tasks
unfolding resume_task update_task
resume-Step now id ttl u db =
    guarded id (λ t. is_paused t.status) (requeue (now + ttl)) db.tasks _
      (λ t g. resumes (now + ttl) g) (λ r. refl) (λ e. ground (arith, e))
      (λ t e. ground (arith, e, ensure_can_spend_reads now t.user_id t.api_key_id db))

pub restart-Step :
    (now id ttl : ℕ) (db : Database) → Step false db.tasks (restart_task now id ttl db).1.tasks
unfolding restart_task update_task
restart-Step now id ttl db =
    guarded id (λ t. is_restartable t.status) (restart (now + ttl)) db.tasks _
      (λ t g. restarts (now + ttl) g) (λ r. refl) (λ e. ground (arith, e))
      (λ t e. ground (arith, e, ensure_can_spend_reads now t.user_id t.api_key_id db))

pub heartbeat-Step :
    (now id : ℕ) (w : String) (lease : ℕ) (db : Database)
    → Step false db.tasks (heartbeat now id w lease db).1.tasks
unfolding heartbeat
heartbeat-Step now id w lease db = sweep (is_held id w) _ (λ t h. renews (now + lease) id w h)

pub expire-Step :
    (now : ℕ) (db : Database) → Step false db.tasks (expire_stale_queued now db).1.tasks
unfolding expire_stale_queued
expire-Step now db = sweep (is_stale_queued now) _ (λ t h. expires_at now h)

pub reclaim-Step :
    (now ttl : ℕ) (db : Database) → Step false db.tasks (reclaim_expired_leases now ttl db).1.tasks
unfolding reclaim_expired_leases
reclaim-Step now ttl db = sweep (is_lost now) _ (λ t h. reclaims now (now + ttl) h)

pub delete-Step : (id u : ℕ) (db : Database) → Step false db.tasks (delete_task id u db).1.tasks
unfolding delete_task
delete-Step id u db = elim (Option-cases (find_task id db.tasks)) [
  | inl e ↦ Step-to unchanged (ground (arith, e))
  | inr (t, e) ↦ elim (Bool-cases (t.user_id == u)) [
    | inl own ↦ Step-to (removed id) (ground (arith, e, own))
    | inr other ↦ Step-to unchanged (ground (arith, e, other))
  ]
]

pub claim-Step :
    (now : ℕ) (w : String) (lease : ℕ) (db : Database)
    → Step false db.tasks (claim_next now w lease db).1.tasks
unfolding claim_next
claim-Step now w lease db = elim (Option-cases (next_task now db.tasks)) [
  | inl e ↦ Step-to unchanged (ground (arith, e))
  | inr (t, e) ↦
      Step-to
        (sweep (is_selected now t.id) (claim now w lease)
          (λ r h. claims now w lease (&&-eq_true (r.id == t.id) (is_claimable now r) h).1))
        (ground (arith, e))
]

-- A charge writes no task, and returns.
pub charge-tasks :
    (config : BillingConfig) (now : ℕ) (r : Charge) (db : Database)
    → ((charge config now r db).1.tasks ≡ db.tasks) × (is_ok (charge config now r db).0 ≡ true)
unfolding notify_balance_crossing notify
charge-tasks config now r db = elim (dec_lt 0 (charge_cost r db)) [
  | yes paid ↦ ground (arith, charge-paid config now r db paid)
  | no free ↦ ground (arith, charge-free config now r db (omega (arith, free)))
]

create_items-tasks :
    (id position : ℕ) (inputs : List String) (db : Database)
    → ((create_items id position inputs db).1.tasks ≡ db.tasks)
      × ((create_items id position inputs db).0 ≡ ok tt)
unfolding create_items
create_items-tasks id position [] db = (refl, refl)
create_items-tasks id position (input ∷ inputs) db = create_items-tasks id (position + 1) inputs _

pub insert_task-tasks :
    (now : ℕ) (n : NewTask) (db : Database)
    → ((insert_task now n db).1.tasks ≡ db.tasks ++ new_task now n db.next_id ∷ [])
      × ((insert_task now n db).0 ≡ ok (new_task now n db.next_id))
unfolding insert_task
insert_task-tasks now n db = ground (
  arith,
  create_items-tasks db.next_id 0 n.inputs
      (record db { tasks = db.tasks ++ new_task now n db.next_id ∷ []; next_id = db.next_id + 1 }),
)

create-tasks :
    (config : BillingConfig) (now : ℕ) (n : NewTask) (db : Database)
    → ((create_task config now n db).1.tasks ≡ db.tasks)
      ⊎ ((create_task config now n db).1.tasks ≡ db.tasks ++ new_task now n db.next_id ∷ [])
unfolding create_task
create-tasks config now n db = ground (
  arith,
  ensure_can_spend_reads now n.user_id n.api_key_id db,
  insert_task-tasks now n db,
  charge-tasks config now (creation_charge n db.next_id) (insert_task now n db).1,
)

pub create-Step :
    (config : BillingConfig) (now : ℕ) (n : NewTask) (db : Database)
    → Step false db.tasks (create_task config now n db).1.tasks
create-Step config now n db = elim (create-tasks config now n db) [
  | inl same ↦ Step-to unchanged same
  | inr more ↦ Step-to (added now n db.next_id) more
]
