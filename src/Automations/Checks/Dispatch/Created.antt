-- ===== src/Automations/Checks/Dispatch/Created.antt =====
-- The checks that a dispatch creates.
use mathlib.Core.List.{append-nil, append_assoc}
use plomio.Core.Result.{ok}
use plomio.Database.{Database, Task}
use plomio.Database.AutomationTables.{Automation}
use plomio.Billing.Wallets.{BillingConfig}
use plomio.Billing.Limits.{Blocked, get_blocked_user_ids, can_spend as user_can_spend}
use plomio.ApiKeys.{BlockedKeys, get_blocked_api_key_ids, can_spend as key_can_spend}
use plomio.Tasks.Creation.{create_task, new_task}
use plomio.Tasks.Effects.{insert_task-tasks}
use plomio.Automations.Checks.{
  ℕ, Bool, not, false, is_some, true, [], List, Option, map, filter_where, some, is_in,
  claim_due_for_dispatch, due_ids,
}
use plomio.Automations.Checks.Dispatch.{
  check_task, block_reason, dispatch_check, dispatch_checks, key_block_reason, api_key_ids_of,
  dispatch_due_checks,
}
use plomio.Prelude.{
  Bool, ℕ, ◌≡◌, not, ◌++◌, is_some, false, ◌⊎◌, ◌∷◌, true, [], Option-cases, arith, inl, inr, List,
  ap, Option, ◌+◌, sym, length, map, filter_where, some, ◌∙◌, none, refl, ◌&&◌, All, All-imp,
}
use plomio.Billing.Limits.Blocked.{get_blocked_user_ids-can_spend}
use plomio.ApiKeys.Blocked.{get_blocked_api_key_ids-can_spend}

create_check :
    (config : BillingConfig) (now : ℕ) (a : Automation) (db : Database)
    → ((create_task config now (check_task a) db).0 ≡ ok (new_task now (check_task a) db.next_id))
      × ((create_task config now (check_task a) db).1.tasks
          ≡ db.tasks ++ new_task now (check_task a) db.next_id ∷ [])
unfolding create_task
create_check config now a db = ground (arith, insert_task-tasks now (check_task a) db)

abbrev is_free : Blocked → BlockedKeys → Automation → Bool
is_free blocked keys a = not (is_some (block_reason a blocked keys))

-- What a round does to the tasks.
dispatch_check-tasks :
    (config : BillingConfig) (now : ℕ) (blocked : Blocked) (keys : BlockedKeys) (a : Automation)
    (db : Database)
    → ((is_free blocked keys a ≡ false)
        × ((dispatch_check config now blocked keys a db).0 ≡ ok 0)
        × ((dispatch_check config now blocked keys a db).1.tasks ≡ db.tasks))
      ⊎ ((is_free blocked keys a ≡ true)
          × ((dispatch_check config now blocked keys a db).0 ≡ ok 1)
          × ((dispatch_check config now blocked keys a db).1.tasks
              ≡ db.tasks ++ new_task now (check_task a) db.next_id ∷ []))
unfolding dispatch_check
dispatch_check-tasks config now blocked keys a db =
    elim (Option-cases (block_reason a blocked keys)) [
      | inl free ↦ inr (
        ground (arith, free),
        ground (arith, free, create_check config now a db),
        ground (arith, free, create_check config now a db),
      )
      | inr (r, e) ↦ inl (ground (arith, e), ground (arith, e), ground (arith, e))
    ]

-- The ids of the automations that checks are for.
abbrev pub checked_ids : List Task → List (Option ℕ)
checked_ids ts = map (λ t. t.automation_id) ts

abbrev pub some_ids : List Automation → List (Option ℕ)
some_ids rows = map (λ a. some a.id) rows

-- The rest of a round that returns `k`.
dispatch_checks-step :
    (config : BillingConfig) (now : ℕ) (blocked : Blocked) (keys : BlockedKeys) (a : Automation)
    (rows : List Automation) (n k : ℕ) (db : Database)
    → (dispatch_check config now blocked keys a db).0 ≡ ok k
    → dispatch_checks config now blocked keys (a ∷ rows) n db
      ≡ dispatch_checks config now blocked keys rows
          (n + k)
          (dispatch_check config now blocked keys a db).1
unfolding dispatch_checks
dispatch_checks-step config now blocked keys a rows n k db e = ground (arith, e)

-- The loop returns the count, and has created a check of each automation that is not blocked.
abbrev CreatesChecks :
    BillingConfig → ℕ → Blocked → BlockedKeys → List Automation → ℕ → Database → Type 0
CreatesChecks config now blocked keys rows n db =
    (ts : List Task) × ((dispatch_checks config now blocked keys rows n db).0 ≡ ok (n + length ts))
    × ((dispatch_checks config now blocked keys rows n db).1.tasks ≡ db.tasks ++ ts)
    × (checked_ids ts ≡ some_ids (filter_where (is_free blocked keys) rows))

dispatch_checks-CreatesChecks :
    (config : BillingConfig) (now : ℕ) (blocked : Blocked) (keys : BlockedKeys)
    (rows : List Automation) (n : ℕ) (db : Database)
    → CreatesChecks config now blocked keys rows n db
dispatch_checks-CreatesChecks config now blocked keys [] n db =
    unfold dispatch_checks in ([], ap ok (omega arith), sym (append-nil db.tasks), refl)
dispatch_checks-CreatesChecks config now blocked keys (a ∷ rows) n db =
    let next = (dispatch_check config now blocked keys a db).1 in
    elim (dispatch_check-tasks config now blocked keys a db) [
      | inl (held, result, tasks) ↦
          let (ts, r, t, c) =
            dispatch_checks-CreatesChecks config now blocked keys rows (n + 0) next in
          let step = dispatch_checks-step config now blocked keys a rows n 0 db result in
          (
            ts,
            ap (λ x. x.0) step ∙ (r ∙ ap ok (omega arith)),
            ap (λ x. x.1.tasks) step ∙ (t ∙ ap (λ x. x ++ ts) tasks),
            rw held c,
          )
      | inr (free, result, tasks) ↦
          let (ts, r, t, c) =
            dispatch_checks-CreatesChecks config now blocked keys rows (n + 1) next in
          let step = dispatch_checks-step config now blocked keys a rows n 1 db result in
          let task = new_task now (check_task a) db.next_id in
          (
            task ∷ ts,
            ap (λ x. x.0) step ∙ (r ∙ ap ok (omega arith)),
            ap (λ x. x.1.tasks) step
                ∙ (t ∙ (ap (λ x. x ++ ts) tasks ∙ append_assoc db.tasks (task ∷ []) ts)),
            rw free (ap (λ x. some a.id ∷ x) c),
          )
    ]

-- The owner may spend, and so may the key of the automation, if it has one.
abbrev pub key_may_spend : ℕ → Option ℕ → Database → Bool
key_may_spend now none db = true
key_may_spend now (some id) db = key_can_spend now id db

abbrev pub may_spend : ℕ → Database → Automation → Bool
may_spend now db a = user_can_spend now a.user_id db && key_may_spend now a.api_key_id db

abbrev has_key_in : List ℕ → Option ℕ → Bool
has_key_in ids none = true
has_key_in ids (some id) = is_in id ids

key_free :
    (now : ℕ) (db : Database) (keys : List ℕ) (id : Option ℕ)
    → has_key_in keys id ≡ true
    → is_some (key_block_reason id (get_blocked_api_key_ids now keys db))
      ≡ not (key_may_spend now id db)
key_free now db keys none h = refl
key_free now db keys (some id) h =
    ground (arith, get_blocked_api_key_ids-can_spend now id keys db h)

-- The guards of the batch agree with those of one user and of one key.
is_free-may_spend :
    (now : ℕ) (db : Database) (users keys : List ℕ) (a : Automation)
    → is_in a.user_id users ≡ true
    → has_key_in keys a.api_key_id ≡ true
    → is_free (get_blocked_user_ids now users db) (get_blocked_api_key_ids now keys db) a
      ≡ may_spend now db a
unfolding block_reason
is_free-may_spend now db users keys a u k = ground (
  arith,
  get_blocked_user_ids-can_spend now a.user_id users db u,
  key_free now db keys a.api_key_id k,
)

-- The batches of users and of keys hold those of the automation.
abbrev IsCovered : List ℕ → List ℕ → Automation → Type 0
IsCovered users keys a = (is_in a.user_id users ≡ true) × (has_key_in keys a.api_key_id ≡ true)

abbrev users_of : List Automation → List ℕ
users_of rows = map (λ a. a.user_id) rows

in_more : (x y : ℕ) (xs : List ℕ) → is_in x xs ≡ true → is_in x (y ∷ xs) ≡ true
in_more x y xs h = ground (arith, h)

keys_more :
    (a : Automation) (id : Option ℕ) (rows : List Automation)
    → has_key_in (api_key_ids_of rows) id ≡ true
    → has_key_in (api_key_ids_of (a ∷ rows)) id ≡ true
keys_more a none rows h = refl
keys_more a (some id) rows h = ground (arith, h)

covered : (rows : List Automation) → All (IsCovered (users_of rows) (api_key_ids_of rows)) rows
covered [] = tt
covered (a ∷ rows) = (
  (ground arith, ground arith),
  All-imp rows
      (λ b h. (in_more b.user_id a.user_id (users_of rows) h.0, keys_more a b.api_key_id rows h.1))
      (covered rows),
)

free_rows :
    (now : ℕ) (db : Database) (users keys : List ℕ) (rows : List Automation)
    → All (IsCovered users keys) rows
    → filter_where
        (is_free (get_blocked_user_ids now users db) (get_blocked_api_key_ids now keys db))
        rows
      ≡ filter_where (may_spend now db) rows
free_rows now db users keys [] h = refl
free_rows now db users keys (a ∷ rows) h =
    rw (is_free-may_spend now db users keys a h.0.0 h.0.1, free_rows now db users keys rows h.1)
      refl

-- dispatch_due_checks returns the number of the tasks that it creates, and appends them to the
-- table: one for each automation that it has claimed whose user, and whose key where it has one,
-- may spend when the batch is claimed, in their order, and none for the others.
pub dispatch_due_checks-tasks :
    (config : BillingConfig) (now batch_size minutes : ℕ) (db : Database)
    → let (claimed, db') = claim_due_for_dispatch now batch_size minutes db in
      (rows : List Automation) × (ts : List Task) × (claimed ≡ ok rows)
      × ((dispatch_due_checks config now batch_size minutes db).0 ≡ ok (length ts))
      × ((dispatch_due_checks config now batch_size minutes db).1.tasks ≡ db.tasks ++ ts)
      × (checked_ids ts ≡ some_ids (filter_where (may_spend now db') rows))
unfolding dispatch_due_checks claim_due_for_dispatch
dispatch_due_checks-tasks config now batch_size minutes db =
    let ids = due_ids now batch_size db.automations in
    let db' = (claim_due_for_dispatch now batch_size minutes db).1 in
    let rows = filter_where (λ a. is_in a.id ids) db'.automations in
    let (ts, r, t, c) =
      dispatch_checks-CreatesChecks config now (get_blocked_user_ids now (users_of rows) db')
        (get_blocked_api_key_ids now (api_key_ids_of rows) db') rows 0 db' in
    (
      rows,
      ts,
      refl,
      r ∙ ap ok (omega arith),
      t,
      c ∙ ap some_ids (free_rows now db' (users_of rows) (api_key_ids_of rows) rows (covered rows)),
    )
