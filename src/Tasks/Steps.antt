-- ===== src/Tasks/Steps.antt =====
-- The life of a task as a state machine: how one row may change, and how a call changes the table.
use plomio.Prelude.{
  ℕ, none, some, [], ◌∷◌, ◌++◌, String, List, Bool, true, ◌≡◌, ◌⊎◌, inl, inr, ◌==◌, update_where,
  filter_where, not, Option-cases, update_first,
}
use plomio.Core.Enums.{queued, succeeded, expired}
use plomio.Database.{Task, TaskItem}
use plomio.Tasks.{
  is_cancellable, is_pausable, is_paused, is_failed, is_restartable, cancel, pause, requeue,
  find_task,
}
use plomio.Tasks.Creation.{NewTask, new_task}
use plomio.Tasks.Items.{finish, finish_all, set_status}
use plomio.Tasks.Restart.{restart}
use plomio.Tasks.Queue.{claim, is_claimable, is_stale_queued, is_lost, reclaim, is_held}

-- What may happen to one task. The Boolean says that the call reports on an item: only then may the
-- items end the task (`ends`, `all_ended`) or bring a failed one back (`revives`).
pub data Change : Bool → Task → Task → Type 0 where
  cancels :
      {r : Bool} {t : Task} (now : ℕ) → is_cancellable t.status ≡ true → Change r t (cancel now t)
  pauses : {r : Bool} {t : Task} → is_pausable t.status ≡ true → Change r t (pause t)
  resumes :
      {r : Bool} {t : Task} (expires : ℕ)
      → is_paused t.status ≡ true
      → Change r t (requeue expires t)
  restarts :
      {r : Bool} {t : Task} (expires : ℕ)
      → is_restartable t.status ≡ true
      → Change r t (restart expires t)
  revives : {t : Task} → is_failed t.status ≡ true → Change true t (set_status queued t)
  ends : {t : Task} (now : ℕ) → Change true t (finish now succeeded t)
  all_ended : {t : Task} (now : ℕ) (items : List TaskItem) → Change true t (finish_all now items t)
  claims :
      {r : Bool} {t : Task} (now : ℕ) (worker_id : String) (lease : ℕ)
      → is_claimable now t ≡ true
      → Change r t (claim now worker_id lease t)
  renews :
      {r : Bool} {t : Task} (expires task_id : ℕ) (worker_id : String)
      → is_held task_id worker_id t ≡ true
      → Change r t (record t { lease_expires_at = some expires })
  expires_at :
      {r : Bool} {t : Task} (now : ℕ)
      → is_stale_queued now t ≡ true
      → Change r t (record t { status = expired })
  reclaims :
      {r : Bool} {t : Task} (now expires : ℕ)
      → is_lost now t ≡ true
      → Change r t (reclaim expires t)

-- What a call may do to the table: nothing, a new task, a change of the task with an id, a change of
-- every task that a sweep selects, or a removal.
pub data Step : Bool → List Task → List Task → Type 0 where
  unchanged : {b : Bool} {ts : List Task} → Step b ts ts
  added :
      {b : Bool} {ts : List Task} (now : ℕ) (n : NewTask) (id : ℕ)
      → Step b ts (ts ++ new_task now n id ∷ [])
  one :
      {b : Bool} {ts : List Task} (id : ℕ) (t : Task) (f : Task → Task)
      → ((r : Task) → (f r).id ≡ r.id)
      → find_task id ts ≡ some t
      → Change b t (f t)
      → Step b ts (update_first (λ r. r.id == id) f ts)
  sweep :
      {b : Bool} {ts : List Task} (p : Task → Bool) (f : Task → Task)
      → ((t : Task) → p t ≡ true → Change b t (f t))
      → Step b ts (update_where p f ts)
  removed :
      {b : Bool} {ts : List Task} (id : ℕ) → Step b ts (filter_where (λ t. not (t.id == id)) ts)

-- A step to an equal table.
pub Step-to : {b : Bool} {ts us vs : List Task} → Step b ts us → vs ≡ us → Step b ts vs
Step-to s e = rw e s

-- An operation on the task with an id that keeps the table or, past its guard, changes that task.
pub guarded :
    {b : Bool} (id : ℕ) (guard : Task → Bool) (f : Task → Task) (ts us : List Task)
    → ((t : Task) → guard t ≡ true → Change b t (f t))
    → ((r : Task) → (f r).id ≡ r.id)
    → (find_task id ts ≡ none → us ≡ ts)
    → ((t : Task)
        → find_task id ts ≡ some t
        → (us ≡ ts) ⊎ ((guard t ≡ true) × (us ≡ update_first (λ r. r.id == id) f ts)))
    → Step b ts us
guarded id guard f ts us change same_id missing found = elim (Option-cases (find_task id ts)) [
  | inl e ↦ Step-to unchanged (missing e)
  | inr (t, e) ↦ elim (found t e) [
    | inl same ↦ Step-to unchanged same
    | inr (g, changed) ↦ Step-to (one id t f same_id e (change t g)) changed
  ]
]
