-- ===== src/Tasks/Queue.antt =====
-- packages/task/src/repository.py: the queue of tasks and the leases of the workers on it.
use plomio.Prelude.{
  ℕ, none, String, count_where, List, Bool, Option, update_where, ◌&&◌, false, true, ◌∷◌, some,
  if◌then◌else◌, ◌==◌, leb, str_eq, ltb, ◌+◌, [],
}
use plomio.Core.Enums.{TaskStatus, queued, running, expired}
use plomio.Database.{Task, Action, pure, gets, ◌>>=◌, ◌>>◌}
use plomio.Tasks.{set_tasks}

abbrev pub is_queued : TaskStatus → Bool
is_queued queued = true
is_queued _ = false

abbrev pub is_running : TaskStatus → Bool
is_running running = true
is_running _ = false

abbrev pub is_claimable : ℕ → Task → Bool
is_claimable now t = is_queued t.status && ltb now t.queue_expires_at

-- `a` stands before `b`: the priority, then the date of creation.
abbrev pub precedes : Task → Task → Bool
precedes a b =
    if ltb a.priority b.priority
    then true
    else (if a.priority == b.priority then ltb a.created_at b.created_at else false)

abbrev pub better : Task → Option Task → Task
better t none = t
better t (some best) = if precedes best t then best else t

-- The row of the ordered selection with `LIMIT 1`; of rows that tie, the first of the table.
unfoldable pub next_task : ℕ → List Task → Option Task
next_task now [] = none
next_task now (t ∷ ts) =
    let rest = next_task now ts in if is_claimable now t then some (better t rest) else rest

abbrev pub claim : ℕ → String → ℕ → Task → Task
claim now worker_id lease t = record t {
  status = running;
  claimed_by = some worker_id;
  claimed_at = some now;
  lease_expires_at = some (now + lease);
  started_at = elim t.started_at [ none ↦ some now | some d ↦ some d ];
}

-- The selected row, by its key and the condition of the selection.
abbrev pub is_selected : ℕ → ℕ → Task → Bool
is_selected now id t = (t.id == id) && is_claimable now t

unfoldable pub claim_next : ℕ → String → ℕ → Action (Option Task)
unfolding next_task
claim_next now worker_id lease = do
  found ← gets (λ db. next_task now db.tasks)
  elim found [
    | none ↦ pure none
    | some t ↦ do
      set_tasks (update_where (is_selected now t.id) (claim now worker_id lease))
      pure (some (claim now worker_id lease t))
  ]

-- A comparison with a column that may be null.
abbrev pub is_due : Option ℕ → ℕ → Bool
is_due none now = false
is_due (some d) now = leb d now

abbrev pub is_stale_queued : ℕ → Task → Bool
is_stale_queued now t = is_queued t.status && leb t.queue_expires_at now

unfoldable pub expire_stale_queued : ℕ → Action ℕ
expire_stale_queued now = do
  count ← gets (λ db. count_where (is_stale_queued now) db.tasks)
  set_tasks (update_where (is_stale_queued now) (λ t. record t { status = expired }))
  pure count

abbrev pub is_lost : ℕ → Task → Bool
is_lost now t = is_running t.status && is_due t.lease_expires_at now

abbrev pub reclaim : ℕ → Task → Task
reclaim expires t = record t {
  status = queued;
  claimed_by = none;
  claimed_at = none;
  lease_expires_at = none;
  queue_expires_at = expires;
}

unfoldable pub reclaim_expired_leases : ℕ → ℕ → Action ℕ
reclaim_expired_leases now requeue_ttl = do
  count ← gets (λ db. count_where (is_lost now) db.tasks)
  set_tasks (update_where (is_lost now) (reclaim (now + requeue_ttl)))
  pure count

abbrev pub is_held : ℕ → String → Task → Bool
is_held task_id worker_id t =
    (t.id == task_id) && elim t.claimed_by [ none ↦ false | some w ↦ str_eq w worker_id ]

unfoldable pub heartbeat : ℕ → ℕ → String → ℕ → Action (Unit {0})
heartbeat now task_id worker_id lease = set_tasks (
    update_where (is_held task_id worker_id)
      (λ t. record t { lease_expires_at = some (now + lease) }))
