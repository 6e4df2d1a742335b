-- ===== src/Tasks/Sweeps.antt =====
-- The sweeps of the scheduler: `reclaim_expired_leases` and `expire_stale_queued`.
use plomio.Prelude.{
  ℕ, [], ◌∷◌, List, true, ◌≡◌, refl, arith, All, count_where, is_some, ◌<◌, if◌then◌else◌, ◌+◌,
  update_where, ap, ◌&&◌, not, ◌||◌,
}
use plomio.Core.Result.{ok}
use plomio.Core.Enums.{expired}
use plomio.Database.{Database, Task}
use plomio.Tasks.Queue.{
  is_queued, is_running, is_claimable, is_stale_queued, is_lost, is_due, reclaim,
  expire_stale_queued, reclaim_expired_leases,
}
use plomio.Tasks.Lifecycle.{is_sound, IsSound}

-- A running task holds a lease that ends after `now`.
abbrev pub HoldsLease : ℕ → Task → Type 0
HoldsLease now t =
    not (is_running t.status) || (is_some t.lease_expires_at && not (is_due t.lease_expires_at now))
    ≡ true

reclaim-row :
    (now ttl : ℕ) (t : Task)
    → is_sound t ≡ true
    → HoldsLease now (if is_lost now t then reclaim (now + ttl) t else t)
unfolding is_sound
reclaim-row now ttl t h = ground (arith, h)

reclaim-rows :
    (now ttl : ℕ) (ts : List Task)
    → IsSound ts
    → All (HoldsLease now) (update_where (is_lost now) (reclaim (now + ttl)) ts)
reclaim-rows now ttl [] h = tt
reclaim-rows now ttl (t ∷ ts) h = (reclaim-row now ttl t h.0, reclaim-rows now ttl ts h.1)

-- If every task has the columns that go with its status, then after reclaim_expired_leases every
-- task that still runs holds a lease that ends later: no lost task is left running.
pub reclaim_expired_leases-HoldsLease :
    (now requeue_ttl : ℕ) (db : Database)
    → IsSound db.tasks
    → All (HoldsLease now) (reclaim_expired_leases now requeue_ttl db).1.tasks
unfolding reclaim_expired_leases
reclaim_expired_leases-HoldsLease now requeue_ttl db = reclaim-rows now requeue_ttl db.tasks

stale-reclaim :
    (now ttl : ℕ) (ts : List Task)
    → 0 < ttl
    → count_where (is_stale_queued now) (update_where (is_lost now) (reclaim (now + ttl)) ts)
      ≡ count_where (is_stale_queued now) ts
stale-reclaim now ttl [] h = refl
stale-reclaim now ttl (t ∷ ts) h = ground (arith, stale-reclaim now ttl ts h, h)

-- A task that reclaim_expired_leases has put back with a positive time to live is not expired by
-- the next sweep: at that instant expire_stale_queued expires as many tasks as without it.
pub expire_stale_queued-reclaim :
    (now requeue_ttl : ℕ) (db : Database)
    → 0 < requeue_ttl
    → (expire_stale_queued now (reclaim_expired_leases now requeue_ttl db).1).0
      ≡ (expire_stale_queued now db).0
unfolding expire_stale_queued reclaim_expired_leases
expire_stale_queued-reclaim now requeue_ttl db h = ap ok (stale-reclaim now requeue_ttl db.tasks h)

expire-rows :
    (now : ℕ) (ts : List Task)
    → (λ (us : List Task).
          (count_where (λ t. is_queued t.status) us ≡ count_where (is_claimable now) us)
          × (count_where (is_claimable now) us ≡ count_where (is_claimable now) ts))
        (update_where (is_stale_queued now) (λ t. record t { status = expired }) ts)
expire-rows now [] = (refl, refl)
expire-rows now (t ∷ ts) = ground (arith, expire-rows now ts)

-- After expire_stale_queued every queued task may be claimed, and it has taken no task away that
-- could be claimed before.
pub expire_stale_queued-claimable :
    (now : ℕ) (db : Database)
    → let db' = (expire_stale_queued now db).1 in
      (count_where (λ t. is_queued t.status) db'.tasks ≡ count_where (is_claimable now) db'.tasks)
      × (count_where (is_claimable now) db'.tasks ≡ count_where (is_claimable now) db.tasks)
unfolding expire_stale_queued
expire_stale_queued-claimable now db = expire-rows now db.tasks
