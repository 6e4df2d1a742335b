-- ===== src/Tasks/Claims.antt =====
-- Which task a worker gets, and what is written: `TaskRepository.claim_next`.
pub mod Selection
use mathlib.Core.List.{Memᴰ}
use plomio.Prelude.{
  ℕ, none, some, [], ◌∷◌, List, true, false, ◌≡◌, ◌⊎◌, inl, inr, refl, arith, any_where, String,
  All, Option-cases, &&-eq_true, ltb→lt, ==_iff, ap, ◌<◌, ◌≤◌, ◌+◌, ◌==◌, update_where, Bool-cases,
  Bool, ◌&&◌,
}
use plomio.Core.Result.{ok}
use plomio.Database.{Database, Task}
use plomio.Core.Enums.{TaskStatus, queued, running}
use native.Mathlib.Decide.{dec_lt}
use plomio.Tasks.Queue.{
  is_queued, is_selected, is_claimable, precedes, next_task, claim, claim_next,
}
use plomio.Tasks.Claims.Selection.{
  IsWaiting, IsNotWaiting, IsBest, IsFound, next_task-cases, any_where-All, found-IsBest,
  claimable-IsWaiting, not_claimable-IsNotWaiting,
}

-- `r` is the row `t` claimed for the worker: it runs until the lease ends, it keeps the start that
-- it had, and no other column changes.
pub record IsClaimed (now : ℕ) (worker_id : String) (lease : ℕ) (t r : Task) : Type 0 where
  pub status : r.status ≡ running
  pub claimed_by : r.claimed_by ≡ some worker_id
  pub claimed_at : r.claimed_at ≡ some now
  pub lease_expires_at : r.lease_expires_at ≡ some (now + lease)
  pub started_at :
      ((t.started_at ≡ none) × (r.started_at ≡ some now))
      ⊎ ((d : ℕ) × (t.started_at ≡ some d) × (r.started_at ≡ some d))
  pub others :
      record r {
        status = t.status;
        claimed_by = t.claimed_by;
        claimed_at = t.claimed_at;
        lease_expires_at = t.lease_expires_at;
        started_at = t.started_at;
      }
      ≡ t

-- Row by row, only a waiting row of this key changes, and it is claimed.
abbrev pub IsClaimWrite : ℕ → String → ℕ → ℕ → List Task → List Task → Type 0
IsClaimWrite now worker_id lease id [] [] = Unit
IsClaimWrite now worker_id lease id (r ∷ rs) (r' ∷ rs') =
    ((((¬ (r.id ≡ id)) ⊎ IsNotWaiting now r) × (r' ≡ r))
      ⊎ ((r.id ≡ id) × IsWaiting now r × IsClaimed now worker_id lease r r'))
    × IsClaimWrite now worker_id lease id rs rs'
IsClaimWrite now worker_id lease id [] (r' ∷ rs') = ⊥
IsClaimWrite now worker_id lease id (r ∷ rs) [] = ⊥

claim-IsClaimed :
    (now : ℕ) (worker_id : String) (lease : ℕ) (t : Task)
    → IsClaimed now worker_id lease t (claim now worker_id lease t)
claim-IsClaimed now worker_id lease t = record {
  status = refl;
  claimed_by = refl;
  claimed_at = refl;
  lease_expires_at = refl;
  started_at = elim (Option-cases t.started_at) [
    | inl e ↦ inl (e, ground (arith, e))
    | inr (d, e) ↦ inr (d, e, ground (arith, e))
  ];
  others = refl;
}

update-IsClaimWrite :
    (now : ℕ) (worker_id : String) (lease id : ℕ) (ts : List Task)
    → IsClaimWrite now worker_id lease id ts
        (update_where (is_selected now id) (claim now worker_id lease) ts)
update-IsClaimWrite now worker_id lease id [] = tt
update-IsClaimWrite now worker_id lease id (r ∷ ts) = elim (Bool-cases (is_selected now id r)) [
  | inl h ↦
      let (same, c) = &&-eq_true _ _ h in
      rw h (
        inr (
          (==_iff r.id id).0 same,
          claimable-IsWaiting now r c,
          claim-IsClaimed now worker_id lease r,
        ),
        update-IsClaimWrite now worker_id lease id ts,
      )
  | inr h ↦ rw h (
    inl (
      elim (Bool-cases (r.id == id)) [
        | inl same ↦ inr (not_claimable-IsNotWaiting now r (ground (arith, h, same)))
        | inr other ↦ inl (λ e. ground (arith, other, e))
      ],
      refl,
    ),
    update-IsClaimWrite now worker_id lease id ts,
  )
]

update-member :
    (now : ℕ) (worker_id : String) (lease : ℕ) (t : Task) (ts : List Task)
    → is_claimable now t ≡ true
    → Memᴰ t ts
    → Memᴰ
        (claim now worker_id lease t)
        (update_where (is_selected now t.id) (claim now worker_id lease) ts)
update-member now worker_id lease t [] c m = elim m [ ]
update-member now worker_id lease t (r ∷ ts) c (Memᴰ.head e) = Memᴰ.head (ground (arith, c, e))
update-member now worker_id lease t (r ∷ ts) c (Memᴰ.tail m) =
    Memᴰ.tail (update-member now worker_id lease t ts c m)

claim_next-eq :
    (now : ℕ) (worker_id : String) (lease : ℕ) (db : Database) (t : Task)
    → next_task now db.tasks ≡ some t
    → claim_next now worker_id lease db ≡ (
      ok (some (claim now worker_id lease t)),
      record db {
        tasks = update_where (is_selected now t.id) (claim now worker_id lease) db.tasks;
      },
    )
unfolding claim_next
claim_next-eq now worker_id lease db t e = ground (arith, e)

-- claim_next returns nothing exactly where no task of the table is queued with its deadline ahead,
-- and then changes nothing. Otherwise there is a task of the table that is queued with its deadline
-- ahead and that every other such task follows or equals in priority and, for equal priority, in
-- creation; claim_next returns its row as running, claimed by this worker now, with the lease,
-- started now if it had not been, and every other column kept. The returned row is in the table
-- afterwards; row by row nothing else changes but queued rows of the same id, which are claimed
-- too, and no other table changes.
pub claim_next-IsBest :
    (now : ℕ) (worker_id : String) (lease : ℕ) (db : Database)
    → let (result, db') = claim_next now worker_id lease db in
      (All (IsNotWaiting now) db.tasks × (result ≡ ok none) × (db' ≡ db))
      ⊎ ((t : Task) × (r : Task) × IsBest now db.tasks t
          × IsClaimed now worker_id lease t r
          × (result ≡ ok (some r))
          × Memᴰ r db'.tasks
          × IsClaimWrite now worker_id lease t.id db.tasks db'.tasks
          × (db' ≡ record db { tasks = db'.tasks }))
unfolding claim_next
claim_next-IsBest now worker_id lease db = elim (next_task-cases now db.tasks) [
  | inl (n, e) ↦ inl (any_where-All now db.tasks n, ground (arith, e), ground (arith, e))
  | inr (t, e, found) ↦ rw (claim_next-eq now worker_id lease db t e) (
      inr (
        t,
        claim now worker_id lease t,
        found-IsBest now db.tasks t found,
        claim-IsClaimed now worker_id lease t,
        refl,
        update-member now worker_id lease t db.tasks found.claimable found.member,
        update-IsClaimWrite now worker_id lease t.id db.tasks,
        refl,
      ))
]
