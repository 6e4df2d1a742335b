-- ===== src/Tasks/Transitions.antt =====
-- Which status of a task may follow which, call by call.
use plomio.Prelude.{
  ℕ, none, some, [], ◌∷◌, ◌++◌, List, Bool, true, false, ◌≡◌, inl, inr, refl, ◌==◌, update_where,
  filter_where, not, arith, update_first, if◌then◌else◌, ◌||◌, ◌&&◌, Bool-cases, ap, ==_iff,
}
use plomio.Core.Enums.{TaskStatus, queued, running, paused, succeeded, failed, expired, cancelled}
use plomio.Database.{Database, Task}
use plomio.Billing.Wallets.{BillingConfig}
use plomio.Tasks.{find_task}
use plomio.Tasks.Creation.{new_task}
use plomio.Tasks.Calls.{TaskCall, is_report, run_call}
use plomio.Tasks.Refinement.{run_call-Step}
use plomio.Tasks.Steps.{
  unchanged, added, one, sweep, removed, Change, Step, unchanged, added, one, sweep, removed,
  cancels, pauses, resumes, restarts, revives, ends, all_ended, claims, renews, expires_at,
  reclaims,
}

-- The arrows of the state machine, and the status that stays.
abbrev pub may_become : TaskStatus → TaskStatus → Bool
may_become queued queued = true
may_become queued running = true
may_become queued paused = true
may_become queued cancelled = true
may_become queued expired = true
may_become running running = true
may_become running queued = true
may_become running paused = true
may_become running cancelled = true
may_become paused paused = true
may_become paused queued = true
may_become paused cancelled = true
may_become failed failed = true
may_become failed queued = true
may_become expired expired = true
may_become expired queued = true
may_become succeeded succeeded = true
may_become cancelled cancelled = true
may_become _ _ = false

-- The statuses that the items of a task give it.
abbrev pub is_outcome : TaskStatus → Bool
is_outcome succeeded = true
is_outcome failed = true
is_outcome _ = false

abbrev pub may_follow : Bool → TaskStatus → TaskStatus → Bool
may_follow reports s s' = may_become s s' || (reports && is_outcome s')

may_stay : (b : Bool) (s : TaskStatus) → may_follow b s s ≡ true
may_stay b s = ground arith

-- A change keeps the id, and follows an arrow.
Change-moves :
    (b : Bool) (t u : Task) → Change b t u → (u.id ≡ t.id) × (may_follow b t.status u.status ≡ true)
Change-moves b t u (cancels now g) = (refl, ground (arith, g))
Change-moves b t u (pauses g) = (refl, ground (arith, g))
Change-moves b t u (resumes expires g) = (refl, ground (arith, g))
Change-moves b t u (restarts expires g) = (refl, ground (arith, g))
Change-moves b t u (revives g) = (refl, ground (arith, g))
Change-moves b t u (ends now) = (refl, ground arith)
Change-moves b t u (all_ended now items) = (refl, ground arith)
Change-moves b t u (claims now w lease g) = (refl, ground (arith, g))
Change-moves b t u (renews expires id w g) = (refl, may_stay b t.status)
Change-moves b t u (expires_at now g) = (refl, ground (arith, g))
Change-moves b t u (reclaims now expires g) = (refl, ground (arith, g))

find-sweep :
    (j : ℕ) (p : Task → Bool) (f : Task → Task) (ts : List Task)
    → ((r : Task) → p r ≡ true → (f r).id ≡ r.id)
    → find_task j (update_where p f ts)
      ≡ elim (find_task j ts) [ none ↦ none | some t ↦ some (if p t then f t else t) ]
find-sweep j p f [] k = refl
find-sweep j p f (x ∷ ts) k = ground (arith, k x, find-sweep j p f ts k)

pub find-one :
    (j id : ℕ) (f : Task → Task) (ts : List Task)
    → ((r : Task) → (f r).id ≡ r.id)
    → find_task j (update_first (λ r. r.id == id) f ts) ≡ (
        if j == id
        then elim (find_task j ts) [ none ↦ none | some t ↦ some (f t) ]
        else find_task j ts)
find-one j id f [] k = ground arith
find-one j id f (x ∷ ts) k = ground (arith, k x, find-one j id f ts k)

find-added :
    (j : ℕ) (ts : List Task) (x : Task) {t : Task}
    → find_task j ts ≡ some t
    → find_task j (ts ++ x ∷ []) ≡ some t
find-added j [] x e = ground (arith, e)
find-added j (y ∷ ts) x {t} e = ground (arith, e, find-added j ts x {t = t})

find-removed :
    (j id : ℕ) (ts : List Task)
    → find_task j (filter_where (λ t. not (t.id == id)) ts)
      ≡ (if j == id then none else find_task j ts)
find-removed j id [] = ground arith
find-removed j id (x ∷ ts) = ground (arith, find-removed j id ts)

-- A step follows an arrow at every task that it keeps.
Step-moves :
    (b : Bool) (ts us : List Task) (j : ℕ) (t u : Task)
    → Step b ts us
    → find_task j ts ≡ some t
    → find_task j us ≡ some u
    → may_follow b t.status u.status ≡ true
Step-moves b ts us j t u unchanged e e' = ground (arith, e, e', may_stay b t.status)
Step-moves b ts us j t u (added now n id) e e' =
    ground (arith, e', find-added j ts (new_task now n id) e, may_stay b t.status)
Step-moves b ts us j t u (one id t' f same_id found c) e e' = elim (Bool-cases (j == id)) [
  | inl same ↦ ground (
    arith,
    same,
    e,
    e',
    found,
    ap (λ k. find_task k ts) ((==_iff j id).0 same),
    find-one j id f ts same_id,
    Change-moves b t' (f t') c,
  )
  | inr other ↦ ground (arith, other, e, e', find-one j id f ts same_id, may_stay b t.status)
]
Step-moves b ts us j t u (sweep p f c) e e' =
    let kept : (r : Task) → p r ≡ true → (f r).id ≡ r.id =
      λ r g. (Change-moves b r (f r) (c r g)).0 in
    elim (Bool-cases (p t)) [
      | inl g ↦ ground (arith, g, e, e', find-sweep j p f ts kept, Change-moves b t (f t) (c t g))
      | inr g ↦ ground (arith, g, e, e', find-sweep j p f ts kept, may_stay b t.status)
    ]
Step-moves b ts us j t u (removed id) e e' =
    ground (arith, e, e', find-removed j id ts, may_stay b t.status)

-- A call on tasks moves the status of a task only along the arrows of may_become; a call that
-- reports on an item may also give the task the outcome of its items, succeeded or failed, from any
-- status.
pub run_call-may_follow :
    (config : BillingConfig) (call : TaskCall) (db : Database) (j : ℕ) (t u : Task)
    → find_task j db.tasks ≡ some t
    → find_task j (run_call config call db).tasks ≡ some u
    → may_follow (is_report call) t.status u.status ≡ true
run_call-may_follow config call db j t u =
    Step-moves (is_report call) db.tasks (run_call config call db).tasks j t u
      (run_call-Step config call db)
