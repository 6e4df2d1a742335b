-- ===== src/Tasks/Lifecycle.antt =====
-- The columns of a task that go with its status, over runs of the calls of Tasks/Calls.antt.
use plomio.Prelude.{
  List, Bool, true, ◌≡◌, refl, arith, is_some, ◌&&◌, All, filter_where, ◌∷◌, All-append,
  if◌then◌else◌, [], false, All-update_first, ◌==◌, All-update, not,
}
use plomio.Core.Enums.{running, succeeded, failed, cancelled}
use plomio.Database.{Task, Database}
use plomio.Tasks.Steps.{
  unchanged, added, one, sweep, removed, Change, cancels, pauses, resumes, restarts, revives, ends,
  all_ended, claims, renews, expires_at, reclaims, Step, added, one, sweep, removed,
}
use plomio.Tasks.{BillingConfig}
use plomio.Tasks.Creation.{new_task}
use plomio.Tasks.Calls.{run_calls, TaskCall, run_call, is_report}
use plomio.Billing.Wallets.{BillingConfig}
use plomio.Tasks.Refinement.{run_call-Step}

-- A task that runs has a worker, the date of its claim, a lease and a start; one that has
-- succeeded, failed or been cancelled has the date of its end.
unfoldable pub is_sound : Task → Bool
is_sound t = elim t.status [
  | running ↦
      is_some t.claimed_by
      && (is_some t.claimed_at && (is_some t.lease_expires_at && is_some t.started_at))
  | succeeded ↦ is_some t.finished_at
  | failed ↦ is_some t.finished_at
  | cancelled ↦ is_some t.finished_at
  | _ ↦ true
]

abbrev pub IsSound : List Task → Type 0
IsSound = All (λ t. is_sound t ≡ true)

Change-sound : (b : Bool) (t u : Task) → Change b t u → is_sound t ≡ true → is_sound u ≡ true
unfolding is_sound
Change-sound b t u (cancels now g) h = refl
Change-sound b t u (pauses g) h = refl
Change-sound b t u (resumes expires g) h = refl
Change-sound b t u (restarts expires g) h = refl
Change-sound b t u (revives g) h = refl
Change-sound b t u (ends now) h = refl
Change-sound b t u (all_ended now items) h = ground arith
Change-sound b t u (claims now w lease g) h = ground arith
Change-sound b t u (renews expires id w g) h = ground (arith, h)
Change-sound b t u (expires_at now g) h = refl
Change-sound b t u (reclaims now expires g) h = refl

All-filter {ℓ κ} :
    {A : Type ℓ} (P : A → Type κ) (p : A → Bool) (xs : List A)
    → All P xs
    → All P (filter_where p xs)
All-filter P p [] h = tt
All-filter P p (x ∷ xs) h =
    elim (p x) as (λ b. All P (if b then x ∷ filter_where p xs else filter_where p xs)) [
      | true ↦ (h.0, All-filter P p xs h.1)
      | false ↦ All-filter P p xs h.1
    ]

Step-IsSound : (b : Bool) (ts us : List Task) → Step b ts us → IsSound ts → IsSound us
unfolding is_sound
Step-IsSound b ts us unchanged h = h
Step-IsSound b ts us (added now n id) h =
    All-append (λ t. is_sound t ≡ true) ts (new_task now n id ∷ []) h (refl, tt)
Step-IsSound b ts us (one id t f same_id e c) h =
    All-update_first (λ t. is_sound t ≡ true) (λ r. r.id == id) f ts e (Change-sound b t (f t) c) h
Step-IsSound b ts us (sweep p f c) h =
    All-update (λ t. is_sound t ≡ true) p f ts (λ t g. Change-sound b t (f t) (c t g)) h
Step-IsSound b ts us (removed id) h =
    All-filter (λ t. is_sound t ≡ true) (λ t. not (t.id == id)) ts h

-- If every running task has a worker, a date of claim, a lease and a start, and every task that has
-- succeeded, failed or been cancelled has the date of its end, then the same holds after any
-- sequence of calls on tasks, whether these return or raise.
pub run_calls-IsSound :
    (config : BillingConfig) (calls : List TaskCall) (db : Database)
    → IsSound db.tasks
    → IsSound (run_calls config calls db).tasks
unfolding run_calls
run_calls-IsSound config [] db h = h
run_calls-IsSound config (c ∷ cs) db h =
    run_calls-IsSound config cs (run_call config c db) (
      Step-IsSound (is_report c) db.tasks (run_call config c db).tasks (run_call-Step config c db)
        h)
