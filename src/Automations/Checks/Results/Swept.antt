-- ===== src/Automations/Checks/Results/Swept.antt =====
-- What a sweep of the results does to the automations and to the log.
use plomio.Core.Result.{ok, Result}
use plomio.Database.{Database, Task}
use plomio.Database.AutomationTables.{Automation}
use plomio.Automations.{List, ℕ, ◌∷◌, Option, none, some, Task, Bool, false, find_where, is_id}
use plomio.Automations.Checks.{update_where, true, is_some}
use plomio.Automations.Checks.Results.{NotifyCall, finalize_check}
use plomio.Automations.Checks.Results.Sweep.{
  ended_task, pending_task, Swept, process_each, add_tick,
}
use plomio.Prelude.{
  ℕ, ◌≡◌, List, arith, Option, update_where, ◌∙◌, none, ◌==◌, if◌then◌else◌, some, [], refl, Bool,
  true, ap, any_where, is_some, false, ◌&&◌, ==_iff, Bool-cases, inl, find_where, is_id, inr, All,
  length, ◌+◌, count_where, Option-cases, All-imp, length-append,
}
use plomio.Automations.Checks.Results.Ticks.{IsTicked, finalize_check-Ticks}

-- The task of the automation has ended.
abbrev pub is_checked : List Task → Automation → Bool
is_checked tasks a = is_some (ended_task (pending_task a tasks))

abbrev pub same_pending : Option ℕ → Option ℕ → Bool
same_pending none none = true
same_pending (some a) (some b) = a == b
same_pending _ _ = false

-- `a` is the row `b`, as far as the sweep is concerned.
abbrev pub matches : Automation → Automation → Bool
matches b a = (a.id == b.id) && same_pending a.pending_task_id b.pending_task_id

-- Every row whose task has ended is among those that are left to process.
abbrev pub IsLeft : List Task → List Automation → Automation → Type 0
IsLeft tasks left b = is_checked tasks b ≡ true → any_where (matches b) left ≡ true

same_pending-eq : (a b : Option ℕ) → same_pending a b ≡ true → a ≡ b
same_pending-eq none none h = refl
same_pending-eq (some a) (some b) h = ap some ((==_iff a b).0 h)
same_pending-eq none (some b) h = cc
same_pending-eq (some a) none h = cc

-- A row whose task has not ended may be passed over.
pass :
    (tasks : List Task) (a b : Automation) (left : List Automation)
    → is_checked tasks a ≡ false
    → IsLeft tasks (a ∷ left) b
    → IsLeft tasks left b
pass tasks a b left e h k = elim (Bool-cases (matches b a)) [
  | inl m ↦
      let same : a.pending_task_id ≡ b.pending_task_id =
        same_pending-eq a.pending_task_id b.pending_task_id (ground (arith, m)) in
      let ended : is_checked tasks a ≡ true =
        ap (λ o. is_some (ended_task (find_where (λ t. is_id o t.id) tasks))) same ∙ k in
      absurd (cc (e, ended))
  | inr m ↦ ground (arith, m, h k)
]

pub no_task : (tasks : List Task) → find_where (λ t. is_id none t.id) tasks ≡ none
no_task [] = refl
no_task (t ∷ tasks) = no_task tasks

-- A row of the processed automation has no task left; the others stand as they were.
ticked :
    (tasks : List Task) (a : Automation) (change : Automation → Automation)
    (rows left : List Automation)
    → ((b : Automation) → (change b).pending_task_id ≡ none)
    → All (IsLeft tasks (a ∷ left)) rows
    → All (IsLeft tasks left) (update_where (λ b. b.id == a.id) change rows)
ticked tasks a change [] left done h = tt
ticked tasks a change (b ∷ rows) left done h =
    (head (b.id == a.id) refl, ticked tasks a change rows left done h.1)
  where
    head : (c : Bool) → (b.id == a.id) ≡ c → IsLeft tasks left (if c then change b else b)
    head true e k =
        let idle : is_checked tasks (change b) ≡ false =
          rw (done b) (ap (λ o. is_some (ended_task o)) (no_task tasks)) in
        absurd (cc (k, idle))
    head false e k = ground (arith, e, h.0 k)

-- What the loop has done when it ends.
pub record HasSwept (tasks : List Task) (left : List Automation) (s : Swept) (db : Database)
    (out : Result Swept × Database) : Type 0 where
  pub swept : Swept
  pub returns : out.0 ≡ ok swept
  pub settled : All (IsLeft tasks left) db.automations → All (IsLeft tasks []) out.1.automations
  pub logged :
      length out.1.check_logs + s.processed_count ≡ length db.check_logs + swept.processed_count
  pub counted : swept.processed_count ≡ s.processed_count + count_where (is_checked tasks) left

process_each-skip :
    (now : ℕ) (tasks : List Task) (a : Automation) (left : List Automation) (s : Swept)
    (db : Database)
    → ended_task (pending_task a tasks) ≡ none
    → process_each now tasks (a ∷ left) s db ≡ process_each now tasks left s db
unfolding process_each
process_each-skip now tasks a left s db e = ground (arith, e)

process_each-tick :
    (now : ℕ) (tasks : List Task) (a : Automation) (left : List Automation) (s : Swept)
    (db : Database) (t : Task) (r : ℕ × Option NotifyCall)
    → ended_task (pending_task a tasks) ≡ some t
    → (finalize_check now a t.status db).0 ≡ ok r
    → process_each now tasks (a ∷ left) s db
      ≡ process_each now tasks left (add_tick r.0 r.1 s) (finalize_check now a t.status db).1
unfolding process_each
process_each-tick now tasks a left s db t r e f = ground (arith, e, f)

module _ (tasks : List Task) (a : Automation) (left : List Automation) (s : Swept) (db : Database)
    (out : Result Swept × Database) where
  skipped :
      is_checked tasks a ≡ false → HasSwept tasks left s db out → HasSwept tasks (a ∷ left) s db out
  skipped e k = record {
    swept = k.swept;
    returns = k.returns;
    settled = λ h. k.settled (All-imp db.automations (λ b. pass tasks a b left e) h);
    logged = k.logged;
    counted = ground (arith, e, k.counted);
  }

  counted_once :
      (r : ℕ × Option NotifyCall) (db' : Database)
      → is_checked tasks a ≡ true
      → IsTicked a.id db db'
      → HasSwept tasks left (add_tick r.0 r.1 s) db' out
      → HasSwept tasks (a ∷ left) s db out
  counted_once r db' e t k = record {
    swept = k.swept;
    returns = k.returns;
    settled = λ h. k.settled (rw t.rows (ticked tasks a t.change db.automations left t.done h));
    logged = omega (arith, k.logged, ap length t.log, length-append db.check_logs (t.row ∷ []));
    counted = ground (arith, e, k.counted);
  }

pub process_each-HasSwept :
    (now : ℕ) (tasks : List Task) (left : List Automation) (s : Swept) (db : Database)
    → HasSwept tasks left s db (process_each now tasks left s db)
process_each-HasSwept now tasks [] s db =
    unfold process_each in
    record { swept = s; returns = refl; settled = λ h. h; logged = refl; counted = omega arith }
process_each-HasSwept now tasks (a ∷ left) s db =
    elim (Option-cases (ended_task (pending_task a tasks))) [
      | inl none_ended ↦ rw (process_each-skip now tasks a left s db none_ended) (
          skipped tasks a left s db (process_each now tasks left s db) (ap is_some none_ended)
            (process_each-HasSwept now tasks left s db))
      | inr (t, ended) ↦
          let (r, returned, tick) = finalize_check-Ticks now a t.status db in
          let db' = (finalize_check now a t.status db).1 in
          rw (process_each-tick now tasks a left s db t r ended returned) (
            counted_once tasks a left s db (process_each now tasks left (add_tick r.0 r.1 s) db') r
              db' (ap is_some ended) tick
              (process_each-HasSwept now tasks left (add_tick r.0 r.1 s) db'))
    ]
