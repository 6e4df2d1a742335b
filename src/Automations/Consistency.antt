-- ===== src/Automations/Consistency.antt =====
-- What holds of the automations and of their log after any calls on automations.
pub mod Creating
pub mod Checking
pub mod Runs
use plomio.Database.{Database, Action, raise_if, modify, transaction, ◌>>=◌, ◌>>◌}
use plomio.Database.Preserves.{
  Preserves, >>=-Preserves, transaction-Preserves, gets-Preserves, or_raise-Preserves,
  raise_if-Preserves,
}
use plomio.Database.AutomationTables.{Automation, AutomationCheckLog}
use plomio.Automations.{
  update_automation, update_baseline, pause_automation, resume_automation, delete_automation,
  get_automation_row, set_automations, is_foreign, List, ℕ, Bool, Option, not,
  delete_by_automation_id, pause, find_automation, filter_where, update_first, resume,
  object_not_found, ◌∷◌, with_baselines, none, delete_row, is_in, map, is_check_of,
}
use plomio.Automations.Changes.{has_any, any_breached}
use plomio.Automations.Creation.Unique.{
  IsUnique, index_key, update-keys, update_first-keys, filter-IsUnique,
}
use plomio.Prelude.{
  Bool, List, ◌≡◌, ℕ, is_some, All, update_where, ◌==◌, Option, not, filter_where, Bool-cases, inl,
  inr, [], none, refl, map,
}
use plomio.Tasks.{is_pending}

-- A row of the log: it has a snapshot exactly if the check succeeded, an error exactly if not, and
-- its flags agree with its changes.
abbrev pub IsTick : AutomationCheckLog → Type 0
IsTick l =
    (l.succeeded ≡ is_some l.snapshot)
    × (is_some l.error_message ≡ not l.succeeded)
    × (l.has_changes ≡ has_any l.changes)
    × (l.threshold_breached ≡ any_breached l.changes)

abbrev pub AreConsistent : List Automation → List AutomationCheckLog → Type 0
AreConsistent rows logs = IsUnique rows × All IsTick logs

-- The automations are unique, and every row of the log is a tick.
abbrev pub IsConsistent : Database → Type 0
IsConsistent db = AreConsistent db.automations db.check_logs

pub set-Preserves :
    (g : List Automation → List Automation)
    → ((rows : List Automation) → IsUnique rows → IsUnique (g rows))
    → Preserves IsConsistent (set_automations g)
set-Preserves g keep = record { kept = λ db h. (keep db.automations h.0, h.1) }

pub get-Preserves : (id : ℕ) → Preserves IsConsistent (get_automation_row id)
get-Preserves id =
    >>=-Preserves IsConsistent
      (gets-Preserves IsConsistent (λ db. find_automation id db.automations))
      (λ o. or_raise-Preserves IsConsistent o object_not_found)

-- Writes of columns that the index is not on.
pub update_automation-Preserves :
    (id : ℕ) (f : Automation → Automation)
    → ((a : Automation) → index_key (f a) ≡ index_key a)
    → Preserves IsConsistent (update_automation id f)
unfolding update_automation
update_automation-Preserves id f keep =
    >>=-Preserves IsConsistent
      (set-Preserves (update_first (λ a. a.id == id) f)
        (λ rows h. rw (update_first-keys (λ a. a.id == id) f rows keep) h))
      (λ _. get-Preserves id)

pub update_where-Preserves :
    (p : Automation → Bool) (f : Automation → Automation)
    → ((a : Automation) → index_key (f a) ≡ index_key a)
    → Preserves IsConsistent (set_automations (update_where p f))
update_where-Preserves p f keep =
    set-Preserves (update_where p f) (λ rows h. rw (update-keys p f rows keep) h)

-- A call that looks a row up, checks its owner and goes on.
owned :
    {A : Type 0} (id : ℕ) (test : Automation → Bool) (rest : Action A)
    → Preserves IsConsistent rest
    → Preserves IsConsistent
        (transaction (get_automation_row id >>= λ a. raise_if (test a) object_not_found >> rest))
owned id test rest k = transaction-Preserves IsConsistent (
    >>=-Preserves IsConsistent (get-Preserves id) (λ a.
      >>=-Preserves IsConsistent (raise_if-Preserves IsConsistent (test a) object_not_found)
        (λ _. k)))

pub baseline-Preserves :
    (id u : ℕ) (price discounted original : Option ℕ)
    → Preserves IsConsistent (update_baseline id u price discounted original)
unfolding update_baseline
baseline-Preserves id u price discounted original =
    owned id (λ a. not (a.user_id == u))
      (update_automation id (with_baselines price discounted original))
      (update_automation-Preserves id (with_baselines price discounted original) (λ a. refl))

pub pause-Preserves : (id : ℕ) (u : Option ℕ) → Preserves IsConsistent (pause_automation id u)
unfolding pause_automation
pause-Preserves id u =
    owned id (is_foreign u) (update_automation id pause)
      (update_automation-Preserves id pause (λ a. refl))

pub resume-Preserves :
    (now id : ℕ) (u : Option ℕ) → Preserves IsConsistent (resume_automation now id u)
unfolding resume_automation
resume-Preserves now id u =
    owned id (is_foreign u) (update_automation id (resume now))
      (update_automation-Preserves id (resume now) (λ a. refl))

pub All-filter {ℓ κ} :
    {A : Type ℓ} (P : A → Type κ) (p : A → Bool) (xs : List A)
    → All P xs
    → All P (filter_where p xs)
All-filter P p [] h = h
All-filter P p (x ∷ xs) h = elim (Bool-cases (p x)) [
  | inl e ↦ rw e (h.0, All-filter P p xs h.1)
  | inr e ↦ rw e (All-filter P p xs h.1)
]

delete_checks-Preserves : (id : ℕ) → Preserves IsConsistent (modify (delete_by_automation_id id))
unfolding delete_by_automation_id
delete_checks-Preserves id = record {
  kept = λ db h. (rw (update-keys (is_waiting db) unwait db.automations (λ a. refl)) h.0, h.1);
}
  where
    unwait : Automation → Automation
    unwait a = record a { pending_task_id = none }

    is_waiting : Database → Automation → Bool
    is_waiting db a =
        is_pending (λ t. is_in t (map (λ t. t.id) (filter_where (is_check_of id) db.tasks)))
          a.pending_task_id

delete_row-Preserves : (id : ℕ) → Preserves IsConsistent (modify (delete_row id))
delete_row-Preserves id = record {
  kept = λ db h. (
    filter-IsUnique (λ a. not (a.id == id)) db.automations h.0,
    All-filter IsTick (λ l. not (l.automation_id == id)) db.check_logs h.1,
  );
}

pub delete-Preserves : (id : ℕ) (u : Option ℕ) → Preserves IsConsistent (delete_automation id u)
unfolding delete_automation
delete-Preserves id u =
    owned id (is_foreign u) (modify (delete_by_automation_id id) >> modify (delete_row id))
      (>>=-Preserves IsConsistent (delete_checks-Preserves id) (λ _. delete_row-Preserves id))
