-- ===== src/Automations/Checks/Dispatch/Postponed.antt =====
-- A claimed automation is not claimed again before its interval has passed.
use plomio.Core.Time.{minute}
use plomio.Database.{Database}
use plomio.Database.AutomationTables.{Automation}
use plomio.Automations.Checks.{
  is_due_automation, insert_due, earliest_first, due_ids, postpone, claim_due_for_dispatch, ℕ, List,
  is_in, Bool, map, filter_where, ◌∷◌, false, take, leb, true, update_where,
}
use plomio.Prelude.{
  zero, List, ℕ, any_where, ◌≤◌, All, Bool, map, ◌≡◌, ◌<◌, filter_where, ◌==◌, ◌||◌, ◌+◌, ◌&&◌,
  false, Bool-cases, ◌∙◌, take, ◌*◌, inl, ap, suc, leb, true, arith, update_where, [], inr, refl,
  ==_iff,
}

-- Some automation of this id is due.
abbrev is_due_id : ℕ → ℕ → Automation → Bool
is_due_id now id a = (a.id == id) && is_due_automation now a

abbrev ids_of : List Automation → List ℕ
ids_of rows = map (λ a. a.id) rows

insert_due-ids :
    (id : ℕ) (a : Automation) (rows : List Automation)
    → is_in id (ids_of (insert_due a rows)) ≡ ((a.id == id) || is_in id (ids_of rows))
unfolding insert_due
insert_due-ids id a [] = refl
insert_due-ids id a (b ∷ rows) = elim (Bool-cases (leb a.next_check_at b.next_check_at)) [
  | inl e ↦ ground (arith, e)
  | inr e ↦ ground (arith, e, insert_due-ids id a rows)
]

earliest_first-ids :
    (id : ℕ) (rows : List Automation)
    → is_in id (ids_of (earliest_first rows)) ≡ is_in id (ids_of rows)
unfolding earliest_first
earliest_first-ids id [] = refl
earliest_first-ids id (a ∷ rows) =
    insert_due-ids id a (earliest_first rows)
    ∙ ap (λ b. (a.id == id) || b) (earliest_first-ids id rows)

take-ids :
    (id n : ℕ) (rows : List Automation)
    → is_in id (ids_of rows) ≡ false
    → is_in id (ids_of (take n rows)) ≡ false
take-ids id zero rows e = refl
take-ids id (suc n) [] e = refl
take-ids id (suc n) (a ∷ rows) e = ground (arith, e, take-ids id n rows)

filter-ids :
    (now id : ℕ) (rows : List Automation)
    → is_in id (ids_of (filter_where (is_due_automation now) rows))
      ≡ any_where (is_due_id now id) rows
filter-ids now id [] = refl
filter-ids now id (a ∷ rows) = elim (Bool-cases (is_due_automation now a)) [
  | inl e ↦ ground (arith, e, filter-ids now id rows)
  | inr e ↦ ground (arith, e, filter-ids now id rows)
]

-- Only due automations are claimed.
due_ids-due :
    (now id limit : ℕ) (rows : List Automation)
    → any_where (is_due_id now id) rows ≡ false
    → is_in id (due_ids now limit rows) ≡ false
unfolding due_ids
due_ids-due now id limit rows e =
    take-ids id limit (earliest_first (filter_where (is_due_automation now) rows)) (
      earliest_first-ids id (filter_where (is_due_automation now) rows)
      ∙ (filter-ids now id rows ∙ e))

-- The interval of a check is at least `m` minutes.
abbrev pub IsSpaced : ℕ → Automation → Type 0
IsSpaced m a = m ≤ a.check_frequency_minutes

postponed :
    (now later m minutes : ℕ) (a : Automation)
    → m ≤ a.check_frequency_minutes
    → m ≤ minutes
    → later < now + m * minute
    → is_due_automation later (postpone now minutes a) ≡ false
postponed now later m minutes a h k l = ground (arith, h, k, l)

not_due :
    (now later m minutes id : ℕ) (ids : List ℕ) (rows : List Automation)
    → All (IsSpaced m) rows
    → m ≤ minutes
    → later < now + m * minute
    → is_in id ids ≡ true
    → any_where
        (is_due_id later id)
        (update_where (λ a. is_in a.id ids) (postpone now minutes) rows)
      ≡ false
not_due now later m minutes id ids [] h k l e = refl
not_due now later m minutes id ids (a ∷ rows) h k l e = elim (Bool-cases (a.id == id)) [
  | inl here ↦
      let same : is_in a.id ids ≡ true = ap (λ i. is_in i ids) ((==_iff a.id id).0 here) ∙ e in
      rw same (
        ground (
          arith,
          postponed now later m minutes a h.0 k l,
          not_due now later m minutes id ids rows h.1 k l e,
        ))
  | inr there ↦ elim (Bool-cases (is_in a.id ids)) [
    | inl c ↦ rw c (ground (arith, there, not_due now later m minutes id ids rows h.1 k l e))
    | inr c ↦ rw c (ground (arith, there, not_due now later m minutes id ids rows h.1 k l e))
  ]
]

-- If every automation, and one that is out of stock, is checked at most every m minutes, then an
-- automation that is claimed is not due again within m minutes, whatever the size of the next
-- batch.
pub claim_due_for_dispatch-once :
    (now later limit limit' minutes m id : ℕ) (db : Database)
    → All (IsSpaced m) db.automations
    → m ≤ minutes
    → later < now + m * minute
    → is_in id (due_ids now limit db.automations) ≡ true
    → is_in id (due_ids later limit' (claim_due_for_dispatch now limit minutes db).1.automations)
      ≡ false
unfolding claim_due_for_dispatch
claim_due_for_dispatch-once now later limit limit' minutes m id db h k l e =
    due_ids-due later id limit' _
      (not_due now later m minutes id (due_ids now limit db.automations) db.automations h k l e)
