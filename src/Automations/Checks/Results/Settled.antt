-- ===== src/Automations/Checks/Results/Settled.antt =====
-- A sweep of the results leaves no automation behind whose check has ended.
use plomio.Core.Result.{ok}
use plomio.Core.Enums.{EventCode}
use plomio.Database.Laws.{transaction-ok, >>=-ok}
use plomio.Database.{Database, Task, Payload}
use plomio.Database.AutomationTables.{Automation}
use plomio.Automations.Checks.{
  insert_awaiting, longest_unchecked_first, get_awaiting_result, ℕ, List, Bool, is_some, Option,
  ◌∷◌, filter_where, true, take, some, leb_checked, false,
}
use plomio.Automations.Checks.Results.{
  NotifyCall, find_where, is_id, notify, Payload, transaction, pure,
}
use plomio.Automations.Checks.Results.Sweep.{
  notify_each, process_each, process_pending_results, nothing_swept, ended_task, Swept,
  sweep_results, report,
}
use plomio.Automations.Checks.Results.Swept.{
  is_checked, matches, IsLeft, process_each-HasSwept, same_pending, no_task,
}
use plomio.Prelude.{
  zero, Bool, ℕ, List, length, ◌≡◌, any_where, count_where, Option, is_some, ◌||◌, ◌≤◌,
  if◌then◌else◌, true, filter_where, ◌∙◌, Option-cases, arith, Bool-cases, take, ◌+◌, [], some, inl,
  ap, suc, none, refl, inr, find_where, is_id, All, All-imp, false,
}
use plomio.Billing.Wallets.{notify}

abbrev waits : Automation → Bool
waits a = is_some a.pending_task_id

-- The order of the selection changes neither what it holds nor how much.
module _ (p : Automation → Bool) where
  insert-any :
      (a : Automation) (rows : List Automation)
      → any_where p (insert_awaiting a rows) ≡ (p a || any_where p rows)
  unfolding insert_awaiting
  insert-any a [] = refl
  insert-any a (b ∷ rows) = elim (Bool-cases (leb_checked a.last_checked_at b.last_checked_at)) [
    | inl e ↦ ground (arith, e)
    | inr e ↦ ground (arith, e, insert-any a rows)
  ]

  sort-any :
      (rows : List Automation) → any_where p (longest_unchecked_first rows) ≡ any_where p rows
  unfolding longest_unchecked_first
  sort-any [] = refl
  sort-any (a ∷ rows) =
      insert-any a (longest_unchecked_first rows) ∙ ap (λ b. p a || b) (sort-any rows)

  insert-count :
      (a : Automation) (rows : List Automation)
      → count_where p (insert_awaiting a rows) ≡ (if p a then 1 else 0) + count_where p rows
  unfolding insert_awaiting
  insert-count a [] = refl
  insert-count a (b ∷ rows) = elim (Bool-cases (leb_checked a.last_checked_at b.last_checked_at)) [
    | inl e ↦ ground (arith, e)
    | inr e ↦ ground (arith, e, insert-count a rows)
  ]

  sort-count :
      (rows : List Automation) → count_where p (longest_unchecked_first rows) ≡ count_where p rows
  unfolding longest_unchecked_first
  sort-count [] = refl
  sort-count (a ∷ rows) =
      insert-count a (longest_unchecked_first rows)
      ∙ ap (λ n. (if p a then 1 else 0) + n) (sort-count rows)

take_all {ℓ} : {A : Type ℓ} (n : ℕ) (xs : List A) → length xs ≤ n → take n xs ≡ xs
take_all zero [] h = refl
take_all zero (x ∷ xs) h = absurd (omega (arith, h))
take_all (suc n) [] h = refl
take_all (suc n) (x ∷ xs) h = ap (λ ys. x ∷ ys) (take_all n xs (omega (arith, h)))

length-count {ℓ} : {A : Type ℓ} (xs : List A) → length xs ≡ count_where (λ _. true) xs
length-count [] = refl
length-count (x ∷ xs) = omega (arith, length-count xs)

filter-length : (rows : List Automation) → length (filter_where waits rows) ≡ count_where waits rows
filter-length [] = refl
filter-length (a ∷ rows) = ground (arith, filter-length rows)

-- Where the batch is large enough, the selection is all that wait.
awaiting_all :
    (n : ℕ) (rows : List Automation)
    → count_where waits rows ≤ n
    → get_awaiting_result n rows ≡ longest_unchecked_first (filter_where waits rows)
unfolding get_awaiting_result
awaiting_all n rows h = take_all n (longest_unchecked_first (filter_where waits rows)) fits
  where
    fits : length (longest_unchecked_first (filter_where waits rows)) ≤ n
    fits = omega (
      arith,
      h,
      length-count (longest_unchecked_first (filter_where waits rows)),
      sort-count (λ _. true) (filter_where waits rows),
      length-count (filter_where waits rows),
      filter-length rows,
    )

module _ (tasks : List Task) where
  checked_waits : (a : Automation) → is_checked tasks a ≡ true → waits a ≡ true
  checked_waits a h = elim (Option-cases a.pending_task_id) [
    | inl e ↦ absurd (
        cc (
          h,
          ap (λ o. is_some (ended_task (find_where (λ t. is_id o t.id) tasks))) e,
          ap (λ o. is_some (ended_task o)) (no_task tasks),
        ))
    | inr (t, e) ↦ ap is_some e
  ]

  filter-count :
      (rows : List Automation)
      → count_where (is_checked tasks) (filter_where waits rows)
        ≡ count_where (is_checked tasks) rows
  filter-count [] = refl
  filter-count (a ∷ rows) = elim (Bool-cases (waits a)) [
    | inl e ↦ rw e (ap (λ n. (if is_checked tasks a then 1 else 0) + n) (filter-count rows))
    | inr e ↦ elim (Bool-cases (is_checked tasks a)) [
      | inl c ↦ absurd (cc (e, checked_waits a c))
      | inr c ↦ rw (e, c) (omega (arith, filter-count rows))
    ]
  ]

  same_pending_refl : (o : Option ℕ) → same_pending o o ≡ true
  same_pending_refl none = refl
  same_pending_refl (some a) = ground arith

  self_matches : (a : Automation) → matches a a ≡ true
  self_matches a = ground (arith, same_pending_refl a.pending_task_id)

  filter-matches :
      (b : Automation) (rows : List Automation)
      → waits b ≡ true
      → any_where (matches b) rows ≡ true
      → any_where (matches b) (filter_where waits rows) ≡ true
  filter-matches b [] w h = h
  filter-matches b (a ∷ rows) w h = elim (Bool-cases (waits a)) [
    | inl e ↦ rw e (ground (arith, h, filter-matches b rows w))
    | inr e ↦ rw e (filter-matches b rows w (ground (arith, e, w, h)))
  ]

  self_in : (rows : List Automation) → All (λ b. any_where (matches b) rows ≡ true) rows
  self_in [] = tt
  self_in (a ∷ rows) =
      (ground (arith, self_matches a), All-imp rows (λ b h. ground (arith, h)) (self_in rows))

  all_left :
      (rows : List Automation)
      → All (IsLeft tasks (longest_unchecked_first (filter_where waits rows))) rows
  all_left rows =
      All-imp rows
        (λ b h c.
          sort-any (matches b) (filter_where waits rows)
          ∙ filter-matches b rows (checked_waits b c) h)
        (self_in rows)

unlisted : (tasks : List Task) (b : Automation) → IsLeft tasks [] b → is_checked tasks b ≡ false
unlisted tasks b k = elim (Bool-cases (is_checked tasks b)) [
  | inl c ↦ absurd (cc (k c))
  | inr c ↦ c
]

-- The notices are written elsewhere, and no call of notify raises.
notify_each-elsewhere :
    (calls : List NotifyCall) (db : Database)
    → ((notify_each calls db).0 ≡ ok tt)
      × ((notify_each calls db).1.automations ≡ db.automations)
      × ((notify_each calls db).1.check_logs ≡ db.check_logs)
unfolding notify_each
notify_each-elsewhere [] db = (refl, refl, refl)
notify_each-elsewhere ((u, notice) ∷ calls) db =
    notify_each-elsewhere calls
      (notify u EventCode.automation_change_detected (Payload.change_detected notice) db).1

-- The call where the loop returns.
process_pending_results-eq :
    (now batch_size : ℕ) (db db' : Database) (s : Swept)
    → process_each now db.tasks (get_awaiting_result batch_size db.automations) nothing_swept db
      ≡ (ok s, db')
    → process_pending_results now batch_size db ≡ (
      ok (s.processed_count, s.changes_detected_count),
      (notify_each s.pending_notifications db').1,
    )
unfolding process_pending_results
process_pending_results-eq now batch_size db db' s e =
    let told = notify_each-elsewhere s.pending_notifications db' in
    let notified : notify_each s.pending_notifications db'
        ≡ (ok tt, (notify_each s.pending_notifications db').1) =
      λ i. (told.0 i, (notify_each s.pending_notifications db').1) in
    >>=-ok (transaction (sweep_results now batch_size)) report db
      (transaction-ok (sweep_results now batch_size) db e)
    ∙ >>=-ok (notify_each s.pending_notifications)
        (λ _. pure (s.processed_count, s.changes_detected_count)) db' notified

-- Where no more automations await a result than a batch holds, process_pending_results returns,
-- with the number of the automations whose check has ended; it writes one row of the log for each
-- of them, and leaves none of them waiting.
pub process_pending_results-settles :
    (now batch_size : ℕ) (db : Database)
    → count_where (λ a. is_some a.pending_task_id) db.automations ≤ batch_size
    → let (result, db') = process_pending_results now batch_size db in
      (changes : ℕ) × (result ≡ ok (count_where (is_checked db.tasks) db.automations, changes))
      × (length db'.check_logs
          ≡ length db.check_logs + count_where (is_checked db.tasks) db.automations)
      × All (λ a. is_checked db.tasks a ≡ false) db'.automations
process_pending_results-settles now batch_size db fits =
    let rows = db.automations in
    let left = longest_unchecked_first (filter_where waits rows) in
    let every = awaiting_all batch_size rows fits in
    let out = process_each now db.tasks left nothing_swept db in
    let h = process_each-HasSwept now db.tasks left nothing_swept db in
    let calls = h.swept.pending_notifications in
    let told = notify_each-elsewhere calls out.1 in
    let loop : process_each now db.tasks (get_awaiting_result batch_size rows) nothing_swept db
        ≡ (ok h.swept, out.1) =
      ap (λ l. process_each now db.tasks l nothing_swept db) every ∙ λ i. (h.returns i, out.1) in
    let eq = process_pending_results-eq now batch_size db out.1 h.swept loop in
    let total : h.swept.processed_count ≡ count_where (is_checked db.tasks) rows =
      h.counted
      ∙ omega (
        arith,
        sort-count (is_checked db.tasks) (filter_where waits rows),
        filter-count db.tasks rows,
      ) in
    (
      h.swept.changes_detected_count,
      ap (λ x. x.0) eq ∙ ap (λ n. ok (n, h.swept.changes_detected_count)) total,
      ap (λ x. length x.1.check_logs) eq ∙ (ap length told.2 ∙ omega (arith, h.logged, total)),
      rw (ap (λ x. x.1.automations) eq ∙ told.1) (
          All-imp out.1.automations (λ b k. unlisted db.tasks b k)
            (h.settled (all_left db.tasks rows))),
    )
