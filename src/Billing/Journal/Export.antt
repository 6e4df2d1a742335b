-- ===== src/Billing/Journal/Export.antt =====
-- The export of a user's journal, `BillingService.list_all_transactions`.
use mathlib.Core.List.{append_assoc}
use plomio.Prelude.{
  length-drop, drop-drop, take-append-drop, ℕ, zero, suc, ◌+◌, ◌*◌, ◌≤◌, ◌<◌, ◌≡◌, refl, arith,
  false, Option, some, List, [], ◌∷◌, ◌++◌, leb, length, take, drop, filter_where, ap, Bool-cases,
  inl, inr, ◌∙◌, ◌/◌, leb→le, sym, drop-drop,
}
use plomio.Database.{CreditTransaction}
use plomio.Billing.Journal.{
  TransactionFilters, export_page_size, insert_row, newest_first, selected, list_for_user,
  count_for_user, list_transactions, export_from, list_all_transactions, is_empty,
}

length-insert_row :
    (t : CreditTransaction) (ts : List CreditTransaction)
    → length (insert_row t ts) ≡ suc (length ts)
unfolding insert_row
length-insert_row t [] = refl
length-insert_row t (s ∷ ts) = ground (arith, length-insert_row t ts)

length-newest_first : (ts : List CreditTransaction) → length (newest_first ts) ≡ length ts
unfolding newest_first
length-newest_first [] = refl
length-newest_first (t ∷ ts) =
    omega (arith, length-insert_row t (newest_first ts), length-newest_first ts)

-- The listing has as many rows as the count says.
length-selected :
    (u : ℕ) (filters : Option TransactionFilters) (ts : List CreditTransaction)
    → length (selected u filters ts) ≡ count_for_user u filters ts
unfolding selected count_for_user
length-selected u filters ts = length-newest_first (filter_where _ ts)

take-all {ℓ} : {A : Type ℓ} (n : ℕ) (xs : List A) → length xs ≤ n → take n xs ≡ xs
take-all zero [] h = refl
take-all zero (x ∷ xs) h = absurd (omega arith)
take-all (suc n) [] h = refl
take-all (suc n) (x ∷ xs) h = ap (λ t. x ∷ t) (take-all n xs (omega arith))

-- A full page and what follows it.
page-rest {ℓ} :
    {A : Type ℓ} (n offset : ℕ) (xs sofar : List A)
    → (sofar ++ take n (drop offset xs)) ++ drop (offset + n) xs ≡ sofar ++ drop offset xs
page-rest n offset xs sofar =
    append_assoc sofar (take n (drop offset xs)) (drop (offset + n) xs)
    ∙ ap (λ t. sofar ++ t)
        (ap (λ t. take n (drop offset xs) ++ t) (sym (drop-drop n offset xs))
          ∙ take-append-drop n (drop offset xs))

is_empty-take {ℓ} :
    {A : Type ℓ} (n : ℕ) (xs : List A) → 0 < n → 0 < length xs → is_empty (take n xs) ≡ false
is_empty-take zero xs p h = absurd (omega arith)
is_empty-take (suc n) [] p h = absurd (omega arith)
is_empty-take (suc n) (x ∷ xs) p h = refl

-- From any offset the loop appends all that is left.
export_from-eq :
    (fuel u : ℕ) (filters : Option TransactionFilters) (ts : List CreditTransaction) (offset : ℕ)
    (sofar : List CreditTransaction)
    → offset ≤ count_for_user u filters ts
    → count_for_user u filters ts < offset + fuel * export_page_size
    → export_from fuel u filters ts offset sofar
      ≡ some (sofar ++ drop offset (selected u filters ts))
unfolding export_from list_transactions list_for_user
export_from-eq zero u filters ts offset sofar le h = absurd (omega arith)
export_from-eq (suc fuel) u filters ts offset sofar le h =
    elim (Bool-cases (leb (count_for_user u filters ts) (offset + export_page_size))) [
      | inl last ↦ rw last (
          ap (λ t. some (sofar ++ t))
            (take-all export_page_size (drop offset (selected u filters ts)) (
              omega (
                arith,
                length-drop offset (selected u filters ts),
                length-selected u filters ts,
                leb→le _ _ last,
              ))))
      | inr more ↦
          rw
            (
              more,
              is_empty-take export_page_size (drop offset (selected u filters ts)) (omega arith) (
                  omega (
                    arith,
                    length-drop offset (selected u filters ts),
                    length-selected u filters ts,
                    gt _ _ more,
                  )),
            )
            (export_from-eq fuel u filters ts (offset + export_page_size) _
                (omega (arith, gt _ _ more)) (omega arith)
              ∙ ap some (page-rest export_page_size offset (selected u filters ts) sofar))
    ]
  where
    gt : (a b : ℕ) → leb a b ≡ false → b < a
    gt a b e = ground arith

-- The export ends, and returns exactly the rows that the filters select, in the listing's order.
pub list_all_transactions-eq :
    (u : ℕ) (filters : Option TransactionFilters) (ts : List CreditTransaction)
    → list_all_transactions u filters ts ≡ some (selected u filters ts)
unfolding list_all_transactions
list_all_transactions-eq u filters ts =
    export_from-eq (count_for_user u filters ts / export_page_size + 1) u filters ts 0 []
      (omega arith) (omega arith)
