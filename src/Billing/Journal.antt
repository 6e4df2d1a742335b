-- ===== src/Billing/Journal.antt =====
-- A user's journal and its export in pages: `CreditTransactionRepository._apply_filters`,
-- `list_for_user`, `count_for_user` and `BillingService.list_transactions`,
-- `list_all_transactions` (packages/billing/src).
pub mod Export
use plomio.Prelude.{
  ℕ, zero, suc, ◌+◌, ◌/◌, ◌≡◌, Bool, true, false, ◌&&◌, ◌||◌, Option, none, some, List, [], ◌∷◌,
  ◌++◌, ltb, leb, ◌==◌, is_id, if◌then◌else◌, length, take, drop, filter_where,
}
use plomio.Prelude.Int.{pos, ltb_ℤ}
use plomio.Core.Enums.{ReferenceType, task, automation, direct, TransactionKind, spend, grant}
use plomio.Database.{CreditTransaction, Metadata}
use plomio.Billing.Limits.Stats.{is_type, automation_of}

-- `EXPORT_PAGE_SIZE`
abbrev pub export_page_size : ℕ
export_page_size = 500

pub record TransactionFilters : Type 0 where
  pub reference_type : Option ReferenceType
  pub reference_id : Option ℕ
  pub kind : Option TransactionKind
  pub api_key_id : Option ℕ
  pub date_from : Option ℕ
  pub date_to : Option ℕ

-- `_source_type`: a check of an automation is an expense on the automation.
source_type : CreditTransaction → Option ReferenceType
source_type t = elim (automation_of t.transaction_metadata) [
  | none ↦ t.reference_type
  | some a ↦ some automation
]

-- `_source_id`
source_id : CreditTransaction → Option ℕ
source_id t = elim (automation_of t.transaction_metadata) [
  | none ↦ t.reference_id
  | some a ↦ some a
]

is_kind : Option TransactionKind → CreditTransaction → Bool
is_kind none t = true
is_kind (some spend) t = ltb_ℤ t.amount (pos 0)
is_kind (some grant) t = ltb_ℤ (pos 0) t.amount

abbrev passes {ℓ} : {A : Type ℓ} → (A → Bool) → Option A → Bool
passes p none = true
passes p (some a) = p a

-- `_apply_filters`
pub is_listed : ℕ → Option TransactionFilters → CreditTransaction → Bool
unfolding source_type source_id is_kind
is_listed user_id none t = t.user_id == user_id
is_listed user_id (some f) t =
    (t.user_id == user_id)
    && (passes (λ r. is_type r (source_type t)) f.reference_type
        && (passes (λ i. is_id (source_id t) i) f.reference_id
            && (is_kind f.kind t
                && (passes (λ k. is_id t.api_key_id k) f.api_key_id
                    && (passes (λ d. leb d t.created_at) f.date_from
                        && passes (λ d. leb t.created_at d) f.date_to)))))

-- `ORDER BY created_at DESC, id DESC`
is_before : CreditTransaction → CreditTransaction → Bool
is_before s t = ltb t.created_at s.created_at || ((s.created_at == t.created_at) && leb t.id s.id)

insert_row : CreditTransaction → List CreditTransaction → List CreditTransaction
unfolding is_before
insert_row t [] = t ∷ []
insert_row t (s ∷ ts) = if is_before t s then t ∷ s ∷ ts else s ∷ insert_row t ts

newest_first : List CreditTransaction → List CreditTransaction
unfolding insert_row
newest_first [] = []
newest_first (t ∷ ts) = insert_row t (newest_first ts)

-- The rows that the filters select, in the order of the listing.
pub selected : ℕ → Option TransactionFilters → List CreditTransaction → List CreditTransaction
unfolding newest_first is_listed
selected user_id filters ts = newest_first (filter_where (is_listed user_id filters) ts)

pub list_for_user :
    ℕ → ℕ → ℕ → Option TransactionFilters → List CreditTransaction → List CreditTransaction
unfolding selected
list_for_user user_id limit offset filters ts =
    take limit (drop offset (selected user_id filters ts))

pub count_for_user : ℕ → Option TransactionFilters → List CreditTransaction → ℕ
unfolding is_listed
count_for_user user_id filters ts = length (filter_where (is_listed user_id filters) ts)

pub list_transactions :
    ℕ → ℕ → ℕ → Option TransactionFilters → List CreditTransaction → List CreditTransaction × ℕ
unfolding list_for_user count_for_user
list_transactions user_id limit offset filters ts =
    (list_for_user user_id limit offset filters ts, count_for_user user_id filters ts)

abbrev pub is_empty {ℓ} : {A : Type ℓ} → List A → Bool
is_empty [] = true
is_empty (x ∷ xs) = false

-- The `while True` loop of `list_all_transactions` on fuel; `none` where the fuel runs out.
export_from :
    ℕ
    → ℕ
    → Option TransactionFilters
    → List CreditTransaction
    → ℕ
    → List CreditTransaction
    → Option (List CreditTransaction)
unfolding list_transactions
export_from zero user_id filters ts offset transactions = none
export_from (suc fuel) user_id filters ts offset transactions =
    let (page, total) = list_transactions user_id export_page_size offset filters ts in
    let rest =
      export_from fuel user_id filters ts (offset + export_page_size) (transactions ++ page) in
    if leb total (offset + export_page_size) || is_empty page
    then some (transactions ++ page)
    else rest

-- One round for each page, and one more.
pub list_all_transactions :
    ℕ → Option TransactionFilters → List CreditTransaction → Option (List CreditTransaction)
unfolding export_from
list_all_transactions user_id filters ts =
    export_from (count_for_user user_id filters ts / export_page_size + 1) user_id filters ts 0 []
