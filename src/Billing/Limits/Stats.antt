-- ===== src/Billing/Limits/Stats.antt =====
-- Reports of what was spent (`get_spending_stats`, `get_reference_spending`,
-- packages/billing/src/repository.py), and the limits after they are set.
use plomio.Prelude.{
  ℕ, ◌+◌, ◌≤◌, arith, ◌≡◌, Option, List, Bool, All, String, true, ◌||◌, some, none, sum_where,
  filter_where, ◌==◌, str_eq, leb, false, ◌++◌, ◌&&◌, not, update_where, if◌then◌else◌, [], is_id,
  count_where, ◌≢◌, is_some, Bool-cases, refl, inl, ==_iff, inr, Option-cases, ap,
}
use plomio.Core.Enums.{ReferenceType, task, automation, direct}
use plomio.Core.Time.{day_start, month_start, month_start-le-day_start}
use plomio.Core.Result.{ok}
use plomio.Database.{Database, SpendingLimit, CreditTransaction, Metadata}
use plomio.Billing.Limits.{
  spent, is_debit, get_spent_since, get_for_user, get_spending_status, set_spending_limits, Option,
  Bool, List, ◌∷◌, filter_where, sum_where, none, some, leb, not, false, update_where, is_some,
}

-- `reference_type == t`, false on null.
abbrev pub is_type : ReferenceType → Option ReferenceType → Bool
is_type task (some task) = true
is_type automation (some automation) = true
is_type direct (some direct) = true
is_type _ _ = false

abbrev dimension_of : Option Metadata → String
dimension_of (some (Metadata.charged q c m (some code) v a)) = code
dimension_of _ = ""

pub automation_of : Option Metadata → Option ℕ
automation_of (some (Metadata.charged q c m code v a)) = a
automation_of _ = none

-- `_is_automation_condition`
pub is_automation : CreditTransaction → Bool
is_automation t =
    is_type automation t.reference_type
    || str_eq (dimension_of t.transaction_metadata) "automation_check_frequency"

pub record SpendingStats : Type 0 where
  pub total_spent : ℕ
  pub tasks_spent : ℕ
  pub automations_spent : ℕ
  pub direct_spent : ℕ

-- The optional bounds of the period and the optional user.
in_period : Option ℕ → Option ℕ → Option ℕ → CreditTransaction → Bool
in_period date_from date_to user_id t =
    elim date_from [ none ↦ true | some d ↦ leb d t.created_at ]
    && (elim date_to [ none ↦ true | some d ↦ leb t.created_at d ]
        && elim user_id [ none ↦ true | some u ↦ t.user_id == u ])

stats_of : List CreditTransaction → SpendingStats
stats_of ts = record {
  total_spent = sum_where (λ t. is_debit t) spent ts;
  tasks_spent =
      sum_where (λ t. is_debit t && (is_type task t.reference_type && not (is_automation t))) spent
        ts;
  automations_spent = sum_where (λ t. is_debit t && is_automation t) spent ts;
  direct_spent = sum_where (λ t. is_debit t && is_type direct t.reference_type) spent ts;
}

pub get_spending_stats : Option ℕ → Option ℕ → Option ℕ → List CreditTransaction → SpendingStats
unfolding in_period stats_of
get_spending_stats date_from date_to user_id ts =
    stats_of (filter_where (in_period date_from date_to user_id) ts)

-- What one task, automation or direct request has cost; an automation's checks count as its own.
pub get_reference_spending : ℕ → ReferenceType → ℕ → List CreditTransaction → ℕ × ℕ
unfolding automation_of
get_reference_spending user_id type id ts = (sum_where counts spent ts, count_where counts ts)
  where
    counts : CreditTransaction → Bool
    counts t =
        (t.user_id == user_id)
        && (is_debit t
            && ((is_type type t.reference_type && is_id t.reference_id id)
                || (is_type automation (some type)
                    && is_id (automation_of t.transaction_metadata) id)))

-- A direct request is not priced as an automation's check.
abbrev pub IsPlainDirect : CreditTransaction → Type 0
IsPlainDirect t = (is_type direct t.reference_type && is_automation t) ≡ false

stats_of-split :
    (ts : List CreditTransaction)
    → All IsPlainDirect ts
    → let s = stats_of ts in s.tasks_spent + s.automations_spent + s.direct_spent ≤ s.total_spent
unfolding stats_of
stats_of-split [] h = omega arith
stats_of-split (t ∷ ts) h = ground (arith, stats_of-split ts h.1, h.0)

All-filter {ℓ κ} :
    {A : Type ℓ} (P : A → Type κ) (p : A → Bool) (xs : List A)
    → All P xs
    → All P (filter_where p xs)
All-filter P p [] h = tt
All-filter P p (x ∷ xs) h = keep (p x) (All-filter P p xs h.1)
  where
    keep :
        (b : Bool)
        → All P (filter_where p xs)
        → All P (if b then x ∷ filter_where p xs else filter_where p xs)
    keep true rest = (h.0, rest)
    keep false rest = rest

-- If no direct request is priced as a check of an automation, then the sums of tasks, automations
-- and direct requests together are at most the total, over every period and for every user.
pub get_spending_stats-split :
    (date_from date_to user_id : Option ℕ) (ts : List CreditTransaction)
    → All IsPlainDirect ts
    → let s = get_spending_stats date_from date_to user_id ts in
      s.tasks_spent + s.automations_spent + s.direct_spent ≤ s.total_spent
unfolding get_spending_stats
get_spending_stats-split date_from date_to user_id ts h =
    stats_of-split (filter_where (in_period date_from date_to user_id) ts)
      (All-filter IsPlainDirect (in_period date_from date_to user_id) ts h)

get_spent_since_mono :
    (u early late : ℕ) (ts : List CreditTransaction)
    → early ≤ late
    → get_spent_since u late ts ≤ get_spent_since u early ts
unfolding get_spent_since
get_spent_since_mono u early late [] h = omega arith
get_spent_since_mono u early late (t ∷ ts) h =
    ground (arith, get_spent_since_mono u early late ts h)

-- The month holds the day, so no more is spent in a day than in its month.
pub spent_today-le :
    (now u : ℕ) (db : Database)
    → let s = get_spending_status now u db in s.spent_today ≤ s.spent_this_month
unfolding get_spending_status
spent_today-le now u db = ground (
  arith,
  get_spent_since_mono u (month_start now) (day_start now) db.credit_transactions
      (month_start-le-day_start now),
)

pub row_of : ℕ → Option ℕ → Option ℕ → Option SpendingLimit
row_of u none none = none
row_of u daily monthly = some (record { user_id = u; daily_limit = daily; monthly_limit = monthly })

find-removed :
    (j u : ℕ) (ls : List SpendingLimit)
    → get_for_user j (filter_where (λ l. not (l.user_id == u)) ls)
      ≡ (if u == j then none else get_for_user j ls)
unfolding get_for_user
find-removed j u [] = ground arith
find-removed j u (l ∷ ls) = ground (arith, find-removed j u ls)

find-added :
    (j : ℕ) (row : SpendingLimit) (ls : List SpendingLimit)
    → get_for_user row.user_id ls ≡ none
    → get_for_user j (ls ++ row ∷ []) ≡ (if row.user_id == j then some row else get_for_user j ls)
unfolding get_for_user
find-added j row [] h = ground arith
find-added j row (l ∷ ls) h = ground (arith, find-added j row ls)

find-replaced_self :
    (row : SpendingLimit) (ls : List SpendingLimit)
    → is_some (get_for_user row.user_id ls) ≡ true
    → get_for_user row.user_id (update_where (λ l. l.user_id == row.user_id) (λ l. row) ls)
      ≡ some row
unfolding get_for_user
find-replaced_self row [] h = cc
find-replaced_self row (l ∷ ls) h = ground (arith, find-replaced_self row ls)

find-replaced_ne :
    (j : ℕ) (row : SpendingLimit) (ls : List SpendingLimit)
    → row.user_id ≢ j
    → get_for_user j (update_where (λ l. l.user_id == row.user_id) (λ l. row) ls)
      ≡ get_for_user j ls
unfolding get_for_user
find-replaced_ne j row [] h = refl
find-replaced_ne j row (l ∷ ls) h = ground (arith, find-replaced_ne j row ls h)

find-replaced :
    (j : ℕ) (row : SpendingLimit) (ls : List SpendingLimit)
    → is_some (get_for_user row.user_id ls) ≡ true
    → get_for_user j (update_where (λ l. l.user_id == row.user_id) (λ l. row) ls)
      ≡ (if row.user_id == j then some row else get_for_user j ls)
find-replaced j row ls h = elim (Bool-cases (row.user_id == j)) [
  | inl e ↦ rw (e, ← (==_iff row.user_id j).0 e) (find-replaced_self row ls h)
  | inr e ↦ rw e (find-replaced_ne j row ls (ground arith))
]

abbrev limit_row : ℕ → Option ℕ → Option ℕ → SpendingLimit
limit_row u daily monthly = record { user_id = u; daily_limit = daily; monthly_limit = monthly }

find-written :
    (j : ℕ) (row : SpendingLimit) (ls : List SpendingLimit)
    → get_for_user j (elim (get_for_user row.user_id ls) [
      | none ↦ ls ++ row ∷ []
      | some l ↦ update_where (λ l. l.user_id == row.user_id) (λ l. row) ls
    ])
      ≡ (if row.user_id == j then some row else get_for_user j ls)
find-written j row ls = elim (Option-cases (get_for_user row.user_id ls)) [
  | inl e ↦ rw e (find-added j row ls e)
  | inr (l, e) ↦ rw e (find-replaced j row ls (ap is_some e))
]

-- Setting the limits of a user stores exactly them, a row with neither being no row, and leaves the
-- limits of every other user.
pub set_spending_limits-get_for_user :
    (u : ℕ) (daily monthly : Option ℕ) (j : ℕ) (db : Database)
    → let (result, db') = set_spending_limits u daily monthly db in
      (result ≡ ok (row_of u daily monthly))
      × (get_for_user j db'.spending_limits
          ≡ (if u == j then row_of u daily monthly else get_for_user j db.spending_limits))
unfolding set_spending_limits row_of
set_spending_limits-get_for_user u none none j db = (refl, find-removed j u db.spending_limits)
set_spending_limits-get_for_user u none (some m) j db =
    (refl, find-written j (limit_row u none (some m)) db.spending_limits)
set_spending_limits-get_for_user u (some d) m j db =
    (refl, find-written j (limit_row u (some d) m) db.spending_limits)
