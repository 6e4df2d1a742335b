-- ===== src/ApiKeys/Blocked.antt =====
-- The batch guard `get_blocked_api_key_ids` and the guard of one key
-- (packages/api_keys/src/service.py).
use plomio.Prelude.{
  ℕ, List, ◌≡◌, Option, if◌then◌else◌, sum_where, some, is_id, true, none, arith, filter_where,
  ◌&&◌, [], refl, Bool, false, is_some, not,
}
use plomio.Core.Enums.{ApiKeyBlockReason, inactive}
use plomio.Database.{Database, ApiKey, CreditTransaction}
use plomio.ApiKeys.{
  find_key, resolve_block_reason, spent_by_api_key, lookup_key_reason, limited_ids, batch_reason,
  block_each, get_blocked_api_key_ids, error_by_reason, ensure_can_spend, Option, List, some, is_in,
  sum_where, true, none, is_id, ok, filter_where, ◌∷◌, err, Bool, false, is_some, can_spend, not,
}
use plomio.Billing.Limits.{spent, is_debit}

-- All that a key has spent.
pub total_spent : ℕ → List CreditTransaction → ℕ
total_spent id = sum_where (λ t. is_id t.api_key_id id && is_debit t) spent

-- The reason of one key: an unknown key is inactive.
unfoldable pub reason_of : ℕ → ℕ → Database → Option ApiKeyBlockReason
unfolding total_spent
reason_of now id db = elim (find_key id db.api_keys) [
  | none ↦ some inactive
  | some key ↦ resolve_block_reason key (total_spent id db.credit_transactions) now
]

block_each-lookup :
    (now id : ℕ) (found : List ApiKey) (spent_credits : ℕ → ℕ) (ids : List ℕ)
    → lookup_key_reason id (block_each now found spent_credits ids)
      ≡ (if is_in id ids then batch_reason now found spent_credits id else none)
unfolding block_each
block_each-lookup now id found spent_credits [] = refl
block_each-lookup now id found spent_credits (k ∷ ids) =
    ground (arith, block_each-lookup now id found spent_credits ids)

find-batch :
    (id : ℕ) (ids : List ℕ) (ks : List ApiKey)
    → is_in id ids ≡ true
    → find_key id (filter_where (λ k. is_in k.id ids) ks) ≡ find_key id ks
find-batch id ids [] h = refl
find-batch id ids (k ∷ ks) h = ground (arith, find-batch id ids ks h)

has_credit_limit : ℕ → List ApiKey → Bool
has_credit_limit id ks = elim (find_key id ks) [ none ↦ false | some k ↦ is_some k.credit_limit ]

find-limited :
    (id : ℕ) (ks : List ApiKey) → has_credit_limit id ks ≡ true → is_in id (limited_ids ks) ≡ true
unfolding has_credit_limit limited_ids
find-limited id [] h = ground (arith, h)
find-limited id (k ∷ ks) h = ground (arith, find-limited id ks)

-- For a key of the batch get_blocked_api_key_ids holds the reason of that key on its own, by all
-- that the key has spent, and no entry where there is none; other keys have no entry.
pub get_blocked_api_key_ids-lookup :
    (now id : ℕ) (ids : List ℕ) (db : Database)
    → lookup_key_reason id (get_blocked_api_key_ids now ids db)
      ≡ (if is_in id ids then reason_of now id db else none)
unfolding has_credit_limit get_blocked_api_key_ids reason_of batch_reason resolve_block_reason
    spent_by_api_key total_spent
get_blocked_api_key_ids-lookup now id ids db = ground (
  arith,
  block_each-lookup now id (filter_where (λ k. is_in k.id ids) db.api_keys)
      (spent_by_api_key (limited_ids (filter_where (λ k. is_in k.id ids) db.api_keys))
        db.credit_transactions)
      ids,
  find-batch id ids db.api_keys,
  find-limited id (filter_where (λ k. is_in k.id ids) db.api_keys),
)

-- The guard of one key raises by the reason of that key, and changes nothing.
pub ensure_can_spend-reason :
    (now id : ℕ) (db : Database)
    → ensure_can_spend now id db
      ≡ elim (reason_of now id db) [ none ↦ (ok tt, db) | some r ↦ (err (error_by_reason r), db) ]
unfolding ensure_can_spend
ensure_can_spend-reason now id db =
    ground (arith, get_blocked_api_key_ids-lookup now id (id ∷ []) db)

-- The batch holds the keys of the batch through which nothing may be spent.
pub get_blocked_api_key_ids-can_spend :
    (now id : ℕ) (ids : List ℕ) (db : Database)
    → is_in id ids ≡ true
    → is_some (lookup_key_reason id (get_blocked_api_key_ids now ids db))
      ≡ not (can_spend now id db)
unfolding can_spend
get_blocked_api_key_ids-can_spend now id ids db h = ground (
  arith,
  h,
  get_blocked_api_key_ids-lookup now id ids db,
  get_blocked_api_key_ids-lookup now id (id ∷ []) db,
)
