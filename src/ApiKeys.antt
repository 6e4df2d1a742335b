-- ===== src/ApiKeys.antt =====
-- packages/api_keys/src: `ApiKeyRepository`, `ApiKeyService` and the status of a key. The hash of a
-- key's value (SHA-256 of Python's hashlib, in security.py) is a parameter of `authenticate`.
pub mod Blocked
pub mod Calls
pub mod Quota
pub mod Access
use plomio.Prelude.{
  ℕ, ◌+◌, ◌-◌, ◌≡◌, Bool, true, false, ◌&&◌, not, Option, none, some, List, [], ◌∷◌, ◌++◌, String,
  str_eq, leb, ◌==◌, is_id, is_in, is_some, if◌then◌else◌, find_where, filter_where, update_where,
  count_where, sum_where, ◌||◌,
}
use plomio.Core.Enums.{
  ApiKeyStatus, active, expired, revoked, ApiKeyBlockReason, inactive, credit_limit,
}
use plomio.Core.Result.{
  Error, ok, err, object_not_found, api_key_inactive, api_key_credit_limit_exceeded,
  api_key_expired, api_key_revoked, api_key_quota_exceeded, invalid_api_key, invalid_api_key_expiry,
}
use plomio.Core.Time.{minute}
use plomio.Database.{
  Database, ApiKey, CreditTransaction, Action, pure, raise, gets, or_raise, raise_if, modify,
  fresh_id, transaction, ◌>>=◌, ◌>>◌,
}
use plomio.Billing.Limits.{spent, is_debit}

-- `MAX_ACTIVE_KEYS_PER_USER`
abbrev pub max_active_keys_per_user : ℕ
max_active_keys_per_user = 20

-- `LAST_USED_RESOLUTION`
abbrev pub last_used_resolution : ℕ
last_used_resolution = minute

pub resolve_api_key_status : ApiKey → ℕ → ApiKeyStatus
resolve_api_key_status key now =
    if is_some key.revoked_at
    then revoked
    else elim key.expires_at [ none ↦ active | some d ↦ if leb d now then expired else active ]

pub resolve_block_reason : ApiKey → ℕ → ℕ → Option ApiKeyBlockReason
unfolding resolve_api_key_status
resolve_block_reason key spent_credits now = elim (resolve_api_key_status key now) [
  | active ↦ elim key.credit_limit [
    | none ↦ none
    | some limit ↦ if leb limit spent_credits then some credit_limit else none
  ]
  | _ ↦ some inactive
]

-- `_ERROR_BY_REASON`
abbrev pub error_by_reason : ApiKeyBlockReason → Error
error_by_reason inactive = api_key_inactive
error_by_reason credit_limit = api_key_credit_limit_exceeded

abbrev pub find_key : ℕ → List ApiKey → Option ApiKey
find_key id = find_where (λ k. k.id == id)

abbrev pub is_live_key_of : ℕ → ApiKey → Bool
is_live_key_of user_id k = (k.user_id == user_id) && not (is_some k.revoked_at)

unfoldable pub count_not_revoked : ℕ → List ApiKey → ℕ
count_not_revoked user_id = count_where (is_live_key_of user_id)

-- `apply_changes`, with the change as a function on the row.
unfoldable pub apply_changes : ℕ → (ApiKey → ApiKey) → Action ApiKey
apply_changes id change = do
  modify (λ db. record db { api_keys = update_where (λ k. k.id == id) change db.api_keys })
  or_raise (← gets (λ db. find_key id db.api_keys)) object_not_found

-- `_ensure_future` raises on a date that has come.
abbrev is_past : Option ℕ → ℕ → Bool
is_past none now = false
is_past (some d) now = leb d now

abbrev pub new_api_key : ℕ → ℕ → String → String → Option ℕ → Option ℕ → ℕ → ApiKey
new_api_key now user_id name key_hash limit expires_at id = record {
  id = id;
  user_id = user_id;
  name = name;
  key_hash = key_hash;
  credit_limit = limit;
  expires_at = expires_at;
  revoked_at = none;
  last_used_at = none;
  created_at = now;
}

pub create_api_key : ℕ → ℕ → String → String → Option ℕ → Option ℕ → Action ApiKey
create_api_key now user_id name key_hash limit expires_at = do
  raise_if (is_past expires_at now) invalid_api_key_expiry
  transaction do
    active_count ← gets (λ db. count_not_revoked user_id db.api_keys)
    raise_if (leb max_active_keys_per_user active_count) api_key_quota_exceeded
    id ← fresh_id
    let key = new_api_key now user_id name key_hash limit expires_at id
    modify (λ db. record db { api_keys = db.api_keys ++ key ∷ [] })
    pure key

-- `ApiKeyUpdateData`: `none` is a field that was not sent, `some none` removes the limit or date.
pub record ApiKeyUpdate : Type 0 where
  pub name : Option String
  pub credit_limit : Option (Option ℕ)
  pub expires_at : Option (Option ℕ)

abbrev set_or {ℓ} : {A : Type ℓ} → Option A → A → A
set_or none a = a
set_or (some b) a = b

abbrev is_past_change : Option (Option ℕ) → ℕ → Bool
is_past_change none now = false
is_past_change (some d) now = is_past d now

has_values : ApiKeyUpdate → Bool
has_values c = is_some c.name || is_some c.credit_limit || is_some c.expires_at

changed : ApiKeyUpdate → ApiKey → ApiKey
changed c k = record k {
  name = set_or c.name k.name;
  credit_limit = set_or c.credit_limit k.credit_limit;
  expires_at = set_or c.expires_at k.expires_at;
}

pub update_api_key : ℕ → ℕ → ℕ → ApiKeyUpdate → Action ApiKey
unfolding apply_changes has_values changed
update_api_key now api_key_id user_id changes = do
  raise_if (is_past_change changes.expires_at now) invalid_api_key_expiry
  transaction do
    key ← or_raise (← gets (λ db. find_key api_key_id db.api_keys)) object_not_found
    raise_if (not (key.user_id == user_id)) object_not_found
    raise_if (is_some key.revoked_at) api_key_revoked
    (if has_values changes then apply_changes api_key_id (changed changes) else pure key)

unfoldable pub revoke_api_key : ℕ → ℕ → ℕ → Action ApiKey
unfolding apply_changes
revoke_api_key now api_key_id user_id = transaction do
  key ← or_raise (← gets (λ db. find_key api_key_id db.api_keys)) object_not_found
  raise_if (not (key.user_id == user_id)) object_not_found
  (if is_some key.revoked_at
      then pure key
      else apply_changes api_key_id (λ k. record k { revoked_at = some now }))

abbrev pub is_stale : Option ℕ → ℕ → Bool
is_stale none now = true
is_stale (some used) now = leb last_used_resolution (now - used)

touch_last_used : ℕ → ℕ → Action (Unit {0})
touch_last_used api_key_id used_at = modify (λ db. record db {
  api_keys =
      update_where (λ k. k.id == api_key_id) (λ k. record k { last_used_at = some used_at })
        db.api_keys;
})

pub authenticate : (String → String) → ℕ → String → Action ApiKey
unfolding resolve_api_key_status touch_last_used
authenticate hash_api_key now raw_key = transaction do
  key ←
      or_raise
        (← gets (λ db. find_where (λ k. str_eq k.key_hash (hash_api_key raw_key)) db.api_keys))
        invalid_api_key
  elim (resolve_api_key_status key now) [
    | revoked ↦ raise api_key_revoked
    | expired ↦ raise api_key_expired
    | active ↦
        (if is_stale key.last_used_at now then touch_last_used key.id now >> pure key else pure key)
  ]

-- `get_spent_by_api_keys`, read by `.get(id, 0)`.
pub spent_by_api_key : List ℕ → List CreditTransaction → ℕ → ℕ
spent_by_api_key api_key_ids ts id =
    if is_in id api_key_ids
    then sum_where (λ t. is_id t.api_key_id id && is_debit t) spent ts
    else 0

abbrev pub BlockedKeys : Type 0
BlockedKeys = List (ℕ × ApiKeyBlockReason)

abbrev pub lookup_key_reason : ℕ → BlockedKeys → Option ApiKeyBlockReason
lookup_key_reason id [] = none
lookup_key_reason id ((k, reason) ∷ blocked) =
    if k == id then some reason else lookup_key_reason id blocked

-- The ids of the keys of a batch that have a limit.
limited_ids : List ApiKey → List ℕ
limited_ids [] = []
limited_ids (k ∷ ks) = if is_some k.credit_limit then k.id ∷ limited_ids ks else limited_ids ks

-- What the batch reads: the keys of the batch and what those with a limit have spent.
batch_reason : ℕ → List ApiKey → (ℕ → ℕ) → ℕ → Option ApiKeyBlockReason
unfolding resolve_block_reason
batch_reason now found spent_credits id = elim (find_key id found) [
  | none ↦ some inactive
  | some key ↦ resolve_block_reason key (spent_credits id) now
]

block_each : ℕ → List ApiKey → (ℕ → ℕ) → List ℕ → BlockedKeys
unfolding batch_reason
block_each now found spent_credits [] = []
block_each now found spent_credits (id ∷ ids) =
    let rest = block_each now found spent_credits ids in
    elim (batch_reason now found spent_credits id) [
      | none ↦ rest
      | some reason ↦ (id, reason) ∷ rest
    ]

pub get_blocked_api_key_ids : ℕ → List ℕ → Database → BlockedKeys
unfolding block_each limited_ids spent_by_api_key
get_blocked_api_key_ids now ids db =
    let found = filter_where (λ k. is_in k.id ids) db.api_keys in
    block_each now found (spent_by_api_key (limited_ids found) db.credit_transactions) ids

pub can_spend : ℕ → ℕ → Database → Bool
unfolding get_blocked_api_key_ids
can_spend now id db =
    not (is_some (lookup_key_reason id (get_blocked_api_key_ids now (id ∷ []) db)))

pub ensure_can_spend : ℕ → ℕ → Action (Unit {0})
unfolding get_blocked_api_key_ids
ensure_can_spend now id = do
  blocked ← gets (λ db. lookup_key_reason id (get_blocked_api_key_ids now (id ∷ []) db))
  elim blocked [ none ↦ pure tt | some reason ↦ raise (error_by_reason reason) ]
