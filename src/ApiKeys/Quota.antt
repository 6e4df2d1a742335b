-- ===== src/ApiKeys/Quota.antt =====
-- The quota of keys (`MAX_ACTIVE_KEYS_PER_USER`).
use plomio.Prelude.{
  ℕ, ◌≤◌, List, ◌≡◌, String, Bool, update_where, Option, ◌++◌, true, arith, ◌∷◌, [], ◌+◌,
  if◌then◌else◌, Option-cases, ◌==◌, some, find_where, str_eq, inl, inr,
}
use plomio.Database.{Database, ApiKey}
use plomio.ApiKeys.{
  count_not_revoked, is_live_key_of, max_active_keys_per_user, create_api_key, ApiKeyUpdate,
  update_api_key, revoke_api_key, authenticate, apply_changes, changed, touch_last_used, String,
  Bool, List, Option, true, update_where, [], new_api_key, find_where, some, str_eq,
}
use plomio.ApiKeys.Calls.{KeyCall, create, update, revoke, authenticate_with, run_call, run_calls}

-- No user has more keys than the quota that are not revoked.
unfoldable pub IsWithinQuota : Database → Type 0
IsWithinQuota db = (u : ℕ) → count_not_revoked u db.api_keys ≤ max_active_keys_per_user

count-add :
    (u : ℕ) (ks : List ApiKey) (k : ApiKey)
    → count_not_revoked u (ks ++ k ∷ [])
      ≡ count_not_revoked u ks + (if is_live_key_of u k then 1 else 0)
unfolding count_not_revoked
count-add u [] k = ground arith
count-add u (x ∷ ks) k = ground (arith, count-add u ks k)

-- A change that brings no key back to life.
abbrev Keeps : (ApiKey → ApiKey) → Type 0
Keeps f = (u : ℕ) (k : ApiKey) → is_live_key_of u (f k) ≡ true → is_live_key_of u k ≡ true

count-update :
    (p : ApiKey → Bool) (f : ApiKey → ApiKey)
    → Keeps f
    → (u : ℕ) (ks : List ApiKey)
    → count_not_revoked u (update_where p f ks) ≤ count_not_revoked u ks
unfolding count_not_revoked
count-update p f keep u [] = omega arith
count-update p f keep u (k ∷ ks) = ground (arith, count-update p f keep u ks, keep u k)

-- No user has more keys than the quota that are not revoked.
create-quota :
    (now v : ℕ) (name h : String) (limit expires : Option ℕ) (db : Database)
    → IsWithinQuota db
    → IsWithinQuota (create_api_key now v name h limit expires db).1
unfolding IsWithinQuota create_api_key
create-quota now v name h limit expires db q u =
    ground (arith, q u, count-add u db.api_keys (new_api_key now v name h limit expires db.next_id))

update-Keeps : (c : ApiKeyUpdate) → Keeps (changed c)
unfolding changed
update-Keeps c u k h = ground arith

update-quota :
    (now id v : ℕ) (c : ApiKeyUpdate) (db : Database)
    → IsWithinQuota db
    → IsWithinQuota (update_api_key now id v c db).1
unfolding IsWithinQuota update_api_key apply_changes
update-quota now id v c db q u =
    ground (arith, q u, count-update (λ k. k.id == id) (changed c) (update-Keeps c) u db.api_keys)

revoke-quota :
    (now id v : ℕ) (db : Database) → IsWithinQuota db → IsWithinQuota (revoke_api_key now id v db).1
unfolding IsWithinQuota revoke_api_key apply_changes
revoke-quota now id v db q u = ground (
  arith,
  q u,
  count-update (λ k. k.id == id) (λ k. record k { revoked_at = some now }) (λ v k h. ground arith) u
      db.api_keys,
)

authenticate-quota :
    (hash : String → String) (now : ℕ) (raw : String) (db : Database)
    → IsWithinQuota db
    → IsWithinQuota (authenticate hash now raw db).1
unfolding IsWithinQuota authenticate touch_last_used
authenticate-quota hash now raw db q u =
    elim (Option-cases (find_where (λ (k : ApiKey). str_eq k.key_hash (hash raw)) db.api_keys)) [
      | inl e ↦ ground (arith, e, q u)
      | inr (key, e) ↦ ground (
        arith,
        e,
        q u,
        count-update (λ k. k.id == key.id) (λ k. record k { last_used_at = some now })
            (λ v k h. ground arith) u db.api_keys,
      )
    ]

-- One call keeps every user within the quota.
call-quota :
    (hash : String → String) (call : KeyCall) (db : Database)
    → IsWithinQuota db
    → IsWithinQuota (run_call hash call db)
unfolding run_call
call-quota hash (create now u name h limit expires) db = create-quota now u name h limit expires db
call-quota hash (update now id u changes) db = update-quota now id u changes db
call-quota hash (revoke now id u) db = revoke-quota now id u db
call-quota hash (authenticate_with now raw) db = authenticate-quota hash now raw db

-- If no user has more than 20 keys that are not revoked, then none has after any sequence of the
-- calls that create, change, revoke and authenticate keys, whether these return or raise.
pub run_calls-IsWithinQuota :
    (hash : String → String) (calls : List KeyCall) (db : Database)
    → IsWithinQuota db
    → IsWithinQuota (run_calls hash calls db)
unfolding run_calls
run_calls-IsWithinQuota hash [] db q = q
run_calls-IsWithinQuota hash (c ∷ cs) db q =
    run_calls-IsWithinQuota hash cs (run_call hash c db) (call-quota hash c db q)
