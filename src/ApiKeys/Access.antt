-- ===== src/ApiKeys/Access.antt =====
-- `ApiKeyService.revoke_api_key` (packages/api_keys/src/service.py) and the calls after it.
use plomio.Prelude.{
  none, some, true, false, refl, [], ℕ, List, ◌≡◌, Option, update_where, ◌==◌, some, false, arith,
  ◌++◌, [], String, Option-cases, find_where, str_eq, inl, inr, is_some,
}
use plomio.Core.Enums.{inactive}
use plomio.Core.Result.{ok, err, api_key_inactive}
use plomio.Database.{Database, ApiKey}
use plomio.ApiKeys.{
  find_key, resolve_api_key_status, resolve_block_reason, create_api_key, new_api_key,
  update_api_key, revoke_api_key, authenticate, apply_changes, changed, touch_last_used,
  ensure_can_spend, List, update_where, Option, false, some, ◌∷◌, [], String, find_where, str_eq,
  is_some,
}
use plomio.ApiKeys.Calls.{KeyCall, create, update, revoke, authenticate_with, run_call, run_calls}
use plomio.ApiKeys.Blocked.{reason_of, ensure_can_spend-reason}

-- The date of the revocation of the row that has the id.
unfoldable pub revocation : ℕ → List ApiKey → Option ℕ
revocation id ks = elim (find_key id ks) [ none ↦ none | some k ↦ k.revoked_at ]

revocation-add :
    (id d : ℕ) (ks : List ApiKey) (k : ApiKey)
    → revocation id ks ≡ some d
    → revocation id (ks ++ k ∷ []) ≡ some d
unfolding revocation
revocation-add id d [] k h = ground (arith, h)
revocation-add id d (x ∷ ks) k h = ground (arith, h, revocation-add id d ks k)

-- An update of other rows, or one that keeps the id and the date, keeps the date.
revocation-update :
    (id j d : ℕ) (f : ApiKey → ApiKey) (ks : List ApiKey)
    → ((k : ApiKey) → (f k).id ≡ k.id)
    → ((k : ApiKey) → (f k).revoked_at ≡ k.revoked_at)
    → revocation id ks ≡ some d
    → revocation id (update_where (λ k. k.id == j) f ks) ≡ some d
unfolding revocation
revocation-update id j d f [] i r h = h
revocation-update id j d f (x ∷ ks) i r h =
    ground (arith, h, i x, r x, revocation-update id j d f ks i r)

revocation-other :
    (id j d now : ℕ) (ks : List ApiKey)
    → (id == j) ≡ false
    → revocation id ks ≡ some d
    → revocation id (update_where (λ k. k.id == j) (λ k. record k { revoked_at = some now }) ks)
      ≡ some d
unfolding revocation
revocation-other id j d now [] n h = h
revocation-other id j d now (x ∷ ks) n h = ground (arith, h, n, revocation-other id j d now ks n)

call-revocation :
    (hash : String → String) (call : KeyCall) (id d : ℕ) (db : Database)
    → revocation id db.api_keys ≡ some d
    → revocation id (run_call hash call db).api_keys ≡ some d
unfolding run_call create_api_key update_api_key revoke_api_key authenticate apply_changes changed
    touch_last_used revocation
call-revocation hash (create now u name h limit expires) id d db r =
    ground (
      arith,
      r,
      revocation-add id d db.api_keys (new_api_key now u name h limit expires db.next_id),
    )
call-revocation hash (update now j u c) id d db r =
    ground (arith, r, revocation-update id j d (changed c) db.api_keys (λ k. refl) (λ k. refl))
call-revocation hash (revoke now j u) id d db r =
    ground (arith, r, revocation-other id j d now db.api_keys)
call-revocation hash (authenticate_with now raw) id d db r =
    elim (Option-cases (find_where (λ (k : ApiKey). str_eq k.key_hash (hash raw)) db.api_keys)) [
      | inl e ↦ ground (arith, e, r)
      | inr (key, e) ↦ ground (
        arith,
        e,
        r,
        revocation-update id key.id d (λ k. record k { last_used_at = some now }) db.api_keys
            (λ k. refl) (λ k. refl),
      )
    ]

-- A key that is revoked stays so, with the date of its revocation, whatever calls follow.
pub run_calls-revocation :
    (hash : String → String) (calls : List KeyCall) (id d : ℕ) (db : Database)
    → revocation id db.api_keys ≡ some d
    → revocation id (run_calls hash calls db).api_keys ≡ some d
unfolding run_calls
run_calls-revocation hash [] id d db r = r
run_calls-revocation hash (c ∷ cs) id d db r =
    run_calls-revocation hash cs id d (run_call hash c db) (call-revocation hash c id d db r)

revoked-now :
    (id now : ℕ) (ks : List ApiKey)
    → is_some (find_key id ks) ≡ true
    → revocation id (update_where (λ k. k.id == id) (λ k. record k { revoked_at = some now }) ks)
      ≡ some now
unfolding revocation
revoked-now id now [] h = ground (arith, h)
revoked-now id now (x ∷ ks) h = ground (arith, h, revoked-now id now ks)

reason-revoked :
    (now id d : ℕ) (db : Database)
    → revocation id db.api_keys ≡ some d
    → reason_of now id db ≡ some inactive
unfolding revocation reason_of resolve_block_reason resolve_api_key_status
reason-revoked now id d db r = ground (arith, r)

-- A call of `revoke_api_key` that returns leaves a date of revocation.
revoke-revocation :
    (now id u : ℕ) (db : Database) {key : ApiKey} {db' : Database}
    → revoke_api_key now id u db ≡ (ok key, db')
    → (d : ℕ) × (revocation id db'.api_keys ≡ some d)
unfolding revoke_api_key apply_changes revocation
revoke-revocation now id u db h = elim (Option-cases (find_key id db.api_keys)) [
  | inl e ↦ ground (arith, h, e)
  | inr (k, e) ↦ elim (Option-cases k.revoked_at) [
    | inl r ↦ (now, ground (arith, h, e, r, revoked-now id now db.api_keys))
    | inr (d, r) ↦ (d, ground (arith, h, e, r))
  ]
]

-- After a call of revoke_api_key that returns, whatever calls on keys follow and however much
-- later, the guard for spending through this key raises ApiKeyInactiveError and changes nothing.
pub revoke-ensure_can_spend :
    (hash : String → String) (now id u later : ℕ) (db : Database) {key : ApiKey} {db' : Database}
    (calls : List KeyCall)
    → revoke_api_key now id u db ≡ (ok key, db')
    → ensure_can_spend later id (run_calls hash calls db')
      ≡ (err api_key_inactive, run_calls hash calls db')
revoke-ensure_can_spend hash now id u later db {db' = db'} calls h =
    let (d, r) = revoke-revocation now id u db h in
    let kept = run_calls-revocation hash calls id d db' r in
    ground (
      arith,
      ensure_can_spend-reason later id (run_calls hash calls db'),
      reason-revoked later id d (run_calls hash calls db') kept,
    )
