-- ===== src/Tests/ApiKeysTests.antt =====
-- The keys of a small shop.
use plomio.Prelude.{none, some, [], ◌∷◌, refl, arith, ◌≡◌, String, List, ◌+◌}
use plomio.Core.Result.{ok, err, api_key_inactive}
use plomio.Database.{Database, ApiKey}
use plomio.Tests.{noon, key, shop}
use plomio.ApiKeys.{count_not_revoked, revoke_api_key, ensure_can_spend, apply_changes}
use plomio.ApiKeys.Calls.{KeyCall, create, authenticate_with, run_calls}
use plomio.ApiKeys.Quota.{IsWithinQuota, run_calls-IsWithinQuota}
use plomio.ApiKeys.Access.{revoke-ensure_can_spend}

-- A concrete hash.
abbrev hash : String → String
hash raw = raw

abbrev revoked_key : ApiKey
revoked_key = record key { revoked_at = some noon }

abbrev revoked_shop : Database
revoked_shop = record shop { api_keys = revoked_key ∷ [] }

abbrev calls : List KeyCall
calls = create noon 1 "second" "h2" none none ∷ authenticate_with noon "h" ∷ []

shop-IsWithinQuota : IsWithinQuota shop
unfolding IsWithinQuota count_not_revoked
shop-IsWithinQuota u = ground arith

run_calls-IsWithinQuota_example : IsWithinQuota (run_calls hash calls shop)
run_calls-IsWithinQuota_example = run_calls-IsWithinQuota hash calls shop shop-IsWithinQuota

revoke_shop : revoke_api_key noon 7 1 shop ≡ (ok revoked_key, revoked_shop)
unfolding revoke_api_key apply_changes
revoke_shop = refl

revoke-ensure_can_spend_example :
    ensure_can_spend (noon + 1) 7 (run_calls hash calls revoked_shop)
    ≡ (err api_key_inactive, run_calls hash calls revoked_shop)
revoke-ensure_can_spend_example =
    revoke-ensure_can_spend hash noon 7 1 (noon + 1) shop calls revoke_shop
