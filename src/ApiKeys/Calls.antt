-- ===== src/ApiKeys/Calls.antt =====
-- The calls of `ApiKeyService` that write, and runs of them.
use plomio.Prelude.{ℕ, String, List, Option, []}
use plomio.Database.{Database}
use plomio.ApiKeys.{
  create_api_key, ApiKeyUpdate, update_api_key, revoke_api_key, authenticate, String, Option, List,
  ◌∷◌,
}

pub data KeyCall : Type 0 where
  create : (now user_id : ℕ) (name key_hash : String) (limit expires_at : Option ℕ) → KeyCall
  update : (now api_key_id user_id : ℕ) (changes : ApiKeyUpdate) → KeyCall
  revoke : (now api_key_id user_id : ℕ) → KeyCall
  authenticate_with : (now : ℕ) (raw_key : String) → KeyCall

-- The database after a call, whether it returns or raises; `hash` is the hash of a key's value.
unfoldable pub run_call : (String → String) → KeyCall → Database → Database
run_call hash (create now u name h limit expires) db =
    (create_api_key now u name h limit expires db).1
run_call hash (update now id u changes) db = (update_api_key now id u changes db).1
run_call hash (revoke now id u) db = (revoke_api_key now id u db).1
run_call hash (authenticate_with now raw) db = (authenticate hash now raw db).1

unfoldable pub run_calls : (String → String) → List KeyCall → Database → Database
unfolding run_call
run_calls hash [] db = db
run_calls hash (c ∷ cs) db = run_calls hash cs (run_call hash c db)
