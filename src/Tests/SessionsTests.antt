-- ===== src/Tests/SessionsTests.antt =====
-- A pool of two sessions.
use plomio.Prelude.{some, [], ◌∷◌, false, refl, ◌≡◌, ℕ}
use plomio.Sessions.{SessionMessage, Pool, acquire_session}
use plomio.Sessions.Acquired.{IsHeld, acquire_session-IsHeld}

abbrev session : ℕ → SessionMessage
session id = record { session_id = id; body = "cookies"; created_at = 0 }

-- The first session is about to end.
abbrev pool : Pool
pool = record {
  saved =
      record { message = session 1; expires_at = 110 }
      ∷ record { message = session 2; expires_at = 500 }
      ∷ [];
  members = record { session_id = 1; score = 110 } ∷ record { session_id = 2; score = 500 } ∷ [];
  is_marked_depleted = false;
}

second_acquired : (acquire_session 100 3 50 pool).0 ≡ some (session 2)
unfolding acquire_session
second_acquired = refl

acquire_session-IsHeld_example :
    IsHeld 100 50 (session 2) pool.saved (acquire_session 100 3 50 pool).1.members
acquire_session-IsHeld_example = acquire_session-IsHeld 100 3 50 pool (session 2) second_acquired
