-- ===== src/Sessions.antt =====
-- packages/sessions/src/redis_store.py: the pool of sessions of one marketplace in Redis. An instant
-- is in milliseconds; the order of two members of one score is that of their ids.
pub mod Acquired
use plomio.Prelude.{
  none, some, [], ◌∷◌, true, false, zero, suc, Option, List, ℕ, Bool, ◌==◌, String, count_where,
  find_where, filter_where, if◌then◌else◌, ltb, not, leb, ◌-◌, ◌&&◌, ◌++◌, ◌||◌, ◌+◌,
}

-- `SessionMessage`; the text stands for what a browser needs.
pub record SessionMessage : Type 0 where
  pub session_id : ℕ
  pub body : String
  pub created_at : ℕ

-- `session:{marketplace}:{id}` with its TTL.
pub record Saved : Type 0 where
  pub message : SessionMessage
  pub expires_at : ℕ

-- A member of `sessions:pool:{marketplace}` with its score.
pub record Member : Type 0 where
  pub session_id : ℕ
  pub score : ℕ

pub record Pool : Type 0 where
  pub saved : List Saved
  pub members : List Member
  pub is_marked_depleted : Bool

abbrev pub is_member : ℕ → Member → Bool
is_member id m = m.session_id == id

-- `ZADD`
abbrev pub zadd : ℕ → ℕ → List Member → List Member
zadd id score ms =
    filter_where (λ m. not (is_member id m)) ms ++ record { session_id = id; score = score } ∷ []

unfoldable pub save : ℕ → SessionMessage → ℕ → Pool → Pool
save now message ttl_ms pool = record pool {
  saved =
      filter_where (λ s. not (s.message.session_id == message.session_id)) pool.saved
      ++ record { message = message; expires_at = now + ttl_ms } ∷ [];
  members = zadd message.session_id (message.created_at + ttl_ms) pool.members;
}

-- `ZPOPMIN`
abbrev pub is_lower : Member → Member → Bool
is_lower a b = ltb a.score b.score || ((a.score == b.score) && ltb a.session_id b.session_id)

abbrev pub lower_of : Member → Option Member → Member
lower_of m none = m
lower_of m (some n) = if is_lower n m then n else m

unfoldable pub lowest : List Member → Option Member
lowest [] = none
lowest (m ∷ ms) = some (lower_of m (lowest ms))

-- The value of a key that has not expired.
abbrev pub is_live_key : ℕ → ℕ → Saved → Bool
is_live_key now id s = (s.message.session_id == id) && ltb now s.expires_at

abbrev pub get_saved : ℕ → ℕ → List Saved → Option Saved
get_saved now id saved = find_where (is_live_key now id) saved

-- What is left of the checks on a popped session: one with enough time.
abbrev pub with_margin : ℕ → ℕ → Option Saved → Option SessionMessage
with_margin now margin none = none
with_margin now margin (some s) = if ltb (s.expires_at - now) margin then none else some s.message

abbrev pub without : ℕ → Pool → Pool
without id pool = record pool { members = filter_where (λ m. not (is_member id m)) pool.members }

-- What an attempt gives.
abbrev pub Attempt : Type 0
Attempt = Option SessionMessage × Pool

-- The session that was popped, or the next attempt.
abbrev pub or_next : Option SessionMessage → Pool → (Pool → Attempt) → Attempt
or_next none pool next = next pool
or_next (some message) pool next = (some message, pool)

abbrev pub pop_one : ℕ → ℕ → Option Member → Pool → (Pool → Attempt) → Attempt
pop_one now margin none pool next = (none, pool)
pop_one now margin (some m) pool next =
    or_next (with_margin now margin (get_saved now m.session_id pool.saved))
      (without m.session_id pool) next

-- The loop of `acquire_session`, a round for each attempt.
unfoldable pub pop_each : ℕ → ℕ → ℕ → Pool → Attempt
unfolding lowest
pop_each zero now margin pool = (none, pool)
pop_each (suc attempts) now margin pool =
    pop_one now margin (lowest pool.members) pool (pop_each attempts now margin)

unfoldable pub acquire_session : ℕ → ℕ → ℕ → Pool → Option SessionMessage × Pool
unfolding pop_each
acquire_session now max_pop_attempts margin pool =
    pop_each max_pop_attempts now margin
      (record pool { members = filter_where (λ m. ltb now m.score) pool.members })

abbrev pub release_saved : ℕ → ℕ → ℕ → Option Saved → Pool → Bool × Pool
release_saved now margin id none pool = (false, pool)
release_saved now margin id (some s) pool =
    if ltb (s.expires_at - now) margin
    then (false, pool)
    else (true, record pool { members = zadd id s.expires_at pool.members })

unfoldable pub release_session : ℕ → ℕ → SessionMessage → Pool → Bool × Pool
release_session now margin message pool =
    release_saved now margin message.session_id (get_saved now message.session_id pool.saved) pool

unfoldable pub live_count : ℕ → Pool → ℕ
live_count now pool = count_where (λ m. leb now m.score) pool.members

-- The live count and the nearest end.
unfoldable pub get_pool_stats : ℕ → Pool → ℕ × Option ℕ
unfolding live_count lowest
get_pool_stats now pool = (
  live_count now pool,
  elim (lowest (filter_where (λ m. leb now m.score) pool.members)) [
    | none ↦ none
    | some m ↦ some m.score
  ],
)

-- `SET NX` and `DEL` of the mark: whether the call has changed it.
unfoldable pub mark_depleted : Pool → Bool × Pool
mark_depleted pool = (not pool.is_marked_depleted, record pool { is_marked_depleted = true })

unfoldable pub clear_depleted : Pool → Bool × Pool
clear_depleted pool = (pool.is_marked_depleted, record pool { is_marked_depleted = false })
