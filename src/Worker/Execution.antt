-- ===== src/Worker/Execution.antt =====
-- apps/worker_parser/src/execution.py: `PageExecutor`. The provider of sessions and the call of the
-- marketplace are parameters: what the n-th acquisition and the n-th call give. Timings and the
-- options that only pass through to the call are left out.
pub mod Attempts
pub mod Sessions
use plomio.Prelude.{
  ℕ, zero, suc, ◌+◌, Bool, true, false, Option, none, some, List, [], ◌∷◌, ltb, leb, not, ◌||◌,
  if◌then◌else◌,
}
use plomio.Worker.Retry.{
  ParserError, SessionAction, keep, reinit_session, RetryPolicy, resolve_retry_policy,
  is_empty_page,
}

-- What `acquire` and a call give: a value, or an exception.
pub data Given (A : Type 0) : Type 0 where
  returned : A → Given A
  raised : ParserError → Given A

-- How `run` ends: with the value of the call, with the error as it was raised, or with
-- `FetchFailedError`, which carries the error.
pub data Outcome (A : Type 0) : Type 0 where
  value : A → Outcome A
  raw_error : ParserError → Outcome A
  fetch_failed : ParserError → Outcome A

-- The session in hand, the sessions that the provider has given out and got back, newest first, and
-- the calls made of the provider and of the marketplace. A session is its id.
pub record Executor : Type 0 where
  pub handle : Option ℕ
  pub acquired : List ℕ
  pub discarded : List ℕ
  pub released : List ℕ
  pub acquire_calls : ℕ
  pub attempts : ℕ

-- `discard_session`
unfoldable pub discard_session : Executor → Executor
discard_session x = elim x.handle [
  | none ↦ x
  | some s ↦ record x { handle = none; discarded = s ∷ x.discarded }
]

unfoldable pub close : Executor → Executor
close x = elim x.handle [
  | none ↦ x
  | some s ↦ record x { handle = none; released = s ∷ x.released }
]

-- `_is_exhausted`, with the cap of the options.
abbrev pub is_exhausted : Option ℕ → ℕ → RetryPolicy → Bool
is_exhausted cap attempt_count p =
    ltb p.max_attempts attempt_count || elim cap [ none ↦ false | some c ↦ leb c attempt_count ]

abbrev pub is_reinit : SessionAction → Bool
is_reinit keep = false
is_reinit reinit_session = true

module _ {A : Type 0} (acquire : ℕ → Given ℕ) (call : ℕ → ℕ → Bool → Given A) where
  -- `_ensure_handle`
  unfoldable pub ensure_handle : Executor → Given ℕ × Executor
  ensure_handle x = elim x.handle [
    | some s ↦ (returned s, x)
    | none ↦ elim (acquire x.acquire_calls) [
      | returned s ↦ (
        returned s,
        record x {
          handle = some s;
          acquired = s ∷ x.acquired;
          acquire_calls = x.acquire_calls + 1;
        },
      )
      | raised e ↦ (raised e, record x { acquire_calls = x.acquire_calls + 1 })
    ]
  ]

  -- The body of the `try`: the session, then the call, told whether to confirm an empty page.
  unfoldable pub attempt : Bool → Executor → Given A × Executor
  unfolding ensure_handle
  attempt confirm_empty_page x =
      let (h, x') = ensure_handle x in
      elim h [
        | raised e ↦ (raised e, x')
        | returned s ↦
            (call x'.attempts s confirm_empty_page, record x' { attempts = x'.attempts + 1 })
      ]

  -- The `while True` loop of `run` on fuel, from its state `attempt_count` and `empty_page_seen`.
  unfoldable pub run_from :
      ℕ → Bool → Option ℕ → ℕ → Bool → Executor → Option (Outcome A × Executor)
  unfolding attempt discard_session
  run_from zero retry cap attempt_count empty_page_seen x = none
  run_from (suc fuel) retry cap attempt_count empty_page_seen x =
      let (r, x') = attempt empty_page_seen x in
      elim r [
        | returned a ↦ some (value a, x')
        | raised e ↦
            if retry
            then (let p = resolve_retry_policy e in
                let x'' = if is_reinit p.session_action then discard_session x' else x' in
                let rest =
                  run_from fuel retry cap (attempt_count + 1) (empty_page_seen || is_empty_page e)
                    x'' in
                if is_exhausted cap (attempt_count + 1) p then some (fetch_failed e, x'') else rest)
            else some (raw_error e, discard_session x')
      ]

  -- No policy allows more than three further attempts.
  unfoldable pub run : Bool → Option ℕ → Executor → Option (Outcome A × Executor)
  unfolding run_from
  run retry cap x = run_from 4 retry cap 0 false x
