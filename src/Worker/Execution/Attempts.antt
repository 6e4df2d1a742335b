-- ===== src/Worker/Execution/Attempts.antt =====
-- The rounds of `PageExecutor.run` (apps/worker_parser/src/execution.py).
use native.Mathlib.Decide.{dec_lt}
use plomio.Prelude.{
  ℕ, zero, suc, ◌+◌, ◌≤◌, ◌≡◌, Bool, true, false, Option, some, refl, arith, is_some, inl, inr, ◌⊎◌,
  Option-cases, ◌<◌, ◌||◌, if◌then◌else◌,
}
use plomio.Worker.Retry.{ParserError, resolve_retry_policy, is_empty_page}
use plomio.Worker.Retry.Bounds.{max_attempts-le}
use plomio.Worker.Execution.{
  Given, returned, raised, Outcome, Executor, discard_session, is_reinit, attempt, run_from, run,
  ensure_handle, is_empty_page,
}

pub Given-cases :
    {A : Type 0} (g : Given A) → ((a : A) × (g ≡ returned a)) ⊎ ((e : ParserError) × (g ≡ raised e))
Given-cases (returned a) = inl (a, refl)
Given-cases (raised e) = inr (e, refl)

module _ {A : Type 0} (acquire : ℕ → Given ℕ) (call : ℕ → ℕ → Bool → Given A) where
  attempts-attempt :
      (b : Bool) (x : Executor) → (attempt acquire call b x).1.attempts ≤ x.attempts + 1
  unfolding attempt ensure_handle
  attempts-attempt b x = ground arith

  attempts-discard : (x : Executor) → (discard_session x).attempts ≡ x.attempts
  unfolding discard_session
  attempts-discard x = ground arith

  attempts-discarded :
      (b : Bool) (x : Executor) → (if b then discard_session x else x).attempts ≡ x.attempts
  attempts-discarded true x = attempts-discard x
  attempts-discarded false x = refl

  -- The executor after a failed attempt.
  abbrev pub failed_attempt : Bool → ParserError → Executor → Executor
  failed_attempt seen e x =
      if is_reinit (resolve_retry_policy e).session_action
      then discard_session (attempt acquire call seen x).1
      else (attempt acquire call seen x).1

  -- With `n` failures behind and fuel for the rest up to four, the loop ends.
  run_from-ends :
      (fuel n : ℕ) (retry seen : Bool) (cap : Option ℕ) (x : Executor)
      → fuel + n ≡ 4
      → n ≤ 3
      → is_some (run_from acquire call fuel retry cap n seen x) ≡ true
  unfolding run_from
  run_from-ends zero n retry seen cap x h k = ground (arith, h, k)
  run_from-ends (suc fuel) n retry seen cap x h k =
      elim (Given-cases (attempt acquire call seen x).0) [
        | inl (a, q) ↦ ground (arith, q)
        | inr (e, q) ↦ elim (dec_lt n 3) [
          | yes more ↦ ground (
            arith,
            q,
            run_from-ends fuel (n + 1) retry (seen || is_empty_page e) cap (failed_attempt seen e x)
                (omega (arith, h)) (omega (arith, more)),
          )
          | no last ↦ ground (arith, q, max_attempts-le e, last)
        ]
      ]

  -- The loop makes at most a call for each round.
  run_from-attempts :
      (fuel n : ℕ) (retry seen : Bool) (cap : Option ℕ) (x : Executor) (o : Outcome A)
      (x' : Executor)
      → run_from acquire call fuel retry cap n seen x ≡ some (o, x')
      → x'.attempts ≤ x.attempts + fuel
  unfolding run_from
  run_from-attempts zero n retry seen cap x o x' h = ground (arith, h)
  run_from-attempts (suc fuel) n retry seen cap x o x' h =
      elim (Given-cases (attempt acquire call seen x).0) [
        | inl (a, q) ↦ ground (arith, h, q, attempts-attempt seen x)
        | inr (e, q) ↦ ground (
          arith,
          h,
          q,
          attempts-attempt seen x,
          attempts-discard (attempt acquire call seen x).1,
          run_from-attempts fuel (n + 1) retry (seen || is_empty_page e) cap
              (failed_attempt seen e x) o x',
        )
      ]

  -- A cap that is not reached yet bounds the calls that are left.
  run_from-cap :
      (fuel n c : ℕ) (retry seen : Bool) (x : Executor) (o : Outcome A) (x' : Executor)
      → n < c
      → run_from acquire call fuel retry (some c) n seen x ≡ some (o, x')
      → x'.attempts + n ≤ x.attempts + c
  unfolding run_from
  run_from-cap zero n c retry seen x o x' k h = ground (arith, h)
  run_from-cap (suc fuel) n c retry seen x o x' k h =
      elim (Given-cases (attempt acquire call seen x).0) [
        | inl (a, q) ↦ ground (arith, h, q, k, attempts-attempt seen x)
        | inr (e, q) ↦ ground (
          arith,
          h,
          q,
          k,
          attempts-attempt seen x,
          attempts-discard (attempt acquire call seen x).1,
          run_from-cap fuel (n + 1) c retry (seen || is_empty_page e) (failed_attempt seen e x) o
              x',
        )
      ]

  -- Whatever the provider of sessions and the marketplace give, run ends, with at most four more
  -- calls of the marketplace.
  pub run-ends :
      (retry : Bool) (cap : Option ℕ) (x : Executor)
      → (o : Outcome A) × (x' : Executor) × (run acquire call retry cap x ≡ some (o, x'))
        × (x'.attempts ≤ x.attempts + 4)
  unfolding run
  run-ends retry cap x = elim (Option-cases (run acquire call retry cap x)) [
    | inl e ↦
        absurd (ground (arith, e, run_from-ends 4 0 retry false cap x (omega arith) (omega arith)))
    | inr ((o, x'), e) ↦ (o, x', e, run_from-attempts 4 0 retry false cap x o x' e)
  ]

  -- With a cap of at least one, run makes at most as many calls of the marketplace as the cap.
  pub run-cap :
      (retry : Bool) (c : ℕ) (x : Executor) (o : Outcome A) (x' : Executor)
      → 0 < c
      → run acquire call retry (some c) x ≡ some (o, x')
      → x'.attempts ≤ x.attempts + c
  unfolding run
  run-cap retry c x o x' k e = ground (arith, run_from-cap 4 0 c retry false x o x' k e)
