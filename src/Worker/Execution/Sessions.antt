-- ===== src/Worker/Execution/Sessions.antt =====
-- The sessions that `PageExecutor` takes and gives back.
use plomio.Prelude.{
  ℕ, zero, suc, ◌+◌, ◌≡◌, Bool, true, false, Option, none, some, List, arith, is_id, count_where,
  ◌==◌, if◌then◌else◌, inl, inr, ◌||◌,
}
use plomio.Worker.Retry.{resolve_retry_policy, is_empty_page}
use plomio.Worker.Execution.{
  Given, Outcome, Executor, discard_session, close, is_reinit, attempt, ensure_handle, run_from,
  run,
}
use plomio.Worker.Execution.Attempts.{Given-cases, failed_attempt}

-- How often a session occurs.
abbrev pub times : ℕ → List ℕ → ℕ
times s = count_where (λ t. t == s)

-- The session has been given back as often as it was taken, but for the one in hand.
abbrev pub IsAccounted : ℕ → Executor → Type 0
IsAccounted s x =
    times s x.acquired
    ≡ times s x.discarded + times s x.released + (if is_id x.handle s then 1 else 0)

discard-IsAccounted : (s : ℕ) (x : Executor) → IsAccounted s x → IsAccounted s (discard_session x)
unfolding discard_session
discard-IsAccounted s x h = ground (arith, h)

discarded-IsAccounted :
    (b : Bool) (s : ℕ) (x : Executor)
    → IsAccounted s x
    → IsAccounted s (if b then discard_session x else x)
discarded-IsAccounted true s x h = discard-IsAccounted s x h
discarded-IsAccounted false s x h = h

module _ {A : Type 0} (acquire : ℕ → Given ℕ) (call : ℕ → ℕ → Bool → Given A) where
  attempt-IsAccounted :
      (s : ℕ) (b : Bool) (x : Executor)
      → IsAccounted s x
      → IsAccounted s (attempt acquire call b x).1
  unfolding attempt ensure_handle
  attempt-IsAccounted s b x h = ground (arith, h)

  run_from-IsAccounted :
      (s fuel n : ℕ) (retry seen : Bool) (cap : Option ℕ) (x : Executor) (o : Outcome A)
      (x' : Executor)
      → IsAccounted s x
      → run_from acquire call fuel retry cap n seen x ≡ some (o, x')
      → IsAccounted s x'
  unfolding run_from
  run_from-IsAccounted s zero n retry seen cap x o x' h r = ground (arith, r)
  run_from-IsAccounted s (suc fuel) n retry seen cap x o x' h r =
      let tried = attempt-IsAccounted s seen x h in
      elim (Given-cases (attempt acquire call seen x).0) [
        | inl (a, q) ↦ ground (arith, r, q, tried)
        | inr (e, q) ↦
            let left =
              discarded-IsAccounted (is_reinit (resolve_retry_policy e).session_action) s
                (attempt acquire call seen x).1 tried in
            ground (
              arith,
              r,
              q,
              left,
              discard-IsAccounted s (attempt acquire call seen x).1 tried,
              run_from-IsAccounted s fuel (n + 1) retry (seen || is_empty_page e) cap
                  (failed_attempt acquire call seen e x) o x' left,
            )
      ]

  -- If a session had been given back as often as it was taken, but for the one in hand, then after
  -- run, however it ends, and close, it has been given back as often as it was taken, and none is
  -- in hand.
  pub close-run :
      (s : ℕ) (retry : Bool) (cap : Option ℕ) (x : Executor) (o : Outcome A) (x' : Executor)
      → IsAccounted s x
      → run acquire call retry cap x ≡ some (o, x')
      → let y = close x' in
        (y.handle ≡ none) × (times s y.acquired ≡ times s y.discarded + times s y.released)
  unfolding run close
  close-run s retry cap x o x' h r =
      ground (arith, run_from-IsAccounted s 4 0 retry false cap x o x' h r)
