-- ===== src/Worker/Retry/Bounds.antt =====
-- How often an error may be tried again, by `resolve_retry_policy`.
use plomio.Prelude.{false, ◌≡◌, ◌≤◌, arith}
use plomio.Worker.Retry.{
  ParserError, resolve_retry_policy, resolve_error_outcome, is_blocked, not_found,
}

-- No policy allows more than three further attempts.
pub max_attempts-le : (e : ParserError) → (resolve_retry_policy e).max_attempts ≤ 3
unfolding resolve_retry_policy
max_attempts-le e = ground arith

-- An error of which the client is told that there is no such thing is not tried again, unless the
-- marketplace has blocked the session.
pub resolve_retry_policy-not_found :
    (e : ParserError)
    → resolve_error_outcome e ≡ not_found
    → is_blocked e ≡ false
    → (resolve_retry_policy e).max_attempts ≡ 0
unfolding resolve_retry_policy resolve_error_outcome
resolve_retry_policy-not_found e h k = ground (arith, h, k)
