-- ===== src/Worker/Retry.antt =====
-- apps/worker_parser/src/exceptions.py, retry_policy.py and error_classifier.py: which errors are
-- tried again, with which session, and what the client is told.
pub mod Bounds
use plomio.Prelude.{
  ℕ, Bool, true, false, Option, none, some, List, [], ◌∷◌, ◌==◌, ◌&&◌, not, if◌then◌else◌,
}
use plomio.Core.Enums.{TaskItemStatus}

-- The classes below `ParserError`, with the status code of the three that are a `RequestError`;
-- `parser_error` is the root itself. `blocked` is a `RequestError`, `suspicious_thin_result` is a
-- `BlockedError`.
pub data ParserError : Type 0 where
  parser_error upstream_data input_resolution browser_init deadline_exceeded : ParserError
  empty_page_unconfirmed : ParserError
  request blocked suspicious_thin_result : (status_code : Option ℕ) → ParserError

-- `isinstance`
abbrev pub is_empty_page : ParserError → Bool
is_empty_page empty_page_unconfirmed = true
is_empty_page _ = false

abbrev pub is_thin : ParserError → Bool
is_thin (suspicious_thin_result c) = true
is_thin _ = false

abbrev pub is_blocked : ParserError → Bool
is_blocked (blocked c) = true
is_blocked (suspicious_thin_result c) = true
is_blocked _ = false

abbrev pub is_request : ParserError → Bool
is_request (request c) = true
is_request (blocked c) = true
is_request (suspicious_thin_result c) = true
is_request _ = false

abbrev pub is_upstream_data : ParserError → Bool
is_upstream_data upstream_data = true
is_upstream_data _ = false

abbrev pub is_input_resolution : ParserError → Bool
is_input_resolution input_resolution = true
is_input_resolution _ = false

abbrev pub is_browser_init : ParserError → Bool
is_browser_init browser_init = true
is_browser_init _ = false

abbrev pub is_deadline_exceeded : ParserError → Bool
is_deadline_exceeded deadline_exceeded = true
is_deadline_exceeded _ = false

-- `error.status_code`
abbrev pub status_code : ParserError → Option ℕ
status_code (request c) = c
status_code (blocked c) = c
status_code (suspicious_thin_result c) = c
status_code _ = none

abbrev pub is_not_found : ParserError → Bool
is_not_found e = is_request e && elim (status_code e) [ none ↦ false | some c ↦ c == 404 ]

pub data SessionAction : Type 0 where
  keep reinit_session : SessionAction

pub record RetryPolicy : Type 0 where
  pub max_attempts : ℕ
  pub session_action : SessionAction
  pub resulting_item_status_on_exhaustion : TaskItemStatus

abbrev pub policy : ℕ → SessionAction → RetryPolicy
policy n action = record {
  max_attempts = n;
  session_action = action;
  resulting_item_status_on_exhaustion = TaskItemStatus.failed;
}

-- `_DEFAULT_POLICY`
abbrev pub default_policy : RetryPolicy
default_policy = policy 0 keep

-- `_NOT_FOUND_POLICY`
abbrev pub not_found_policy : RetryPolicy
not_found_policy = policy 0 keep

-- `_RETRY_POLICY_MAP`: the first entry whose class holds the error decides.
abbrev pub retry_policy_map : List ((ParserError → Bool) × RetryPolicy)
retry_policy_map =
    (is_empty_page, policy 3 reinit_session)
    ∷ (is_thin, policy 3 reinit_session)
    ∷ (is_blocked, policy 3 reinit_session)
    ∷ (is_request, policy 3 reinit_session)
    ∷ (is_upstream_data, policy 1 keep)
    ∷ (is_input_resolution, policy 0 keep)
    ∷ (is_browser_init, policy 0 keep)
    ∷ []

abbrev pub first_policy : ParserError → List ((ParserError → Bool) × RetryPolicy) → RetryPolicy
first_policy e [] = default_policy
first_policy e ((holds, p) ∷ entries) = if holds e then p else first_policy e entries

unfoldable pub resolve_retry_policy : ParserError → RetryPolicy
resolve_retry_policy e =
    if is_not_found e && not (is_blocked e)
    then not_found_policy
    else first_policy e retry_policy_map

pub data ErrorOutcome : Type 0 where
  invalid_input not_found unavailable error : ErrorOutcome

unfoldable pub resolve_error_outcome : ParserError → ErrorOutcome
resolve_error_outcome e =
    if is_input_resolution e
    then invalid_input
    else (if is_not_found e
        then not_found
        else (if is_deadline_exceeded e
            then unavailable
            else (if is_browser_init e then unavailable else error)))
