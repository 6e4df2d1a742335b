-- ===== src/Core/Result.antt =====
-- Exceptions as values. The constructors are the exception classes of core/exceptions.py and of
-- the packages' exceptions.py that the modelled services raise, and `NoResultFound` of SQLAlchemy's
-- `scalar_one`, and its `IntegrityError`.
use plomio.Prelude.{Bool, true, false}

pub data Error : Type 0 where
  object_not_found duplicated_object no_result_found : Error
  integrity_error invalid_check_frequency duplicate_automation : Error
  invalid_task_transition task_item_not_excludable : Error
  insufficient_credits spending_limit_exceeded overlapping_pricing_rule : Error
  api_key_inactive api_key_credit_limit_exceeded api_key_expired api_key_revoked : Error
  api_key_quota_exceeded invalid_api_key invalid_api_key_expiry : Error

pub data Result (A : Type 0) : Type 0 where
  ok : A → Result A
  err : Error → Result A

abbrev pub is_ok : {A : Type 0} → Result A → Bool
is_ok (ok a) = true
is_ok (err e) = false
