-- ===== src/Auth/Status.antt =====
-- app/modules/auth/domain/exceptions.py and app/modules/users/domain/exceptions.py: the exceptions by
-- class, and those that no handler of the two modules catches.
use invora_api.Base.{Bool, true, false, ℕ}

pub data AuthError : Type 0 where
  duplicate_email weak_password invalid_credentials inactive_user : AuthError
  invalid_access_token expired_access_token : AuthError
  invalid_refresh_token expired_refresh_token revoked_refresh_token : AuthError
  rate_limit_exceeded : ℕ → AuthError
  rate_limit_unavailable : AuthError
  profile_not_found invalid_current_password invalid_profile_update : AuthError
  integrity_error encode_error attribute_error : AuthError

-- `isinstance(exc, AppError)`
abbrev pub is_app_error : AuthError → Bool
is_app_error integrity_error = false
is_app_error encode_error = false
is_app_error attribute_error = false
is_app_error _ = true
