-- ===== src/Auth/Account.antt =====
-- app/modules/users/application/service.py: UserProfileService.
use invora_api.Base.{ℕ, not, List}
use invora_api.Text.{Text}
use invora_api.Exec.{pure, lift, require, try_except, raise_if, ◌>>=◌, ◌>>◌}
use invora_api.Exec.Transaction.{commit, rollback_if}
use invora_api.Auth.Status.{
  is_app_error, profile_not_found, inactive_user, invalid_current_password,
}
use invora_api.Auth.Passwords.{validate_password_strength, hash_password, verify_password}
use invora_api.Auth.Rows.{
  User, Action, ProfileUpdate, get_user_by_id, update_user_profile, update_password_hash,
  revoke_user_refresh_tokens,
}
use invora_api.Auth.Profile.{ProfileValue, normalize_profile_updates}
use invora_api.Auth.Service.{Env}

unfoldable pub get_active_user : ℕ → Action User
unfolding get_user_by_id
get_active_user user_id = do
  found ← get_user_by_id user_id
  user ← require found profile_not_found
  raise_if (not user.is_active) inactive_user
  pure user

-- The `try` block of `update_profile`.
unfoldable pub store_profile : User → List ProfileUpdate → Action User
unfolding update_user_profile
store_profile user updates = do updated ← update_user_profile user updates; commit; pure updated

unfoldable pub update_profile : ℕ → List (Text × ProfileValue) → Action User
unfolding get_active_user store_profile
update_profile user_id values = do
  updates ← lift (normalize_profile_updates values)
  user ← get_active_user user_id
  try_except (store_profile user updates) (rollback_if is_app_error)

-- The `try` block of `change_password`.
unfoldable pub store_password : User → Text → Action Unit
unfolding update_password_hash revoke_user_refresh_tokens
store_password user new_password_hash = do
  update_password_hash user new_password_hash
  revoke_user_refresh_tokens user.id
  commit

-- The salt is what the new hash draws.
unfoldable pub change_password : Env → List ℕ → ℕ → Text → Text → Action Unit
unfolding get_active_user store_password
change_password env salt user_id current_password new_password = do
  user ← get_active_user user_id
  raise_if (not (verify_password env.hashing current_password user.hashed_password))
      invalid_current_password
  lift (validate_password_strength env.characters new_password)
  try_except (store_password user (hash_password env.hashing salt new_password))
      (rollback_if is_app_error)
