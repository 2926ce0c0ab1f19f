-- ===== src/Auth/Service.antt =====
-- app/modules/auth/application/service.py: AuthService. What the random generators draw is an
-- argument: the new refresh token `raw`, and the salt of a new password.
use invora_api.Base.{
  ℕ, ◌+◌, ◌*◌, Bool, true, false, not, Option, none, some, List, [], ◌∷◌, leb, is_some,
  if◌then◌else◌,
}
use invora_api.Text.{Text, normalize, nonempty, collapse}
use invora_api.Exec.{pure, raise, lift, require, try_except, raise_if, ◌>>=◌, ◌>>◌}
use invora_api.Exec.Transaction.{utc_now, commit, rollback_if}
use invora_api.Auth.Status.{
  is_app_error, duplicate_email, invalid_credentials, inactive_user, invalid_access_token,
  invalid_refresh_token, expired_refresh_token, revoked_refresh_token,
}
use invora_api.Auth.Passwords.{
  Characters, Hashing, validate_password_strength, hash_password, verify_password,
}
use invora_api.Auth.Tokens.{Codec, create_access_token, decode_access_token}
use invora_api.Auth.Rows.{
  User, RefreshToken, Client, Action, create_user, get_user_by_email, get_user_by_id, email_exists,
  create_refresh_token, get_refresh_token_by_hash, revoke_refresh_token, rotate_refresh_token,
}

-- What the service takes from its libraries and its settings. `hash_refresh_token secret token` is the
-- HMAC of a token in hexadecimal digits.
pub record Env : Type 0 where
  pub characters : Characters
  pub hashing : Hashing
  pub codec : Codec
  pub hash_refresh_token : Text → Text → Text
  pub jwt_secret : Text
  pub access_token_expire_minutes : ℕ
  pub refresh_token_expire_days : ℕ

abbrev pub token_hash : Env → Text → Text
token_hash env raw = env.hash_refresh_token env.jwt_secret raw

-- `timedelta(days=n)` and `timedelta(minutes=n)`, in microseconds.
abbrev pub days : ℕ → ℕ
days n = n * 86_400_000_000

abbrev pub minutes : ℕ → ℕ
minutes n = n * 60_000_000

pub record TokenPair : Type 0 where
  pub access_token : Text
  pub refresh_token : Text
  pub expires_in : ℕ

pub record AuthResult : Type 0 where
  pub user : User
  pub tokens : TokenPair

-- `normalize_email`
abbrev pub normalize_email : Text → Text
normalize_email email = normalize email

unfoldable pub normalize_full_name : Option Text → Option Text
unfolding collapse
normalize_full_name none = none
normalize_full_name (some full_name) = nonempty (collapse full_name)

unfoldable pub build_token_pair : Env → User → Text → Action TokenPair
build_token_pair env user refresh_token = do
  issued_at ← utc_now
  pure (record {
    access_token =
        create_access_token env.codec user.id env.jwt_secret
          (minutes env.access_token_expire_minutes) issued_at;
    refresh_token = refresh_token;
    expires_in = env.access_token_expire_minutes * 60;
  })

unfoldable pub issue_tokens : Env → Client → Text → User → Action TokenPair
unfolding build_token_pair create_refresh_token
issue_tokens env client raw user = do
  now ← utc_now
  create_refresh_token user.id (token_hash env raw) (now + days env.refresh_token_expire_days)
      client
  build_token_pair env user raw

-- The `try` block of `register`.
unfoldable pub store_user :
    Env → Client → Text → List ℕ → Text → Text → Option Text → Action AuthResult
unfolding issue_tokens create_user normalize_full_name
store_user env client raw salt email password full_name = do
  user ← create_user email (normalize_full_name full_name) (hash_password env.hashing salt password)
  tokens ← issue_tokens env client raw user
  commit
  pure (record { user = user; tokens = tokens })

unfoldable pub register :
    Env → Client → Text → List ℕ → Text → Text → Option Text → Action AuthResult
unfolding store_user email_exists
register env client raw salt email password full_name = do
  lift (validate_password_strength env.characters password)
  exists ← email_exists (normalize_email email)
  raise_if exists duplicate_email
  try_except (store_user env client raw salt (normalize_email email) password full_name)
      (rollback_if is_app_error)

-- `user is None or not verify_password(…)`
abbrev pub check_credentials : Env → Text → Option User → Action User
check_credentials env password none = raise invalid_credentials
check_credentials env password (some user) =
    if verify_password env.hashing password user.hashed_password
    then pure user
    else raise invalid_credentials

-- The `try` block of `login`.
unfoldable pub store_login : Env → Client → Text → User → Action AuthResult
unfolding issue_tokens
store_login env client raw user = do
  tokens ← issue_tokens env client raw user
  commit
  pure (record { user = user; tokens = tokens })

unfoldable pub login : Env → Client → Text → Text → Text → Action AuthResult
unfolding store_login get_user_by_email
login env client raw email password = do
  found ← get_user_by_email (normalize_email email)
  user ← check_credentials env password found
  raise_if (not user.is_active) inactive_user
  try_except (store_login env client raw user) (rollback_if is_app_error)

-- `decode_access_token` reads the clock itself.
unfoldable pub get_current_user : Env → Text → Action User
unfolding get_user_by_id
get_current_user env access_token = do
  now ← utc_now
  payload ← lift (decode_access_token env.codec access_token env.jwt_secret now)
  found ← get_user_by_id payload.subject
  user ← require found invalid_access_token
  raise_if (not user.is_active) inactive_user
  pure user

abbrev pub is_empty : Text → Bool
is_empty [] = true
is_empty (_ ∷ _) = false

unfoldable pub get_valid_refresh_token : Env → Text → Action RefreshToken
unfolding get_refresh_token_by_hash
get_valid_refresh_token env raw_refresh_token = do
  raise_if (is_empty raw_refresh_token) invalid_refresh_token
  found ← get_refresh_token_by_hash (token_hash env raw_refresh_token)
  stored ← require found invalid_refresh_token
  raise_if (is_some stored.revoked_at) revoked_refresh_token
  now ← utc_now
  raise_if (leb stored.expires_at now) expired_refresh_token
  pure stored

-- The `try` block of `refresh_token`.
unfoldable pub store_rotation : Env → Client → Text → ℕ → RefreshToken → Action Unit
unfolding rotate_refresh_token
store_rotation env client raw now stored = do
  rotate_refresh_token stored (token_hash env raw) (now + days env.refresh_token_expire_days) now
      client
  commit

unfoldable pub refresh_token : Env → Client → Text → Text → Action AuthResult
unfolding get_valid_refresh_token store_rotation build_token_pair get_user_by_id
refresh_token env client raw old = do
  stored ← get_valid_refresh_token env old
  found ← get_user_by_id stored.user_id
  user ← require found invalid_refresh_token
  raise_if (not user.is_active) inactive_user
  now ← utc_now
  try_except (store_rotation env client raw now stored) (rollback_if is_app_error)
  tokens ← build_token_pair env user raw
  pure (record { user = user; tokens = tokens })

-- The `try` block of `logout`.
unfoldable pub store_logout : RefreshToken → Action Unit
unfolding revoke_refresh_token
store_logout stored = do now ← utc_now; revoke_refresh_token stored now none; commit

unfoldable pub logout : Env → Text → Action Unit
unfolding get_valid_refresh_token store_logout
logout env old = do
  stored ← get_valid_refresh_token env old
  try_except (store_logout stored) (rollback_if is_app_error)
