-- ===== src/Auth/Operations.antt =====
-- The requests of the authentication and profile services, each of which keeps what single writes keep.
use invora_api.Base.{ℕ, Option, none, some, List}
use invora_api.Text.{Text}
use invora_api.Exec.Keeps.{Keeps, keeping}
use invora_api.Auth.Rows.{
  User, RefreshToken, Client, Db, ProfileUpdate, get_user_by_email, email_exists,
  get_refresh_token_by_hash,
}
use invora_api.Auth.Profile.{ProfileValue}
use invora_api.Auth.Service.{
  Env, build_token_pair, issue_tokens, store_user, register, check_credentials, store_login, login,
  get_current_user, get_valid_refresh_token, store_rotation, refresh_token, store_logout, logout,
}
use invora_api.Auth.Account.{
  get_active_user, store_profile, update_profile, store_password, change_password,
}
use invora_api.Auth.Kept.{
  Kept, create_user-Keeps, create_refresh_token-Keeps, revoke_refresh_token-Keeps,
  rotate_refresh_token-Keeps, update_user_profile-Keeps, update_password_hash-Keeps,
  revoke_user_refresh_tokens-Keeps,
}

module _ {P : Db → Type 0} where
  build_token_pair-Keeps :
      (env : Env) (u : User) (raw : Text) → Keeps P (build_token_pair env u raw)
  unfolding build_token_pair
  build_token_pair-Keeps env u raw = search keeping

  check_credentials-Keeps :
      (env : Env) (password : Text) (u : Option User) → Keeps P (check_credentials env password u)
  check_credentials-Keeps env password none = search keeping
  check_credentials-Keeps env password (some u) = search keeping

  get_valid_refresh_token-Keeps :
      (env : Env) (raw : Text) → Keeps P (get_valid_refresh_token env raw)
  unfolding get_valid_refresh_token get_refresh_token_by_hash
  get_valid_refresh_token-Keeps env raw = search keeping depth 9

  pub get_current_user-Keeps : (env : Env) (raw : Text) → Keeps P (get_current_user env raw)
  unfolding get_current_user
  get_current_user-Keeps env raw = search keeping depth 9

  get_active_user-Keeps : (id : ℕ) → Keeps P (get_active_user id)
  unfolding get_active_user
  get_active_user-Keeps id = search keeping

module _ {P : Db → Type 0} (k : Kept P) where
  issue_tokens-Keeps :
      (env : Env) (client : Client) (raw : Text) (u : User)
      → Keeps P (issue_tokens env client raw u)
  unfolding issue_tokens
  issue_tokens-Keeps env client raw u =
      search (keeping, create_refresh_token-Keeps k, build_token_pair-Keeps)

  store_user-Keeps :
      (env : Env) (client : Client) (raw : Text) (salt : List ℕ) (email password : Text)
      (full_name : Option Text)
      → Keeps P (store_user env client raw salt email password full_name)
  unfolding store_user
  store_user-Keeps env client raw salt email password full_name =
      search (keeping, create_user-Keeps k, issue_tokens-Keeps)

  pub register-Keeps :
      (env : Env) (client : Client) (raw : Text) (salt : List ℕ) (email password : Text)
      (full_name : Option Text)
      → Keeps P (register env client raw salt email password full_name)
  unfolding register email_exists
  register-Keeps env client raw salt email password full_name =
      search (keeping, store_user-Keeps) depth 9

  store_login-Keeps :
      (env : Env) (client : Client) (raw : Text) (u : User) → Keeps P (store_login env client raw u)
  unfolding store_login
  store_login-Keeps env client raw u = search (keeping, issue_tokens-Keeps)

  pub login-Keeps :
      (env : Env) (client : Client) (raw email password : Text)
      → Keeps P (login env client raw email password)
  unfolding login get_user_by_email
  login-Keeps env client raw email password =
      search (keeping, check_credentials-Keeps, store_login-Keeps) depth 9

  store_rotation-Keeps :
      (env : Env) (client : Client) (raw : Text) (now : ℕ) (t : RefreshToken)
      → Keeps P (store_rotation env client raw now t)
  unfolding store_rotation
  store_rotation-Keeps env client raw now t = search (keeping, rotate_refresh_token-Keeps k)

  pub refresh_token-Keeps :
      (env : Env) (client : Client) (raw old : Text) → Keeps P (refresh_token env client raw old)
  unfolding refresh_token
  refresh_token-Keeps env client raw old =
      search (keeping, get_valid_refresh_token-Keeps, store_rotation-Keeps, build_token_pair-Keeps)
        depth 12

  store_logout-Keeps : (t : RefreshToken) → Keeps P (store_logout t)
  unfolding store_logout
  store_logout-Keeps t = search (keeping, revoke_refresh_token-Keeps k)

  pub logout-Keeps : (env : Env) (raw : Text) → Keeps P (logout env raw)
  unfolding logout
  logout-Keeps env raw = search (keeping, get_valid_refresh_token-Keeps, store_logout-Keeps)

  store_profile-Keeps :
      (u : User) (updates : List ProfileUpdate) → Keeps P (store_profile u updates)
  unfolding store_profile
  store_profile-Keeps u updates = search (keeping, update_user_profile-Keeps k)

  pub update_profile-Keeps :
      (id : ℕ) (values : List (Text × ProfileValue)) → Keeps P (update_profile id values)
  unfolding update_profile
  update_profile-Keeps id values = search (keeping, get_active_user-Keeps, store_profile-Keeps)

  store_password-Keeps : (u : User) (hash : Text) → Keeps P (store_password u hash)
  unfolding store_password
  store_password-Keeps u hash =
      search (keeping, update_password_hash-Keeps k, revoke_user_refresh_tokens-Keeps k)

  pub change_password-Keeps :
      (env : Env) (salt : List ℕ) (id : ℕ) (current new : Text)
      → Keeps P (change_password env salt id current new)
  unfolding change_password
  change_password-Keeps env salt id current new =
      search (keeping, get_active_user-Keeps, store_password-Keeps)
