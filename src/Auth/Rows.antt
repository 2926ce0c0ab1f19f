-- ===== src/Auth/Rows.antt =====
-- The tables of app/modules/auth/infrastructure/models.py, and the methods of AuthRepository and of
-- UserProfileRepository (app/modules/users/infrastructure/repositories.py). An update changes the
-- columns that were set on the object, as SQLAlchemy's flush does.
use invora_api.Base.{
  ℕ, ◌+◌, Bool, true, ◌&&◌, Option, none, some, List, [], ◌∷◌, ◌++◌, map, find, any, is_none,
  if◌then◌else◌, ◌==◌,
}
use invora_api.Text.{Text, same_text}
use invora_api.Result.{ok}
use invora_api.Exec.{Exec, pure, gets, ◌>>=◌, ◌>>◌}
use invora_api.Exec.Session.{Session}
use invora_api.Exec.Transaction.{utc_now, refuse}
use invora_api.Auth.Status.{AuthError, duplicate_email, integrity_error}

pub record User : Type 0 where
  pub id : ℕ
  pub email : Text
  pub full_name : Option Text
  pub phone_number : Option Text
  pub avatar_url : Option Text
  pub timezone : Option Text
  pub locale : Option Text
  pub hashed_password : Text
  pub is_active : Bool
  pub updated_at : ℕ

pub record RefreshToken : Type 0 where
  pub id : ℕ
  pub user_id : ℕ
  pub token_hash : Text
  pub expires_at : ℕ
  pub revoked_at : Option ℕ
  pub replaced_by_token_id : Option ℕ
  pub user_agent : Option Text
  pub ip_address : Option Text

pub record Db : Type 0 where
  pub users : List User
  pub tokens : List RefreshToken
  pub next_id : ℕ

abbrev pub Action : Type 0 → Type 0
Action A = Exec (Session Db) AuthError A

abbrev pub has_email : Text → User → Bool
has_email email u = same_text u.email email

abbrev pub has_hash : Text → RefreshToken → Bool
has_hash token_hash t = same_text t.token_hash token_hash

abbrev pub add_user : User → Db → Db
add_user u db = record db { users = db.users ++ u ∷ []; next_id = db.next_id + 1 }

-- The unique index on the email makes the flush fail, which the repository reports.
unfoldable pub create_user : Text → Option Text → Text → Action User
create_user email full_name hashed_password s =
    let u : User = record {
      id = s.current.next_id;
      email = email;
      full_name = full_name;
      phone_number = none;
      avatar_url = none;
      timezone = none;
      locale = none;
      hashed_password = hashed_password;
      is_active = true;
      updated_at = s.clock s.reads;
    } in
    if any (has_email email) s.current.users
    then refuse duplicate_email s
    else (ok u, record s { current = add_user u s.current; reads = s.reads + 1 })

unfoldable pub get_user_by_email : Text → Action (Option User)
get_user_by_email email = gets (λ s. find (has_email email) s.current.users)

unfoldable pub get_user_by_id : ℕ → Action (Option User)
get_user_by_id user_id = gets (λ s. find (λ u. u.id == user_id) s.current.users)

unfoldable pub email_exists : Text → Action Bool
email_exists email = gets (λ s. any (has_email email) s.current.users)

-- Where a request comes from.
pub record Client : Type 0 where
  pub user_agent : Option Text
  pub ip_address : Option Text

abbrev pub add_token : RefreshToken → Db → Db
add_token t db = record db { tokens = db.tokens ++ t ∷ []; next_id = db.next_id + 1 }

abbrev pub new_token : ℕ → ℕ → Text → ℕ → Client → RefreshToken
new_token id user_id token_hash expires_at client = record {
  id = id;
  user_id = user_id;
  token_hash = token_hash;
  expires_at = expires_at;
  revoked_at = none;
  replaced_by_token_id = none;
  user_agent = client.user_agent;
  ip_address = client.ip_address;
}

-- The unique index on the hash makes the flush fail with an `IntegrityError`.
unfoldable pub create_refresh_token : ℕ → Text → ℕ → Client → Action RefreshToken
create_refresh_token user_id token_hash expires_at client s =
    let t = new_token s.current.next_id user_id token_hash expires_at client in
    if any (has_hash token_hash) s.current.tokens
    then refuse integrity_error s
    else (ok t, record s { current = add_token t s.current })

unfoldable pub get_refresh_token_by_hash : Text → Action (Option RefreshToken)
get_refresh_token_by_hash token_hash = gets (λ s. find (has_hash token_hash) s.current.tokens)

abbrev pub revoke : ℕ → Option ℕ → RefreshToken → RefreshToken
revoke revoked_at replaced_by t = record t {
  revoked_at = some revoked_at;
  replaced_by_token_id = replaced_by;
}

abbrev pub revoke_if : ℕ → ℕ → Option ℕ → RefreshToken → RefreshToken
revoke_if id revoked_at replaced_by t = if t.id == id then revoke revoked_at replaced_by t else t

unfoldable pub revoke_refresh_token : RefreshToken → ℕ → Option ℕ → Action Unit
revoke_refresh_token t revoked_at replaced_by s = (
  ok tt,
  record s {
    current = record s.current {
      tokens = map (revoke_if t.id revoked_at replaced_by) s.current.tokens;
    };
  },
)

unfoldable pub rotate_refresh_token : RefreshToken → Text → ℕ → ℕ → Client → Action RefreshToken
unfolding create_refresh_token revoke_refresh_token
rotate_refresh_token t new_token_hash expires_at revoked_at client = do
  new ← create_refresh_token t.user_id new_token_hash expires_at client
  revoke_refresh_token t revoked_at (some new.id)
  pure new

-- A field of the profile that an update sets.
pub data ProfileUpdate : Type 0 where
  set_full_name set_phone_number set_avatar_url : Option Text → ProfileUpdate
  set_timezone set_locale : Option Text → ProfileUpdate

abbrev pub set_field : ProfileUpdate → User → User
set_field (set_full_name v) u = record u { full_name = v }
set_field (set_phone_number v) u = record u { phone_number = v }
set_field (set_avatar_url v) u = record u { avatar_url = v }
set_field (set_timezone v) u = record u { timezone = v }
set_field (set_locale v) u = record u { locale = v }

abbrev pub set_fields : List ProfileUpdate → User → User
set_fields [] u = u
set_fields (f ∷ fs) u = set_fields fs (set_field f u)

abbrev pub update_user : ℕ → (User → User) → User → User
update_user id f u = if u.id == id then f u else u

abbrev pub save_user : ℕ → (User → User) → Action Unit
save_user id f s = (
  ok tt,
  record s { current = record s.current { users = map (update_user id f) s.current.users } },
)

unfoldable pub update_user_profile : User → List ProfileUpdate → Action User
unfolding utc_now
update_user_profile user updates = do
  now ← utc_now
  save_user user.id (λ u. record (set_fields updates u) { updated_at = now })
  pure (record (set_fields updates user) { updated_at = now })

unfoldable pub update_password_hash : User → Text → Action User
unfolding utc_now
update_password_hash user hashed_password = do
  now ← utc_now
  save_user user.id (λ u. record u { hashed_password = hashed_password; updated_at = now })
  pure (record user { hashed_password = hashed_password; updated_at = now })

abbrev pub revoke_open : ℕ → ℕ → RefreshToken → RefreshToken
revoke_open user_id now t =
    if t.user_id == user_id && is_none t.revoked_at then record t { revoked_at = some now } else t

unfoldable pub revoke_user_refresh_tokens : ℕ → Action Unit
unfolding utc_now
revoke_user_refresh_tokens user_id = do
  now ← utc_now
  λ s. (
    ok tt,
    record s {
      current = record s.current { tokens = map (revoke_open user_id now) s.current.tokens };
    },
  )
