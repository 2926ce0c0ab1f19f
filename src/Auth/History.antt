-- ===== src/Auth/History.antt =====
-- Requests to the two services, one after the other.
use invora_api.Base.{ℕ, Option, List, [], ◌∷◌}
use invora_api.Text.{Text}
use invora_api.Exec.Keeps.{after, after-Keeps}
use invora_api.Auth.Rows.{Db, Client}
use invora_api.Auth.Profile.{ProfileValue}
use invora_api.Auth.Service.{Env, register, login, get_current_user, refresh_token, logout}
use invora_api.Auth.Account.{update_profile, change_password}
use invora_api.Auth.Kept.{Kept}
use invora_api.Auth.Operations.{
  register-Keeps, login-Keeps, get_current_user-Keeps, refresh_token-Keeps, logout-Keeps,
  update_profile-Keeps, change_password-Keeps,
}

-- A request, with what its random generators draw.
pub data Request : Type 0 where
  to_register :
      Client → (raw : Text) (salt : List ℕ) (email password : Text) → Option Text → Request
  to_login : Client → (raw email password : Text) → Request
  to_read : (access_token : Text) → Request
  to_refresh : Client → (raw old : Text) → Request
  to_logout : (old : Text) → Request
  to_update : (user_id : ℕ) → List (Text × ProfileValue) → Request
  to_change : (salt : List ℕ) (user_id : ℕ) (current_password new_password : Text) → Request

-- The rows that a request leaves. Each has a session of its own.
abbrev pub serve : Env → (ℕ → ℕ) → Request → Db → Db
serve env clock (to_register client raw salt email password full_name) =
    after (register env client raw salt email password full_name) clock
serve env clock (to_login client raw email password) =
    after (login env client raw email password) clock
serve env clock (to_read access_token) = after (get_current_user env access_token) clock
serve env clock (to_refresh client raw old) = after (refresh_token env client raw old) clock
serve env clock (to_logout old) = after (logout env old) clock
serve env clock (to_update user_id values) = after (update_profile user_id values) clock
serve env clock (to_change salt user_id current_password new_password) =
    after (change_password env salt user_id current_password new_password) clock

-- A history: each request with the readings of the clock while it is served.
abbrev pub History : Type 0
History = List ((ℕ → ℕ) × Request)

unfoldable pub serve_all : Env → History → Db → Db
serve_all env [] db = db
serve_all env ((clock, request) ∷ later) db = serve_all env later (serve env clock request db)

module _ {P : Db → Type 0} (k : Kept P) (env : Env) where
  pub serve-Kept :
      (clock : ℕ → ℕ) (request : Request) (db : Db) → P db → P (serve env clock request db)
  serve-Kept clock (to_register client raw salt email password full_name) db =
      after-Keeps clock db (register-Keeps k env client raw salt email password full_name)
  serve-Kept clock (to_login client raw email password) db =
      after-Keeps clock db (login-Keeps k env client raw email password)
  serve-Kept clock (to_read access_token) db =
      after-Keeps {P = P} clock db (get_current_user-Keeps env access_token)
  serve-Kept clock (to_refresh client raw old) db =
      after-Keeps clock db (refresh_token-Keeps k env client raw old)
  serve-Kept clock (to_logout old) db = after-Keeps clock db (logout-Keeps k env old)
  serve-Kept clock (to_update user_id values) db =
      after-Keeps clock db (update_profile-Keeps k user_id values)
  serve-Kept clock (to_change salt user_id current_password new_password) db =
      after-Keeps clock db (change_password-Keeps k env salt user_id current_password new_password)

  pub serve_all-Kept : (history : History) (db : Db) → P db → P (serve_all env history db)
  unfolding serve_all
  serve_all-Kept [] db h = h
  serve_all-Kept ((clock, request) ∷ later) db h =
      serve_all-Kept later (serve env clock request db) (serve-Kept clock request db h)
