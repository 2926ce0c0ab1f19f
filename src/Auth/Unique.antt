-- ===== src/Auth/Unique.antt =====
-- The unique indexes on the email of a user and on the hash of a refresh token.
use invora_api.Text.{IsUnique, add-IsUnique, map-IsUnique}
use invora_api.Auth.Rows.{User, RefreshToken, Db}
use invora_api.Auth.Kept.{Kept}
use invora_api.Auth.Service.{Env}
use invora_api.Auth.History.{History, serve_all, serve_all-Kept}

pub record IsSound (db : Db) : Type 0 where
  pub emails : IsUnique (λ (u : User). u.email) db.users
  pub hashes : IsUnique (λ (t : RefreshToken). t.token_hash) db.tokens

pub IsSound-Kept : Kept IsSound
IsSound-Kept = record {
  user_added = λ u db free h. record {
    emails = add-IsUnique (λ v. v.email) u db.users free h.emails;
    hashes = h.hashes;
  };
  users_changed = λ f db same h. record {
    emails = map-IsUnique (λ v. v.email) f db.users same h.emails;
    hashes = h.hashes;
  };
  token_added = λ t db free h. record {
    emails = h.emails;
    hashes = add-IsUnique (λ x. x.token_hash) t db.tokens free h.hashes;
  };
  tokens_changed = λ f db revises h. record {
    emails = h.emails;
    hashes = map-IsUnique (λ x. x.token_hash) f db.tokens revises.same_hash h.hashes;
  };
}

-- However many registrations, logins, refreshes, logouts, profile and password changes are served one
-- after the other, and however each ends, no two users have one email and no two refresh tokens have
-- one hash afterwards, when that held before.
pub serve_all-IsSound :
    (env : Env) (history : History) (db : Db) → IsSound db → IsSound (serve_all env history db)
serve_all-IsSound env = serve_all-Kept IsSound-Kept env
