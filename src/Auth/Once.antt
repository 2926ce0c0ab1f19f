-- ===== src/Auth/Once.antt =====
-- The refresh tokens of a history of requests: each is good for one refresh, or for none.
use invora_api.Base.{
  ℕ, true, map, false, ◌≡◌, refl, some, List, find, [], ◌∷◌, Bool, ◌==◌, ◌+◌, not, arith,
}
use invora_api.Text.{Text}
use invora_api.Result.{ok, err}
use invora_api.Exec.Keeps.{after, open_session}
use invora_api.Auth.Status.{is_app_error, revoked_refresh_token}
use invora_api.Auth.Rows.{
  Db, Client, User, RefreshToken, has_hash, get_user_by_id, update_password_hash, revoke_open,
  update_user, revoke_user_refresh_tokens,
}
use invora_api.Auth.Service.{Env, AuthResult, token_hash, refresh_token, logout, is_empty}
use invora_api.Auth.Account.{get_active_user, store_password, change_password}
use invora_api.Auth.Passwords.{validate_password_strength, hash_password, verify_password}
use invora_api.Auth.Kept.{revoke_open-Revises}
use invora_api.Exec.Session.{Session}
use invora_api.Exec.Transaction.{utc_now, commit}
use invora_api.Exec.Returns.{
  Returns, ok-Returns, bind-Returns, require-Returns, raise_if-Returns, lift-Returns, try-Returns,
}
use invora_api.Auth.Unique.{IsSound}
use invora_api.Auth.History.{History, serve_all, serve_all-Kept}
use invora_api.Auth.SingleUse.{IsSpent, IsSpent-Kept, change-IsSpent}
use invora_api.Auth.Spent.{
  Spends, refresh_token-Spends, logout-Spends, get_valid_refresh_token-spent,
}

-- Presenting a spent token for a refresh.
refused :
    (env : Env) (client : Client) (raw old : Text) (clock : ℕ → ℕ) (history : History) (db : Db)
    → (is_empty old ≡ false) × IsSpent (token_hash env old) db
    → (refresh_token env client raw old (open_session clock (serve_all env history db))).0
      ≡ err revoked_refresh_token
unfolding refresh_token
refused env client raw old clock history db (given, spent) =
    rw
      (get_valid_refresh_token-spent env old (open_session clock (serve_all env history db)) given
        (serve_all-Kept (IsSpent-Kept (token_hash env old)) env history db spent))
      refl

find-holds : {A : Type 0} {x : A} (p : A → Bool) (xs : List A) → find p xs ≡ some x → p x ≡ true
find-holds p [] h = cc
find-holds {x} p (y ∷ ys) h = ground (arith, find-holds {x = x} p ys)

store_password-Spends :
    (env : Env) (old hash : Text) (user : User) (stored : RefreshToken) (s : Session Db)
    → is_empty old ≡ false
    → IsSound s.current
    → find (has_hash (token_hash env old)) s.current.tokens ≡ some stored
    → stored.user_id ≡ user.id
    → Returns (Spends env old) (store_password user hash s)
unfolding store_password update_password_hash revoke_user_refresh_tokens utc_now commit
store_password-Spends env old hash user stored s given sound found owned =
    let now = s.clock (s.reads + 1) in
    ok-Returns tt _ (
      given,
      change-IsSpent (token_hash env old) (revoke_open user.id now) stored
          (record s.current {
            users =
                map
                  (update_user user.id
                    (λ u. record u { hashed_password = hash; updated_at = s.clock s.reads }))
                  s.current.users;
          })
          (revoke_open-Revises user.id now) (ground arith) (sound.hashes (token_hash env old))
          found,
    )

get_active_user-Returns :
    (user_id : ℕ) (s : Session Db)
    → Returns
        (λ user t.
          (find (λ u. u.id == user_id) s.current.users ≡ some user) × (t.current ≡ s.current))
        (get_active_user user_id s)
unfolding get_active_user get_user_by_id
get_active_user-Returns user_id s =
    require-Returns (find (λ u. u.id == user_id) s.current.users) _ _ s (λ user found.
      raise_if-Returns (not user.is_active) _ _ s (λ active. ok-Returns user s (found, refl)))

change_password-Spends :
    (env : Env) (old : Text) (salt : List ℕ) (user_id : ℕ) (current new : Text)
    (stored : RefreshToken) (s : Session Db)
    → is_empty old ≡ false
    → IsSound s.current
    → find (has_hash (token_hash env old)) s.current.tokens ≡ some stored
    → stored.user_id ≡ user_id
    → Returns (Spends env old) (change_password env salt user_id current new s)
unfolding change_password get_active_user get_user_by_id
change_password-Spends env old salt user_id current new stored s given sound found owned =
    bind-Returns (get_active_user user_id) _ s (λ user t got.
      let (there, same) = (get_active_user-Returns user_id s).returned user t got in
      raise_if-Returns (not (verify_password env.hashing current user.hashed_password)) _ _ t
        (λ verified. lift-Returns (validate_password_strength env.characters new) _ t (λ u strong.
          let id = find-holds (λ v. v.id == user_id) s.current.users there in
          try-Returns (store_password user (hash_password env.hashing salt new)) is_app_error t (
            store_password-Spends env old _ user stored t given (rw same sound) (rw same found)
              (ground arith)))))

module _ (env : Env) (old : Text) (clock : ℕ → ℕ) (db : Db) (sound : IsSound db) where
  -- On rows with unique emails and token hashes: once a refresh with a token has succeeded, every later
  -- refresh with that token is refused as revoked, whatever requests are served in between and whatever
  -- the clock says then.
  pub refresh_token-once :
      (client : Client) (raw : Text) (result : AuthResult)
      → (refresh_token env client raw old (open_session clock db)).0 ≡ ok result
      → (history : History) (later : ℕ → ℕ) (again : Client) (next : Text)
      → (refresh_token env again next old (
          open_session later
            (serve_all env history (after (refresh_token env client raw old) clock db)))).0
        ≡ err revoked_refresh_token
  refresh_token-once client raw result succeeds history later again next =
      let m = refresh_token env client raw old (open_session clock db) in
      refused env again next old later history _ (
        (refresh_token-Spends env client raw old (open_session clock db) sound).returned result m.1
          (rw succeeds refl))

  -- On rows with unique emails and token hashes: once a logout with a refresh token has succeeded, every
  -- later refresh with that token is refused as revoked, whatever requests are served in between and
  -- whatever the clock says then.
  pub logout-ends :
      (logout env old (open_session clock db)).0 ≡ ok tt
      → (history : History) (later : ℕ → ℕ) (again : Client) (next : Text)
      → (refresh_token env again next old
          (open_session later (serve_all env history (after (logout env old) clock db)))).0
        ≡ err revoked_refresh_token
  logout-ends succeeds history later again next =
      let m = logout env old (open_session clock db) in
      refused env again next old later history _
        ((logout-Spends env old (open_session clock db) sound).returned tt m.1 (rw succeeds refl))

  -- On rows with unique emails and token hashes: once a user's password has been changed, every refresh
  -- with a token that the user had is refused as revoked, whatever requests are served in between and
  -- whatever the clock says then.
  pub change_password-ends :
      (salt : List ℕ) (user_id : ℕ) (current new : Text) (stored : RefreshToken)
      → is_empty old ≡ false
      → find (has_hash (token_hash env old)) db.tokens ≡ some stored
      → stored.user_id ≡ user_id
      → (change_password env salt user_id current new (open_session clock db)).0 ≡ ok tt
      → (history : History) (later : ℕ → ℕ) (again : Client) (next : Text)
      → (refresh_token env again next old (
          open_session later (
            serve_all env history
              (after (change_password env salt user_id current new) clock db)))).0
        ≡ err revoked_refresh_token
  change_password-ends salt user_id current new stored given found owned succeeds history later
        again next =
      let s = open_session clock db in
      let m = change_password env salt user_id current new s in
      refused env again next old later history _ (
        (change_password-Spends env old salt user_id current new stored s given sound found
            owned).returned
          tt m.1 (rw succeeds refl))
