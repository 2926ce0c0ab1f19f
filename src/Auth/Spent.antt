-- ===== src/Auth/Spent.antt =====
-- A refresh token that has been used, or logged out, is refused from then on.
use invora_api.Base.{
  ℕ, ◌+◌, ◌≡◌, refl, Bool, false, not, none, some, is_some, List, [], ◌∷◌, ◌++◌, find, any, ◌==◌,
  inl, inr, arith, Bool-cases, leb,
}
use invora_api.Text.{Text, add-IsUnique}
use invora_api.Result.{err}
use invora_api.Exec.{try_except}
use invora_api.Exec.Session.{Session, tick}
use invora_api.Exec.Transaction.{utc_now, commit, refuse, rollback_if}
use invora_api.Exec.Returns.{
  Returns, bind-Returns, require-Returns, raise_if-Returns, ok-Returns, err-Returns, try-Returns,
}
use invora_api.Auth.Status.{revoked_refresh_token, integrity_error, is_app_error}
use invora_api.Auth.Rows.{
  RefreshToken, Db, Client, has_hash, get_refresh_token_by_hash, get_user_by_id,
  create_refresh_token, revoke_refresh_token, rotate_refresh_token, add_token, new_token,
}
use invora_api.Auth.Service.{
  Env, token_hash, is_empty, get_valid_refresh_token, refresh_token, store_rotation,
  build_token_pair, logout, store_logout, days,
}
use invora_api.Auth.Unique.{IsSound}
use invora_api.Auth.SingleUse.{IsSpent, revoke-IsSpent, spent_found}

-- The session of a valid token: the token is found under its hash, and nothing is written.
abbrev FoundIn : Env → Text → Session Db → RefreshToken → Session Db → Type 0
FoundIn env raw s stored t =
    (is_empty raw ≡ false)
    × (find (has_hash (token_hash env raw)) s.current.tokens ≡ some stored)
    × (t.current ≡ s.current)

get_valid_refresh_token-Returns :
    (env : Env) (raw : Text) (s : Session Db)
    → Returns (FoundIn env raw s) (get_valid_refresh_token env raw s)
unfolding get_valid_refresh_token get_refresh_token_by_hash utc_now
get_valid_refresh_token-Returns env raw s = raise_if-Returns (is_empty raw) _ _ s (λ given.
    require-Returns (find (has_hash (token_hash env raw)) s.current.tokens) _ _ s (λ stored found.
      raise_if-Returns (is_some stored.revoked_at) _ _ s (λ valid.
        raise_if-Returns (leb stored.expires_at (s.clock s.reads)) _ _ (tick s)
          (λ fresh. ok-Returns stored _ (given, found, refl)))))

-- A request that returns has found its refresh token and spent it.
abbrev pub Spends : {A : Type 0} → Env → Text → A → Session Db → Type 0
Spends env old a s = (is_empty old ≡ false) × IsSpent (token_hash env old) s.committed

store_logout-Spends :
    (env : Env) (old : Text) (stored : RefreshToken) (s : Session Db)
    → is_empty old ≡ false
    → IsSound s.current
    → find (has_hash (token_hash env old)) s.current.tokens ≡ some stored
    → Returns (Spends env old) (store_logout stored s)
unfolding store_logout utc_now revoke_refresh_token commit
store_logout-Spends env old stored s given sound found = ok-Returns tt _ (
  given,
  revoke-IsSpent (token_hash env old) stored (s.clock s.reads) none s.current
      (sound.hashes (token_hash env old)) found,
)

find-append :
    {A : Type 0} {x : A} (p : A → Bool) (xs ys : List A)
    → find p xs ≡ some x
    → find p (xs ++ ys) ≡ some x
find-append p [] ys h = cc
find-append {x} p (z ∷ xs) ys h = ground (arith, find-append {x = x} p xs ys)

store_rotation-Spends :
    (env : Env) (client : Client) (raw old : Text) (now : ℕ) (stored : RefreshToken)
    (s : Session Db)
    → is_empty old ≡ false
    → IsSound s.current
    → find (has_hash (token_hash env old)) s.current.tokens ≡ some stored
    → Returns (Spends env old) (store_rotation env client raw now stored s)
unfolding store_rotation rotate_refresh_token create_refresh_token revoke_refresh_token refuse
    commit
store_rotation-Spends env client raw old now stored s given sound found =
    let expires = now + days env.refresh_token_expire_days in
    let hash = token_hash env old in
    let new = new_token s.current.next_id stored.user_id (token_hash env raw) expires client in
    elim (Bool-cases (any (has_hash (token_hash env raw)) s.current.tokens)) [
      | inl there ↦ rw there (err-Returns integrity_error _)
      | inr free ↦ rw free (
          ok-Returns tt _ (
            given,
            revoke-IsSpent hash stored now (some new.id) (add_token new s.current)
                (add-IsUnique (λ t. t.token_hash) new s.current.tokens free sound.hashes hash)
                (find-append (has_hash hash) s.current.tokens (new ∷ []) found),
          ))
    ]

pub logout-Spends :
    (env : Env) (old : Text) (s : Session Db)
    → IsSound s.current
    → Returns (Spends env old) (logout env old s)
unfolding logout
logout-Spends env old s sound = bind-Returns (get_valid_refresh_token env old) _ s (λ stored t got.
    let (given, found, same) = (get_valid_refresh_token-Returns env old s).returned stored t got in
    try-Returns (store_logout stored) is_app_error t
      (store_logout-Spends env old stored t given (rw same sound) (rw same found)))

pub refresh_token-Spends :
    (env : Env) (client : Client) (raw old : Text) (s : Session Db)
    → IsSound s.current
    → Returns (Spends env old) (refresh_token env client raw old s)
unfolding refresh_token get_user_by_id utc_now build_token_pair
refresh_token-Spends env client raw old s sound =
    bind-Returns (get_valid_refresh_token env old) _ s (λ stored t got.
      let (given, found, same) =
        (get_valid_refresh_token-Returns env old s).returned stored t got in
      require-Returns (find (λ u. u.id == stored.user_id) t.current.users) _ _ t (λ user of_token.
        raise_if-Returns (not user.is_active) _ _ t (λ active.
          bind-Returns
            (try_except (store_rotation env client raw (t.clock t.reads) stored)
              (rollback_if is_app_error))
            _ (tick t)
            (λ u t' rotated. ok-Returns _ _ (
              (try-Returns (store_rotation env client raw (t.clock t.reads) stored) is_app_error
                  (tick t)
                  (store_rotation-Spends env client raw old (t.clock t.reads) stored (tick t) given
                    (rw same sound) (rw same found))).returned
                u t' rotated)))))

-- A spent token is refused as revoked, whatever the clock says, before anything is written.
pub get_valid_refresh_token-spent :
    (env : Env) (old : Text) (s : Session Db)
    → is_empty old ≡ false
    → IsSpent (token_hash env old) s.current
    → get_valid_refresh_token env old s ≡ (err revoked_refresh_token, s)
unfolding get_valid_refresh_token get_refresh_token_by_hash
get_valid_refresh_token-spent env old s given spent =
    let (t, found, revoked) = spent_found _ s.current.tokens spent.issued spent.revoked in
    rw given (rw found (rw revoked refl))
