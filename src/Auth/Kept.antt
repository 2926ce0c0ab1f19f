-- ===== src/Auth/Kept.antt =====
-- Predicates of the rows that every single write of the two repositories keeps.
use invora_api.Base.{
  ℕ, ◌≡◌, refl, ◌∙◌, true, false, inl, inr, Option, List, [], ◌∷◌, any, map, is_some, ◌==◌, arith,
  Bool-cases,
}
use invora_api.Text.{Text}
use invora_api.Result.{ok}
use invora_api.Exec.Transaction.{refuse}
use invora_api.Exec.Keeps.{Keeps, keeping, bind-Keeps, utc_now-Keeps, pure-Keeps}
use invora_api.Auth.Status.{AuthError}
use invora_api.Auth.Rows.{
  User, RefreshToken, Client, Db, ProfileUpdate, set_full_name, set_phone_number, set_avatar_url,
  set_timezone, set_locale, set_field, set_fields, has_email, has_hash, add_user, add_token,
  new_token, create_user, create_refresh_token, revoke_if, revoke_refresh_token,
  rotate_refresh_token, update_user, save_user, update_user_profile, update_password_hash,
  revoke_open, revoke_user_refresh_tokens,
}

-- A change of tokens that leaves their hashes, and that takes no revocation back.
pub record Revises (f : RefreshToken → RefreshToken) : Type 0 where
  pub same_hash : (t : RefreshToken) → (f t).token_hash ≡ t.token_hash
  pub stays_revoked :
      (t : RefreshToken) → is_some t.revoked_at ≡ true → is_some (f t).revoked_at ≡ true

pub record Kept (P : Db → Type 0) : Type 0 where
  pub user_added :
      (u : User) (db : Db) → any (has_email u.email) db.users ≡ false → P db → P (add_user u db)
  pub users_changed :
      (f : User → User) (db : Db)
      → ((u : User) → (f u).email ≡ u.email)
      → P db
      → P (record db { users = map f db.users })
  pub token_added :
      (t : RefreshToken) (db : Db)
      → any (has_hash t.token_hash) db.tokens ≡ false
      → P db
      → P (add_token t db)
  pub tokens_changed :
      (f : RefreshToken → RefreshToken) (db : Db)
      → Revises f
      → P db
      → P (record db { tokens = map f db.tokens })

set_field-email : (f : ProfileUpdate) (u : User) → (set_field f u).email ≡ u.email
set_field-email (set_full_name v) u = refl
set_field-email (set_phone_number v) u = refl
set_field-email (set_avatar_url v) u = refl
set_field-email (set_timezone v) u = refl
set_field-email (set_locale v) u = refl

set_fields-email : (fs : List ProfileUpdate) (u : User) → (set_fields fs u).email ≡ u.email
set_fields-email [] u = refl
set_fields-email (f ∷ fs) u = set_fields-email fs (set_field f u) ∙ set_field-email f u

update_user-email :
    (id : ℕ) (f : User → User)
    → ((u : User) → (f u).email ≡ u.email)
    → (u : User) → (update_user id f u).email ≡ u.email
update_user-email id f h u = elim (Bool-cases (u.id == id)) [
  | inl same ↦ rw same (h u)
  | inr other ↦ rw other refl
]

pub revoke_if-Revises : (id now : ℕ) (by : Option ℕ) → Revises (revoke_if id now by)
revoke_if-Revises id now by = record {
  same_hash = λ t. ground arith;
  stays_revoked = λ t h. ground arith;
}

pub revoke_open-Revises : (id now : ℕ) → Revises (revoke_open id now)
revoke_open-Revises id now = record {
  same_hash = λ t. ground arith;
  stays_revoked = λ t h. ground arith;
}

module _ {P : Db → Type 0} (k : Kept P) where
  pub create_user-Keeps :
      (email : Text) (name : Option Text) (hash : Text) → Keeps P (create_user email name hash)
  unfolding create_user refuse
  create_user-Keeps email name hash = record {
    keeps = λ s h. elim (Bool-cases (any (has_email email) s.current.users)) [
      | inl there ↦ rw there (record { current = h.committed; committed = h.committed })
      | inr free ↦
          rw free
            (record { current = k.user_added _ s.current free h.current; committed = h.committed })
    ];
  }

  pub create_refresh_token-Keeps :
      (user : ℕ) (hash : Text) (expires : ℕ) (client : Client)
      → Keeps P (create_refresh_token user hash expires client)
  unfolding create_refresh_token refuse
  create_refresh_token-Keeps user hash expires client = record {
    keeps = λ s h. elim (Bool-cases (any (has_hash hash) s.current.tokens)) [
      | inl there ↦ rw there (record { current = h.committed; committed = h.committed })
      | inr free ↦ rw free (record {
        current =
            k.token_added (new_token s.current.next_id user hash expires client) s.current free
              h.current;
        committed = h.committed;
      })
    ];
  }

  pub revoke_refresh_token-Keeps :
      (t : RefreshToken) (now : ℕ) (by : Option ℕ) → Keeps P (revoke_refresh_token t now by)
  unfolding revoke_refresh_token
  revoke_refresh_token-Keeps t now by = record {
    keeps = λ s h. record {
      current =
          k.tokens_changed (revoke_if t.id now by) s.current (revoke_if-Revises t.id now by)
            h.current;
      committed = h.committed;
    };
  }

  pub rotate_refresh_token-Keeps :
      (t : RefreshToken) (hash : Text) (expires now : ℕ) (client : Client)
      → Keeps P (rotate_refresh_token t hash expires now client)
  unfolding rotate_refresh_token
  rotate_refresh_token-Keeps t hash expires now client =
      search (keeping, create_refresh_token-Keeps, revoke_refresh_token-Keeps)

  save_user-Keeps :
      (id : ℕ) (f : User → User) → ((u : User) → (f u).email ≡ u.email) → Keeps P (save_user id f)
  save_user-Keeps id f e = record {
    keeps = λ s h. record {
      current = k.users_changed (update_user id f) s.current (update_user-email id f e) h.current;
      committed = h.committed;
    };
  }

  pub update_user_profile-Keeps :
      (u : User) (fs : List ProfileUpdate) → Keeps P (update_user_profile u fs)
  unfolding update_user_profile
  update_user_profile-Keeps u fs = bind-Keeps utc_now-Keeps (λ now.
      bind-Keeps
        (save_user-Keeps u.id (λ v. record (set_fields fs v) { updated_at = now })
          (set_fields-email fs))
        (λ _. pure-Keeps (record (set_fields fs u) { updated_at = now })))

  pub update_password_hash-Keeps : (u : User) (hash : Text) → Keeps P (update_password_hash u hash)
  unfolding update_password_hash
  update_password_hash-Keeps u hash = bind-Keeps utc_now-Keeps (λ now.
      bind-Keeps
        (save_user-Keeps u.id (λ v. record v { hashed_password = hash; updated_at = now })
          (λ v. refl))
        (λ _. pure-Keeps (record u { hashed_password = hash; updated_at = now })))

  revoke_open-Keeps :
      (user now : ℕ)
      → Keeps {D = Db} {E = AuthError} {A = Unit} P (λ s. (
        ok tt,
        record s {
          current = record s.current { tokens = map (revoke_open user now) s.current.tokens };
        },
      ))
  revoke_open-Keeps user now = record {
    keeps = λ s h. record {
      current =
          k.tokens_changed (revoke_open user now) s.current (revoke_open-Revises user now)
            h.current;
      committed = h.committed;
    };
  }

  pub revoke_user_refresh_tokens-Keeps : (user : ℕ) → Keeps P (revoke_user_refresh_tokens user)
  unfolding revoke_user_refresh_tokens
  revoke_user_refresh_tokens-Keeps user = bind-Keeps utc_now-Keeps (revoke_open-Keeps user)
