-- ===== src/Auth/PasswordRoundTrip.antt =====
-- Stored hashes of passwords: what `verify_password` makes of the text that `hash_password` writes.
use invora_api.Base.{ℕ, ◌≡◌, ◌↔◌, refl, ap, sym, ◌∙◌, true, List, ◌∷◌, ◌++◌}
use invora_api.Text.{Text, same_text→eq, same_text_refl, split_on-none, split_on-append}
use invora_api.Auth.Passwords.{
  Hashing, IsBase64, password_hash_iterations, password_hash_scheme, iterations_text, hash_password,
  verify_password, same_bytes,
}

module _ (h : Hashing) (b : IsBase64 h) (salt : List ℕ) (password : Text) where
  abbrev digest : Text → List ℕ
  digest p = h.pbkdf2 p salt password_hash_iterations

  verify-hash :
      (attempt : Text)
      → verify_password h attempt (hash_password h salt password)
        ≡ same_bytes (digest attempt) (digest password)
  unfolding verify_password hash_password
  verify-hash attempt =
      rw
        (
          split_on-append 36 password_hash_scheme
              (iterations_text ++ 36 ∷ (h.b64encode salt ++ 36 ∷ h.b64encode (digest password)))
              refl,
          split_on-append 36 iterations_text
              (h.b64encode salt ++ 36 ∷ h.b64encode (digest password)) refl,
          split_on-append 36 (h.b64encode salt) (h.b64encode (digest password)) (b.no_dollar salt),
          split_on-none 36 (h.b64encode (digest password)) (b.no_dollar (digest password)),
          b.decodes salt,
          b.decodes (digest password),
        )
        refl

  -- An attempt is accepted against the stored hash of a password exactly when PBKDF2 derives the same
  -- bytes from both with the salt that was drawn; the password itself is accepted, then.
  pub verify_password-hash_password :
      (attempt : Text)
      → ((verify_password h attempt (hash_password h salt password) ≡ true)
          ↔ (digest attempt ≡ digest password))
        × (verify_password h password (hash_password h salt password) ≡ true)
  verify_password-hash_password attempt = (
    (
      λ accepted.
          same_text→eq (digest attempt) (digest password) (sym (verify-hash attempt) ∙ accepted),
      λ same.
          verify-hash attempt
          ∙ ap (same_bytes (digest attempt)) (sym same)
          ∙ same_text_refl (digest attempt),
    ),
    verify-hash password ∙ same_text_refl (digest password),
  )
