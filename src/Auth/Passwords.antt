-- ===== src/Auth/Passwords.antt =====
-- app/modules/auth/domain/passwords.py: the strength of a password, and its stored hash. The tables of
-- Unicode, PBKDF2 and the coding of bytes as text are parameters.
use invora_api.Base.{
  ℕ, ◌+◌, ◌*◌, ◌-◌, ◌≡◌, Bool, false, ◌&&◌, not, Option, none, some, List, [], ◌∷◌, ◌++◌, any, all,
  length, ltb, leb, if◌then◌else◌,
}
use invora_api.Text.{Text, codes, same_text, split_on, has_char}
use invora_api.Result.{Result, reject_if, ◌>>◌}
use invora_api.Auth.Status.{AuthError, weak_password}

-- `str.islower`, `isupper`, `isdigit` and `isalnum` of one character.
pub record Characters : Type 0 where
  pub is_lower : ℕ → Bool
  pub is_upper : ℕ → Bool
  pub is_digit : ℕ → Bool
  pub is_alnum : ℕ → Bool

unfoldable pub validate_password_strength : Characters → Text → Result AuthError Unit
validate_password_strength c password = do
  reject_if (ltb (length password) 8) weak_password
  reject_if (not (any c.is_lower password)) weak_password
  reject_if (not (any c.is_upper password)) weak_password
  reject_if (not (any c.is_digit password)) weak_password
  reject_if (not (any (λ x. not (c.is_alnum x)) password)) weak_password

-- `hashlib.pbkdf2_hmac("sha256", …)` on the UTF-8 of a password, and `base64.urlsafe_b64encode` with
-- its inverse, which raises a `ValueError` for some texts. Bytes are numbers.
pub record Hashing : Type 0 where
  pub pbkdf2 : Text → List ℕ → ℕ → List ℕ
  pub b64encode : List ℕ → Text
  pub b64decode : Text → Option (List ℕ)

-- What the documentation of `base64` says: decoding undoes encoding, whose alphabet has no "$".
pub record IsBase64 (h : Hashing) : Type 0 where
  pub decodes : (bytes : List ℕ) → h.b64decode (h.b64encode bytes) ≡ some bytes
  pub no_dollar : (bytes : List ℕ) → has_char 36 (h.b64encode bytes) ≡ false

abbrev pub password_hash_scheme : Text
password_hash_scheme = codes "pbkdf2_sha256"

abbrev pub password_hash_iterations : ℕ
password_hash_iterations = 600_000

-- The iterations, as the f-string writes them.
abbrev pub iterations_text : Text
iterations_text = codes "600000"

-- The salt is what `secrets.token_bytes` has drawn.
unfoldable pub hash_password : Hashing → List ℕ → Text → Text
hash_password h salt password =
    password_hash_scheme
    ++ (36
        ∷ (iterations_text
            ++ (36
                ∷ (h.b64encode salt
                    ++ (36 ∷ h.b64encode (h.pbkdf2 password salt password_hash_iterations))))))

-- Equality of bytes, in `hmac.compare_digest`.
abbrev pub same_bytes : List ℕ → List ℕ → Bool
same_bytes = same_text

abbrev is_digit : ℕ → Bool
is_digit c = leb 48 c && leb c 57

unfoldable pub digits_value : ℕ → Text → ℕ
digits_value acc [] = acc
digits_value acc (c ∷ t) = digits_value (acc * 10 + (c - 48)) t

-- `int(text)` for the decimal digits that a stored hash has; a text of another form, such as one with
-- a sign or underscores, is refused here.
unfoldable pub parse_int : Text → Option ℕ
unfolding digits_value
parse_int [] = none
parse_int (c ∷ t) = if all is_digit (c ∷ t) then some (digits_value 0 (c ∷ t)) else none

-- The part of `verify_password` after the parts of the stored hash are decoded.
abbrev compare_hash : Hashing → Text → ℕ → Option (List ℕ) → Option (List ℕ) → Bool
compare_hash h password iterations (some salt) (some expected) =
    same_bytes (h.pbkdf2 password salt iterations) expected
compare_hash h password iterations _ _ = false

abbrev verify_parts : Hashing → Text → List Text → Bool
verify_parts h password (scheme ∷ iterations_value ∷ encoded_salt ∷ encoded_hash ∷ []) =
    elim (parse_int iterations_value) [
      | none ↦ false
      | some iterations ↦
          same_text scheme password_hash_scheme
          && compare_hash h password iterations (h.b64decode encoded_salt)
              (h.b64decode encoded_hash)
    ]
verify_parts h password _ = false

unfoldable pub verify_password : Hashing → Text → Text → Bool
unfolding parse_int split_on
verify_password h password stored_hash = verify_parts h password (split_on 36 stored_hash)
