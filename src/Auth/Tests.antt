-- ===== src/Auth/Tests.antt =====
-- The theorems on accounts, tokens and the rate limiter at concrete requests.
use invora_api.Base.{
  ℕ, ◌+◌, ◌-◌, ◌≤◌, ◌≡◌, ◌↔◌, refl, ap, true, false, Option, none, some, List, [], ◌∷◌, map, leb,
  arith, if◌then◌else◌,
}
use invora_api.Text.{Text, codes, has_char, same_text, same_text_refl}
use invora_api.Result.{ok, err}
use invora_api.Exec.Keeps.{open_session, after}
use invora_api.Exec.Transaction.{utc_now, commit}
use invora_api.Auth.Status.{revoked_refresh_token}
use invora_api.Auth.Passwords.{
  Characters, Hashing, IsBase64, validate_password_strength, hash_password, verify_password,
}
use invora_api.Auth.PasswordRoundTrip.{verify_password-hash_password}
use invora_api.Auth.Tokens.{create_access_token, decode_access_token}
use invora_api.Auth.TokenLaws.{decode-create_access_token}
use invora_api.Auth.Genuine.{decode_access_token-Genuine, Genuine}
use invora_api.Auth.TestCodec.{test_codec, test_codec-IsCodec}
use invora_api.Auth.Rows.{User, RefreshToken, Db, Client}
use invora_api.Auth.Service.{Env, AuthResult, refresh_token, logout}
use invora_api.Auth.Account.{change_password}
use invora_api.Auth.Unique.{IsSound, serve_all-IsSound}
use invora_api.Auth.History.{History, serve_all, to_login, to_refresh}
use invora_api.Auth.Once.{refresh_token-once, logout-ends, change_password-ends}
use invora_api.Auth.RateLimit.{Redis, IsCounting, Limiter, key}
use invora_api.Auth.RateLaws.{passed, passed-within}

shifted-no_dollar : (bytes : List ℕ) → has_char 36 (map (λ n. n + 37) bytes) ≡ false
shifted-no_dollar [] = refl
shifted-no_dollar (n ∷ bytes) = ground (arith, shifted-no_dollar bytes)

shifted_back : (bytes : List ℕ) → map (λ n. n - 37) (map (λ n. n + 37) bytes) ≡ bytes
shifted_back [] = refl
shifted_back (n ∷ bytes) = let e : n + 37 - 37 ≡ n = omega arith in rw (e, shifted_back bytes) refl

-- A stand-in for PBKDF2 that writes the password down, and for base64 that shifts each byte.
abbrev plain_hashing : Hashing
plain_hashing = record {
  pbkdf2 = λ password salt iterations. password;
  b64encode = map (λ n. n + 37);
  b64decode = λ t. some (map (λ n. n - 37) t);
}

plain_hashing-IsBase64 : IsBase64 plain_hashing
plain_hashing-IsBase64 = record {
  decodes = λ bytes. ap some (shifted_back bytes);
  no_dollar = shifted-no_dollar;
}

abbrev password : Text
password = codes "Secret-1"

verify_password-hash_password_example :
    ((verify_password plain_hashing
          (codes "secret")
          (hash_password plain_hashing (1 ∷ 2 ∷ []) password)
        ≡ true)
      ↔ (codes "secret" ≡ password))
    × (verify_password plain_hashing password (hash_password plain_hashing (1 ∷ 2 ∷ []) password)
        ≡ true)
verify_password-hash_password_example =
    verify_password-hash_password plain_hashing plain_hashing-IsBase64 (1 ∷ 2 ∷ []) password
      (codes "secret")

-- A token that is valid for the two seconds from 1.5 s on.
abbrev short_token : Text
short_token = create_access_token test_codec 4 (codes "k") 2_000_000 1_500_000

decode-create_access_token_example :
    decode_access_token test_codec short_token (codes "k") 2_000_000
    ≡ ok (record { subject = 4; expires_at = 3_000_000 })
decode-create_access_token_example =
    decode-create_access_token test_codec test_codec-IsCodec 4 (codes "k") 2_000_000 1_500_000
      2_000_000

decode_access_token-Genuine_example :
    (decode_access_token test_codec short_token (codes "k") 2_000_000
      ≡ ok (record { subject = 4; expires_at = 3_000_000 }))
    ↔ Genuine test_codec short_token
        (codes "k")
        2_000_000
        (record { subject = 4; expires_at = 3_000_000 })
decode_access_token-Genuine_example =
    decode_access_token-Genuine test_codec short_token (codes "k") 2_000_000
      (record { subject = 4; expires_at = 3_000_000 })

abbrev ascii_characters : Characters
ascii_characters = record {
  is_lower = λ c. if leb 97 c then leb c 122 else false;
  is_upper = λ c. if leb 65 c then leb c 90 else false;
  is_digit = λ c. if leb 48 c then leb c 57 else false;
  is_alnum = λ c. if leb 48 c then leb c 122 else false;
}

abbrev test_env : Env
test_env = record {
  characters = ascii_characters;
  hashing = plain_hashing;
  codec = test_codec;
  hash_refresh_token = λ secret token. token;
  jwt_secret = [];
  access_token_expire_minutes = 0;
  refresh_token_expire_days = 30;
}

abbrev no_client : Client
no_client = record { user_agent = none; ip_address = none }

abbrev ada : User
ada = record {
  id = 1;
  email = codes "ada@example.com";
  full_name = none;
  phone_number = none;
  avatar_url = none;
  timezone = none;
  locale = none;
  hashed_password = hash_password plain_hashing (1 ∷ []) password;
  is_active = true;
  updated_at = 0;
}

abbrev first_token : RefreshToken
first_token = record {
  id = 2;
  user_id = 1;
  token_hash = codes "a";
  expires_at = 1000;
  revoked_at = none;
  replaced_by_token_id = none;
  user_agent = none;
  ip_address = none;
}

abbrev ada_with_token : Db
ada_with_token = record { users = ada ∷ []; tokens = first_token ∷ []; next_id = 3 }

ada_with_token-IsSound : IsSound ada_with_token
ada_with_token-IsSound = record { emails = λ k. ground arith; hashes = λ k. ground arith }

abbrev at_ten : ℕ → ℕ
at_ten n = 10

-- A login of the user and another refresh.
abbrev meanwhile : History
meanwhile =
    (at_ten, to_login no_client (codes "c") (codes "ada@example.com") password)
    ∷ (at_ten, to_refresh no_client (codes "d") (codes "c"))
    ∷ []

serve_all-IsSound_example : IsSound (serve_all test_env meanwhile ada_with_token)
serve_all-IsSound_example =
    serve_all-IsSound test_env meanwhile ada_with_token ada_with_token-IsSound

abbrev refreshed : AuthResult
refreshed = record {
  user = ada;
  tokens = record {
    access_token = create_access_token test_codec 1 [] 0 10;
    refresh_token = codes "b";
    expires_in = 0;
  };
}

refreshes :
    (refresh_token test_env no_client
      (codes "b")
      (codes "a")
      (open_session at_ten ada_with_token)).0
    ≡ ok refreshed
unfolding refresh_token create_access_token utc_now commit
refreshes = refl

refresh_token-once_example :
    (refresh_token test_env no_client (codes "e") (codes "a") (
      open_session at_ten (
        serve_all test_env meanwhile (
          after
            (refresh_token test_env no_client (codes "b") (codes "a"))
            at_ten
            ada_with_token)))).0
    ≡ err revoked_refresh_token
refresh_token-once_example =
    refresh_token-once test_env (codes "a") at_ten ada_with_token ada_with_token-IsSound no_client
      (codes "b") refreshed refreshes meanwhile at_ten no_client (codes "e")

logs_out : (logout test_env (codes "a") (open_session at_ten ada_with_token)).0 ≡ ok tt
unfolding logout utc_now commit
logs_out = refl

logout-ends_example :
    (refresh_token test_env no_client (codes "e") (codes "a") (
      open_session at_ten (
        serve_all test_env meanwhile
          (after (logout test_env (codes "a")) at_ten ada_with_token)))).0
    ≡ err revoked_refresh_token
logout-ends_example =
    logout-ends test_env (codes "a") at_ten ada_with_token ada_with_token-IsSound logs_out meanwhile
      at_ten no_client (codes "e")

abbrev new_password : Text
new_password = codes "Better-2"

changes_password :
    (change_password test_env
      (5 ∷ [])
      1
      password
      new_password
      (open_session at_ten ada_with_token)).0
    ≡ ok tt
unfolding change_password hash_password verify_password validate_password_strength utc_now commit
changes_password = refl

change_password-ends_example :
    (refresh_token test_env no_client (codes "e") (codes "a") (
      open_session at_ten (
        serve_all test_env meanwhile (
          after
            (change_password test_env (5 ∷ []) 1 password new_password)
            at_ten
            ada_with_token)))).0
    ≡ err revoked_refresh_token
change_password-ends_example =
    change_password-ends test_env (codes "a") at_ten ada_with_token ada_with_token-IsSound (5 ∷ [])
      1 password new_password first_token refl refl refl changes_password meanwhile at_ten no_client
      (codes "e")

-- A server whose state is the number at each key.
abbrev test_redis : Redis (Text → ℕ)
test_redis = record {
  incr = λ k s. (s k + 1, λ j. if same_text j k then s j + 1 else s j);
  expire = λ k seconds s. s;
  ttl = λ k s. 900;
  lost = λ s. none;
}

abbrev at_key : Text → (Text → ℕ) → ℕ
at_key k s = s k

test_redis-IsCounting : IsCounting test_redis at_key
test_redis-IsCounting = record {
  counted = λ k s. refl;
  stored = λ k s. rw (same_text_refl k) refl;
  others = λ j k s. ground arith;
  kept = λ j k seconds s positive. refl;
  lost_kept = λ j s t h. cc;
}

abbrev two_per_account : Limiter
two_per_account = record {
  hmac = λ t. t;
  enabled = true;
  window_seconds = 900;
  login_attempts_per_ip = 20;
  login_attempts_per_account = 2;
  registration_attempts_per_ip = 5;
  refresh_attempts_per_ip = 30;
}

-- Three attempts for one account, from two addresses.
abbrev three_logins : List (Option Text × Text)
three_logins =
    (some (codes "1.1.1.1"), codes "Ada ")
    ∷ (some (codes "2.2.2.2"), codes "ada")
    ∷ (none, codes "ADA")
    ∷ []

passed-within_example :
    passed test_redis two_per_account (codes "ada") three_logins (λ k. 0)
    ≤ 2 - at_key (key two_per_account (codes "login-account") (codes "ada")) (λ k. 0)
passed-within_example =
    passed-within test_redis at_key test_redis-IsCounting two_per_account (codes "ada") three_logins
      (λ k. 0) (omega arith) refl
