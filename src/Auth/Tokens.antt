-- ===== src/Auth/Tokens.antt =====
-- app/modules/auth/domain/tokens.py: access tokens, three parts with dots between them. Times count
-- microseconds. HMAC-SHA256 and the coding of a JSON object as base64url text are parameters.
use invora_api.Base.{
  ℕ, ◌+◌, ◌*◌, ◌/◌, ◌≡◌, Bool, true, false, not, Option, none, some, List, [], ◌∷◌, ◌++◌, all, leb,
  ltb,
}
use invora_api.Text.{Text, codes, same_text, split_on, has_char}
use invora_api.Result.{Result, ok, err, reject_if, ◌>>=◌, ◌>>◌}
use invora_api.Auth.Status.{
  AuthError, invalid_access_token, expired_access_token, encode_error, attribute_error,
}

-- The values that the program puts into a JSON object or looks for in one: a text, a whole number that
-- `datetime.fromtimestamp` takes, a truth value, or anything else.
pub data Json : Type 0 where
  text : Text → Json
  number : ℕ → Json
  boolean : Bool → Json
  other : Json

-- A JSON object, as far as `get` reads it.
pub record Claims : Type 0 where
  pub alg : Option Json
  pub typ : Option Json
  pub type : Option Json
  pub sub : Option Json
  pub exp : Option Json
  pub iat : Option Json

-- What `json.loads` makes of a decoded part of a token: it raises, or there is a value, which may be no
-- object.
pub data Loaded : Type 0 where
  no_json no_object : Loaded
  object : Claims → Loaded

-- `_base64url_encode(_json_encode(claims))` with its inverse. `sign secret input` is the coded HMAC of a text; `same_signature` compares
-- the bytes of a coded signature with those of another, and is `none` where the first has none.
-- `uuid` reads the text of an identifier, which `uuid_text` writes.
pub record Codec : Type 0 where
  pub encode : Claims → Text
  pub decode : Text → Loaded
  pub sign : Text → Text → Text
  pub same_signature : Text → Text → Option Bool
  pub uuid : Text → Option ℕ
  pub uuid_text : ℕ → Text

abbrev pub is_ascii : ℕ → Bool
is_ascii x = ltb x 128

-- What the documentation of the libraries says: decoding undoes encoding, and the texts of base64url
-- are ASCII without a dot.
pub record IsCodec (c : Codec) : Type 0 where
  pub decodes : (o : Claims) → c.decode (c.encode o) ≡ object o
  pub encode_ascii : (o : Claims) → all is_ascii (c.encode o) ≡ true
  pub encode_no_dot : (o : Claims) → has_char 46 (c.encode o) ≡ false
  pub sign_no_dot : (secret input : Text) → has_char 46 (c.sign secret input) ≡ false
  pub same : (t : Text) → c.same_signature t t ≡ some true
  pub reads_uuid : (n : ℕ) → c.uuid (c.uuid_text n) ≡ some n

abbrev pub header : Claims
header = record {
  alg = some (text (codes "HS256"));
  typ = some (text (codes "JWT"));
  type = none;
  sub = none;
  exp = none;
  iat = none;
}

-- `int(moment.timestamp())`
abbrev pub seconds : ℕ → ℕ
seconds moment = moment / 1_000_000

unfoldable pub payload : Codec → ℕ → ℕ → ℕ → Claims
payload c subject issued_at expires_at = record {
  alg = none;
  typ = none;
  type = some (text (codes "access"));
  sub = some (text (c.uuid_text subject));
  exp = some (number (seconds expires_at));
  iat = some (number (seconds issued_at));
}

abbrev pub signing_input : Text → Text → Text
signing_input encoded_header encoded_payload = encoded_header ++ 46 ∷ encoded_payload

unfoldable pub create_access_token : Codec → ℕ → Text → ℕ → ℕ → Text
unfolding payload
create_access_token c subject secret expires_delta issued_at =
    let encoded_header = c.encode header in
    let encoded_payload = c.encode (payload c subject issued_at (issued_at + expires_delta)) in
    encoded_header
    ++ 46 ∷ (encoded_payload ++ 46 ∷ c.sign secret (signing_input encoded_header encoded_payload))

pub record AccessTokenPayload : Type 0 where
  pub subject : ℕ
  pub expires_at : ℕ

abbrev pub three_parts : List Text → Result AuthError (Text × Text × Text)
three_parts (a ∷ b ∷ c ∷ []) = ok (a, b, c)
three_parts _ = err invalid_access_token

abbrev pub or_invalid : {A : Type 0} → Option A → Result AuthError A
or_invalid none = err invalid_access_token
or_invalid (some a) = ok a

abbrev pub is_text : Option Json → Text → Bool
is_text (some (text s)) t = same_text s t
is_text _ t = false

-- `json.loads` in its `try` block
abbrev pub loaded : Loaded → Result AuthError Loaded
loaded no_json = err invalid_access_token
loaded no_object = ok no_object
loaded (object o) = ok (object o)

-- What has a method `get`; nothing catches the `AttributeError` of another value.
abbrev pub as_object : Loaded → Result AuthError Claims
as_object (object o) = ok o
as_object _ = err attribute_error

-- `isinstance(value, int)`, of which a truth value is an instance: True is 1, and False is 0.
abbrev pub as_number : Option Json → Result AuthError ℕ
as_number (some (number n)) = ok n
as_number (some (boolean true)) = ok 1
as_number (some (boolean false)) = ok 0
as_number _ = err invalid_access_token

abbrev pub as_text : Option Json → Result AuthError Text
as_text (some (text t)) = ok t
as_text _ = err invalid_access_token

-- The ASCII coding of the signed text raises a `UnicodeEncodeError` that nothing catches.
unfoldable pub decode_access_token : Codec → Text → Text → ℕ → Result AuthError AccessTokenPayload
unfolding split_on
decode_access_token c token secret now = do
  parts ← three_parts (split_on 46 token)
  reject_if (not (all is_ascii (signing_input parts.0 parts.1))) encode_error
  genuine ← or_invalid (c.same_signature parts.2 (c.sign secret (signing_input parts.0 parts.1)))
  reject_if (not genuine) invalid_access_token
  loaded_header ← loaded (c.decode parts.0)
  loaded_payload ← loaded (c.decode parts.1)
  head ← as_object loaded_header
  reject_if (not (is_text head.alg (codes "HS256"))) invalid_access_token
  claims ← as_object loaded_payload
  reject_if (not (is_text claims.type (codes "access"))) invalid_access_token
  expires_at_raw ← as_number claims.exp
  subject_raw ← as_text claims.sub
  let expires_at = expires_at_raw * 1_000_000
  reject_if (leb expires_at now) expired_access_token
  subject ← or_invalid (c.uuid subject_raw)
  ok (record { subject = subject; expires_at = expires_at })
