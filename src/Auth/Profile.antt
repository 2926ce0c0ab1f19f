-- ===== src/Auth/Profile.antt =====
-- app/modules/users/domain/profile.py: the values of a profile update. A `dict` is a list of its
-- entries.
use invora_api.Base.{
  ℕ, Bool, true, false, ◌&&◌, ◌||◌, not, Option, none, some, List, [], ◌∷◌, map, all, any, length,
  leb, ltb, ◌==◌, if◌then◌else◌,
}
use invora_api.Text.{Text, codes, same_text, is_space, strip, collapse, starts_with}
use invora_api.Result.{Result, ok, err, ◌>>=◌, ◌>>◌, reject_if}
use invora_api.Auth.Status.{AuthError, invalid_profile_update}
use invora_api.Auth.Rows.{
  ProfileUpdate, set_full_name, set_phone_number, set_avatar_url, set_timezone, set_locale,
}

-- A value of the request: None, a text, or a value of another type.
pub data ProfileValue : Type 0 where
  null : ProfileValue
  text : Text → ProfileValue
  other : ProfileValue

-- ALLOWED_PROFILE_FIELDS
pub data Field : Type 0 where
  full_name phone_number avatar_url timezone locale : Field

unfoldable pub field_of : Text → Result AuthError Field
field_of field =
    if same_text field (codes "full_name")
    then ok full_name
    else if same_text field (codes "phone_number")
    then ok phone_number
    else if same_text field (codes "avatar_url")
    then ok avatar_url
    else if same_text field (codes "timezone")
    then ok timezone
    else if same_text field (codes "locale")
    then ok locale
    else err invalid_profile_update

abbrev pub max_length : Field → ℕ
max_length full_name = 255
max_length phone_number = 32
max_length avatar_url = 1024
max_length timezone = 64
max_length locale = 16

-- [0-9 .()\-]
abbrev pub is_phone_char : ℕ → Bool
is_phone_char c = (leb 48 c && leb c 57) || c == 32 || c == 46 || c == 40 || c == 41 || c == 45

abbrev in_range : ℕ → ℕ → ℕ → Bool
in_range low high n = leb low n && leb n high

abbrev is_phone_body : Text → Bool
is_phone_body t = in_range 7 32 (length t) && all is_phone_char t

-- PHONE_PATTERN
unfoldable pub is_phone : Text → Bool
is_phone [] = false
is_phone (c ∷ t) = if c == 43 then is_phone_body t else is_phone_body (c ∷ t)

abbrev is_lower : ℕ → Bool
is_lower c = leb 97 c && leb c 122

abbrev is_letter : ℕ → Bool
is_letter c = is_lower c || (leb 65 c && leb c 90)

-- LOCALE_PATTERN
unfoldable pub is_locale : Text → Bool
is_locale (a ∷ b ∷ []) = is_lower a && is_lower b
is_locale (a ∷ b ∷ s ∷ x ∷ y ∷ []) =
    is_lower a && is_lower b && (s == 95 || s == 45) && is_letter x && is_letter y
is_locale _ = false

abbrev pub is_valid : Field → Text → Bool
is_valid full_name value = true
is_valid phone_number value = is_phone value
is_valid avatar_url value =
    starts_with (codes "http://") value || starts_with (codes "https://") value
is_valid timezone value = not (any is_space value)
is_valid locale value = is_locale value

unfoldable pub validate_profile_field : Field → Text → Result AuthError Unit
unfolding is_phone is_locale
validate_profile_field field value = do
  reject_if (ltb (max_length field) (length value)) invalid_profile_update
  reject_if (not (is_valid field value)) invalid_profile_update

abbrev pub clean : Field → Text → Text
clean avatar_url value = strip value
clean _ value = collapse value

-- `value.replace("_", "-")` for a locale.
abbrev dashed : Text → Text
dashed t = map (λ c. if c == 95 then 45 else c) t

abbrev pub update_of : Field → Option Text → ProfileUpdate
update_of full_name v = set_full_name v
update_of phone_number v = set_phone_number v
update_of avatar_url v = set_avatar_url v
update_of timezone v = set_timezone v
update_of locale (some t) = set_locale (some (dashed t))
update_of locale none = set_locale none

abbrev checked : Field → Text → Result AuthError ProfileUpdate
checked field [] = ok (update_of field none)
checked field (c ∷ t) =
    validate_profile_field field (c ∷ t) >>= λ _. ok (update_of field (some (c ∷ t)))

abbrev pub normalize_value : Field → ProfileValue → Result AuthError ProfileUpdate
normalize_value field null = ok (update_of field none)
normalize_value field other = err invalid_profile_update
normalize_value field (text value) = checked field (clean field value)

abbrev pub normalize_entries : List (Text × ProfileValue) → Result AuthError (List ProfileUpdate)
normalize_entries [] = ok []
normalize_entries ((name, value) ∷ rest) =
    let later = normalize_entries rest in
    do field ← field_of name; u ← normalize_value field value; us ← later; ok (u ∷ us)

abbrev some_update : List ProfileUpdate → Result AuthError (List ProfileUpdate)
some_update [] = err invalid_profile_update
some_update (u ∷ us) = ok (u ∷ us)

unfoldable pub normalize_profile_updates :
    List (Text × ProfileValue) → Result AuthError (List ProfileUpdate)
unfolding field_of validate_profile_field
normalize_profile_updates values = do us ← normalize_entries values; some_update us
