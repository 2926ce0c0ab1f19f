-- ===== src/Products/Sku.antt =====
-- app/modules/products/domain/catalog.py: SKUs. Upper and folded case are parameters.
use invora_api.Base.{
  ℕ, Bool, true, false, ◌&&◌, ◌||◌, not, [], ◌∷◌, all, length, reverse, leb, ltb, ◌==◌,
  if◌then◌else◌,
}
use invora_api.Text.{Text, is_space, strip}
use invora_api.Result.{Result, ok, err, reject_if, ◌>>◌}
use invora_api.Products.Status.{ProductError, invalid_sku}

-- `str.upper` and `str.casefold`
pub record Casing : Type 0 where
  pub upper : Text → Text
  pub casefold : Text → Text

-- `re.sub(r"\s+", "-", t)`, where the flag tells whether the character before is white space.
unfoldable pub dash_spaces : Bool → Text → Text
unfolding is_space
dash_spaces in_run [] = []
dash_spaces in_run (c ∷ t) =
    let inside = dash_spaces true t in
    let outside = dash_spaces false t in
    if is_space c then (if in_run then inside else 45 ∷ inside) else c ∷ outside

-- A character of ".-_".
abbrev pub is_mark : ℕ → Bool
is_mark c = c == 46 || c == 45 || c == 95

unfoldable pub drop_marks : Text → Text
drop_marks [] = []
drop_marks (c ∷ t) = let rest = drop_marks t in if is_mark c then rest else c ∷ t

-- `t.strip(".-_")`
unfoldable pub strip_marks : Text → Text
unfolding drop_marks
strip_marks t = reverse (drop_marks (reverse (drop_marks t)))

-- [A-Z0-9]
abbrev pub is_sku_start : ℕ → Bool
is_sku_start c = leb 65 c && leb c 90 || leb 48 c && leb c 57

abbrev pub is_sku_char : ℕ → Bool
is_sku_char c = is_sku_start c || is_mark c

-- SKU_PATTERN
unfoldable pub is_sku : Text → Bool
is_sku [] = false
is_sku (c ∷ t) = is_sku_start c && leb (length t) 63 && all is_sku_char t

-- What of `normalize_sku` follows the strip.
abbrev pub check_sku : Text → Result ProductError Text
check_sku [] = err invalid_sku
check_sku (c ∷ t) = do
  reject_if (ltb 64 (length (c ∷ t))) invalid_sku
  reject_if (not (is_sku (c ∷ t))) invalid_sku
  ok (c ∷ t)

unfoldable pub normalize_sku : Casing → Text → Result ProductError Text
unfolding dash_spaces strip_marks is_sku strip
normalize_sku casing value =
    check_sku (strip_marks (dash_spaces false (casing.upper (strip value))))
