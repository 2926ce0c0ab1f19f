-- ===== src/Text/Defs.antt =====
-- The operations on texts.
use Prim.Native.Char.{code}
use invora_api.Base.{
  ℕ, ◌+◌, String, Bool, true, false, ◌&&◌, ◌||◌, List, [], ◌∷◌, ◌++◌, map, reverse, if◌then◌else◌,
  leb, ◌==◌, Option, none, some,
}

abbrev pub Text : Type 0
Text = List ℕ

-- The code points of a literal.
abbrev pub codes : String → Text
codes String.[] = []
codes (String.◌∷◌ c s) = code c ∷ codes s

-- `a == b` on texts.
abbrev pub same_text : Text → Text → Bool
same_text [] [] = true
same_text [] (_ ∷ _) = false
same_text (_ ∷ _) [] = false
same_text (a ∷ s) (b ∷ t) = a == b && same_text s t

-- `t in (a, b, …)`
abbrev pub is_in : Text → List Text → Bool
is_in t [] = false
is_in t (a ∷ rest) = same_text t a || is_in t rest

-- `str.isspace` of one character.
unfoldable pub is_space : ℕ → Bool
is_space c =
    leb 9 c && leb c 13
    || leb 28 c && leb c 32
    || c == 133
    || c == 160
    || c == 5760
    || leb 8192 c && leb c 8202
    || c == 8232
    || c == 8233
    || c == 8239
    || c == 8287
    || c == 12288

unfoldable pub drop_space : Text → Text
unfolding is_space
drop_space [] = []
drop_space (c ∷ t) = let rest = drop_space t in if is_space c then rest else c ∷ t

-- `t.strip()`
unfoldable pub strip : Text → Text
unfolding drop_space
strip t = reverse (drop_space (reverse (drop_space t)))

unfoldable pub lower_char : ℕ → ℕ
lower_char c = if leb 65 c && leb c 90 then c + 32 else c

-- `t.lower()`
unfoldable pub lower : Text → Text
unfolding lower_char
lower t = map lower_char t

-- `t.strip().lower()`
unfoldable pub normalize : Text → Text
unfolding strip lower
normalize t = lower (strip t)

-- `t or None`
abbrev pub nonempty : Text → Option Text
nonempty [] = none
nonempty (c ∷ t) = some (c ∷ t)

-- The words of a text, the open word kept in reverse.
abbrev pub close_word : Text → List Text → List Text
close_word [] ws = ws
close_word (c ∷ w) ws = reverse (c ∷ w) ∷ ws

unfoldable pub split_from : Text → Text → List Text
unfolding is_space
split_from w [] = close_word w []
split_from w (c ∷ t) =
    let closed = close_word w (split_from [] t) in
    let open_word = split_from (c ∷ w) t in if is_space c then closed else open_word

-- `t.split()`
unfoldable pub split : Text → List Text
unfolding split_from
split t = split_from [] t

-- `" ".join(words)`
unfoldable pub join : List Text → Text
join [] = []
join (w ∷ []) = w
join (w ∷ v ∷ ws) = w ++ 32 ∷ join (v ∷ ws)

-- `" ".join(t.strip().split())`
unfoldable pub collapse : Text → Text
unfolding strip split join
collapse t = join (split (strip t))

-- `t.split(c)` for a separator of one character: the parts, of which there is always one.
abbrev pub join_head : ℕ → List Text → List Text
join_head c [] = (c ∷ []) ∷ []
join_head c (w ∷ ws) = (c ∷ w) ∷ ws

unfoldable pub split_on : ℕ → Text → List Text
split_on sep [] = [] ∷ []
split_on sep (c ∷ t) = let rest = split_on sep t in if c == sep then [] ∷ rest else join_head c rest

-- Whether a text has a character.
abbrev pub has_char : ℕ → Text → Bool
has_char sep [] = false
has_char sep (c ∷ t) = c == sep || has_char sep t

-- `t.startswith(prefix)`
abbrev pub starts_with : Text → Text → Bool
starts_with [] t = true
starts_with (p ∷ ps) [] = false
starts_with (p ∷ ps) (c ∷ t) = p == c && starts_with ps t
