-- ===== src/Jobs/Summary.antt =====
-- app/modules/jobs/domain/rules.py: what may be stored as the summary of a result.
use invora_api.Base.{
  ℕ, ℤ, zero, suc, ◌≤◌, ◌≡◌, refl, Bool, false, Option, none, some, arith, Bool-cases, inl, inr,
  ◌∙◌, length, take, length-take, if◌then◌else◌, [], ◌∷◌, ◌==◌,
}
use invora_api.Text.{Text, same_text, codes}

-- The values of Python that the summaries meet: `number` stands for an int, `real` for a float, by
-- its text; `moment` for a value with `isoformat`, by that text; `other` for any other, by its `str`.
-- A `dict` has its keys as texts, `str(key)`.
mutual
  pub data Value : Type 0 where
    nothing : Value
    truth : Bool → Value
    number : ℤ → Value
    real : Text → Value
    text : Text → Value
    moment : Text → Value
    dict : Entries → Value
    items : Values → Value
    other : Text → Value

  pub data Entries : Type 0 where
    nil : Entries
    entry : Text → Value → Entries → Entries

  pub data Values : Type 0 where
    end : Values
    item : Value → Values → Values

-- `str(key).startswith("_")`
abbrev pub is_hidden : Text → Bool
is_hidden [] = false
is_hidden (c ∷ _) = c == 95

abbrev pub get : Text → Entries → Option Value
get k nil = none
get k (entry j v r) = let rest = get k r in if same_text j k then some v else rest

abbrev pub remove : Text → Entries → Entries
remove k nil = nil
remove k (entry j v r) = let rest = remove k r in if same_text j k then rest else entry j v rest

abbrev value_or : Option Value → Value → Value
value_or none v = v
value_or (some w) v = w

-- One entry of a `dict` comprehension before later ones: of entries with one key the first keeps its
-- place, and the last gives its value.
abbrev pub put_first : Text → Value → Entries → Entries
put_first k v r = entry k (value_or (get k r) v) (remove k r)

unfoldable mutual
  pub safe_value : Value → Value
  safe_value nothing = nothing
  safe_value (truth b) = truth b
  safe_value (number n) = number n
  safe_value (real t) = real t
  safe_value (text t) = text (take 500 t)
  safe_value (moment t) = text t
  safe_value (dict es) = dict (safe_entries es 20)
  safe_value (items vs) = items (safe_values vs 20)
  safe_value (other t) = text (take 500 t)

  -- The comprehension over the first n entries.
  pub safe_entries : Entries → ℕ → Entries
  safe_entries nil n = nil
  safe_entries (entry k v r) zero = nil
  safe_entries (entry k v r) (suc n) =
      let rest = safe_entries r n in
      let kept = put_first (take 64 k) (safe_value v) rest in if is_hidden k then rest else kept

  pub safe_values : Values → ℕ → Values
  safe_values end n = end
  safe_values (item v r) zero = end
  safe_values (item v r) (suc n) = item (safe_value v) (safe_values r n)

unfoldable pub sanitize_result_summary : Value → Value
unfolding safe_value
sanitize_result_summary (dict es) = dict (safe_entries es 20)
sanitize_result_summary v = dict (entry (codes "result") (safe_value v) nil)

abbrev pub count_entries : Entries → ℕ
count_entries nil = 0
count_entries (entry _ _ r) = suc (count_entries r)

-- No key is hidden or longer than 64 characters.
abbrev pub KeysFit : Entries → Type 0
KeysFit nil = Unit
KeysFit (entry k _ r) = (length k ≤ 64) × (is_hidden k ≡ false) × KeysFit r

remove-KeysFit : (k : Text) (es : Entries) → KeysFit es → KeysFit (remove k es)
remove-KeysFit k nil h = h
remove-KeysFit k (entry j v r) h = ground (arith, remove-KeysFit k r h.2)

remove-count : (k : Text) (es : Entries) → count_entries (remove k es) ≤ count_entries es
remove-count k nil = omega arith
remove-count k (entry j v r) = ground (arith, remove-count k r)

take-is_hidden : (n : ℕ) (k : Text) → is_hidden (take (suc n) k) ≡ is_hidden k
take-is_hidden n [] = refl
take-is_hidden n (c ∷ k) = refl

pub safe_entries-fits :
    (es : Entries) (n : ℕ) → (count_entries (safe_entries es n) ≤ n) × KeysFit (safe_entries es n)
unfolding safe_entries
safe_entries-fits nil n = (omega arith, tt)
safe_entries-fits (entry k v r) zero = (omega arith, tt)
safe_entries-fits (entry k v r) (suc n) = elim (Bool-cases (is_hidden k)) [
  | inl hidden ↦ rw hidden (ground (arith, (safe_entries-fits r n).0), (safe_entries-fits r n).1)
  | inr shown ↦ rw shown (
    ground (arith, (safe_entries-fits r n).0, remove-count (take 64 k) (safe_entries r n)),
    (
      ground (arith, length-take 64 k),
      take-is_hidden 63 k ∙ shown,
      remove-KeysFit (take 64 k) (safe_entries r n) (safe_entries-fits r n).1,
    ),
  )
]

-- The entries of a summary.
abbrev pub entries_of : Value → Entries
entries_of (dict es) = es
entries_of _ = nil

-- Whatever a job returns, its stored summary has at most 20 entries, with keys of at most 64
-- characters of which none is hidden.
pub sanitize_result_summary-fits :
    (v : Value)
    → (count_entries (entries_of (sanitize_result_summary v)) ≤ 20)
      × KeysFit (entries_of (sanitize_result_summary v))
unfolding sanitize_result_summary
sanitize_result_summary-fits (dict es) = safe_entries-fits es 20
sanitize_result_summary-fits v = (omega arith, (omega arith, refl, tt))
