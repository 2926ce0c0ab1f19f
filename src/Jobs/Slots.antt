-- ===== src/Jobs/Slots.antt =====
-- Rows of jobs found by their identifier, and the places of the unique index.
use invora_api.Base.{
  ℕ, ◌≡◌, refl, Bool, false, inl, inr, some, List, [], ◌∷◌, map, find, any, count_if, arith,
  Bool-cases, ◌==◌,
}
use invora_api.Jobs.Rows.{Job, replace_job, other_than}

-- A row written anew is found under its identifier.
pub find-replace_job :
    (i : ℕ) (new : Job) (jobs : List Job) {j : Job}
    → new.id ≡ i
    → find (λ (k : Job). k.id == i) jobs ≡ some j
    → find (λ (k : Job). k.id == i) (map (replace_job new) jobs) ≡ some new
find-replace_job i new [] e h = cc
find-replace_job i new (k ∷ jobs) {j} e h = elim (Bool-cases (k.id == new.id)) [
  | inl same ↦ rw same (ground arith)
  | inr other ↦ rw other (ground (arith, find-replace_job i new jobs {j = j} e))
]

-- Writing a row anew leaves the other rows.
pub other_than-replace_job :
    (new : Job) (jobs : List Job)
    → other_than new.id (map (replace_job new) jobs) ≡ other_than new.id jobs
other_than-replace_job new [] = refl
other_than-replace_job new (k ∷ jobs) = ground (arith, other_than-replace_job new jobs)

pub not_any→count_if : (p : Job → Bool) (jobs : List Job) → any p jobs ≡ false → count_if p jobs ≡ 0
not_any→count_if p [] h = refl
not_any→count_if p (j ∷ jobs) h = ground (arith, not_any→count_if p jobs)

-- A row found under an identifier has it.
pub find-id :
    (i : ℕ) (jobs : List Job) {j : Job} → find (λ (k : Job). k.id == i) jobs ≡ some j → j.id ≡ i
find-id i [] h = cc
find-id i (k ∷ jobs) {j} h = ground (arith, find-id i jobs {j = j})
