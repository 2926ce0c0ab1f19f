-- ===== src/Jobs/Active.antt =====
-- The rows of jobs that the unique index on active jobs allows, and that inserts and updates keep.
use invora_api.Base.{
  ℕ, ◌+◌, ◌≤◌, ◌<◌, ◌≡◌, refl, Bool, true, false, inl, inr, List, [], ◌∷◌, ◌++◌, map, count_if,
  count_if-append, All, arith, Bool-cases, Option-cases, ◌==◌, any,
}
use invora_api.Text.{Text, same_text→eq}
use invora_api.Jobs.Rows.{Job, Db, holds_slot, slot_taken, is_id, replace_job, other_than}
use invora_api.Jobs.Slots.{not_any→count_if}

abbrev pub has_id : ℕ → Job → Bool
has_id i j = j.id == i

-- No identifier stands twice, none is used ahead of its time, and no run has two active jobs.
pub record IsSingle (db : Db) : Type 0 where
  pub ids : (i : ℕ) → count_if (has_id i) db.jobs ≤ 1
  pub known : All (λ (j : Job). j.id < db.next_id) db.jobs
  pub slots : (t : Text) (e : ℕ) → count_if (holds_slot t e) db.jobs ≤ 1

-- A row that takes a free place finds nobody there.
free-count :
    (t : Text) (e : ℕ) (j : Job) (jobs : List Job)
    → holds_slot t e j ≡ true
    → slot_taken j jobs ≡ false
    → count_if (holds_slot t e) jobs ≡ 0
free-count t e j jobs h free = elim (Option-cases j.entity_id) [
  | inl missing ↦ let absent : is_id j.entity_id e ≡ false = rw missing refl in ground arith
  | inr (e', is_some) ↦
      let same_id : is_id j.entity_id e ≡ (e' == e) = rw is_some refl in
      let at_e : e' ≡ e = ground arith in
      let same_type : j.job_type ≡ t = same_text→eq j.job_type t (ground arith) in
      let none_there : any (holds_slot t e) jobs ≡ false =
        let free' = (rw (is_some, at_e, same_type) at free) in ground arith in
      not_any→count_if (holds_slot t e) jobs none_there
]

replace-count_absent :
    (p : Job → Bool) (new : Job) (jobs : List Job)
    → p new ≡ false
    → count_if p (map (replace_job new) jobs) ≤ count_if p jobs
replace-count_absent p new [] h = omega arith
replace-count_absent p new (j ∷ jobs) h = elim (Bool-cases (j.id == new.id)) [
  | inl same ↦ rw same (ground (arith, replace-count_absent p new jobs h))
  | inr other ↦ rw other (ground (arith, replace-count_absent p new jobs h))
]

replace-count :
    (p : Job → Bool) (new : Job) (jobs : List Job)
    → count_if p (map (replace_job new) jobs)
      ≤ count_if p (other_than new.id jobs) + count_if (has_id new.id) jobs
replace-count p new [] = omega arith
replace-count p new (j ∷ jobs) = elim (Bool-cases (j.id == new.id)) [
  | inl same ↦ rw same (ground (arith, replace-count p new jobs))
  | inr other ↦ rw other (ground (arith, replace-count p new jobs))
]

replace-count_id :
    (i : ℕ) (new : Job) (jobs : List Job)
    → count_if (has_id i) (map (replace_job new) jobs) ≡ count_if (has_id i) jobs
replace-count_id i new [] = refl
replace-count_id i new (j ∷ jobs) = elim (Bool-cases (j.id == new.id)) [
  | inl same ↦ rw same (ground (arith, replace-count_id i new jobs))
  | inr other ↦ rw other (ground (arith, replace-count_id i new jobs))
]

replace-known :
    (n : ℕ) (new : Job) (jobs : List Job)
    → All (λ (j : Job). j.id < n) jobs
    → All (λ (j : Job). j.id < n) (map (replace_job new) jobs)
replace-known n new [] h = tt
replace-known n new (j ∷ jobs) h = elim (Bool-cases (j.id == new.id)) [
  | inl same ↦
      let there : j.id < n = h.0 in
      let equal : j.id ≡ new.id = ground arith in
      rw same (omega arith, replace-known n new jobs h.1)
  | inr other ↦ rw other (h.0, replace-known n new jobs h.1)
]

-- An update that the index lets through.
pub replace-IsSingle :
    (new : Job) (db : Db)
    → slot_taken new (other_than new.id db.jobs) ≡ false
    → IsSingle db
    → IsSingle (record db { jobs = map (replace_job new) db.jobs })
replace-IsSingle new db free h = record {
  ids = λ i. rw (replace-count_id i new db.jobs) (h.ids i);
  known = replace-known db.next_id new db.jobs h.known;
  slots = λ t e. elim (Bool-cases (holds_slot t e new)) [
    | inl holds ↦ omega (
      arith,
      replace-count (holds_slot t e) new db.jobs,
      free-count t e new (other_than new.id db.jobs) holds free,
      h.ids new.id,
    )
    | inr not_held ↦
        omega (arith, replace-count_absent (holds_slot t e) new db.jobs not_held, h.slots t e)
  ];
}

-- No row has an identifier that is still to come.
known-count :
    (n i : ℕ) (jobs : List Job)
    → All (λ (j : Job). j.id < n) jobs
    → n ≤ i
    → count_if (has_id i) jobs ≡ 0
known-count n i [] h le = refl
known-count n i (j ∷ jobs) h le = ground (arith, known-count n i jobs h.1 le)

known-append :
    (n : ℕ) (new : Job) (jobs : List Job)
    → new.id ≡ n
    → All (λ (j : Job). j.id < n) jobs
    → All (λ (j : Job). j.id < n + 1) (jobs ++ new ∷ [])
known-append n new [] e h = (omega arith, tt)
known-append n new (j ∷ jobs) e h =
    let there : j.id < n = h.0 in (omega arith, known-append n new jobs e h.1)

-- An insert of a new row that the index lets through.
pub append-IsSingle :
    (new : Job) (db : Db)
    → new.id ≡ db.next_id
    → slot_taken new db.jobs ≡ false
    → IsSingle db
    → IsSingle (record db { jobs = db.jobs ++ new ∷ []; next_id = db.next_id + 1 })
append-IsSingle new db fresh free h = record {
  ids = λ i.
      rw (count_if-append (has_id i) db.jobs (new ∷ []))
        (ground (arith, h.ids i, known-count db.next_id i db.jobs h.known));
  known = known-append db.next_id new db.jobs fresh h.known;
  slots = λ t e.
      rw (count_if-append (holds_slot t e) db.jobs (new ∷ []))
        (elim (Bool-cases (holds_slot t e new)) [
          | inl holds ↦ rw holds (omega (arith, free-count t e new db.jobs holds free))
          | inr not_held ↦ rw not_held (omega (arith, h.slots t e))
        ]);
}
