-- ===== src/Auth/SingleUse.antt =====
-- Refresh tokens that have been revoked, and what revokes them.
use invora_api.Base.{
  ℕ, ◌≡◌, refl, ◌∙◌, Bool, true, false, not, ◌||◌, Option, some, is_some, List, [], ◌∷◌, ◌++◌, map,
  any, all, find, count_if, ◌≤◌, inl, inr, arith, Bool-cases,
}
use invora_api.Text.{Text, same_text→eq}
use invora_api.Auth.Rows.{RefreshToken, Db, has_hash, revoke_if}
use invora_api.Auth.Kept.{Kept, Revises, revoke_if-Revises}

abbrev revoked_or_other : Text → RefreshToken → Bool
revoked_or_other hash t = not (has_hash hash t) || is_some t.revoked_at

-- A token with the hash has been issued, and every such token is revoked.
pub record IsSpent (hash : Text) (db : Db) : Type 0 where
  pub issued : any (has_hash hash) db.tokens ≡ true
  pub revoked : all (revoked_or_other hash) db.tokens ≡ true

any-append :
    {A : Type 0} (p : A → Bool) (xs ys : List A) → any p xs ≡ true → any p (xs ++ ys) ≡ true
any-append p [] ys h = cc
any-append p (x ∷ xs) ys h = ground (arith, any-append p xs ys)

module _ (hash : Text) where
  append_other :
      (t : RefreshToken) (ts : List RefreshToken)
      → has_hash hash t ≡ false
      → all (revoked_or_other hash) ts ≡ true
      → all (revoked_or_other hash) (ts ++ t ∷ []) ≡ true
  append_other t [] other h = ground arith
  append_other t (u ∷ us) other h = ground (arith, append_other t us)

  added_revoked :
      (t : RefreshToken) (ts : List RefreshToken)
      → any (has_hash t.token_hash) ts ≡ false
      → any (has_hash hash) ts ≡ true
      → all (revoked_or_other hash) ts ≡ true
      → all (revoked_or_other hash) (ts ++ t ∷ []) ≡ true
  added_revoked t ts free issued h = elim (Bool-cases (has_hash hash t)) [
    | inl same ↦
        let e = same_text→eq t.token_hash hash same in
        let there : any (has_hash t.token_hash) ts ≡ true = rw e issued in cc
    | inr other ↦ append_other t ts other h
  ]

  module _ (f : RefreshToken → RefreshToken) (r : Revises f) where
    changed_issued :
        (ts : List RefreshToken) → any (has_hash hash) (map f ts) ≡ any (has_hash hash) ts
    changed_issued [] = refl
    changed_issued (t ∷ ts) = rw (r.same_hash t) (rw (changed_issued ts) refl)

    changed_revoked :
        (ts : List RefreshToken)
        → all (revoked_or_other hash) ts ≡ true
        → all (revoked_or_other hash) (map f ts) ≡ true
    changed_revoked [] h = refl
    changed_revoked (t ∷ ts) h =
        let same = r.same_hash t in
        let stays = r.stays_revoked t in rw same (ground (arith, changed_revoked ts))

  pub IsSpent-Kept : Kept (IsSpent hash)
  IsSpent-Kept = record {
    user_added = λ u db free h. record { issued = h.issued; revoked = h.revoked };
    users_changed = λ f db same h. record { issued = h.issued; revoked = h.revoked };
    token_added = λ t db free h. record {
      issued = any-append (has_hash hash) db.tokens (t ∷ []) h.issued;
      revoked = added_revoked t db.tokens free h.issued h.revoked;
    };
    tokens_changed = λ f db r h. record {
      issued = changed_issued f r db.tokens ∙ h.issued;
      revoked = changed_revoked f r db.tokens h.revoked;
    };
  }

  not_counted-revoked :
      (f : RefreshToken → RefreshToken) (ts : List RefreshToken)
      → Revises f
      → count_if (has_hash hash) ts ≡ 0
      → all (revoked_or_other hash) (map f ts) ≡ true
  not_counted-revoked f [] r h = refl
  not_counted-revoked f (t ∷ ts) r h =
      let same = r.same_hash t in rw same (ground (arith, not_counted-revoked f ts r))

  found_revoked :
      (f : RefreshToken → RefreshToken) (stored : RefreshToken) (ts : List RefreshToken)
      → Revises f
      → is_some (f stored).revoked_at ≡ true
      → count_if (has_hash hash) ts ≤ 1
      → find (has_hash hash) ts ≡ some stored
      → all (revoked_or_other hash) (map f ts) ≡ true
  found_revoked f stored [] r now one h = cc
  found_revoked f stored (t ∷ ts) r now one h = elim (Bool-cases (has_hash hash t)) [
    | inl same ↦
        let rest = not_counted-revoked f ts r in
        let found : t ≡ stored = ground arith in
        let revoked : is_some (f t).revoked_at ≡ true = rw found now in ground arith
    | inr other ↦
        let rest = found_revoked f stored ts r now in let kept = r.same_hash t in ground arith
  ]

  found_issued :
      {stored : RefreshToken} (ts : List RefreshToken)
      → find (has_hash hash) ts ≡ some stored
      → any (has_hash hash) ts ≡ true
  found_issued [] h = cc
  found_issued {stored} (t ∷ ts) h = ground (arith, found_issued {stored = stored} ts)

  -- A change that revokes the token found under the hash spends the hash.
  pub change-IsSpent :
      (f : RefreshToken → RefreshToken) (stored : RefreshToken) (db : Db)
      → Revises f
      → is_some (f stored).revoked_at ≡ true
      → count_if (has_hash hash) db.tokens ≤ 1
      → find (has_hash hash) db.tokens ≡ some stored
      → IsSpent hash (record db { tokens = map f db.tokens })
  change-IsSpent f stored db r now one h = record {
    issued = changed_issued f r db.tokens ∙ found_issued db.tokens h;
    revoked = found_revoked f stored db.tokens r now one h;
  }

  -- Revoking that token does.
  pub revoke-IsSpent :
      (stored : RefreshToken) (now : ℕ) (by : Option ℕ) (db : Db)
      → count_if (has_hash hash) db.tokens ≤ 1
      → find (has_hash hash) db.tokens ≡ some stored
      → IsSpent hash (record db { tokens = map (revoke_if stored.id now by) db.tokens })
  revoke-IsSpent stored now by db =
      change-IsSpent (revoke_if stored.id now by) stored db (revoke_if-Revises stored.id now by)
        (ground arith)

  -- What the hash finds once it is spent is revoked.
  pub spent_found :
      (ts : List RefreshToken)
      → any (has_hash hash) ts ≡ true
      → all (revoked_or_other hash) ts ≡ true
      → (t : RefreshToken) × (find (has_hash hash) ts ≡ some t) × (is_some t.revoked_at ≡ true)
  spent_found [] h k = cc
  spent_found (t ∷ ts) h k = elim (Bool-cases (has_hash hash t)) [
    | inl same ↦ (t, rw same refl, ground arith)
    | inr other ↦
        let (u, found, revoked) = spent_found ts (ground arith) (ground arith) in
        (u, rw other found, revoked)
  ]
