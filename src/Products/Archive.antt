-- ===== src/Products/Archive.antt =====
-- Archived categories, and the products in them.
use invora_api.Base.{
  ℕ, ◌≡◌, refl, sym, true, false, ◌&&◌, some, List, [], ◌∷◌, map, find, any, count_if, ltb, arith,
}
use invora_api.Exec.Session.{Session}
use invora_api.Exec.Transaction.{commit}
use invora_api.Exec.Returns.{Returns, ok-Returns, require-Returns, raise_if-Returns, try-Returns}
use invora_api.Exec.Keeps.{open_session, after}
use invora_api.Result.{ok}
use invora_api.Products.Status.{is_app_error}
use invora_api.Products.Rows.{
  Category, Db, same_category, is_active_in, archive_category, retire_category_if, retired_category,
  count_active_products_by_category, get_category_by_id_for_user,
}
use invora_api.Products.Service.{
  get_category, ensure_category_has_no_active_products, retire_category, saved,
}

-- A category of the user that is archived, with no active product of the user in it.
pub record IsRetired (user id : ℕ) (db : Db) : Type 0 where
  pub inactive : any (λ c. same_category user id c && c.is_active) db.categories ≡ false
  pub present : any (same_category user id) db.categories ≡ true
  pub unused : count_if (is_active_in user id) db.products ≡ 0

retired_inactive :
    (user id now : ℕ) (cs : List Category)
    → any (λ c. same_category user id c && c.is_active) (map (retire_category_if id now) cs) ≡ false
retired_inactive user id now [] = refl
retired_inactive user id now (c ∷ cs) = ground (arith, retired_inactive user id now cs)

retired_present :
    (user id now : ℕ) (cs : List Category) (category : Category)
    → find (same_category user id) cs ≡ some category
    → any (same_category user id) (map (retire_category_if id now) cs) ≡ true
retired_present user id now [] category h = cc
retired_present user id now (c ∷ cs) category h =
    ground (arith, retired_present user id now cs category)

found_id :
    (user id : ℕ) (cs : List Category) (category : Category)
    → find (same_category user id) cs ≡ some category
    → category.id ≡ id
found_id user id [] category h = cc
found_id user id (c ∷ cs) category h = ground (arith, found_id user id cs category)

retire_category-Returns :
    (user id : ℕ) (s : Session Db)
    → Returns (λ c t. IsRetired user id t.committed) (retire_category user id s)
unfolding retire_category get_category get_category_by_id_for_user
    ensure_category_has_no_active_products count_active_products_by_category archive_category commit
retire_category-Returns user id s =
    require-Returns (find (same_category user id) s.current.categories) _ _ s (λ category found.
      raise_if-Returns (ltb 0 (count_if (is_active_in user category.id) s.current.products)) _ _ s
        (λ free.
          let e = found_id user id s.current.categories category found in
          try-Returns (saved (archive_category category)) is_app_error s (
            ok-Returns (retired_category (s.clock s.reads) category) _ (record {
              inactive = rw e (retired_inactive user id (s.clock s.reads) s.current.categories);
              present =
                  rw e
                    (retired_present user id (s.clock s.reads) s.current.categories category found);
              unused = rw (sym e) (ground arith);
            }))))

-- A category that has been archived is inactive, and no active product of its user is in it.
pub retire_category-IsRetired :
    (user id : ℕ) (clock : ℕ → ℕ) (db : Db) (category : Category)
    → (retire_category user id (open_session clock db)).0 ≡ ok category
    → IsRetired user id (after (retire_category user id) clock db)
retire_category-IsRetired user id clock db category h =
    (retire_category-Returns user id (open_session clock db)).returned category
      (retire_category user id (open_session clock db)).1 (rw h refl)
