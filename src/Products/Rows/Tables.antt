-- ===== src/Products/Rows/Tables.antt =====
-- The tables of app/modules/products/infrastructure/models.py, and the columns that a request sets.
-- Prices are counts of cents.
use invora_api.Base.{ℕ, ℤ, pos, Bool, true, ◌&&◌, Option, none, List, [], ◌∷◌, ◌==◌}
use invora_api.Text.{Text, same_text}
use invora_api.Exec.{Exec}
use invora_api.Exec.Session.{Session}
use invora_api.Products.Status.{ProductError}

pub record Category : Type 0 where
  pub id : ℕ
  pub user_id : ℕ
  pub name : Text
  pub normalized_name : Text
  pub description : Option Text
  pub is_active : Bool
  pub updated_at : ℕ

pub record Product : Type 0 where
  pub id : ℕ
  pub user_id : ℕ
  pub category_id : Option ℕ
  pub name : Text
  pub normalized_name : Text
  pub sku : Text
  pub normalized_sku : Text
  pub description : Option Text
  pub unit : Text
  pub selling_price : ℤ
  pub cost_price : Option ℤ
  pub is_active : Bool
  pub updated_at : ℕ

pub record Db : Type 0 where
  pub categories : List Category
  pub products : List Product
  pub next_id : ℕ

abbrev pub Action : Type 0 → Type 0
Action A = Exec (Session Db) ProductError A

-- The normalized values of a request; a name and a SKU set the normalized columns, too.
pub data ProductValue : Type 0 where
  set_name : (name normalized_name : Text) → ProductValue
  set_sku : Text → ProductValue
  set_category : Option ℕ → ProductValue
  set_description : Option Text → ProductValue
  set_unit : Text → ProductValue
  set_selling_price : ℤ → ProductValue
  set_cost_price : Option ℤ → ProductValue
  set_active : Bool → ProductValue

abbrev pub set_product : ProductValue → Product → Product
set_product (set_name v w) p = record p { name = v; normalized_name = w }
set_product (set_sku v) p = record p { sku = v; normalized_sku = v }
set_product (set_category v) p = record p { category_id = v }
set_product (set_description v) p = record p { description = v }
set_product (set_unit v) p = record p { unit = v }
set_product (set_selling_price v) p = record p { selling_price = v }
set_product (set_cost_price v) p = record p { cost_price = v }
set_product (set_active v) p = record p { is_active = v }

abbrev pub set_products : List ProductValue → Product → Product
set_products [] p = p
set_products (v ∷ vs) p = set_products vs (set_product v p)

pub data CategoryValue : Type 0 where
  set_category_name : (name normalized_name : Text) → CategoryValue
  set_category_description : Option Text → CategoryValue
  set_category_active : Bool → CategoryValue

abbrev pub set_category_value : CategoryValue → Category → Category
set_category_value (set_category_name v w) c = record c { name = v; normalized_name = w }
set_category_value (set_category_description v) c = record c { description = v }
set_category_value (set_category_active v) c = record c { is_active = v }

abbrev pub set_categories : List CategoryValue → Category → Category
set_categories [] c = c
set_categories (v ∷ vs) c = set_categories vs (set_category_value v c)

-- The columns of the unique constraints.
abbrev pub has_sku : ℕ → Text → Product → Bool
has_sku user sku p = p.user_id == user && same_text p.normalized_sku sku

abbrev pub has_name : ℕ → Text → Category → Bool
has_name user name c = c.user_id == user && same_text c.normalized_name name

abbrev pub same_product : ℕ → ℕ → Product → Bool
same_product user id p = p.id == id && p.user_id == user

abbrev pub same_category : ℕ → ℕ → Category → Bool
same_category user id c = c.id == id && c.user_id == user

-- A row with the columns that a request leaves out.
abbrev pub blank_product : ℕ → ℕ → ℕ → Product
blank_product id user now = record {
  id = id;
  user_id = user;
  category_id = none;
  name = [];
  normalized_name = [];
  sku = [];
  normalized_sku = [];
  description = none;
  unit = [];
  selling_price = pos 0;
  cost_price = none;
  is_active = true;
  updated_at = now;
}

abbrev pub blank_category : ℕ → ℕ → ℕ → Category
blank_category id user now = record {
  id = id;
  user_id = user;
  name = [];
  normalized_name = [];
  description = none;
  is_active = true;
  updated_at = now;
}
