-- ===== src/MenuItems.antt =====
-- apps/api/src/menu-items/menu-items.service.ts
pub mod Foreign
use raise.World.{
  World, M, Result, for_restaurant, ◌>>=◌, err, ok, internal_error, not_found, throw, or_throw,
  ◌>>◌, elsewhere,
}
use raise.Store.{Key, Client, Rows, IsDocumented, documented, client-eq}
use raise.Schema.{AllergenTag, MenuItem}
use raise.Prelude.{
  Option, none, some, List, Bool, true, String, ℤ, ◌==◌, ◌&&◌, if◌then◌else◌, ℕ, ◌≡◌, ◌≢◌, inl, inr,
  arith, Bool-cases,
}
use raise.Intake.Tools.{or_old, or_same}

-- The input as the schema library lets it through; an absent field is `none`.
pub record MenuItemCreateInput : Type 0 where
  pub name : String
  pub description : Option String
  pub price : String
  pub prep_time_minutes : ℤ
  pub category : String
  pub allergens : List AllergenTag
  pub modifiable_options : List String
  pub available : Bool

pub record MenuItemUpdateInput : Type 0 where
  pub name : Option String
  pub description : Option String
  pub price : Option String
  pub prep_time_minutes : Option ℤ
  pub category : Option String
  pub allergens : Option (List AllergenTag)
  pub modifiable_options : Option (List String)
  pub available : Option Bool

abbrev pub new_item : Key → Key → MenuItemCreateInput → MenuItem
new_item id r input = record {
  id = id;
  restaurant_id = r;
  name = input.name;
  description = input.description;
  price = input.price;
  prep_time_minutes = input.prep_time_minutes;
  category = input.category;
  allergens = input.allergens;
  modifiable_options = input.modifiable_options;
  available = input.available;
}

abbrev pub updated_item : MenuItemUpdateInput → MenuItem → MenuItem
updated_item input m = record m {
  name = or_old input.name m.name;
  description = or_same input.description m.description;
  price = or_old input.price m.price;
  prep_time_minutes = or_old input.prep_time_minutes m.prep_time_minutes;
  category = or_old input.category m.category;
  allergens = or_old input.allergens m.allergens;
  modifiable_options = or_old input.modifiable_options m.modifiable_options;
  available = or_old input.available m.available;
}

module _ (c : Client) where
  -- `order_by` is ORDER BY name ASC.
  unfoldable pub list_menu_items :
      (List MenuItem → List MenuItem) → Key → (available_only : Bool) → World → List MenuItem
  list_menu_items order_by r available_only w = order_by (
      c.find_many w.db.menu_items
        λ m. m.restaurant_id == r && (if available_only then m.available else true))

  abbrev pub get_menu_item : Key → Key → M MenuItem
  get_menu_item r id = do
    found ←
        for_restaurant λ w. (ok (c.find_first w.db.menu_items id (λ m. m.restaurant_id == r)), w)
    or_throw found not_found

  abbrev inserted : MenuItem → World → Option (Rows MenuItem) → Result MenuItem × World
  inserted m w none = (err internal_error, w)
  inserted m w (some rows) = (ok m, record w { db = record (w.db) { menu_items = rows } })

  -- `new_id` is the identifier that the database draws.
  unfoldable pub create_menu_item : (World → Key) → Key → MenuItemCreateInput → M MenuItem
  create_menu_item new_id r input = for_restaurant λ w.
      inserted (new_item (new_id w) r input) w
        (c.create w.db.menu_items (new_id w) (new_item (new_id w) r input))

  abbrev pub update_items : Key → Key → MenuItemUpdateInput → M ℕ
  update_items r id input w =
      let (n, rows) =
        c.update_many w.db.menu_items id (λ m. m.restaurant_id == r) (updated_item input) in
      (ok n, record w { db = record (w.db) { menu_items = rows } })

  -- `others` is what other requests commit between the write and the read.
  unfoldable pub update_menu_item : (World → World) → Key → Key → MenuItemUpdateInput → M MenuItem
  update_menu_item others r id input = do
    count ← for_restaurant (update_items r id input)
    if count == 0 then throw not_found else do elsewhere others; get_menu_item r id
