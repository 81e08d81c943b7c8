-- ===== src/Menu/Kiosk.antt =====
-- The menu that apps/server/src/modules/menu/handlers.ts answers to staff and to a machine. The order
-- of the rows is the database's and an argument: `order_categories` and `order_items` stand for the
-- `orderBy` of the queries, by the columns `displayOrder` and `name` in the database's collation.
pub mod Orderable
use gaming_cafe_management.Prelude.{
  ℕ, Bool, true, false, not, ◌&&◌, [], ◌∷◌, ◌++◌, List, Option, none, some, ◌==◌, filter, map,
  is_some, String, if◌then◌else◌,
}
use gaming_cafe_management.Prelude.Int.{ℤ}
use gaming_cafe_management.World.Catalog.{MenuCategoryRow}
use gaming_cafe_management.World.Tables.{MenuItemRow}
use gaming_cafe_management.World.{World}

pub record ItemDto : Type 0 where
  pub id : ℕ
  pub name : String
  pub price_amount : ℤ
  pub available : Bool
  pub prep_minutes : ℕ

pub record CategoryDto : Type 0 where
  pub id : ℕ
  pub name : String
  pub available : Bool
  pub items : List ItemDto

-- An item of the kiosk's list.
pub record KioskItem : Type 0 where
  pub id : ℕ
  pub name : String
  pub price_amount : ℤ
  pub category : String

abbrev pub item_dto : MenuItemRow → ItemDto
item_dto i = record {
  id = i.id;
  name = i.name;
  price_amount = i.base_price;
  available = i.available;
  prep_minutes = i.prep_minutes;
}

abbrev pub category_dto : List MenuItemRow → MenuCategoryRow → CategoryDto
category_dto items c = record {
  id = c.id;
  name = c.name;
  available = c.available;
  items = map item_dto (filter (λ i. i.category_id == c.id) items);
}

abbrev pub kiosk_item : (category : String) → ItemDto → KioskItem
kiosk_item category i = record {
  id = i.id;
  name = i.name;
  price_amount = i.price_amount;
  category = category;
}

abbrev pub kiosk_items : List CategoryDto → List KioskItem
kiosk_items [] = []
kiosk_items (c ∷ cs) =
    let rest = kiosk_items cs in
    if c.available
    then map (kiosk_item c.name) (filter (λ i. i.available) c.items) ++ rest
    else rest

module _ (order_categories : List MenuCategoryRow → List MenuCategoryRow)
    (order_items : List MenuItemRow → List MenuItemRow) where
  -- The limits of 100 categories and 500 items are not modelled.
  unfoldable pub get_menu_for_cafe : (cafe_id : ℕ) → World → List CategoryDto
  get_menu_for_cafe cafe_id w =
      let categories = order_categories (filter (λ c. c.cafe_id == cafe_id) w.menu_categories) in
      let items =
        order_items
          (filter (λ i. i.cafe_id == cafe_id && not (is_some i.deleted_at)) w.menu_items) in
      map (category_dto items) categories

  unfoldable pub handle_agent_get_menu : (cafe_id : ℕ) → World → List KioskItem
  unfolding get_menu_for_cafe
  handle_agent_get_menu cafe_id w = kiosk_items (get_menu_for_cafe cafe_id w)
