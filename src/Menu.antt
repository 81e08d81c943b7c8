-- ===== src/Menu.antt =====
-- apps/server/src/modules/menu/handlers.ts: the categories and the items that a café sells. The keys
-- of new rows and the time are arguments. Of a change, a field that is not given is `none`.
pub mod Kiosk
use gaming_cafe_management.Prelude.{
  ℕ, Bool, true, false, not, ◌&&◌, ◌||◌, [], ◌∷◌, ◌++◌, List, Option, none, some, ◌==◌, find?,
  update_where, get_or, is_some, String,
}
use gaming_cafe_management.Prelude.Int.{ℤ}
use gaming_cafe_management.Auth.{UserClaims}
use gaming_cafe_management.Shared.{problem, internal, menu_category_not_found, menu_item_not_found}
use gaming_cafe_management.World.Audit.{staff_audit}
use gaming_cafe_management.World.Catalog.{MenuCategoryRow}
use gaming_cafe_management.World.Tables.{MenuItemRow}
use gaming_cafe_management.World.Action.{pure, gets, modify, require, check, ◌>>=◌, ◌>>◌}
use gaming_cafe_management.World.{World, M, write_audit}

pub record CreateCategoryInput : Type 0 where
  pub name : String
  pub display_order : Option ℕ
  pub available : Option Bool

unfoldable pub insert_category : MenuCategoryRow → World → World
insert_category row w = record w {
  db = record (w.db) { menu_categories = w.menu_categories ++ row ∷ [] };
}

unfoldable pub handle_create_menu_category :
    (new_id : ℕ) → UserClaims → CreateCategoryInput → M MenuCategoryRow
unfolding insert_category write_audit
handle_create_menu_category new_id user input = do
  let category : MenuCategoryRow = record {
    id = new_id;
    cafe_id = user.cafe_id;
    name = input.name;
    display_order = get_or input.display_order 0;
    available = get_or input.available true;
  }
  modify (insert_category category)
  modify
      (write_audit (staff_audit user "MENU_CATEGORY_CREATED" none ("menu_category", category.id)))
  pure category

pub record CreateItemInput : Type 0 where
  pub category_id : ℕ
  pub name : String
  pub description : Option String
  pub price_amount : ℤ
  pub prep_minutes : Option ℕ
  pub available : Option Bool

unfoldable pub new_item : (new_id cafe_id : ℕ) → CreateItemInput → MenuItemRow
new_item new_id cafe_id input = record {
  id = new_id;
  cafe_id = cafe_id;
  category_id = input.category_id;
  name = input.name;
  description = input.description;
  base_price = input.price_amount;
  prep_minutes = get_or input.prep_minutes 10;
  available = get_or input.available true;
  deleted_at = none;
}

unfoldable pub insert_item : MenuItemRow → World → World
insert_item row w = record w { db = record (w.db) { menu_items = w.menu_items ++ row ∷ [] } }

unfoldable pub handle_create_menu_item : (new_id : ℕ) → UserClaims → CreateItemInput → M MenuItemRow
unfolding new_item insert_item write_audit
handle_create_menu_item new_id user input = do
  rows ← gets (λ w. w.menu_categories)
  category ←
      require (problem 404 menu_category_not_found)
        (find? (λ c. c.id == input.category_id && c.cafe_id == user.cafe_id) rows)
  let item = new_item new_id user.cafe_id input
  modify (insert_item item)
  modify (write_audit (staff_audit user "MENU_ITEM_CREATED" none ("menu_item", item.id)))
  pure item

pub record PatchItemInput : Type 0 where
  pub name : Option String
  pub price_amount : Option ℤ
  pub prep_minutes : Option ℕ
  pub available : Option Bool

unfoldable pub patched_item : PatchItemInput → MenuItemRow → MenuItemRow
patched_item input i = record i {
  name = get_or input.name i.name;
  base_price = get_or input.price_amount i.base_price;
  prep_minutes = get_or input.prep_minutes i.prep_minutes;
  available = get_or input.available i.available;
}

-- Whether a change sets a column; an update that sets none throws.
abbrev pub sets_any : PatchItemInput → Bool
sets_any input =
    is_some input.name
    || is_some input.price_amount
    || is_some input.prep_minutes
    || is_some input.available

-- An item of the café that is not deleted.
abbrev pub item_at : (id cafe_id : ℕ) → MenuItemRow → Bool
item_at id cafe_id i = i.id == id && (i.cafe_id == cafe_id && not (is_some i.deleted_at))

unfoldable pub update_items : (MenuItemRow → Bool) → (MenuItemRow → MenuItemRow) → World → World
update_items p set w = record w {
  db = record (w.db) { menu_items = update_where p set w.menu_items };
}

unfoldable pub handle_patch_menu_item : UserClaims → (id : ℕ) → PatchItemInput → M MenuItemRow
unfolding patched_item update_items write_audit
handle_patch_menu_item user id input = do
  check (sets_any input) (problem 500 internal)
  modify (update_items (item_at id user.cafe_id) (patched_item input))
  rows ← gets (λ w. w.menu_items)
  item ← require (problem 404 menu_item_not_found) (find? (item_at id user.cafe_id) rows)
  modify (write_audit (staff_audit user "MENU_ITEM_UPDATED" none ("menu_item", item.id)))
  pure item

unfoldable pub deleted_item : (now : ℕ) → MenuItemRow → MenuItemRow
deleted_item now i = record i { deleted_at = some now; available = false }

-- A deleted item is no longer among the rows of the query, so `updated[0]` is read off the rows before.
unfoldable pub handle_delete_menu_item : (now : ℕ) → UserClaims → (id : ℕ) → M (Unit {0})
unfolding deleted_item update_items write_audit
handle_delete_menu_item now user id = do
  before ← gets (λ w. w.menu_items)
  modify (update_items (item_at id user.cafe_id) (deleted_item now))
  item ← require (problem 404 menu_item_not_found) (find? (item_at id user.cafe_id) before)
  modify (write_audit (staff_audit user "MENU_ITEM_DELETED" none ("menu_item", item.id)))
