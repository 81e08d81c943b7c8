-- ===== src/Menu/Kiosk/Orderable.antt =====
-- The items that apps/server/src/modules/menu/handlers.ts shows at a machine, in an order of
-- apps/server/src/modules/orders/create.ts.
use gaming_cafe_management.Prelude.{
  ℕ, ◌≡◌, refl, sym, ap, ◌∙◌, inl, inr, true, not, ◌&&◌, List, [], ◌∷◌, map, Option, some, All,
  arith, ◌==◌, ==_refl, find?, filter, any, is_some, Bool-cases,
}
use mathlib.Core.Path.{subst}
use gaming_cafe_management.Prelude.Rows.{
  UniqueKeys, find_self, find-filter, filter-All, map-All, All-map, append-All,
}
use gaming_cafe_management.World.Action.{ok}
use gaming_cafe_management.World.Catalog.{MenuCategoryRow}
use gaming_cafe_management.World.Tables.{MenuItemRow}
use gaming_cafe_management.World.{World}
use gaming_cafe_management.Orders.Create.{
  OrderLineInput, load_menu_items_by_id, validate_order_items, item_by_id,
}
use gaming_cafe_management.Menu.Kiosk.{
  ItemDto, CategoryDto, item_dto, category_dto, kiosk_item, kiosk_items, handle_agent_get_menu,
}

-- A line of an order for an item of the list.
abbrev pub line_of : (qty : ℕ) → (variant_id : Option ℕ) → (item_id : ℕ) → OrderLineInput
line_of qty variant_id item_id = record {
  menu_item_id = item_id;
  variant_id = variant_id;
  qty = qty;
}

abbrev pub Accepted : (cafe_id qty : ℕ) → Option ℕ → World → (item_id : ℕ) → Type 0
Accepted cafe_id qty variant_id w item_id =
    let lines = line_of qty variant_id item_id ∷ [] in
    validate_order_items lines (load_menu_items_by_id cafe_id lines w) w ≡ (ok tt, w)

-- An item of the café that is not deleted, and is the one with its key.
abbrev Sold : (cafe_id : ℕ) → World → MenuItemRow → Type 0
Sold cafe_id w i =
    (find? (λ y. y.id == i.id) w.menu_items ≡ some i)
    × ((i.cafe_id == cafe_id && not (is_some i.deleted_at)) ≡ true)

Sold-Accepted :
    (cafe_id qty : ℕ) (variant_id : Option ℕ) (w : World) (i : MenuItemRow)
    → Sold cafe_id w i
    → i.available ≡ true
    → Accepted cafe_id qty variant_id w i.id
unfolding validate_order_items
Sold-Accepted cafe_id qty variant_id w i (found, own) available =
    let lines = line_of qty variant_id i.id ∷ [] in
    let listed : (i.cafe_id == cafe_id
          && any (λ l. l.menu_item_id == i.id) lines
          && not (is_some i.deleted_at))
        ≡ true =
      ground (arith, ==_refl i.id) in
    let loaded : item_by_id i.id (load_menu_items_by_id cafe_id lines w) ≡ some i =
      find-filter (λ y. y.id == i.id)
        (λ r.
          r.cafe_id == cafe_id
          && any (λ l. l.menu_item_id == r.id) lines
          && not (is_some r.deleted_at))
        w.menu_items i found listed in
    rw (loaded, available) refl

-- What an item of a category shows: an item that is sold.
abbrev Shows : (cafe_id : ℕ) → World → ItemDto → Type 0
Shows cafe_id w d = (i : MenuItemRow) × Sold cafe_id w i × (d ≡ item_dto i)

kiosk_items-Accepted :
    (cafe_id qty : ℕ) (variant_id : Option ℕ) (w : World) (cs : List CategoryDto)
    → All (λ c. All (Shows cafe_id w) c.items) cs
    → All (λ k. Accepted cafe_id qty variant_id w k.id) (kiosk_items cs)
kiosk_items-Accepted cafe_id qty variant_id w [] h = tt
kiosk_items-Accepted cafe_id qty variant_id w (c ∷ cs) (h, hs) =
    let rest = kiosk_items-Accepted cafe_id qty variant_id w cs hs in
    elim (Bool-cases c.available) [
      | inr closed ↦ rw closed rest
      | inl shown ↦
          let items : All (λ d. Accepted cafe_id qty variant_id w d.id)
              (filter (λ i. i.available) c.items) =
            map-All (λ d. Shows cafe_id w d × (d.available ≡ true))
              (λ d. Accepted cafe_id qty variant_id w d.id) (filter (λ i. i.available) c.items)
              (λ d ((i, sold, e), available).
                subst (λ n. Accepted cafe_id qty variant_id w n) (sym (ap (λ x. x.id) e))
                  (Sold-Accepted cafe_id qty variant_id w i sold
                    (ap (λ x. x.available) (sym e) ∙ available)))
              (filter-All (Shows cafe_id w) (λ i. i.available) c.items h) in
          rw shown (
            append-All (λ k. Accepted cafe_id qty variant_id w k.id)
              (map (kiosk_item c.name) (filter (λ i. i.available) c.items)) (kiosk_items cs)
              (All-map (λ k. Accepted cafe_id qty variant_id w k.id) (kiosk_item c.name)
                (filter (λ i. i.available) c.items) items)
              rest)
    ]

module _ (order_categories : List MenuCategoryRow → List MenuCategoryRow)
    (order_items : List MenuItemRow → List MenuItemRow) where
  category_dto-Shows :
      (cafe_id : ℕ) (w : World) (items : List MenuItemRow) (cs : List MenuCategoryRow)
      → All (Sold cafe_id w) items
      → All (λ c. All (Shows cafe_id w) c.items) (map (category_dto items) cs)
  category_dto-Shows cafe_id w items [] h = tt
  category_dto-Shows cafe_id w items (c ∷ cs) h = (
    All-map (Shows cafe_id w) item_dto (filter (λ i. i.category_id == c.id) items) (
        map-All (λ i. Sold cafe_id w i × ((i.category_id == c.id) ≡ true))
          (λ i. Shows cafe_id w (item_dto i)) (filter (λ i. i.category_id == c.id) items)
          (λ i k. (i, k.0, refl))
          (filter-All (Sold cafe_id w) (λ i. i.category_id == c.id) items h)),
    category_dto-Shows cafe_id w items cs h,
  )

  -- Every item that the kiosk lists can be ordered: the check of an order with a line for it, in any
  -- number and with any variant, accepts it. No two items have the same key, and the database's
  -- ordering of items gives no rows but those that it gets.
  pub handle_agent_get_menu-Accepted :
      (cafe_id qty : ℕ) (variant_id : Option ℕ) (w : World)
      → ((P : MenuItemRow → Type 0) (xs : List MenuItemRow) → All P xs → All P (order_items xs))
      → UniqueKeys (λ i. i.id) w.menu_items
      → All
          (λ k. Accepted cafe_id qty variant_id w k.id)
          (handle_agent_get_menu order_categories order_items cafe_id w)
  unfolding handle_agent_get_menu
  handle_agent_get_menu-Accepted cafe_id qty variant_id w keeps u =
      let mine = λ (i : MenuItemRow). i.cafe_id == cafe_id && not (is_some i.deleted_at) in
      let sold =
        filter-All (λ i. find? (λ y. y.id == i.id) w.menu_items ≡ some i) mine w.menu_items
          (find_self (λ i. i.id) w.menu_items u) in
      let items = order_items (filter mine w.menu_items) in
      let cs = order_categories (filter (λ c. c.cafe_id == cafe_id) w.menu_categories) in
      kiosk_items-Accepted cafe_id qty variant_id w (map (category_dto items) cs) (
        category_dto-Shows cafe_id w items cs
          (keeps (Sold cafe_id w) (filter mine w.menu_items) sold))
