-- ===== src/Orders/Create.antt =====
-- apps/server/src/modules/orders/create.ts and the two handlers that create orders.
use gaming_cafe_management.Prelude.{
  ℕ, ◌+◌, Bool, true, false, not, ◌&&◌, ◌||◌, List, [], ◌∷◌, ◌++◌, Option, none, some, ◌==◌, leb,
  max, find?, filter, any, if◌then◌else◌, is_some,
}
use gaming_cafe_management.Prelude.Int.{ℤ, pos, ◌+ℤ◌, ◌*ℕ◌}
use gaming_cafe_management.Shared.{
  OrderStatus, problem, internal, menu_item_not_found, item_unavailable,
}
use gaming_cafe_management.World.Tables.{
  MenuItemRow, VariantRow, OrderRow, OrderItemRow, OrderHistoryRow,
}
use gaming_cafe_management.World.Action.{pure, gets, modify, check, raise, ◌>>=◌, ◌>>◌}
use gaming_cafe_management.World.{World, M}
use gaming_cafe_management.Orders.{OrderActor, insert_history}

pub record OrderLineInput : Type 0 where
  pub menu_item_id : ℕ
  pub variant_id : Option ℕ
  pub qty : ℕ

-- `createOrderSchema`, less the source.
pub record CreateOrderInput : Type 0 where
  pub pc_id : Option ℕ
  pub session_id : Option ℕ
  pub items : List OrderLineInput

-- The schema of the lines: at least one, and 1 to 50 of each.
abbrev valid_lines : List OrderLineInput → Bool
valid_lines [] = true
valid_lines (l ∷ ls) = leb 1 l.qty && leb l.qty 50 && valid_lines ls

abbrev has_any : List OrderLineInput → Bool
has_any [] = false
has_any (l ∷ ls) = true

abbrev pub valid_items : List OrderLineInput → Bool
valid_items ls = has_any ls && valid_lines ls

abbrev is_listed : (cafe_id : ℕ) → List OrderLineInput → MenuItemRow → Bool
is_listed cafe_id lines r =
    r.cafe_id == cafe_id && any (λ l. l.menu_item_id == r.id) lines && not (is_some r.deleted_at)

-- The items of the café that the lines name and that are not deleted; the map is read by id.
abbrev pub load_menu_items_by_id : (cafe_id : ℕ) → List OrderLineInput → World → List MenuItemRow
load_menu_items_by_id cafe_id lines w = filter (is_listed cafe_id lines) w.menu_items

abbrev pub item_by_id : ℕ → List MenuItemRow → Option MenuItemRow
item_by_id id items = find? (λ i. i.id == id) items

abbrev pub variant_by_id : ℕ → List VariantRow → Option VariantRow
variant_by_id id variants = find? (λ v. v.id == id) variants

abbrev pub check_item : Option MenuItemRow → M (Unit {0})
check_item none = raise (problem 400 menu_item_not_found)
check_item (some item) = check item.available (problem 409 item_unavailable)

unfoldable pub validate_order_items : List OrderLineInput → List MenuItemRow → M (Unit {0})
validate_order_items [] items = pure tt
validate_order_items (l ∷ ls) items =
    check_item (item_by_id l.menu_item_id items) >> validate_order_items ls items

-- The variants that the lines name, whatever item they belong to.
abbrev pub load_variants_by_id : List OrderLineInput → World → List VariantRow
load_variants_by_id lines w =
    filter (λ v. any (λ l. elim l.variant_id [ none ↦ false | some id ↦ id == v.id ]) lines)
      w.menu_variants

-- `coalesce(max(number), 0)` over the café's orders of the day.
abbrev pub max_number : (day_of : ℕ → ℕ) → (cafe_id day : ℕ) → List OrderRow → ℕ
max_number day_of cafe_id day [] = 0
max_number day_of cafe_id day (o ∷ os) =
    let rest = max_number day_of cafe_id day os in
    if o.cafe_id == cafe_id && day_of o.placed_at == day then max o.number rest else rest

-- The lock makes the requests of a café take their numbers one after the other.
unfoldable pub next_order_number : (day_of : ℕ → ℕ) → (now cafe_id : ℕ) → List OrderRow → ℕ
next_order_number day_of now cafe_id rows = max_number day_of cafe_id (day_of now) rows + 1

abbrev delta_of : Option VariantRow → ℤ
delta_of none = pos 0
delta_of (some v) = v.price_delta

abbrev variant_of : Option ℕ → List VariantRow → Option VariantRow
variant_of none variants = none
variant_of (some id) variants = variant_by_id id variants

-- The price of one of a line.
abbrev pub unit_price : MenuItemRow → OrderLineInput → List VariantRow → ℤ
unit_price item line variants = item.base_price +ℤ delta_of (variant_of line.variant_id variants)

abbrev order_line : (order_id : ℕ) → OrderLineInput → List VariantRow → MenuItemRow → OrderItemRow
order_line order_id line variants item = record {
  order_id = order_id;
  menu_item_id = item.id;
  variant_id = line.variant_id;
  name_snapshot = item.name;
  unit_price = unit_price item line variants;
  qty = line.qty;
  line_total = unit_price item line variants *ℕ line.qty;
}

abbrev pub cons_line : Option OrderItemRow → List OrderItemRow → List OrderItemRow
cons_line none rows = rows
cons_line (some row) rows = row ∷ rows

abbrev pub line_for :
    (order_id : ℕ) → OrderLineInput → List VariantRow → Option MenuItemRow → Option OrderItemRow
line_for order_id line variants none = none
line_for order_id line variants (some item) = some (order_line order_id line variants item)

-- The lines of an order, after the check that each names an item.
unfoldable pub build_order_lines :
    (order_id : ℕ) → List OrderLineInput → List MenuItemRow → List VariantRow → List OrderItemRow
build_order_lines order_id [] items variants = []
build_order_lines order_id (l ∷ ls) items variants =
    cons_line (line_for order_id l variants (item_by_id l.menu_item_id items))
      (build_order_lines order_id ls items variants)

-- `lines.reduce((sum, l) => sum + l.lineTotal, 0)`.
abbrev pub add_totals : ℤ → List OrderItemRow → ℤ
add_totals acc [] = acc
add_totals acc (l ∷ ls) = add_totals (acc +ℤ l.line_total) ls

unfoldable pub new_order :
    (now new_id cafe_id number : ℕ) → CreateOrderInput → List OrderItemRow → OrderRow
new_order now new_id cafe_id number input lines = record {
  id = new_id;
  cafe_id = cafe_id;
  pc_id = input.pc_id;
  session_id = input.session_id;
  number = number;
  status = OrderStatus.placed;
  total_amount = add_totals (pos 0) lines;
  placed_at = now;
  cancelled_reason = none;
}

unfoldable pub insert_order : OrderRow → List OrderItemRow → World → World
insert_order order lines w = record w {
  db = record (w.db) { orders = w.orders ++ order ∷ []; order_items = w.order_items ++ lines };
}

abbrev pub placed_history : OrderActor → (order_id : ℕ) → OrderHistoryRow
placed_history actor order_id = record {
  order_id = order_id;
  from_status = none;
  to_status = OrderStatus.placed;
  actor_type = actor.type;
  actor_id = actor.id;
}

-- The foreign key of a line's variant, which any row of the table satisfies.
abbrev pub has_variants : List OrderItemRow → List VariantRow → Bool
has_variants [] variants = true
has_variants (l ∷ ls) variants =
    (not (is_some l.variant_id) || is_some (variant_of l.variant_id variants))
    && has_variants ls variants

unfoldable pub create_order_in_tx :
    (day_of : ℕ → ℕ)
    → (now new_id cafe_id : ℕ) → CreateOrderInput
    → OrderActor
    → M (OrderRow × List OrderItemRow)
unfolding insert_order insert_history
create_order_in_tx day_of now new_id cafe_id input actor = do
  items ← gets (load_menu_items_by_id cafe_id input.items)
  validate_order_items input.items items
  variants ← gets (load_variants_by_id input.items)
  number ← gets (λ w. next_order_number day_of now cafe_id w.orders)
  let lines = build_order_lines new_id input.items items variants
  let order = new_order now new_id cafe_id number input lines
  menu_variants ← gets (λ w. w.menu_variants)
  check (has_variants lines menu_variants) (problem 500 internal)
  modify (insert_order order lines)
  modify (insert_history (placed_history actor new_id))
  pure (order, lines)
