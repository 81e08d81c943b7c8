-- ===== src/Orders/Numbers.antt =====
-- The lines, the total and the number of a new order.
use gaming_cafe_management.Prelude.{
  ℕ, ◌+◌, ◌<◌, ◌≤◌, ◌≡◌, refl, sym, ◌∙◌, ap, inl, inr, ◌⊎◌, ◌&&◌, List, [], ◌∷◌, ◌++◌, Option, none,
  some, arith, ◌==◌, max, filter, map, All, Bool-cases, Option-cases,
}
use gaming_cafe_management.Prelude.Int.{ℤ, pos, ◌+ℤ◌, ◌*ℕ◌, +ℤ_assoc, zero-+ℤ}
use gaming_cafe_management.Shared.{HttpProblem, problem, item_unavailable}
use gaming_cafe_management.World.Tables.{MenuItemRow, VariantRow, OrderRow, OrderItemRow}
use gaming_cafe_management.World.{World, M}
use gaming_cafe_management.World.Action.{ok, err}
use gaming_cafe_management.Orders.{OrderActor}
use gaming_cafe_management.Orders.Create.{
  OrderLineInput, CreateOrderInput, check_item, validate_order_items, item_by_id, cons_line,
  line_for, build_order_lines, add_totals, max_number, next_order_number, load_menu_items_by_id,
  load_variants_by_id, new_order, has_variants, create_order_in_tx,
}

-- The sum of the line totals.
abbrev pub total : List OrderItemRow → ℤ
total [] = pos 0
total (l ∷ ls) = l.line_total +ℤ total ls

+ℤ-zero : (a : ℤ) → a +ℤ pos 0 ≡ a
unfolding ◌+ℤ◌
+ℤ-zero a = ground arith

add_totals_lem : (acc : ℤ) (ls : List OrderItemRow) → add_totals acc ls ≡ acc +ℤ total ls
add_totals_lem acc [] = sym (+ℤ-zero acc)
add_totals_lem acc (l ∷ ls) =
    add_totals_lem (acc +ℤ l.line_total) ls ∙ +ℤ_assoc acc l.line_total (total ls)

-- The café's orders of a day.
abbrev pub of_day : (day_of : ℕ → ℕ) → (cafe_id day : ℕ) → List OrderRow → List OrderRow
of_day day_of cafe_id day rows =
    filter (λ o. o.cafe_id == cafe_id && day_of o.placed_at == day) rows

-- The numbers of orders are below a bound.
abbrev pub Below : ℕ → List OrderRow → Type 0
Below bound rows = All (λ o. o.number < bound) rows

Below-weaken : (a b : ℕ) (rows : List OrderRow) → a ≤ b → Below a rows → Below b rows
Below-weaken a b [] le h = tt
Below-weaken a b (o ∷ os) le (h, hs) = (omega (arith, h), Below-weaken a b os le hs)

max_number-Below :
    (day_of : ℕ → ℕ) (cafe_id day : ℕ) (rows : List OrderRow)
    → Below (max_number day_of cafe_id day rows + 1) (of_day day_of cafe_id day rows)
max_number-Below day_of cafe_id day [] = tt
max_number-Below day_of cafe_id day (o ∷ os) =
    let rest = max_number day_of cafe_id day os in
    let below = max_number-Below day_of cafe_id day os in
    let weaker =
      Below-weaken (rest + 1) (max o.number rest + 1) (of_day day_of cafe_id day os) (ground arith)
        below in
    elim (Bool-cases (o.cafe_id == cafe_id && day_of o.placed_at == day)) [
      | inl here ↦ rw here (ground arith, weaker)
      | inr other ↦ rw other below
    ]

-- The check of the lines succeeds or raises, and changes nothing.
abbrev Checked : M (Unit {0}) → World → Type 0
Checked m w = (m w ≡ (ok tt, w)) ⊎ ((e : HttpProblem) × (m w ≡ (err e, w)))

check_item-Checked : (o : Option MenuItemRow) (w : World) → Checked (check_item o) w
check_item-Checked none w = inr (_, refl)
check_item-Checked (some item) w = elim (Bool-cases item.available) [
  | inl here ↦ inl cc
  | inr gone ↦ inr (problem 409 item_unavailable, rw gone refl)
]

validate-Checked :
    (ls : List OrderLineInput) (items : List MenuItemRow) (w : World)
    → Checked (validate_order_items ls items) w
unfolding validate_order_items
validate-Checked [] items w = inl refl
validate-Checked (l ∷ ls) items w = elim (check_item-Checked (item_by_id l.menu_item_id items) w) [
  | inr (e, failed) ↦ inr (e, rw failed refl)
  | inl fine ↦ elim (validate-Checked ls items w) [
    | inl rest ↦ inl (rw (fine, rest) refl)
    | inr (e, failed) ↦ inr (e, rw (fine, failed) refl)
  ]
]

-- What a line of the order asks for, and what it became.
abbrev pub asked : List OrderLineInput → List (ℕ × ℕ)
asked ls = map (λ l. (l.menu_item_id, l.qty)) ls

abbrev pub bought : List OrderItemRow → List (ℕ × ℕ)
bought rows = map (λ r. (r.menu_item_id, r.qty)) rows

item_by_id-id :
    (id : ℕ) (items : List MenuItemRow) (i : MenuItemRow) → item_by_id id items ≡ some i → i.id ≡ id
item_by_id-id id [] i h = ground arith
item_by_id-id id (x ∷ xs) i h = ground (arith, item_by_id-id id xs i)

validated-found :
    (l : OrderLineInput) (ls : List OrderLineInput) (items : List MenuItemRow) (w : World)
    → (validate_order_items (l ∷ ls) items w).0 ≡ ok tt
    → ((i : MenuItemRow) × (item_by_id l.menu_item_id items ≡ some i))
      × ((validate_order_items ls items w).0 ≡ ok tt)
unfolding validate_order_items
validated-found l ls items w h = elim (Option-cases (item_by_id l.menu_item_id items)) [
  | inl absent ↦ absurd (ground arith)
  | inr (i, found) ↦ elim (Bool-cases i.available) [
    | inl here ↦ ((i, found), ground arith)
    | inr gone ↦ absurd (ground arith)
  ]
]

build-bought :
    (order_id : ℕ) (ls : List OrderLineInput) (items : List MenuItemRow)
    (variants : List VariantRow) (w : World)
    → (validate_order_items ls items w).0 ≡ ok tt
    → bought (build_order_lines order_id ls items variants) ≡ asked ls
unfolding build_order_lines
build-bought order_id [] items variants w h = refl
build-bought order_id (l ∷ ls) items variants w h =
    let ((i, found), rest) = validated-found l ls items w h in
    let same = item_by_id-id l.menu_item_id items i found in
    let others = build-bought order_id ls items variants w rest in cc

-- Every line costs its price for one times its quantity.
abbrev pub Priced : List OrderItemRow → Type 0
Priced rows = All (λ l. l.line_total ≡ l.unit_price *ℕ l.qty) rows

Priced-cons :
    (order_id : ℕ) (l : OrderLineInput) (variants : List VariantRow) (item : Option MenuItemRow)
    (rows : List OrderItemRow)
    → Priced rows
    → Priced (cons_line (line_for order_id l variants item) rows)
Priced-cons order_id l variants none rows h = h
Priced-cons order_id l variants (some item) rows h = (refl, h)

build-Priced :
    (order_id : ℕ) (ls : List OrderLineInput) (items : List MenuItemRow)
    (variants : List VariantRow)
    → Priced (build_order_lines order_id ls items variants)
unfolding build_order_lines
build-Priced order_id [] items variants = tt
build-Priced order_id (l ∷ ls) items variants =
    Priced-cons order_id l variants (item_by_id l.menu_item_id items) _
      (build-Priced order_id ls items variants)

-- An order that is created has a line for each line of the request, of its item and in its quantity;
-- a line's total is its price for one times the quantity; the order's total is the sum of the line totals; and its number is above those of all orders that the café
-- had that day. The order and its lines are added to the tables, and nothing else is in those tables.
pub create_order-placed :
    (day_of : ℕ → ℕ) (now new_id cafe_id : ℕ) (input : CreateOrderInput) (actor : OrderActor)
    (order : OrderRow) (lines : List OrderItemRow) (w : World)
    → let r = create_order_in_tx day_of now new_id cafe_id input actor w in
      r.0 ≡ ok (order, lines)
      → (bought lines ≡ asked input.items)
        × Priced lines
        × (order.total_amount ≡ total lines)
        × Below order.number (of_day day_of cafe_id (day_of now) w.orders)
        × (r.1.orders ≡ w.orders ++ order ∷ [])
        × (r.1.order_items ≡ w.order_items ++ lines)
unfolding create_order_in_tx next_order_number new_order
create_order-placed day_of now new_id cafe_id input actor order lines w h =
    let items = load_menu_items_by_id cafe_id input.items w in
    let variants = load_variants_by_id input.items w in
    let built = build_order_lines new_id input.items items variants in
    elim (validate-Checked input.items items w) [
      | inl fine ↦
          let number = max_number day_of cafe_id (day_of now) w.orders + 1 in
          elim (Bool-cases (has_variants built w.menu_variants)) [
            | inr dangling ↦ absurd (ground arith)
            | inl there ↦
                let made : order ≡ new_order now new_id cafe_id number input built = cc in
                let same : lines ≡ built = cc in
                (
                  rw same (build-bought new_id input.items items variants w (ap (λ r. r.0) fine)),
                  rw same (build-Priced new_id input.items items variants),
                  rw (made, same) (add_totals_lem (pos 0) built ∙ zero-+ℤ (total built)),
                  rw made (max_number-Below day_of cafe_id (day_of now) w.orders),
                  rw made (rw (fine, there) refl),
                  rw same (rw (fine, there) refl),
                )
          ]
      | inr (e, failed) ↦ absurd (ground arith)
    ]
