-- ===== src/Tests/Sales.antt =====
-- Orders and payments.
use gaming_cafe_management.Prelude.{
  ℕ, ◌/◌, ◌≡◌, refl, true, false, List, [], ◌∷◌, ◌++◌, none, some, arith,
}
use gaming_cafe_management.Prelude.Int.{pos, ◌+ℤ◌, ◌*ℕ◌}
use gaming_cafe_management.Shared.{OrderStatus, ActorType, PaymentMethod}
use gaming_cafe_management.World.Tables.{OrderRow, OrderItemRow, PaymentRow}
use gaming_cafe_management.World.Action.{ok}
use gaming_cafe_management.Orders.{OrderActor}
use gaming_cafe_management.Orders.Create.{
  CreateOrderInput, create_order_in_tx, validate_order_items, next_order_number, build_order_lines,
  new_order,
}
use gaming_cafe_management.Orders.Numbers.{
  total, Below, of_day, asked, bought, Priced, create_order-placed,
}
use gaming_cafe_management.Orders.Progress.{Advance, UniqueIds}
use gaming_cafe_management.Orders.Status.{Request, run_requests, run_requests-Advance}
use gaming_cafe_management.Payments.{
  PaymentInput, PaymentResponse, handle_create_payment, new_payment,
}
use gaming_cafe_management.Payments.Ledger.{Balanced, handle_create_payment-Balanced}
use gaming_cafe_management.Payments.Replay.{handle_create_payment-twice}
use gaming_cafe_management.Tests.Fixtures.{user, colleague, with_orders}

abbrev order : (id number : ℕ) → OrderStatus → OrderRow
order id number status = record {
  id = id;
  cafe_id = 7;
  pc_id = some 3;
  session_id = none;
  number = number;
  status = status;
  total_amount = pos 24000;
  placed_at = 60000000;
  cancelled_reason = none;
}

abbrev request : (id : ℕ) → OrderStatus → Request
request id to = record { now = 60300000; user = user; id = id; to = to; reason = none }

abbrev requests : List Request
requests =
    request 70 OrderStatus.accepted
    ∷ request 70 OrderStatus.completed
    ∷ request 71 OrderStatus.cancelled
    ∷ []

abbrev orders : List OrderRow
orders = order 70 1 OrderStatus.placed ∷ order 71 2 OrderStatus.preparing ∷ []

run_requests-Advance_example :
    Advance orders (run_requests requests (with_orders orders)).orders
    × UniqueIds (run_requests requests (with_orders orders)).orders
run_requests-Advance_example =
    run_requests-Advance requests (with_orders orders) (((λ e. omega (arith, e)), tt), (tt, tt))

abbrev day_of : ℕ → ℕ
day_of t = t / 86400000

abbrev input : CreateOrderInput
input = record {
  pc_id = some 3;
  session_id = none;
  items = record { menu_item_id = 60; variant_id = none; qty = 2 } ∷ [];
}

abbrev actor : OrderActor
actor = record { type = ActorType.user; id = 11 }

abbrev new_line : OrderItemRow
new_line = record {
  order_id = 72;
  menu_item_id = 60;
  variant_id = none;
  name_snapshot = "Coffee";
  unit_price = pos 12000;
  qty = 2;
  line_total = pos 24000;
}

create_order-placed_example :
    let w = with_orders orders in
    let new = order 72 3 OrderStatus.placed in
    let r = create_order_in_tx day_of 60000000 72 7 input actor w in
    (bought (new_line ∷ []) ≡ asked input.items)
    × Priced (new_line ∷ [])
    × (new.total_amount ≡ total (new_line ∷ []))
    × Below new.number (of_day day_of 7 (day_of 60000000) w.orders)
    × (r.1.orders ≡ w.orders ++ new ∷ [])
    × (r.1.order_items ≡ w.order_items ++ new_line ∷ [])
unfolding create_order_in_tx validate_order_items next_order_number build_order_lines new_order ◌+ℤ◌
    ◌*ℕ◌
create_order-placed_example =
    create_order-placed day_of 60000000 72 7 input actor (order 72 3 OrderStatus.placed)
      (new_line ∷ []) (with_orders orders) refl

abbrev payment : PaymentInput
payment = record {
  session_id = none;
  order_id = some 70;
  method = PaymentMethod.upi;
  amount = 24000;
  external_ref = none;
  idempotency_key = 1234;
}

abbrev paid : PaymentRow
paid = new_payment 80 user payment

handle_create_payment-twice_example :
    let r = handle_create_payment 80 user payment (with_orders orders) in
    let b : PaymentResponse = record { payment = some paid; duplicate = true } in
    handle_create_payment 81 colleague payment r.1 ≡ (ok b, r.1)
unfolding handle_create_payment
handle_create_payment-twice_example =
    handle_create_payment-twice 80 81 user colleague payment
      (record { payment = some paid; duplicate = false }) (with_orders orders) refl refl

handle_create_payment-Balanced_example :
    Balanced (handle_create_payment 80 user payment (with_orders orders)).1
handle_create_payment-Balanced_example =
    handle_create_payment-Balanced 80 user payment (with_orders orders) refl
