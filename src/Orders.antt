-- ===== src/Orders.antt =====
-- apps/server/src/modules/orders: create.ts, service.ts and the handlers that write. The day of an
-- instant is the database's, in its own time zone, and an argument.
pub mod Create
pub mod Handlers
pub mod Progress
pub mod Status
pub mod Numbers
use gaming_cafe_management.Prelude.{
  ℕ, ◌+◌, ◌/◌, Bool, true, false, ◌&&◌, List, [], ◌∷◌, ◌++◌, Option, none, some, ◌==◌, find?,
  filter, map, update_where, if◌then◌else◌, String,
}
use gaming_cafe_management.Prelude.Int.{ℤ}
use gaming_cafe_management.Realtime.{order_updated, order_data}
use gaming_cafe_management.Auth.{UserClaims}
use gaming_cafe_management.Shared.{
  OrderStatus, order_status_eq, order_transitions, includes_order_status, ActorType, EventSource,
  problem, order_not_found, order_invalid_transition,
}
use gaming_cafe_management.World.Tables.{OrderRow, OrderItemRow, OrderHistoryRow, AuditRow, ActorId}
use gaming_cafe_management.World.Action.{pure, gets, modify, require, check, ◌>>=◌, ◌>>◌}
use gaming_cafe_management.World.{World, M, transaction, write_audit, publish}

pub record OrderItemDto : Type 0 where
  pub name_snapshot : String
  pub qty : ℕ
  pub unit_price : ℤ
  pub line_total : ℤ

pub record OrderDto : Type 0 where
  pub id : ℕ
  pub number : ℕ
  pub pc_id : Option ℕ
  pub status : OrderStatus
  pub total_amount : ℤ
  pub placed_at : ℕ
  pub items : List OrderItemDto

abbrev item_dto : OrderItemRow → OrderItemDto
item_dto i = record {
  name_snapshot = i.name_snapshot;
  qty = i.qty;
  unit_price = i.unit_price;
  line_total = i.line_total;
}

unfoldable pub to_order_dto : OrderRow → List OrderItemRow → OrderDto
to_order_dto order items = record {
  id = order.id;
  number = order.number;
  pc_id = order.pc_id;
  status = order.status;
  total_amount = order.total_amount;
  placed_at = order.placed_at;
  items = map item_dto items;
}

pub record OrderActor : Type 0 where
  pub type : ActorType
  pub id : ℕ

-- The arguments of `transitionOrder`. Its one caller always gives a reason, which may be null.
pub record TransitionArgs : Type 0 where
  pub order_id : ℕ
  pub cafe_id : ℕ
  pub to : OrderStatus
  pub actor : OrderActor
  pub reason : Option String

-- The columns that a transition sets.
unfoldable pub moved : TransitionArgs → OrderRow → OrderRow
moved args row = record row { status = args.to; cancelled_reason = args.reason }

unfoldable pub update_order : ℕ → (OrderRow → OrderRow) → World → World
update_order id set w = record w {
  db = record (w.db) { orders = update_where (λ o. o.id == id) set w.orders };
}

unfoldable pub insert_history : OrderHistoryRow → World → World
insert_history row w = record w {
  db = record (w.db) { order_status_history = w.order_status_history ++ row ∷ [] };
}

abbrev order_action : OrderStatus → String
order_action OrderStatus.placed = "ORDER_PLACED"
order_action OrderStatus.accepted = "ORDER_ACCEPTED"
order_action OrderStatus.preparing = "ORDER_PREPARING"
order_action OrderStatus.ready = "ORDER_READY"
order_action OrderStatus.delivered = "ORDER_DELIVERED"
order_action OrderStatus.completed = "ORDER_COMPLETED"
order_action OrderStatus.cancelled = "ORDER_CANCELLED"

unfoldable pub order_audit : (cafe_id : ℕ) → OrderActor → String → (order_id : ℕ) → AuditRow
order_audit cafe_id actor action order_id = record {
  cafe_id = cafe_id;
  actor_type = actor.type;
  actor_id = ActorId.id actor.id;
  actor_role = none;
  action = action;
  source = EventSource.online;
  pc_id = none;
  entity_type = some "order";
  entity_id = some order_id;
}

unfoldable pub publish_order : (now cafe_id : ℕ) → OrderRow → OrderStatus → World → World
unfolding publish
publish_order now cafe_id order status w =
    publish cafe_id
      (record {
        event = order_updated;
        content = order_data order.id order.number order.pc_id status now;
        pc_id = none;
      })
      w

abbrev pub order_at : (id cafe_id : ℕ) → OrderRow → Bool
order_at id cafe_id o = o.id == id && o.cafe_id == cafe_id

-- The writes of a transition, from the row that was read.
unfoldable pub move_order : (now : ℕ) → TransitionArgs → OrderRow → World → World
unfolding moved update_order insert_history write_audit publish_order
move_order now args order w = publish_order now args.cafe_id order args.to (
    write_audit (order_audit args.cafe_id args.actor (order_action args.to) order.id) (
      insert_history
        (record {
          order_id = order.id;
          from_status = some order.status;
          to_status = args.to;
          actor_type = args.actor.type;
          actor_id = args.actor.id;
        })
        (update_order order.id (moved args) w)))

-- Keys are unique, so the row that the update returns is the one that was read, moved.
unfoldable pub transition_in_tx : (now : ℕ) → TransitionArgs → M OrderDto
unfolding move_order to_order_dto
transition_in_tx now args = do
  rows ← gets (λ w. w.orders)
  order ← require (problem 404 order_not_found) (find? (order_at args.order_id args.cafe_id) rows)
  check (includes_order_status args.to (order_transitions order.status))
      (problem 409 order_invalid_transition)
  modify (move_order now args order)
  items ← gets (λ w. filter (λ i. i.order_id == order.id) w.order_items)
  pure (to_order_dto (moved args order) items)

unfoldable pub transition_order : (now : ℕ) → TransitionArgs → M OrderDto
unfolding transition_in_tx
transition_order now args = transaction (transition_in_tx now args)

-- `to === "cancelled"`: the one transition with a reason.
abbrev pub reason_for : OrderStatus → Option String → Option String
reason_for to reason = if order_status_eq to OrderStatus.cancelled then reason else none

unfoldable pub handle_order_transition :
    (now : ℕ) → UserClaims → (id : ℕ) → OrderStatus → (reason : Option String) → M OrderDto
unfolding transition_order
handle_order_transition now user id to reason = transition_order now (record {
  order_id = id;
  cafe_id = user.cafe_id;
  to = to;
  actor = record { type = ActorType.user; id = user.sub };
  reason = reason_for to reason;
})
