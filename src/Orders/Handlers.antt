-- ===== src/Orders/Handlers.antt =====
-- apps/server/src/modules/orders/handlers.ts: the two requests that create an order.
use gaming_cafe_management.Prelude.{ℕ, Bool, true, ◌&&◌, List, Option, none, some, ◌==◌, any}
use gaming_cafe_management.Auth.{UserClaims, DevicePrincipal}
use gaming_cafe_management.Shared.{
  ActorType, problem, validation_error, pc_not_found, session_not_found,
}
use gaming_cafe_management.World.Tables.{AuditRow}
use gaming_cafe_management.World.Action.{pure, gets, modify, check, ◌>>=◌, ◌>>◌}
use gaming_cafe_management.World.{World, M, transaction, write_audit}
use gaming_cafe_management.Orders.{OrderActor, OrderDto, to_order_dto, order_audit, publish_order}
use gaming_cafe_management.Orders.Create.{
  OrderLineInput, CreateOrderInput, valid_items, create_order_in_tx,
}

-- A machine or a session that the request names is one of the café.
abbrev own_pc : (cafe_id : ℕ) → Option ℕ → World → Bool
own_pc cafe_id none w = true
own_pc cafe_id (some id) w = any (λ p. p.id == id && p.cafe_id == cafe_id) w.pcs

abbrev own_session : (cafe_id : ℕ) → Option ℕ → World → Bool
own_session cafe_id none w = true
own_session cafe_id (some id) w = any (λ s. s.id == id && s.cafe_id == cafe_id) w.sessions

-- The transaction, and what both requests do after it.
unfoldable pub place_order :
    (day_of : ℕ → ℕ)
    → (now new_id cafe_id : ℕ) → CreateOrderInput
    → OrderActor
    → (audit : ℕ → AuditRow) → M OrderDto
unfolding write_audit publish_order to_order_dto
place_order day_of now new_id cafe_id input actor audit = do
  created ← transaction (create_order_in_tx day_of now new_id cafe_id input actor)
  let order = created.0
  modify (write_audit (audit order.id))
  modify (publish_order now cafe_id order order.status)
  pure (to_order_dto order created.1)

unfoldable pub handle_create_order :
    (day_of : ℕ → ℕ) → (now new_id : ℕ) → UserClaims → CreateOrderInput → M OrderDto
unfolding place_order
handle_create_order day_of now new_id user input = do
  check (valid_items input.items) (problem 400 validation_error)
  has_pc ← gets (own_pc user.cafe_id input.pc_id)
  check has_pc (problem 404 pc_not_found)
  has_session ← gets (own_session user.cafe_id input.session_id)
  check has_session (problem 404 session_not_found)
  let actor : OrderActor = record { type = ActorType.user; id = user.sub }
  place_order day_of now new_id user.cafe_id input actor (λ order_id.
      record (order_audit user.cafe_id actor "ORDER_CREATED" order_id) {
        actor_role = some user.role;
      })

-- The body of a request from a machine; the session that it names is not looked up.
pub record DeviceOrderBody : Type 0 where
  pub items : List OrderLineInput
  pub session_id : Option ℕ

unfoldable pub handle_create_order_from_device :
    (day_of : ℕ → ℕ) → (now new_id : ℕ) → DevicePrincipal → DeviceOrderBody → M OrderDto
unfolding place_order
handle_create_order_from_device day_of now new_id device body = do
  check (valid_items body.items) (problem 400 validation_error)
  let actor : OrderActor = record { type = ActorType.pc; id = device.pc_id }
  place_order day_of now new_id device.cafe_id
      (record { pc_id = some device.pc_id; session_id = body.session_id; items = body.items }) actor
      (order_audit device.cafe_id actor "ORDER_CREATED")
