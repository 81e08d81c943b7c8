-- ===== src/Payments.antt =====
-- apps/server/src/modules/payments/routes.ts, less the list of payments.
pub mod Replay
pub mod Ledger
use gaming_cafe_management.Prelude.{
  ℕ, Bool, true, false, ◌&&◌, List, [], ◌∷◌, ◌++◌, Option, none, some, ◌==◌, ltb, leb, any, find?,
  String, if◌then◌else◌,
}
use gaming_cafe_management.Auth.{UserClaims}
use gaming_cafe_management.Shared.{
  PaymentMethod, ActorType, EventSource, problem, validation_error, session_not_found,
  order_not_found,
}
use gaming_cafe_management.World.Tables.{PaymentRow, PaymentTransactionRow, AuditRow, ActorId}
use gaming_cafe_management.World.Action.{pure, gets, modify, check, ◌>>=◌, ◌>>◌}
use gaming_cafe_management.World.{World, M, write_audit}

-- The schema of the body; lengths of texts are not modelled.
pub record PaymentInput : Type 0 where
  pub session_id : Option ℕ
  pub order_id : Option ℕ
  pub method : PaymentMethod
  pub amount : ℕ
  pub external_ref : Option String
  pub idempotency_key : ℕ

-- The payment is `prior[0]!`, which may not be there.
pub record PaymentResponse : Type 0 where
  pub payment : Option PaymentRow
  pub duplicate : Bool

abbrev pub own_session : (cafe_id : ℕ) → Option ℕ → World → Bool
own_session cafe_id none w = true
own_session cafe_id (some id) w = any (λ s. s.id == id && s.cafe_id == cafe_id) w.sessions

abbrev pub own_order : (cafe_id : ℕ) → Option ℕ → World → Bool
own_order cafe_id none w = true
own_order cafe_id (some id) w = any (λ o. o.id == id && o.cafe_id == cafe_id) w.orders

unfoldable pub new_payment : (new_id : ℕ) → UserClaims → PaymentInput → PaymentRow
new_payment new_id user input = record {
  id = new_id;
  cafe_id = user.cafe_id;
  session_id = input.session_id;
  order_id = input.order_id;
  method = input.method;
  amount = input.amount;
  external_ref = input.external_ref;
  idempotency_key = input.idempotency_key;
}

abbrev pub has_payment_key : ℕ → PaymentRow → Bool
has_payment_key key p = p.idempotency_key == key

unfoldable pub insert_payment : PaymentRow → World → World
insert_payment row w = record w { db = record (w.db) { payments = w.payments ++ row ∷ [] } }

unfoldable pub insert_charge : PaymentTransactionRow → World → World
insert_charge row w = record w {
  db = record (w.db) { payment_transactions = w.payment_transactions ++ row ∷ [] };
}

unfoldable pub payment_audit : UserClaims → (payment_id : ℕ) → AuditRow
payment_audit user payment_id = record {
  cafe_id = user.cafe_id;
  actor_type = ActorType.user;
  actor_id = ActorId.id user.sub;
  actor_role = some user.role;
  action = "PAYMENT_CREATED";
  source = EventSource.online;
  pc_id = none;
  entity_type = some "payment";
  entity_id = some payment_id;
}

-- What follows an insert that met no row with the key.
unfoldable pub charge : UserClaims → PaymentRow → M PaymentResponse
unfolding insert_payment insert_charge write_audit
charge user row = do
  modify (insert_payment row)
  modify (insert_charge (record { payment_id = row.id; amount = row.amount; actor_id = user.sub }))
  modify (write_audit (payment_audit user row.id))
  pure (record { payment = some row; duplicate = false })

-- The insert with `onConflictDoNothing` on the key; the prior payment is looked up in the café.
unfoldable pub charge_once : (new_id : ℕ) → UserClaims → PaymentInput → M PaymentResponse
unfolding charge
charge_once new_id user input = do
  rows ← gets (λ w. w.payments)
  let prior = find? (λ p. has_payment_key input.idempotency_key p && p.cafe_id == user.cafe_id) rows
  if any (has_payment_key input.idempotency_key) rows
      then pure (record { payment = prior; duplicate = true })
      else charge user (new_payment new_id user input)

unfoldable pub handle_create_payment : (new_id : ℕ) → UserClaims → PaymentInput → M PaymentResponse
unfolding charge_once
handle_create_payment new_id user input = do
  check (ltb 0 input.amount) (problem 400 validation_error)
  has_session ← gets (own_session user.cafe_id input.session_id)
  check has_session (problem 404 session_not_found)
  has_order ← gets (own_order user.cafe_id input.order_id)
  check has_order (problem 404 order_not_found)
  charge_once new_id user input
