-- ===== src/Sessions/Start.antt =====
-- apps/server/src/modules/sessions/start.ts. The time and the new session's key are arguments.
use gaming_cafe_management.Prelude.{
  ℕ, ◌+◌, ◌*◌, Bool, true, false, not, ◌&&◌, ◌||◌, Option, none, some, leb, ◌==◌, opt_eq, find?,
  any, if◌then◌else◌,
}
use gaming_cafe_management.Pricing.{PriceResult, compute_price}
use gaming_cafe_management.Realtime.{session_started}
use gaming_cafe_management.Shared.{
  PcStatus, SessionStatus, SessionOrigin, SessionEventType, problem, validation_error, pc_not_found,
  pc_not_available, pc_busy, idempotency_failed, session_status_eq,
}
use gaming_cafe_management.Auth.{UserClaims}
use gaming_cafe_management.World.Tables.{PcRow, SessionRow, started_with}
use gaming_cafe_management.World.Action.{pure, gets, modify, require, check, ◌>>=◌, ◌>>◌}
use gaming_cafe_management.World.{M, transaction, write_audit, insert_session_event}
use gaming_cafe_management.Sessions.{
  SessionDto, to_session_dto, load_pricing_rules, publish_session, insert_session, user_event,
  user_audit,
}

-- `startSessionSchema`; an `idempotency_key` that is there is not empty.
pub record StartInput : Type 0 where
  pub pc_id : ℕ
  pub customer_id : Option ℕ
  pub planned_minutes : ℕ
  pub origin : SessionOrigin
  pub idempotency_key : Option ℕ

abbrev pub valid_minutes : ℕ → Bool
valid_minutes n = leb 5 n && leb n 1440

pub record StartResponse : Type 0 where
  pub session : SessionDto
  pub existing : Bool

abbrev pub has_key : ℕ → SessionRow → Bool
has_key key s = opt_eq s.idempotency_key (some key)

unfoldable pub find_idempotent_session : ℕ → M (Option SessionRow)
find_idempotent_session key = gets (λ w. find? (has_key key) w.sessions)

abbrev pub is_unavailable : PcStatus → Bool
is_unavailable PcStatus.disabled = true
is_unavailable PcStatus.maintenance = true
is_unavailable _ = false

-- A session that occupies a machine for a new start: active or scheduled.
abbrev pub occupies : ℕ → SessionRow → Bool
occupies pc_id s =
    s.pc_id == pc_id
    && (session_status_eq s.status SessionStatus.active
        || session_status_eq s.status SessionStatus.scheduled)

unfoldable pub validate_pc_for_start : (pc_id cafe_id : ℕ) → M PcRow
validate_pc_for_start pc_id cafe_id = do
  rows ← gets (λ w. w.pcs)
  pc ← require (problem 404 pc_not_found) (find? (λ p. p.id == pc_id && p.cafe_id == cafe_id) rows)
  check (not (is_unavailable pc.status)) (problem 409 pc_not_available)
  sessions ← gets (λ w. w.sessions)
  check (not (any (occupies pc.id) sessions)) (problem 409 pc_busy)
  pure pc

-- The values of the new row.
unfoldable pub new_session :
    (now new_id : ℕ) → UserClaims → StartInput → PcRow → PriceResult → SessionRow
new_session now new_id user input pc price = record {
  id = new_id;
  cafe_id = user.cafe_id;
  pc_id = pc.id;
  customer_id = input.customer_id;
  started_at = now;
  expires_at = now + input.planned_minutes * 60000;
  ended_at = none;
  planned_minutes = input.planned_minutes;
  extended_minutes = 0;
  price_amount = price.amount;
  pricing_breakdown = price.breakdown;
  status = SessionStatus.active;
  origin = input.origin;
  created_by = some user.sub;
  idempotency_key = input.idempotency_key;
}

-- `onConflictDoNothing` on the key: where a row has it, that row is read in place of a new one.
read_again : ℕ → M (SessionRow × Bool)
unfolding find_idempotent_session
read_again key = do
  found ← find_idempotent_session key
  again ← require (problem 500 idempotency_failed) found
  pure (again, true)

insert_with_key : ℕ → SessionRow → M (SessionRow × Bool)
unfolding insert_session read_again
insert_with_key key row = do
  rows ← gets (λ w. w.sessions)
  if any (has_key key) rows
      then read_again key
      else (modify (insert_session row) >> pure (row, false))

unfoldable pub insert_session_record : Option ℕ → SessionRow → M (SessionRow × Bool)
unfolding insert_with_key insert_session
insert_session_record none row = modify (insert_session row) >> pure (row, false)
insert_session_record (some key) row = insert_with_key key row

pub record_session_start :
    (now : ℕ) → UserClaims → SessionRow → PcRow → StartInput → ℕ → M (Unit {0})
unfolding insert_session_event write_audit
record_session_start now user session pc input amount = do
  modify (
      insert_session_event (
        user_event now user SessionEventType.started session.id
          (started_with input.planned_minutes amount)))
  modify (write_audit (user_audit user "SESSION_STARTED" pc.id session.id))

-- What follows the insert: the answer for a session that was there, or the record of the start.
unfoldable pub finish_start :
    (now : ℕ) → UserClaims → PcRow → StartInput → ℕ → SessionRow × Bool → M StartResponse
unfolding record_session_start publish_session
finish_start now user pc input amount (session, true) =
    pure (record { session = to_session_dto session; existing = true })
finish_start now user pc input amount (session, false) = do
  record_session_start now user session pc input amount
  modify (publish_session user.cafe_id pc.id (to_session_dto session) (some session_started))
  pure (record { session = to_session_dto session; existing = false })

-- The transaction of `handleStartSession` from the check of the machine on.
unfoldable pub start_new : (now new_id : ℕ) → UserClaims → StartInput → M StartResponse
unfolding validate_pc_for_start insert_session_record finish_start
start_new now new_id user input = do
  pc ← validate_pc_for_start input.pc_id user.cafe_id
  rules ← gets (load_pricing_rules user.cafe_id)
  let price = compute_price rules now input.planned_minutes pc.tier_id
  inserted ←
      insert_session_record input.idempotency_key (new_session now new_id user input pc price)
  finish_start now user pc input price.amount inserted

-- The start, with the look-up by key before it.
unfoldable pub start_with_key :
    (now new_id : ℕ) → UserClaims → StartInput → Option ℕ → M StartResponse
unfolding start_new find_idempotent_session
start_with_key now new_id user input none = start_new now new_id user input
start_with_key now new_id user input (some key) = do
  found ← find_idempotent_session key
  elim found [
    | none ↦ start_new now new_id user input
    | some session ↦ pure (record { session = to_session_dto session; existing = true })
  ]

unfoldable pub handle_start_session : (now new_id : ℕ) → UserClaims → StartInput → M StartResponse
unfolding start_with_key
handle_start_session now new_id user input = do
  check (valid_minutes input.planned_minutes) (problem 400 validation_error)
  transaction (start_with_key now new_id user input input.idempotency_key)
