-- ===== src/Sessions/Handlers.antt =====
-- apps/server/src/modules/sessions/handlers.ts: extension, and the transitions of a session. The
-- time and the new command's key are arguments.
use gaming_cafe_management.Prelude.{
  ℕ, ◌+◌, ◌*◌, Bool, true, false, not, Option, none, some, String, ◌==◌, find?,
}
use gaming_cafe_management.Prelude.Int.{sub_ℕ}
use gaming_cafe_management.Pricing.{PriceResult, compute_price}
use gaming_cafe_management.Realtime.{EventName, session_ended}
use gaming_cafe_management.Shared.{
  SessionStatus, SessionEventType, CommandType, problem, validation_error, internal,
  session_not_found, session_not_active, session_already_terminal, session_not_paused,
  session_status_eq,
}
use gaming_cafe_management.Auth.{UserClaims}
use gaming_cafe_management.Commands.{issue_pc_command}
use gaming_cafe_management.World.Tables.{SessionRow, no_payload, extended_by}
use gaming_cafe_management.World.Action.{pure, gets, modify, require, check, ◌>>=◌, ◌>>◌}
use gaming_cafe_management.World.{M, transaction, write_audit, insert_session_event}
use gaming_cafe_management.Sessions.{
  SessionDto, to_session_dto, load_pricing_rules, publish_session, update_session, session_by_id,
  user_event, user_audit,
}
use gaming_cafe_management.Sessions.Start.{valid_minutes}

-- The session with this id, in the user's café.
pub own_session : UserClaims → ℕ → M SessionRow
own_session user id = do
  rows ← gets (λ w. w.sessions)
  session ← require (problem 404 session_not_found) (session_by_id id rows)
  check (session.cafe_id == user.cafe_id) (problem 404 session_not_found)
  pure session

-- The row after an update by id.
updated_session : ℕ → (SessionRow → SessionRow) → M SessionRow
unfolding update_session
updated_session id set = do
  modify (update_session id set)
  rows ← gets (λ w. w.sessions)
  require (problem 500 internal) (session_by_id id rows)

-- The columns that an extension sets, from the row `session` that was read.
unfoldable pub extended_session : SessionRow → (minutes : ℕ) → PriceResult → SessionRow → SessionRow
extended_session session minutes price row = record row {
  expires_at = session.expires_at + minutes * 60000;
  extended_minutes = session.extended_minutes + minutes;
  price_amount = price.amount;
  pricing_breakdown = price.breakdown;
}

record_extension : (now : ℕ) → UserClaims → SessionRow → (minutes new_amount : ℕ) → M (Unit {0})
unfolding insert_session_event write_audit
record_extension now user session minutes new_amount = do
  modify (
      insert_session_event (
        user_event now user SessionEventType.extended session.id (
          extended_by minutes (sub_ℕ new_amount session.price_amount)
            (session.expires_at + minutes * 60000))))
  modify (write_audit (user_audit user "SESSION_EXTENDED" session.pc_id session.id))

-- The price of the whole stay, for the tier of the session's machine.
pub extended_price : UserClaims → SessionRow → (minutes : ℕ) → M PriceResult
extended_price user session minutes = do
  pc_rows ← gets (λ w. w.pcs)
  pc ← require (problem 500 internal) (find? (λ p. p.id == session.pc_id) pc_rows)
  rules ← gets (load_pricing_rules user.cafe_id)
  let total_minutes = session.planned_minutes + session.extended_minutes + minutes
  pure (compute_price rules session.started_at total_minutes pc.tier_id)

pub extend_in_tx : (now : ℕ) → UserClaims → (id minutes : ℕ) → M SessionDto
unfolding own_session extended_price updated_session record_extension publish_session
extend_in_tx now user id minutes = do
  session ← own_session user id
  check (session_status_eq session.status SessionStatus.active) (problem 409 session_not_active)
  price ← extended_price user session minutes
  next ← updated_session id (extended_session session minutes price)
  record_extension now user session minutes price.amount
  modify (publish_session user.cafe_id session.pc_id (to_session_dto next) none)
  pure (to_session_dto next)

unfoldable pub handle_extend_session : (now : ℕ) → UserClaims → (id minutes : ℕ) → M SessionDto
unfolding extend_in_tx
handle_extend_session now user id minutes = do
  check (valid_minutes minutes) (problem 400 validation_error)
  transaction (extend_in_tx now user id minutes)

-- `TERMINAL_STATUSES.includes(status)`.
abbrev pub is_terminal : SessionStatus → Bool
is_terminal SessionStatus.ended = true
is_terminal SessionStatus.cancelled = true
is_terminal SessionStatus.expired = true
is_terminal _ = false

-- The four routes that `makeTerminalTransitionHandler` is used for.
pub data Apply : Type 0 where
  end cancel pause resume : Apply

abbrev event_of : Apply → SessionEventType
event_of end = SessionEventType.ended
event_of cancel = SessionEventType.cancelled
event_of pause = SessionEventType.paused
event_of resume = SessionEventType.resumed

abbrev audit_of : Apply → String
audit_of end = "SESSION_ENDED"
audit_of cancel = "SESSION_CANCELLED"
audit_of pause = "SESSION_PAUSED"
audit_of resume = "SESSION_RESUMED"

abbrev admin_event_of : Apply → Option EventName
admin_event_of end = some session_ended
admin_event_of _ = none

-- `apply === "pause" && session.status !== "active"`, and the like for "resume".
abbrev pub pause_refused : Apply → SessionStatus → Bool
pause_refused pause status = not (session_status_eq status SessionStatus.active)
pause_refused _ status = false

abbrev pub resume_refused : Apply → SessionStatus → Bool
resume_refused resume status = not (session_status_eq status SessionStatus.paused)
resume_refused _ status = false

-- The columns that each transition sets.
unfoldable pub applied : (now : ℕ) → Apply → SessionRow → SessionRow
applied now end row = record row { status = SessionStatus.ended; ended_at = some now }
applied now cancel row = record row { status = SessionStatus.cancelled; ended_at = some now }
applied now pause row = record row { status = SessionStatus.paused }
applied now resume row = record row { status = SessionStatus.active }

record_transition : (now : ℕ) → UserClaims → Apply → SessionRow → M (Unit {0})
unfolding insert_session_event write_audit
record_transition now user apply session = do
  modify (insert_session_event (user_event now user (event_of apply) session.id no_payload))
  modify (write_audit (user_audit user (audit_of apply) session.pc_id session.id))

pub transition_in_tx : (now : ℕ) → UserClaims → Apply → (id : ℕ) → M SessionDto
unfolding own_session updated_session record_transition publish_session
transition_in_tx now user apply id = do
  session ← own_session user id
  check (not (is_terminal session.status)) (problem 409 session_already_terminal)
  check (not (pause_refused apply session.status)) (problem 409 session_not_active)
  check (not (resume_refused apply session.status)) (problem 409 session_not_paused)
  next ← updated_session id (applied now apply)
  record_transition now user apply session
  modify (publish_session user.cafe_id session.pc_id (to_session_dto next) (admin_event_of apply))
  pure (to_session_dto next)

-- The command that follows an end or a cancellation, once the transaction is through.
pub notify_pc : (now new_id : ℕ) → UserClaims → Apply → SessionDto → M (Unit {0})
unfolding issue_pc_command
notify_pc now new_id user pause dto = pure tt
notify_pc now new_id user resume dto = pure tt
notify_pc now new_id user _ dto = do
  cmd ← issue_pc_command now new_id (record {
    cafe_id = user.cafe_id;
    pc_id = dto.pc_id;
    type = CommandType.end_session;
    issued_by = user.sub;
    confirmed_by = some user.sub;
    requires_confirm = true;
  })
  pure tt

unfoldable pub handle_transition : (now new_id : ℕ) → UserClaims → Apply → (id : ℕ) → M SessionDto
unfolding transition_in_tx notify_pc
handle_transition now new_id user apply id = do
  updated ← transaction (transition_in_tx now user apply id)
  notify_pc now new_id user apply updated
  pure updated
