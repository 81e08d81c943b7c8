-- ===== src/Sync/Apply.antt =====
-- apps/server/src/modules/sync/apply.ts. The time and the new session's key are arguments.
use gaming_cafe_management.Prelude.{
  ℕ, ◌+◌, ◌*◌, Bool, ◌&&◌, List, [], ◌∷◌, Option, none, some, leb, ltb, ◌==◌, if◌then◌else◌, String,
}
use gaming_cafe_management.Pricing.{compute_price}
use gaming_cafe_management.Realtime.{sync_conflict, conflict_data}
use gaming_cafe_management.Shared.{
  SessionStatus, session_status_eq, SessionOrigin, SessionEventType, ActorType, EventSource,
  OfflineEventType, OfflineEventState, ConflictReason,
}
use gaming_cafe_management.World.Tables.{
  SessionRow, started_offline, extended_offline, ended_offline, ActorId,
}
use gaming_cafe_management.World.Action.{pure, gets, modify, ◌>>=◌, ◌>>◌}
use gaming_cafe_management.World.{M, write_audit, insert_session_event, publish}
use gaming_cafe_management.Sessions.{insert_session, update_session, session_by_id}
use gaming_cafe_management.Sync.{
  SyncEvent, SyncContext, ConflictAction, accept_start, accept_extend, accept_end, conflict,
  ConflictDecision,
}
use gaming_cafe_management.Sync.Rows.{
  clamp_minutes, parse_or, or_else, pc_event, pc_audit, publish_update,
}

abbrev pub offline_minutes : SyncEvent → ℕ
offline_minutes evt = clamp_minutes (parse_or 60 evt.payload.planned_minutes)

-- The row of a session that was started offline; one whose time is over comes in as expired.
unfoldable pub offline_session : (now new_id : ℕ) → SyncEvent → SyncContext → SessionRow
offline_session now new_id evt ctx =
    let planned = offline_minutes evt in
    let until = evt.occurred_at + planned * 60000 in
    let over = leb until now in
    let price = compute_price ctx.pricing_rules evt.occurred_at planned ctx.pc.tier_id in
    record {
      id = new_id;
      cafe_id = ctx.cafe_id;
      pc_id = ctx.pc_id;
      customer_id = none;
      started_at = evt.occurred_at;
      expires_at = if over then now else until;
      ended_at = if over then some until else none;
      planned_minutes = planned;
      extended_minutes = 0;
      price_amount = price.amount;
      pricing_breakdown = price.breakdown;
      status = if over then SessionStatus.expired else SessionStatus.active;
      origin = SessionOrigin.superadmin_offline;
      created_by = none;
      idempotency_key = none;
    }

unfoldable pub apply_accept_start : (now new_id : ℕ) → SyncEvent → SyncContext → M (Option ℕ)
unfolding insert_session insert_session_event write_audit publish_update
apply_accept_start now new_id evt ctx = do
  let session = offline_session now new_id evt ctx
  modify (insert_session session)
  modify (
      insert_session_event (
        pc_event ctx SessionEventType.started session.id evt.occurred_at
          (started_offline session.planned_minutes)))
  modify (write_audit (pc_audit ctx "SUPERADMIN_SESSION_STARTED" session.id))
  modify (publish_update ctx session.id session.expires_at session.status)
  pure (some session.id)

abbrev pub extension_minutes : SyncEvent → ℕ
extension_minutes evt =
    clamp_minutes (parse_or 0 (or_else evt.payload.minutes evt.payload.planned_minutes))

-- The columns that an extension sets, from the session `active` that was read.
unfoldable pub offline_extended : (minutes : ℕ) → SessionRow → SessionRow → SessionRow
offline_extended minutes active row = record row {
  expires_at = active.expires_at + minutes * 60000;
  extended_minutes = active.extended_minutes + minutes;
}

abbrev status_or_active : Option SessionRow → SessionStatus
status_or_active none = SessionStatus.active
status_or_active (some s) = s.status

unfoldable pub apply_accept_extend : SyncEvent → SyncContext → SessionRow → M (Option ℕ)
unfolding update_session insert_session_event write_audit publish_update
apply_accept_extend evt ctx active = do
  let minutes = extension_minutes evt
  modify (update_session active.id (offline_extended minutes active))
  updated ← gets (λ w. session_by_id active.id w.sessions)
  modify (
      insert_session_event (
        pc_event ctx SessionEventType.extended active.id evt.occurred_at
          (extended_offline minutes)))
  modify (write_audit (pc_audit ctx "SUPERADMIN_SESSION_EXTENDED" active.id))
  modify (
      publish_update ctx active.id (active.expires_at + minutes * 60000) (status_or_active updated))
  pure (some active.id)

abbrev pub end_status : OfflineEventType → SessionStatus
end_status OfflineEventType.session_cancelled = SessionStatus.cancelled
end_status _ = SessionStatus.ended

abbrev end_event : OfflineEventType → SessionEventType
end_event OfflineEventType.session_cancelled = SessionEventType.cancelled
end_event _ = SessionEventType.ended

abbrev end_action : OfflineEventType → String
end_action OfflineEventType.session_cancelled = "SUPERADMIN_SESSION_CANCELLED"
end_action _ = "SUPERADMIN_SESSION_ENDED"

-- The columns that an end sets.
unfoldable pub offline_ended : OfflineEventType → (ended_at : ℕ) → SessionRow → SessionRow
offline_ended type ended_at row = record row { status = end_status type; ended_at = some ended_at }

unfoldable pub apply_accept_end : (now : ℕ) → SyncEvent → SyncContext → SessionRow → M (Option ℕ)
unfolding update_session insert_session_event write_audit publish_update
apply_accept_end now evt ctx active = do
  let ended_at = if ltb now evt.occurred_at then now else evt.occurred_at
  modify (update_session active.id (offline_ended evt.type ended_at))
  modify (insert_session_event (pc_event ctx (end_event evt.type) active.id ended_at ended_offline))
  modify (write_audit (pc_audit ctx (end_action evt.type) active.id))
  modify (publish_update ctx active.id ended_at (end_status evt.type))
  pure (some active.id)

unfoldable pub apply_conflict : SyncEvent → SyncContext → Option ConflictReason → M (Option ℕ)
unfolding write_audit publish
apply_conflict evt ctx reason = do
  modify (
      write_audit (record {
        cafe_id = ctx.cafe_id;
        actor_type = ActorType.system;
        actor_id = ActorId.named "sync";
        actor_role = none;
        action = "SUPERADMIN_CONFLICT";
        source = EventSource.offline;
        pc_id = some ctx.pc_id;
        entity_type = some "offline_event";
        entity_id = some evt.event_id;
      }))
  modify (
      publish ctx.cafe_id (record {
        event = sync_conflict;
        content = conflict_data evt.event_id ctx.pc_id reason;
        pc_id = none;
      }))
  pure none

-- The `state` that a decision gives its event.
abbrev pub decision_state : ConflictAction → OfflineEventState
decision_state conflict = OfflineEventState.conflicted
decision_state ConflictAction.duplicate = OfflineEventState.duplicate
decision_state _ = OfflineEventState.accepted

-- The branches of `applyOfflineDecision`.
unfoldable pub apply_action :
    (now new_id : ℕ)
    → SyncEvent
    → SyncContext
    → Option SessionRow
    → Option ConflictReason
    → ConflictAction
    → M (Option ℕ)
unfolding apply_accept_start apply_accept_extend apply_accept_end apply_conflict
apply_action now new_id evt ctx active reason accept_start = apply_accept_start now new_id evt ctx
apply_action now new_id evt ctx (some active) reason accept_extend =
    apply_accept_extend evt ctx active
apply_action now new_id evt ctx (some active) reason accept_end =
    apply_accept_end now evt ctx active
apply_action now new_id evt ctx active reason conflict = apply_conflict evt ctx reason
apply_action now new_id evt ctx active reason _ = pure none

-- The state and the session's key.
unfoldable pub apply_offline_decision :
    (now new_id : ℕ)
    → SyncEvent
    → SyncContext
    → Option SessionRow
    → ConflictDecision
    → M (OfflineEventState × Option ℕ)
unfolding apply_action
apply_offline_decision now new_id evt ctx active decision = do
  session_id ← apply_action now new_id evt ctx active decision.reason decision.action
  pure (decision_state decision.action, session_id)

-- `orderBy(desc(startedAt)).limit(1)`, over the active sessions of the machine.
abbrev later : SessionRow → Option SessionRow → Option SessionRow
later s none = some s
later s (some t) = if ltb s.started_at t.started_at then some t else some s

abbrev pub active_on : ℕ → SessionRow → Bool
active_on pc_id s = s.pc_id == pc_id && session_status_eq s.status SessionStatus.active

abbrev pub load_active_session : (pc_id : ℕ) → List SessionRow → Option SessionRow
load_active_session pc_id [] = none
load_active_session pc_id (s ∷ ss) =
    let rest = load_active_session pc_id ss in if active_on pc_id s then later s rest else rest
