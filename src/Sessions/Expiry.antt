-- ===== src/Sessions/Expiry.antt =====
-- apps/server/src/modules/sessions/expiry.ts: the sweep of the session worker.
use gaming_cafe_management.Prelude.{
  ℕ, ◌+◌, Bool, true, false, ◌&&◌, List, [], ◌∷◌, Option, none, some, ltb, filter, map,
  if◌then◌else◌,
}
use gaming_cafe_management.Realtime.{session_updated, session_data, pc_status, pc_status_data}
use gaming_cafe_management.Shared.{
  SessionStatus, SessionEventType, ActorType, EventSource, PcStatus, session_status_eq,
}
use gaming_cafe_management.World.Tables.{SessionRow, PcRow, ActorId, expired_at}
use gaming_cafe_management.World.{World, write_audit, insert_session_event, publish}

-- `status = 'active' AND expires_at < now()`.
abbrev pub is_due : (now : ℕ) → SessionRow → Bool
is_due now s = session_status_eq s.status SessionStatus.active && ltb s.expires_at now

unfoldable pub expire_session : (now : ℕ) → SessionRow → SessionRow
expire_session now s =
    if is_due now s then record s { status = SessionStatus.expired; ended_at = some now } else s

-- What the sweep records of one session that it has expired.
unfoldable pub record_expiry : (now : ℕ) → SessionRow → World → World
unfolding insert_session_event write_audit publish
record_expiry now row w =
    publish row.cafe_id
      (record {
        event = session_updated;
        content = session_data row.id row.pc_id row.expires_at SessionStatus.expired;
        pc_id = some row.pc_id;
      })
      (write_audit
        (record {
          cafe_id = row.cafe_id;
          actor_type = ActorType.system;
          actor_id = ActorId.named "worker";
          actor_role = none;
          action = "SESSION_EXPIRED";
          source = EventSource.online;
          pc_id = some row.pc_id;
          entity_type = some "session";
          entity_id = some row.id;
        })
        (insert_session_event
          (record {
            session_id = row.id;
            type = SessionEventType.expired;
            actor_type = ActorType.system;
            actor_id = ActorId.named "worker";
            occurred_at = now;
            payload = expired_at row.expires_at;
          })
          w))

unfoldable pub record_expiries : (now : ℕ) → List SessionRow → World → World
record_expiries now [] w = w
record_expiries now (row ∷ rows) w = record_expiries now rows (record_expiry now row w)

unfoldable pub expire_due_sessions : (now : ℕ) → World → List SessionRow × World
unfolding expire_session record_expiries record_expiry
expire_due_sessions now w =
    let rows = map (expire_session now) (filter (is_due now) w.sessions) in
    (
      rows,
      record_expiries now rows
          (record w { db = record (w.db) { sessions = map (expire_session now) w.sessions } }),
    )

-- `status = 'online' AND last_heartbeat_at < now() - interval '10 minutes'`.
abbrev heard_before : (now : ℕ) → Option ℕ → Bool
heard_before now none = false
heard_before now (some t) = ltb (t + 600000) now

abbrev is_online : PcStatus → Bool
is_online PcStatus.online = true
is_online _ = false

abbrev pub is_stale : (now : ℕ) → PcRow → Bool
is_stale now p = is_online p.status && heard_before now p.last_heartbeat_at

unfoldable pub mark_offline : (now : ℕ) → PcRow → PcRow
mark_offline now p = if is_stale now p then record p { status = PcStatus.offline } else p

publish_offline : (now : ℕ) → List PcRow → World → World
unfolding publish
publish_offline now [] w = w
publish_offline now (p ∷ ps) w = publish_offline now ps (
    publish p.cafe_id
      (record {
        event = pc_status;
        content = pc_status_data p.id PcStatus.offline now;
        pc_id = none;
      })
      w)

unfoldable pub mark_stale_pcs_offline : (now : ℕ) → World → List PcRow × World
unfolding mark_offline publish_offline
mark_stale_pcs_offline now w =
    let rows = map (mark_offline now) (filter (is_stale now) w.pcs) in
    (
      rows,
      publish_offline now rows
          (record w { db = record (w.db) { pcs = map (mark_offline now) w.pcs } }),
    )
