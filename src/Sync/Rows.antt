-- ===== src/Sync/Rows.antt =====
-- apps/server/src/modules/sync/apply.ts: the numbers of a payload, and the rows and the event that the
-- branches write.
use gaming_cafe_management.Prelude.{ℕ, suc, min, max, none, some, String}
use gaming_cafe_management.Realtime.{session_updated, session_data}
use gaming_cafe_management.Shared.{SessionStatus, SessionEventType, ActorType, EventSource}
use gaming_cafe_management.World.Tables.{
  SessionEventRow, EventPayload, AuditRow, ActorId, PayloadField, absent, not_a_number, number,
  begins,
}
use gaming_cafe_management.World.{World, publish}
use gaming_cafe_management.Sync.{SyncContext}

-- `Math.max(5, Math.min(24 * 60, …))`.
abbrev pub clamp_minutes : ℕ → ℕ
clamp_minutes n = max 5 (min 1440 n)

-- `Number.parseInt(String(…), 10) || fallback`, where zero takes the fallback too.
abbrev pub parse_or : ℕ → PayloadField → ℕ
parse_or fallback (number (suc n)) = suc n
parse_or fallback (begins (suc n)) = suc n
parse_or fallback _ = fallback

-- `a ?? b`.
abbrev pub or_else : PayloadField → PayloadField → PayloadField
or_else absent b = b
or_else not_a_number b = not_a_number
or_else (number n) b = number n
or_else (begins n) b = begins n

-- The machine's event on a session.
unfoldable pub pc_event :
    SyncContext → SessionEventType → (session_id occurred_at : ℕ) → EventPayload → SessionEventRow
pc_event ctx type session_id occurred_at payload = record {
  session_id = session_id;
  type = type;
  actor_type = ActorType.pc;
  actor_id = ActorId.id ctx.pc_id;
  occurred_at = occurred_at;
  payload = payload;
}

-- The machine's audit row on a session.
unfoldable pub pc_audit : SyncContext → (action : String) → (session_id : ℕ) → AuditRow
pc_audit ctx action session_id = record {
  cafe_id = ctx.cafe_id;
  actor_type = ActorType.pc;
  actor_id = ActorId.id ctx.pc_id;
  actor_role = none;
  action = action;
  source = EventSource.offline;
  pc_id = some ctx.pc_id;
  entity_type = some "session";
  entity_id = some session_id;
}

unfoldable pub publish_update :
    SyncContext → (session_id expires_at : ℕ) → SessionStatus → World → World
unfolding publish
publish_update ctx session_id expires_at status w =
    publish ctx.cafe_id
      (record {
        event = session_updated;
        content = session_data session_id ctx.pc_id expires_at status;
        pc_id = some ctx.pc_id;
      })
      w
