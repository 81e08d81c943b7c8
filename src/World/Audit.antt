-- ===== src/World/Audit.antt =====
-- The audit rows of the handlers that apps/server/src/modules/audit/service.ts inserts.
use gaming_cafe_management.Prelude.{ℕ, String, Option, none, some}
use gaming_cafe_management.Auth.{UserClaims, DevicePrincipal}
use gaming_cafe_management.Shared.{ActorType, EventSource}
use gaming_cafe_management.World.Tables.{AuditRow, ActorId}

-- What a user did, online.
unfoldable pub staff_audit :
    UserClaims → (action : String) → (pc_id : Option ℕ) → (entity : String × ℕ) → AuditRow
staff_audit user action pc_id entity = record {
  cafe_id = user.cafe_id;
  actor_type = ActorType.user;
  actor_id = ActorId.id user.sub;
  actor_role = some user.role;
  action = action;
  source = EventSource.online;
  pc_id = pc_id;
  entity_type = some entity.0;
  entity_id = some entity.1;
}

-- The same with no entity.
unfoldable pub plain_audit :
    (cafe_id : ℕ) → ActorType → (actor_id : ℕ) → (action : String) → (pc_id : Option ℕ) → AuditRow
plain_audit cafe_id actor_type actor_id action pc_id = record {
  cafe_id = cafe_id;
  actor_type = actor_type;
  actor_id = ActorId.id actor_id;
  actor_role = none;
  action = action;
  source = EventSource.online;
  pc_id = pc_id;
  entity_type = none;
  entity_id = none;
}

-- What a machine did to a target of a deployment.
unfoldable pub target_audit : DevicePrincipal → (action : String) → (target_id : ℕ) → AuditRow
unfolding plain_audit
target_audit device action target_id =
    record (plain_audit device.cafe_id ActorType.pc device.pc_id action (some device.pc_id)) {
      entity_type = some "game_deployment_target";
      entity_id = some target_id;
    }
