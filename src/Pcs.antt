-- ===== src/Pcs.antt =====
-- apps/server/src/modules/pcs/handlers.ts: the machines of a café, their health, their configuration
-- and the check of an owner's password at a machine.
pub mod Rows
pub mod Superadmin
pub mod Views
pub mod Details
use gaming_cafe_management.Prelude.{
  ℕ, Bool, true, false, not, ◌&&◌, ◌||◌, [], ◌∷◌, ◌++◌, List, Option, none, some, ◌==◌, find?, any,
  get_or, is_some, if◌then◌else◌,
}
use gaming_cafe_management.Prelude.Texts.{Text}
use gaming_cafe_management.Pcs.Rows.{name_clashes, insert_pc, update_pcs}
use gaming_cafe_management.Auth.{UserClaims, DevicePrincipal}
use gaming_cafe_management.Realtime.{pc_status, pc_status_data}
use gaming_cafe_management.Shared.{PcStatus, problem, internal, pc_not_found}
use gaming_cafe_management.World.Devices.{HealthSnapshotRow, PcConfigurationRow}
use gaming_cafe_management.World.Tables.{PcRow}
use gaming_cafe_management.World.Audit.{staff_audit}
use gaming_cafe_management.World.Action.{pure, gets, modify, require, check, ◌>>=◌, ◌>>◌}
use gaming_cafe_management.World.{World, M, write_audit, publish}

abbrev pub pc_at : (id cafe_id : ℕ) → PcRow → Bool
pc_at id cafe_id p = p.id == id && p.cafe_id == cafe_id

-- The event on a machine's status has no `pc_id`.
unfoldable pub publish_status : (now cafe_id pc_id : ℕ) → PcStatus → World → World
unfolding publish
publish_status now cafe_id pc_id status w =
    publish cafe_id
      (record { event = pc_status; content = pc_status_data pc_id status now; pc_id = none }) w

unfoldable pub new_pc : (new_id cafe_id : ℕ) → Text → Option ℕ → PcRow
new_pc new_id cafe_id name tier_id = record {
  id = new_id;
  cafe_id = cafe_id;
  name = name;
  tier_id = tier_id;
  status = PcStatus.offline;
  hardware_fingerprint = none;
  agent_version = none;
  last_heartbeat_at = none;
}

unfoldable pub handle_create_pc :
    (now new_id : ℕ) → UserClaims → (name : Text) → (tier_id : Option ℕ) → M PcRow
unfolding new_pc insert_pc write_audit publish_status
handle_create_pc now new_id user name tier_id = do
  let pc = new_pc new_id user.cafe_id name tier_id
  insert_pc pc
  modify (write_audit (staff_audit user "PC_CREATED" (some pc.id) ("pc", pc.id)))
  modify (publish_status now user.cafe_id pc.id pc.status)
  pure pc

-- A field that is not given is `none`; a tier may be set to null.
pub record PatchPcInput : Type 0 where
  pub name : Option Text
  pub tier_id : Option (Option ℕ)
  pub status : Option PcStatus

unfoldable pub patched_pc : PatchPcInput → PcRow → PcRow
patched_pc input p = record p {
  name = get_or input.name p.name;
  tier_id = get_or input.tier_id p.tier_id;
  status = get_or input.status p.status;
}

-- Whether a change sets a column; an update that sets none throws.
abbrev pub sets_any : PatchPcInput → Bool
sets_any input = is_some input.name || is_some input.tier_id || is_some input.status

abbrev renames_to_taken : (id cafe_id : ℕ) → Option Text → List PcRow → Bool
renames_to_taken id cafe_id none pcs = false
renames_to_taken id cafe_id (some name) pcs =
    any (pc_at id cafe_id) pcs && name_clashes id cafe_id name pcs

abbrev publish_if_given : Option PcStatus → (now cafe_id : ℕ) → PcRow → World → World
publish_if_given none now cafe_id pc w = w
publish_if_given (some status) now cafe_id pc w = publish_status now cafe_id pc.id pc.status w

unfoldable pub handle_patch_pc : (now : ℕ) → UserClaims → (id : ℕ) → PatchPcInput → M PcRow
unfolding patched_pc update_pcs write_audit publish_status
handle_patch_pc now user id input = do
  check (sets_any input) (problem 500 internal)
  before ← gets (λ w. w.pcs)
  check (not (renames_to_taken id user.cafe_id input.name before)) (problem 500 internal)
  modify (update_pcs (pc_at id user.cafe_id) (patched_pc input))
  rows ← gets (λ w. w.pcs)
  pc ← require (problem 404 pc_not_found) (find? (pc_at id user.cafe_id) rows)
  modify (write_audit (staff_audit user "CONFIG_CHANGED" (some pc.id) ("pc", pc.id)))
  modify (publish_if_given input.status now user.cafe_id pc)
  pure pc

unfoldable pub insert_health : HealthSnapshotRow → World → World
insert_health row w = record w {
  db = record (w.db) { pc_health_snapshots = w.pc_health_snapshots ++ row ∷ [] };
}

-- `case when status in ('offline','online') then 'online' else status end`.
abbrev pub beating : PcStatus → PcStatus
beating PcStatus.online = PcStatus.online
beating PcStatus.offline = PcStatus.online
beating PcStatus.maintenance = PcStatus.maintenance
beating PcStatus.disabled = PcStatus.disabled

unfoldable pub heartbeat : (now : ℕ) → PcRow → PcRow
heartbeat now p = record p { status = beating p.status; last_heartbeat_at = some now }

abbrev pub is_online : PcStatus → Bool
is_online PcStatus.online = true
is_online _ = false

abbrev publish_online : (now pc_id : ℕ) → Option PcRow → World → World
publish_online now pc_id none w = w
publish_online now pc_id (some p) w =
    if is_online p.status then publish_status now p.cafe_id pc_id PcStatus.online w else w

-- The report's machine and time are those of the request.
unfoldable pub handle_agent_health : (now : ℕ) → DevicePrincipal → HealthSnapshotRow → M (Unit {0})
unfolding insert_health heartbeat update_pcs publish_status
handle_agent_health now device input = do
  modify (insert_health (record input { pc_id = device.pc_id; captured_at = now }))
  modify (update_pcs (λ p. p.id == device.pc_id) (heartbeat now))
  rows ← gets (λ w. w.pcs)
  modify (publish_online now device.pc_id (find? (λ p. p.id == device.pc_id) rows))
