-- ===== src/Commands.antt =====
-- apps/server/src/modules/commands (issue.ts, handlers.ts) and the command sweep of
-- apps/server/src/worker.ts. The time and the new row's key are arguments.
pub mod Ack
pub mod Confirmed
use gaming_cafe_management.Prelude.{
  ℕ, ◌+◌, Bool, true, false, not, ◌&&◌, [], ◌∷◌, ◌++◌, Option, none, some, leb, ◌==◌, if◌then◌else◌,
  find?, update_where, get_or, String,
}
use gaming_cafe_management.Shared.{
  CommandType, CommandStatus, problem, internal, pc_not_found, confirmation_required,
  command_not_found, is_dangerous,
}
use gaming_cafe_management.Shared
use gaming_cafe_management.Auth.{UserClaims, DevicePrincipal}
use gaming_cafe_management.Realtime.{command, command_data}
use gaming_cafe_management.World.Tables.{CommandRow, ActorId}
use gaming_cafe_management.World.Action.{pure, gets, modify, require, check, ◌>>=◌, ◌>>◌}
use gaming_cafe_management.World.{World, M, write_audit, publish}

pub insert_command : CommandRow → World → World
insert_command row w = record w { db = record (w.db) { pc_commands = w.pc_commands ++ row ∷ [] } }

-- The arguments of `issuePcCommand`.
pub record IssueArgs : Type 0 where
  pub cafe_id : ℕ
  pub pc_id : ℕ
  pub type : CommandType
  pub issued_by : ℕ
  pub confirmed_by : Option ℕ
  pub requires_confirm : Bool

unfoldable pub issued_command : (now new_id : ℕ) → IssueArgs → CommandRow
issued_command now new_id args = record {
  id = new_id;
  cafe_id = args.cafe_id;
  pc_id = args.pc_id;
  type = args.type;
  requires_confirm = args.requires_confirm;
  confirmed_by = args.confirmed_by;
  status = CommandStatus.pending;
  issued_by = args.issued_by;
  issued_at = now;
  delivered_at = none;
  acked_at = none;
  expires_at = now + 60000;
}

unfoldable pub issue_pc_command : (now new_id : ℕ) → IssueArgs → M CommandRow
unfolding insert_command publish
issue_pc_command now new_id args = do
  let cmd = issued_command now new_id args
  modify (insert_command cmd)
  modify (
      publish args.cafe_id (record {
        event = command;
        content = command_data cmd.id cmd.pc_id cmd.type cmd.status cmd.issued_at;
        pc_id = some args.pc_id;
      }))
  pure cmd

pub record IssueCommandInput : Type 0 where
  pub type : CommandType
  pub confirm : Bool

unfoldable pub handle_issue_command :
    (now new_id : ℕ) → UserClaims → (pc_id : ℕ) → IssueCommandInput → M CommandRow
unfolding issue_pc_command write_audit is_dangerous
handle_issue_command now new_id user pc_id input = do
  rows ← gets (λ w. w.pcs)
  pc ←
      require (problem 404 pc_not_found)
        (find? (λ p. p.id == pc_id && p.cafe_id == user.cafe_id) rows)
  let dangerous = is_dangerous input.type
  check (not (dangerous && not input.confirm)) (problem 400 confirmation_required)
  cmd ← issue_pc_command now new_id (record {
    cafe_id = user.cafe_id;
    pc_id = pc.id;
    type = input.type;
    issued_by = user.sub;
    confirmed_by = if dangerous then some user.sub else none;
    requires_confirm = dangerous;
  })
  modify (
      write_audit (record {
        cafe_id = user.cafe_id;
        actor_type = Shared.ActorType.user;
        actor_id = ActorId.id user.sub;
        actor_role = some user.role;
        action = "COMMAND_ISSUED";
        source = Shared.EventSource.online;
        pc_id = some pc.id;
        entity_type = some "command";
        entity_id = some cmd.id;
      }))
  pure cmd

-- The two statuses that an agent may report.
pub data AckStatus : Type 0 where
  applied failed : AckStatus

abbrev pub ack_status : AckStatus → CommandStatus
ack_status applied = CommandStatus.applied
ack_status failed = CommandStatus.failed

abbrev ack_action : AckStatus → String
ack_action applied = "COMMAND_APPLIED"
ack_action failed = "COMMAND_FAILED"

-- `status === "pending" || status === "sent"`.
abbrev pub is_open : CommandStatus → Bool
is_open CommandStatus.pending = true
is_open CommandStatus.sent = true
is_open _ = false

-- The columns that an acknowledgement sets, from the row `cmd` that was read.
unfoldable pub acked_command : (now : ℕ) → AckStatus → CommandRow → CommandRow → CommandRow
acked_command now status cmd row = record row {
  status = ack_status status;
  acked_at = some now;
  delivered_at = some (get_or cmd.delivered_at now);
}

-- `update(pcCommands).set(…).where(eq(pcCommands.id, id))`.
unfoldable pub update_command : ℕ → (CommandRow → CommandRow) → World → World
update_command id set w = record w {
  db = record (w.db) { pc_commands = update_where (λ c. c.id == id) set w.pc_commands };
}

unfoldable pub acknowledge : (now : ℕ) → DevicePrincipal → AckStatus → CommandRow → M CommandRow
unfolding acked_command update_command write_audit
acknowledge now device status cmd = do
  modify (update_command cmd.id (acked_command now status cmd))
  rows ← gets (λ w. w.pc_commands)
  next ← require (problem 500 internal) (find? (λ c. c.id == cmd.id) rows)
  modify (
      write_audit (record {
        cafe_id = cmd.cafe_id;
        actor_type = Shared.ActorType.pc;
        actor_id = ActorId.id device.pc_id;
        actor_role = none;
        action = ack_action status;
        source = Shared.EventSource.online;
        pc_id = some device.pc_id;
        entity_type = some "command";
        entity_id = some cmd.id;
      }))
  pure next

-- The command is looked up by its id; one that is not open is answered as it stands.
unfoldable pub handle_command_ack :
    (now : ℕ) → DevicePrincipal → (id : ℕ) → AckStatus → M CommandRow
unfolding acknowledge
handle_command_ack now device id status = do
  rows ← gets (λ w. w.pc_commands)
  cmd ← require (problem 404 command_not_found) (find? (λ c. c.id == id) rows)
  check (cmd.pc_id == device.pc_id) (problem 404 command_not_found)
  if is_open cmd.status then acknowledge now device status cmd else pure cmd

-- The job of the command worker: open commands that are past their time expire.
pub expire_command : (now : ℕ) → CommandRow → CommandRow
expire_command now c = record c { status = CommandStatus.expired }

unfoldable pub expire_stale_commands : (now : ℕ) → World → World
unfolding expire_command
expire_stale_commands now w = record w {
  db = record (w.db) {
    pc_commands =
        update_where (λ c. is_open c.status && leb c.expires_at now) (expire_command now)
          w.pc_commands;
  };
}
