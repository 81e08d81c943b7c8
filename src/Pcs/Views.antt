-- ===== src/Pcs/Views.antt =====
-- What apps/server/src/modules/pcs/handlers.ts answers of a machine without a change. The rows that
-- `orderBy … limit(1)` takes are those with the highest value of the column, the first of equal
-- ones.
use gaming_cafe_management.Prelude.{
  ℕ, Bool, true, false, ◌&&◌, [], ◌∷◌, List, Option, none, some, ◌==◌, ltb, leb, find?, filter, map,
  opt_eq, if◌then◌else◌,
}
use gaming_cafe_management.Auth.{UserClaims, DevicePrincipal}
use gaming_cafe_management.Commands.{is_open}
use gaming_cafe_management.Pcs.{pc_at}
use gaming_cafe_management.Shared.{
  CommandType, SessionStatus, session_status_eq, problem, internal, pc_not_found,
}
use gaming_cafe_management.World.Devices.{HealthSnapshotRow, PcConfigurationRow}
use gaming_cafe_management.World.Catalog.{GameRow, InstallationRow}
use gaming_cafe_management.World.Tables.{PcRow, SessionRow, CommandRow}
use gaming_cafe_management.World.Action.{pure, gets, require, ◌>>=◌}
use gaming_cafe_management.World.{World, M}

-- The row with the highest key, where `best` is the highest before the list.
abbrev pub highest_from {ℓ} : {A : Type ℓ} → (A → ℕ) → A → List A → A
highest_from key best [] = best
highest_from key best (x ∷ xs) = highest_from key (if ltb (key best) (key x) then x else best) xs

abbrev pub highest {ℓ} : {A : Type ℓ} → (A → ℕ) → List A → Option A
highest key [] = none
highest key (x ∷ xs) = some (highest_from key x xs)

unfoldable pub latest_configuration : (pc_id : ℕ) → World → Option PcConfigurationRow
latest_configuration pc_id w =
    highest (λ c. c.version) (filter (λ c. c.pc_id == pc_id) w.pc_configurations)

unfoldable pub latest_health : (pc_id : ℕ) → World → Option HealthSnapshotRow
latest_health pc_id w =
    highest (λ h. h.captured_at) (filter (λ h. h.pc_id == pc_id) w.pc_health_snapshots)

unfoldable pub handle_pc_health_latest : UserClaims → (id : ℕ) → M (Option HealthSnapshotRow)
unfolding latest_health
handle_pc_health_latest user id = do
  rows ← gets (λ w. w.pcs)
  owned ← require (problem 404 pc_not_found) (find? (pc_at id user.cafe_id) rows)
  gets (latest_health id)

-- `config` is `none` for a null one; the empty document is 0.
pub record ConfigResponse : Type 0 where
  pub version : ℕ
  pub config : Option ℕ
  pub unchanged : Bool

unfoldable pub config_response : Option ℕ → Option PcConfigurationRow → ConfigResponse
config_response asked none = record { version = 0; config = some 0; unchanged = false }
config_response asked (some c) =
    if opt_eq asked (some c.version)
    then record { version = c.version; config = none; unchanged = true }
    else record { version = c.version; config = some c.config; unchanged = false }

unfoldable pub handle_agent_config : DevicePrincipal → (version : Option ℕ) → M ConfigResponse
unfolding latest_configuration config_response
handle_agent_config device version = do
  latest ← gets (latest_configuration device.pc_id)
  pure (config_response version latest)

-- A command as the bootstrap lists it; its status in the answer is always "pending".
pub record PendingCommand : Type 0 where
  pub id : ℕ
  pub type : CommandType
  pub issued_at : ℕ

-- `ORDER BY issued_at ASC`.
abbrev insert_by_issue : CommandRow → List CommandRow → List CommandRow
insert_by_issue c [] = c ∷ []
insert_by_issue c (d ∷ ds) =
    let rest = insert_by_issue c ds in if leb c.issued_at d.issued_at then c ∷ d ∷ ds else d ∷ rest

abbrev sort_by_issue : List CommandRow → List CommandRow
sort_by_issue [] = []
sort_by_issue (c ∷ cs) = insert_by_issue c (sort_by_issue cs)

abbrev pub pending_command : CommandRow → PendingCommand
pending_command c = record { id = c.id; type = c.type; issued_at = c.issued_at }

unfoldable pub pending_commands : (now pc_id : ℕ) → World → List PendingCommand
pending_commands now pc_id w = map pending_command (
    sort_by_issue
      (filter (λ c. c.pc_id == pc_id && (is_open c.status && ltb now c.expires_at)) w.pc_commands))

-- The answer to a machine that starts, less the version of its verifier and the time. The games are
-- in the table's order, each with its installation on the machine.
pub record BootstrapResponse : Type 0 where
  pub pc : PcRow
  pub config : Option PcConfigurationRow
  pub active_session : Option SessionRow
  pub games : List (GameRow × Option InstallationRow)
  pub pending_commands : List PendingCommand

unfoldable pub enabled_games : (cafe_id pc_id : ℕ) → World → List (GameRow × Option InstallationRow)
enabled_games cafe_id pc_id w =
    map (λ g. (g, find? (λ i. i.game_id == g.id && i.pc_id == pc_id) w.pc_game_installations))
      (filter (λ g. g.cafe_id == cafe_id && g.enabled) w.games)

unfoldable pub handle_agent_bootstrap : (now : ℕ) → DevicePrincipal → M BootstrapResponse
unfolding latest_configuration pending_commands enabled_games
handle_agent_bootstrap now device = do
  rows ← gets (λ w. w.pcs)
  pc ← require (problem 500 internal) (find? (λ p. p.id == device.pc_id) rows)
  config ← gets (latest_configuration device.pc_id)
  sessions ← gets (λ w. w.sessions)
  games ← gets (enabled_games device.cafe_id device.pc_id)
  commands ← gets (pending_commands now device.pc_id)
  pure (record {
    pc = pc;
    config = config;
    active_session =
        find? (λ s. s.pc_id == device.pc_id && session_status_eq s.status SessionStatus.active)
          sessions;
    games = games;
    pending_commands = commands;
  })
