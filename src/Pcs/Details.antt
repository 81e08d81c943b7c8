-- ===== src/Pcs/Details.antt =====
-- The machine's page of apps/server/src/modules/pcs/handlers.ts, and the list of machines. The order of
-- the list is the database's and an argument; `orderBy … limit(1)` takes the row with the highest
-- value of the column. The names of tiers are in a table that is an argument too.
use gaming_cafe_management.Prelude.{
  ℕ, Bool, true, false, ◌&&◌, [], ◌∷◌, List, Option, none, some, ◌==◌, find?, filter, map, get_or,
  String, take,
}
use gaming_cafe_management.Prelude.Texts.{Text}
use gaming_cafe_management.Auth.{UserClaims}
use gaming_cafe_management.Pcs.{pc_at}
use gaming_cafe_management.Pcs.Views.{highest, latest_health}
use gaming_cafe_management.Shared.{
  PcStatus, SessionStatus, CommandType, CommandStatus, InstallationState, problem, pc_not_found,
}
use gaming_cafe_management.World.Devices.{HealthSnapshotRow, CustomerRow}
use gaming_cafe_management.World.Catalog.{GameRow, GameVersionRow, InstallationRow}
use gaming_cafe_management.World.Tables.{PcRow, SessionRow, CommandRow}
use gaming_cafe_management.World.Action.{pure, gets, require, ◌>>=◌}
use gaming_cafe_management.World.{World, M}

pub record CurrentSession : Type 0 where
  pub id : ℕ
  pub customer_name : Option String
  pub started_at : ℕ
  pub expires_at : ℕ
  pub planned_minutes : ℕ

abbrev customer_name : Option ℕ → List CustomerRow → Option String
customer_name none customers = none
customer_name (some id) customers = elim (find? (λ c. c.id == id) customers) [
  | none ↦ none
  | some c ↦ some c.name
]

abbrev current_session : World → Option SessionRow → Option CurrentSession
current_session w none = none
current_session w (some s) = some (record {
  id = s.id;
  customer_name = customer_name s.customer_id w.customers;
  started_at = s.started_at;
  expires_at = s.expires_at;
  planned_minutes = s.planned_minutes;
})

-- The list shows a session that is active or scheduled; the page shows a paused one too.
abbrev pub is_listed_session : SessionStatus → Bool
is_listed_session SessionStatus.active = true
is_listed_session SessionStatus.scheduled = true
is_listed_session _ = false

abbrev pub is_open_session : SessionStatus → Bool
is_open_session SessionStatus.paused = true
is_open_session status = is_listed_session status

abbrev latest_session : (SessionStatus → Bool) → (pc_id : ℕ) → World → Option SessionRow
latest_session p pc_id w =
    highest (λ s. s.started_at) (filter (λ s. s.pc_id == pc_id && p s.status) w.sessions)

-- A row of the list of machines, with "Standard" for a machine of no tier; a version that is `none`
-- is shown as an empty text.
pub record PcDto : Type 0 where
  pub id : ℕ
  pub name : Text
  pub status : PcStatus
  pub tier_name : String
  pub agent_version : Option ℕ
  pub current_session : Option CurrentSession

pub record InstallationDto : Type 0 where
  pub id : ℕ
  pub game_name : String
  pub version_label : String
  pub state : InstallationState
  pub updated_at : ℕ

pub record CommandDto : Type 0 where
  pub id : ℕ
  pub type : CommandType
  pub status : CommandStatus
  pub issued_at : ℕ

-- The machine's page.
pub record PcDetails : Type 0 where
  pub pc : PcDto
  pub health : Option HealthSnapshotRow
  pub installations : List InstallationDto
  pub commands : List CommandDto

abbrev version_label : Option ℕ → List GameVersionRow → String
version_label none versions = "—"
version_label (some id) versions = elim (find? (λ v. v.id == id) versions) [
  | none ↦ "—"
  | some v ↦ v.version
]

abbrev installation_dto : World → InstallationRow → GameRow → InstallationDto
installation_dto w i g = record {
  id = i.id;
  game_name = g.name;
  version_label = version_label i.installed_version_id w.game_versions;
  state = i.state;
  updated_at = get_or i.last_verified_at 0;
}

-- The installations on a machine, each with its game.
abbrev installations_of : World → List InstallationRow → List InstallationDto
installations_of w [] = []
installations_of w (i ∷ is) =
    let rest = installations_of w is in
    elim (find? (λ g. g.id == i.game_id) w.games) [
      | none ↦ rest
      | some g ↦ installation_dto w i g ∷ rest
    ]

abbrev command_dto : CommandRow → CommandDto
command_dto c = record { id = c.id; type = c.type; status = c.status; issued_at = c.issued_at }

module _ (tier_name : ℕ → Option String) (order_pcs : List PcRow → List PcRow)
    (order_commands : List CommandRow → List CommandRow) where
  abbrev tier_of : Option ℕ → String
  tier_of none = "Standard"
  tier_of (some id) = get_or (tier_name id) "Standard"

  unfoldable pub pc_dto : (SessionStatus → Bool) → World → PcRow → PcDto
  pc_dto shown w p = record {
    id = p.id;
    name = p.name;
    status = p.status;
    tier_name = tier_of p.tier_id;
    agent_version = p.agent_version;
    current_session = current_session w (latest_session shown p.id w);
  }

  unfoldable pub handle_list_pcs : UserClaims → World → List PcDto
  unfolding pc_dto
  handle_list_pcs user w =
      map (pc_dto is_listed_session w)
        (take 500 (order_pcs (filter (λ p. p.cafe_id == user.cafe_id) w.pcs)))

  unfoldable pub handle_get_pc : UserClaims → (id : ℕ) → M PcDetails
  unfolding pc_dto latest_health
  handle_get_pc user id = do
    rows ← gets (λ w. w.pcs)
    pc ← require (problem 404 pc_not_found) (find? (pc_at id user.cafe_id) rows)
    page ← gets (λ w. pc_dto is_open_session w pc)
    health ← gets (latest_health id)
    installed ← gets (λ w. installations_of w (filter (λ i. i.pc_id == id) w.pc_game_installations))
    issued ← gets (λ w. filter (λ c. c.pc_id == id) w.pc_commands)
    pure (record {
      pc = page;
      health = health;
      installations = take 200 installed;
      commands = map command_dto (take 20 (order_commands issued));
    })
