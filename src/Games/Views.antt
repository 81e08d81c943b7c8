-- ===== src/Games/Views.antt =====
-- What apps/server/src/modules/games/handlers.ts lists without a change. The order of the rows is the
-- database's and an argument: each list has the rows of its query, in the order of the function that
-- stands for its `orderBy`. The limits of the queries are not modelled.
use gaming_cafe_management.Prelude.{
  ℕ, Bool, true, false, ◌&&◌, [], ◌∷◌, List, Option, none, some, ◌==◌, find?, filter, map, any,
  length, String,
}
use gaming_cafe_management.Prelude.Texts.{Text}
use gaming_cafe_management.Auth.{UserClaims, DevicePrincipal}
use gaming_cafe_management.Shared.{
  GamePlatform, GameVersionStatus, DeploymentJobStatus, DeploymentTargetState,
}
use gaming_cafe_management.World.Catalog.{GameRow, GameVersionRow, DeploymentRow, TargetRow}
use gaming_cafe_management.World.Tables.{PcRow}
use gaming_cafe_management.World.{World}

pub record VersionDto : Type 0 where
  pub id : ℕ
  pub version : String
  pub status : GameVersionStatus
  pub size_bytes : Option ℕ
  pub manifest_url : Option String
  pub published_at : Option ℕ

pub record GameDto : Type 0 where
  pub id : ℕ
  pub name : String
  pub platform : GamePlatform
  pub category : Option String
  pub executable_path : Option String
  pub launch_args : Option String
  pub enabled : Bool
  pub display_order : ℕ
  pub versions : List VersionDto
  pub installation_count : ℕ

abbrev version_dto : GameVersionRow → VersionDto
version_dto v = record {
  id = v.id;
  version = v.version;
  status = v.status;
  size_bytes = v.size_bytes;
  manifest_url = v.manifest_url;
  published_at = v.published_at;
}

unfoldable pub game_dto : List GameVersionRow → World → GameRow → GameDto
game_dto versions w g = record {
  id = g.id;
  name = g.name;
  platform = g.platform;
  category = g.category;
  executable_path = g.executable_path;
  launch_args = g.launch_args;
  enabled = g.enabled;
  display_order = g.display_order;
  versions = map version_dto (filter (λ v. v.game_id == g.id) versions);
  installation_count = length (filter (λ i. i.game_id == g.id) w.pc_game_installations);
}

pub record TargetDto : Type 0 where
  pub id : ℕ
  pub pc_id : ℕ
  pub pc_name : Text
  pub state : DeploymentTargetState
  pub progress_pct : ℕ
  pub bytes_transferred : ℕ
  pub error : Option String
  pub started_at : Option ℕ
  pub finished_at : Option ℕ

pub record DeploymentDto : Type 0 where
  pub id : ℕ
  pub game_id : ℕ
  pub game_name : String
  pub target_version_id : ℕ
  pub master_pc_id : ℕ
  pub policy : Option ℕ
  pub status : DeploymentJobStatus
  pub created_by : ℕ
  pub targets : List TargetDto

-- The rows of an inner join, where the second table has a row for the key of the first's.
abbrev pub inner_join {ℓ} : {A B C : Type ℓ} → (A → Option B) → (A → B → C) → List A → List C
inner_join match_of pair [] = []
inner_join match_of pair (a ∷ more) =
    let rest = inner_join match_of pair more in
    elim (match_of a) [ none ↦ rest | some b ↦ pair a b ∷ rest ]

abbrev target_dto : TargetRow → PcRow → TargetDto
target_dto t p = record {
  id = t.id;
  pc_id = t.pc_id;
  pc_name = p.name;
  state = t.state;
  progress_pct = t.progress_pct;
  bytes_transferred = t.bytes_transferred;
  error = t.error;
  started_at = t.started_at;
  finished_at = t.finished_at;
}

-- The targets of a job, each with its machine's name.
abbrev job_targets : World → (job_id : ℕ) → List TargetDto
job_targets w job_id =
    inner_join (λ t. find? (λ p. p.id == t.pc_id) w.pcs) target_dto
      (filter (λ t. t.deployment_id == job_id) w.game_deployment_targets)

unfoldable pub deployment_dto : World → DeploymentRow → GameRow → DeploymentDto
deployment_dto w d g = record {
  id = d.id;
  game_id = d.game_id;
  game_name = g.name;
  target_version_id = d.target_version_id;
  master_pc_id = d.master_pc_id;
  policy = d.policy;
  status = d.status;
  created_by = d.created_by;
  targets = job_targets w d.id;
}

-- A deployment as a machine sees it; the document of its policy stands for `policy` and for the
-- address in it.
pub record ActiveDeployment : Type 0 where
  pub job_id : ℕ
  pub game_id : ℕ
  pub target_state : DeploymentTargetState
  pub progress_pct : ℕ
  pub version : String
  pub manifest_url : Option String
  pub size_bytes : Option ℕ
  pub policy : Option ℕ
  pub master_pc_name : Option Text

-- The states that are not an end.
abbrev pub is_active_target : DeploymentTargetState → Bool
is_active_target DeploymentTargetState.queued = true
is_active_target DeploymentTargetState.downloading = true
is_active_target DeploymentTargetState.verifying = true
is_active_target DeploymentTargetState.installing = true
is_active_target DeploymentTargetState.paused = true
is_active_target _ = false

-- A target's job with the version that it installs, where both are there.
abbrev versioned :
    List GameVersionRow → Option DeploymentRow → Option (DeploymentRow × GameVersionRow)
versioned versions none = none
versioned versions (some d) = elim (find? (λ v. v.id == d.target_version_id) versions) [
  | none ↦ none
  | some v ↦ some (d, v)
]

abbrev job_of : World → TargetRow → Option (DeploymentRow × GameVersionRow)
job_of w t = versioned w.game_versions (find? (λ d. d.id == t.deployment_id) w.game_deployments)

-- A left join: the name, where the machine is there.
abbrev name_of : Option PcRow → Option Text
name_of none = none
name_of (some p) = some p.name

abbrev active_deployment : World → TargetRow → DeploymentRow × GameVersionRow → ActiveDeployment
active_deployment w t (d, v) = record {
  job_id = d.id;
  game_id = d.game_id;
  target_state = t.state;
  progress_pct = t.progress_pct;
  version = v.version;
  manifest_url = v.manifest_url;
  size_bytes = v.size_bytes;
  policy = d.policy;
  master_pc_name = name_of (find? (λ p. p.id == d.master_pc_id) w.pcs);
}

unfoldable pub handle_agent_deployments_active : DevicePrincipal → World → List ActiveDeployment
handle_agent_deployments_active device w =
    inner_join (job_of w) (active_deployment w)
      (filter (λ t. t.pc_id == device.pc_id && is_active_target t.state) w.game_deployment_targets)

module _ (order_games : List GameRow → List GameRow)
    (order_versions : List GameVersionRow → List GameVersionRow)
    (order_deployments : List DeploymentRow → List DeploymentRow) where
  unfoldable pub handle_list_games : UserClaims → World → List GameDto
  unfolding game_dto
  handle_list_games user w =
      let games = order_games (filter (λ g. g.cafe_id == user.cafe_id) w.games) in
      let versions =
        order_versions (filter (λ v. any (λ g. g.id == v.game_id) games) w.game_versions) in
      map (game_dto versions w) games

  unfoldable pub handle_list_deployments : UserClaims → World → List DeploymentDto
  unfolding deployment_dto
  handle_list_deployments user w =
      inner_join (λ d. find? (λ g. g.id == d.game_id) w.games) (deployment_dto w)
        (order_deployments (filter (λ d. d.cafe_id == user.cafe_id) w.game_deployments))
