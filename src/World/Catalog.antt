-- ===== src/World/Catalog.antt =====
-- Rows of apps/server/src/db/schema.ts on games, their deployments and the categories of the menu.
use gaming_cafe_management.Prelude.{ℕ, Bool, Option, String}
use gaming_cafe_management.Shared.{
  GamePlatform, GameVersionStatus, InstallationState, DeploymentJobStatus, DeploymentTargetState,
}

pub record GameRow : Type 0 where
  pub id : ℕ
  pub cafe_id : ℕ
  pub name : String
  pub category : Option String
  pub executable_path : Option String
  pub launch_args : Option String
  pub platform : GamePlatform
  pub enabled : Bool
  pub display_order : ℕ

pub record GameVersionRow : Type 0 where
  pub id : ℕ
  pub game_id : ℕ
  pub version : String
  pub manifest_url : Option String
  pub size_bytes : Option ℕ
  pub status : GameVersionStatus
  pub published_at : Option ℕ

pub record InstallationRow : Type 0 where
  pub id : ℕ
  pub pc_id : ℕ
  pub game_id : ℕ
  pub installed_version_id : Option ℕ
  pub state : InstallationState
  pub last_verified_at : Option ℕ

-- `policy` is the number of the document.
pub record DeploymentRow : Type 0 where
  pub id : ℕ
  pub cafe_id : ℕ
  pub game_id : ℕ
  pub target_version_id : ℕ
  pub master_pc_id : ℕ
  pub policy : Option ℕ
  pub status : DeploymentJobStatus
  pub created_by : ℕ

-- The progress is in whole percents.
pub record TargetRow : Type 0 where
  pub id : ℕ
  pub deployment_id : ℕ
  pub pc_id : ℕ
  pub state : DeploymentTargetState
  pub progress_pct : ℕ
  pub bytes_transferred : ℕ
  pub error : Option String
  pub started_at : Option ℕ
  pub finished_at : Option ℕ

pub record MenuCategoryRow : Type 0 where
  pub id : ℕ
  pub cafe_id : ℕ
  pub name : String
  pub display_order : ℕ
  pub available : Bool
