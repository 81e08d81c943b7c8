-- ===== src/Games/Deployments.antt =====
-- Deployments of a game's version to machines: apps/server/src/modules/games/deployment.ts and the
-- handlers on targets in apps/server/src/modules/games/handlers.ts. A deployment's targets are its
-- rows of `gameDeploymentTargets`, one for each machine.
pub mod Agent
pub mod Staff
pub mod Counting
pub mod Targets
pub mod Requests
pub mod Owned
pub mod Effects
pub mod Isolation
use gaming_cafe_management.Prelude.{
  ℕ, zero, suc, Bool, ◌&&◌, [], ◌∷◌, ◌++◌, List, Option, none, some, ◌==◌, find?, filter, mem,
  length, update_where, if◌then◌else◌,
}
use gaming_cafe_management.Auth.{UserClaims}
use gaming_cafe_management.Realtime.{EventName, deployment_updated, deployment_data}
use gaming_cafe_management.Shared.{
  DeploymentJobStatus, DeploymentTargetState, problem, game_not_found, game_version_not_found,
  pc_not_found, pc_not_in_cafe,
}
use gaming_cafe_management.World.Audit.{staff_audit}
use gaming_cafe_management.World.Catalog.{DeploymentRow, TargetRow}
use gaming_cafe_management.World.Action.{pure, gets, modify, require, check, ◌>>=◌, ◌>>◌}
use gaming_cafe_management.World.{World, M, write_audit, publish}
use gaming_cafe_management.Games.{game_at}

-- `[...new Set(ids)]`: the first of each, in order.
abbrev pub distinct_from : (seen ids : List ℕ) → List ℕ
distinct_from seen [] = []
distinct_from seen (id ∷ ids) =
    if mem id seen then distinct_from seen ids else id ∷ distinct_from (id ∷ seen) ids

abbrev pub distinct : List ℕ → List ℕ
distinct ids = distinct_from [] ids

pub record CreateDeploymentInput : Type 0 where
  pub game_id : ℕ
  pub target_version_id : ℕ
  pub master_pc_id : ℕ
  pub pc_ids : List ℕ
  pub policy : Option ℕ

unfoldable pub validate_deployment_refs : (cafe_id : ℕ) → CreateDeploymentInput → M (List ℕ)
validate_deployment_refs cafe_id input = do
  games ← gets (λ w. w.games)
  game ← require (problem 404 game_not_found) (find? (game_at input.game_id cafe_id) games)
  versions ← gets (λ w. w.game_versions)
  version ←
      require (problem 404 game_version_not_found)
        (find? (λ v. v.id == input.target_version_id && v.game_id == input.game_id) versions)
  pcs ← gets (λ w. w.pcs)
  master ←
      require (problem 404 pc_not_found)
        (find? (λ p. p.id == input.master_pc_id && p.cafe_id == cafe_id) pcs)
  let target_pc_ids = distinct input.pc_ids
  check
      (length (filter (λ p. mem p.id target_pc_ids && p.cafe_id == cafe_id) pcs)
        == length target_pc_ids)
      (problem 400 pc_not_in_cafe)
  pure target_pc_ids

-- `publishDeploymentTargets`.
abbrev pub publish_deployment_targets : (cafe_id job_id : ℕ) → List TargetRow → World → World
publish_deployment_targets cafe_id job_id [] w = w
publish_deployment_targets cafe_id job_id (t ∷ ts) w =
    publish_deployment_targets cafe_id job_id ts (
      publish cafe_id
        (record {
          event = deployment_updated;
          content = deployment_data job_id t.pc_id t.state (some t.progress_pct);
          pc_id = some t.pc_id;
        })
        w)

unfoldable pub new_deployment : (new_id : ℕ) → UserClaims → CreateDeploymentInput → DeploymentRow
new_deployment new_id user input = record {
  id = new_id;
  cafe_id = user.cafe_id;
  game_id = input.game_id;
  target_version_id = input.target_version_id;
  master_pc_id = input.master_pc_id;
  policy = input.policy;
  status = DeploymentJobStatus.queued;
  created_by = user.sub;
}

-- A new target has the defaults of its columns.
unfoldable pub new_target : (new_id deployment_id pc_id : ℕ) → TargetRow
new_target new_id deployment_id pc_id = record {
  id = new_id;
  deployment_id = deployment_id;
  pc_id = pc_id;
  state = DeploymentTargetState.queued;
  progress_pct = 0;
  bytes_transferred = 0;
  error = none;
  started_at = none;
  finished_at = none;
}

-- The new rows, whose keys the database makes: the `n`-th has the key `keys n`.
abbrev pub new_targets : (keys : ℕ → ℕ) → (deployment_id : ℕ) → List ℕ → List TargetRow
new_targets keys deployment_id [] = []
new_targets keys deployment_id (pc_id ∷ ids) =
    new_target (keys 0) deployment_id pc_id ∷ new_targets (λ n. keys (suc n)) deployment_id ids

unfoldable pub insert_deployment : DeploymentRow → World → World
insert_deployment row w = record w {
  db = record (w.db) { game_deployments = w.game_deployments ++ row ∷ [] };
}

unfoldable pub insert_targets : List TargetRow → World → World
insert_targets rows w = record w {
  db = record (w.db) { game_deployment_targets = w.game_deployment_targets ++ rows };
}

unfoldable pub handle_create_deployment :
    (new_id : ℕ)
    → (keys : ℕ → ℕ) → UserClaims
    → CreateDeploymentInput
    → M (DeploymentRow × List TargetRow)
unfolding validate_deployment_refs insert_deployment insert_targets write_audit
handle_create_deployment new_id keys user input = do
  target_pc_ids ← validate_deployment_refs user.cafe_id input
  let job = new_deployment new_id user input
  modify (insert_deployment job)
  let targets = new_targets keys job.id target_pc_ids
  modify (insert_targets targets)
  modify (write_audit (staff_audit user "GAME_DEPLOYMENT_CREATED" none ("game_deployment", job.id)))
  modify (publish_deployment_targets user.cafe_id job.id targets)
  pure (job, targets)

-- `update(gameDeploymentTargets).set(…).where(…)`.
unfoldable pub update_targets : (TargetRow → Bool) → (TargetRow → TargetRow) → World → World
update_targets p set w = record w {
  db = record (w.db) { game_deployment_targets = update_where p set w.game_deployment_targets };
}

-- The event on a target as it now is.
unfoldable pub publish_target : EventName → (cafe_id : ℕ) → TargetRow → World → World
unfolding publish
publish_target name cafe_id t w =
    publish cafe_id
      (record {
        event = name;
        content = deployment_data t.deployment_id t.pc_id t.state (some t.progress_pct);
        pc_id = some t.pc_id;
      })
      w

abbrev target_state_rank : DeploymentTargetState → ℕ
target_state_rank DeploymentTargetState.queued = 0
target_state_rank DeploymentTargetState.downloading = 1
target_state_rank DeploymentTargetState.verifying = 2
target_state_rank DeploymentTargetState.installing = 3
target_state_rank DeploymentTargetState.ready = 4
target_state_rank DeploymentTargetState.paused = 5
target_state_rank DeploymentTargetState.failed = 6
target_state_rank DeploymentTargetState.offline = 7

abbrev pub target_state_eq : DeploymentTargetState → DeploymentTargetState → Bool
target_state_eq a b = target_state_rank a == target_state_rank b
