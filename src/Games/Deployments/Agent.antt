-- ===== src/Games/Deployments/Agent.antt =====
-- The handlers of apps/server/src/modules/games/handlers.ts by which a machine's agent follows its
-- targets.
use gaming_cafe_management.Prelude.{
  ℕ, Bool, ◌&&◌, List, Option, none, some, ◌==◌, find?, any, get_or, update_where, String, is_some,
  ◌||◌,
}
use gaming_cafe_management.Auth.{DevicePrincipal}
use gaming_cafe_management.Realtime.{deployment_updated, deployment_progress, deployment_data}
use gaming_cafe_management.Shared.{
  DeploymentTargetState, InstallationState, problem, internal, not_your_target,
  deployment_target_not_found, deployment_not_found, manifest_not_verified,
}
use gaming_cafe_management.World.Audit.{target_audit}
use gaming_cafe_management.World.Catalog.{TargetRow, DeploymentRow, InstallationRow}
use gaming_cafe_management.World.Action.{gets, modify, require, check, ◌>>=◌, ◌>>◌}
use gaming_cafe_management.World.{World, M, write_audit, publish}
use gaming_cafe_management.Games.Deployments.{update_targets, publish_target}

-- The states that a report of progress may give.
pub data ReportedState : Type 0 where
  downloading verifying installing paused : ReportedState

abbrev pub reported_state : ReportedState → DeploymentTargetState
reported_state downloading = DeploymentTargetState.downloading
reported_state verifying = DeploymentTargetState.verifying
reported_state installing = DeploymentTargetState.installing
reported_state paused = DeploymentTargetState.paused

pub record ProgressInput : Type 0 where
  pub state : Option ReportedState
  pub progress_pct : Option ℕ
  pub bytes_transferred : Option ℕ

-- Whether a report sets a column; an update that sets none throws.
abbrev pub reports_any : ProgressInput → Bool
reports_any input =
    is_some input.state || is_some input.progress_pct || is_some input.bytes_transferred

abbrev pub given_state : Option ReportedState → DeploymentTargetState → DeploymentTargetState
given_state none s = s
given_state (some r) s = reported_state r

unfoldable pub progressed_target : ProgressInput → TargetRow → TargetRow
progressed_target input t = record t {
  state = given_state input.state t.state;
  progress_pct = get_or input.progress_pct t.progress_pct;
  bytes_transferred = get_or input.bytes_transferred t.bytes_transferred;
}

-- A target of the job on the machine, where the job is of the café.
abbrev pub owned_by : (job_id pc_id cafe_id : ℕ) → List DeploymentRow → TargetRow → Bool
owned_by job_id pc_id cafe_id jobs t =
    t.deployment_id == job_id
    && t.pc_id == pc_id
    && any (λ d. d.id == t.deployment_id && d.cafe_id == cafe_id) jobs

unfoldable pub owned_target : (job_id pc_id cafe_id : ℕ) → World → Option TargetRow
owned_target job_id pc_id cafe_id w =
    find? (owned_by job_id pc_id cafe_id w.game_deployments) w.game_deployment_targets

unfoldable pub handle_deployment_target_progress :
    DevicePrincipal → (job_id pc_id : ℕ) → ProgressInput → M (Unit {0})
unfolding owned_target progressed_target update_targets publish_target
handle_deployment_target_progress device job_id pc_id input = do
  check (pc_id == device.pc_id) (problem 403 not_your_target)
  found ← gets (owned_target job_id pc_id device.cafe_id)
  owned ← require (problem 404 deployment_target_not_found) found
  check (reports_any input) (problem 500 internal)
  modify (update_targets (λ t. t.id == owned.id) (progressed_target input))
  rows ← gets (λ w. w.game_deployment_targets)
  target ← require (problem 500 internal) (find? (λ t. t.id == owned.id) rows)
  modify (publish_target deployment_progress device.cafe_id target)

abbrev pub of_job : (job_id pc_id : ℕ) → TargetRow → Bool
of_job job_id pc_id t = t.deployment_id == job_id && t.pc_id == pc_id

unfoldable pub ready_target : (now : ℕ) → TargetRow → TargetRow
ready_target now t = record t {
  state = DeploymentTargetState.ready;
  progress_pct = 100;
  finished_at = some now;
  error = none;
}

unfoldable pub installed : (now version_id : ℕ) → InstallationRow → InstallationRow
installed now version_id i = record i {
  state = InstallationState.ready;
  installed_version_id = some version_id;
  last_verified_at = some now;
}

unfoldable pub update_installations :
    (InstallationRow → Bool) → (InstallationRow → InstallationRow) → World → World
update_installations p set w = record w {
  db = record (w.db) { pc_game_installations = update_where p set w.pc_game_installations };
}

-- The event on the end of a target; a failure's has no progress.
unfoldable pub publish_ended :
    DevicePrincipal → (job_id : ℕ) → DeploymentTargetState → Option ℕ → World → World
unfolding publish
publish_ended device job_id state progress_pct w =
    publish device.cafe_id
      (record {
        event = deployment_updated;
        content = deployment_data job_id device.pc_id state progress_pct;
        pc_id = some device.pc_id;
      })
      w

-- `updated[0]!` is only read for its key, after both updates: without a target the key's read
-- throws.
unfoldable pub handle_deployment_target_complete :
    (now : ℕ)
    → DevicePrincipal
    → (job_id pc_id : ℕ) → (manifest_hash_verified : Bool) → M (Unit {0})
unfolding ready_target update_targets installed update_installations write_audit publish_ended
handle_deployment_target_complete now device job_id pc_id manifest_hash_verified = do
  check (pc_id == device.pc_id) (problem 403 not_your_target)
  check manifest_hash_verified (problem 400 manifest_not_verified)
  jobs ← gets (λ w. w.game_deployments)
  job ←
      require (problem 404 deployment_not_found)
        (find? (λ d. d.id == job_id && d.cafe_id == device.cafe_id) jobs)
  modify (update_targets (of_job job_id pc_id) (ready_target now))
  targets ← gets (λ w. w.game_deployment_targets)
  modify (
      update_installations (λ i. i.pc_id == pc_id && i.game_id == job.game_id)
        (installed now job.target_version_id))
  target ← require (problem 500 internal) (find? (of_job job_id pc_id) targets)
  modify (write_audit (target_audit device "GAME_DEPLOYMENT_COMPLETED" target.id))
  modify (publish_ended device job_id DeploymentTargetState.ready (some 100))

-- `error` is the text that the code and the detail of the report make.
unfoldable pub failed_target : (now : ℕ) → (error : String) → TargetRow → TargetRow
failed_target now error t = record t {
  state = DeploymentTargetState.failed;
  error = some error;
  finished_at = some now;
}

unfoldable pub handle_deployment_target_fail :
    (now : ℕ) → DevicePrincipal → (job_id pc_id : ℕ) → (error : String) → M (Unit {0})
unfolding failed_target update_targets write_audit publish_ended
handle_deployment_target_fail now device job_id pc_id error = do
  check (pc_id == device.pc_id) (problem 403 not_your_target)
  jobs ← gets (λ w. w.game_deployments)
  job ← require (problem 404 deployment_not_found) (find? (λ d. d.id == job_id) jobs)
  check (job.cafe_id == device.cafe_id) (problem 404 deployment_not_found)
  modify (update_targets (of_job job_id pc_id) (failed_target now error))
  targets ← gets (λ w. w.game_deployment_targets)
  target ← require (problem 500 internal) (find? (of_job job_id pc_id) targets)
  modify (write_audit (target_audit device "GAME_DEPLOYMENT_FAILED" target.id))
  modify (publish_ended device job_id DeploymentTargetState.failed none)
