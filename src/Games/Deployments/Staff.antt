-- ===== src/Games/Deployments/Staff.antt =====
-- The handlers of apps/server/src/modules/games/handlers.ts by which staff pause and resume a
-- target.
use gaming_cafe_management.Prelude.{ℕ, List, Option, none, some, ◌==◌, find?, get_or}
use gaming_cafe_management.Auth.{UserClaims}
use gaming_cafe_management.Realtime.{deployment_updated}
use gaming_cafe_management.Shared.{
  DeploymentTargetState, problem, internal, deployment_target_not_found,
  deployment_target_invalid_transition,
}
use gaming_cafe_management.World.Audit.{staff_audit}
use gaming_cafe_management.World.Catalog.{TargetRow, DeploymentRow}
use gaming_cafe_management.World.Action.{pure, gets, modify, require, check, ◌>>=◌, ◌>>◌}
use gaming_cafe_management.World.{World, M, write_audit}
use gaming_cafe_management.Games.Deployments.{update_targets, publish_target, target_state_eq}

-- The target with its deployment's café: an inner join, and the first row of a key.
abbrev pub join_cafe : TargetRow → Option DeploymentRow → Option (TargetRow × ℕ)
join_cafe t none = none
join_cafe t (some d) = some (t, d.cafe_id)

abbrev pub join_target : Option TargetRow → List DeploymentRow → Option (TargetRow × ℕ)
join_target none jobs = none
join_target (some t) jobs = join_cafe t (find? (λ d. d.id == t.deployment_id) jobs)

unfoldable pub target_with_cafe : (id : ℕ) → World → Option (TargetRow × ℕ)
target_with_cafe id w =
    join_target (find? (λ t. t.id == id) w.game_deployment_targets) w.game_deployments

unfoldable pub paused_target : TargetRow → TargetRow
paused_target t = record t { state = DeploymentTargetState.paused }

-- The columns that a resumption sets, from the row that was read.
unfoldable pub resumed_target : (now : ℕ) → TargetRow → TargetRow → TargetRow
resumed_target now before t = record t {
  state = DeploymentTargetState.downloading;
  started_at = some (get_or before.started_at now);
}

unfoldable pub handle_pause_deployment_target : UserClaims → (id : ℕ) → M TargetRow
unfolding target_with_cafe paused_target update_targets write_audit publish_target
handle_pause_deployment_target user id = do
  found ← gets (target_with_cafe id)
  row ← require (problem 404 deployment_target_not_found) found
  check (row.1 == user.cafe_id) (problem 404 deployment_target_not_found)
  check (target_state_eq row.0.state DeploymentTargetState.downloading)
      (problem 409 deployment_target_invalid_transition)
  modify (update_targets (λ t. t.id == id) paused_target)
  rows ← gets (λ w. w.game_deployment_targets)
  target ← require (problem 500 internal) (find? (λ t. t.id == id) rows)
  modify (
      write_audit (
        staff_audit user "DEPLOYMENT_TARGET_PAUSED" (some target.pc_id)
          ("game_deployment_target", target.id)))
  modify (publish_target deployment_updated user.cafe_id target)
  pure target

unfoldable pub handle_resume_deployment_target : (now : ℕ) → UserClaims → (id : ℕ) → M TargetRow
unfolding target_with_cafe resumed_target update_targets write_audit publish_target
handle_resume_deployment_target now user id = do
  found ← gets (target_with_cafe id)
  row ← require (problem 404 deployment_target_not_found) found
  check (row.1 == user.cafe_id) (problem 404 deployment_target_not_found)
  check (target_state_eq row.0.state DeploymentTargetState.paused)
      (problem 409 deployment_target_invalid_transition)
  modify (update_targets (λ t. t.id == id) (resumed_target now row.0))
  rows ← gets (λ w. w.game_deployment_targets)
  target ← require (problem 500 internal) (find? (λ t. t.id == id) rows)
  modify (
      write_audit (
        staff_audit user "DEPLOYMENT_TARGET_RESUMED" (some target.pc_id)
          ("game_deployment_target", target.id)))
  modify (publish_target deployment_updated user.cafe_id target)
  pure target
