-- ===== src/Games/Deployments/Requests.antt =====
-- The requests of apps/server/src/modules/games/handlers.ts on targets, one after the other.
use gaming_cafe_management.Prelude.{ℕ, false, ◌&&◌, Bool, List, [], ◌∷◌, String, ◌==◌, any}
use gaming_cafe_management.Auth.{UserClaims, DevicePrincipal}
use gaming_cafe_management.World.Catalog.{DeploymentRow, TargetRow}
use gaming_cafe_management.World.{World}
use gaming_cafe_management.Shared.{DeploymentTargetState}
use gaming_cafe_management.Games.Deployments.{target_state_eq}
use gaming_cafe_management.Games.Deployments.Agent.{
  ProgressInput, handle_deployment_target_progress, handle_deployment_target_complete,
  handle_deployment_target_fail,
}
use gaming_cafe_management.Games.Deployments.Staff.{
  handle_pause_deployment_target, handle_resume_deployment_target,
}

-- The requests on targets, of staff and of machines.
pub data TargetRequest : Type 0 where
  pause : UserClaims → (id : ℕ) → TargetRequest
  resume : (now : ℕ) → UserClaims → (id : ℕ) → TargetRequest
  progress : DevicePrincipal → (job_id pc_id : ℕ) → ProgressInput → TargetRequest
  complete : (now : ℕ) → DevicePrincipal → (job_id pc_id : ℕ) → (verified : Bool) → TargetRequest
  fail : (now : ℕ) → DevicePrincipal → (job_id pc_id : ℕ) → (error : String) → TargetRequest

-- The state after a request, whatever it answers.
unfoldable pub handle_target : TargetRequest → World → World
handle_target (pause user id) w = (handle_pause_deployment_target user id w).1
handle_target (resume now user id) w = (handle_resume_deployment_target now user id w).1
handle_target (progress device job pc input) w =
    (handle_deployment_target_progress device job pc input w).1
handle_target (complete now device job pc verified) w =
    (handle_deployment_target_complete now device job pc verified w).1
handle_target (fail now device job pc error) w =
    (handle_deployment_target_fail now device job pc error w).1

unfoldable pub handle_targets : List TargetRequest → World → World
handle_targets [] w = w
handle_targets (r ∷ rs) w = handle_targets rs (handle_target r w)

abbrev pub cafe_of : TargetRequest → ℕ
cafe_of (pause user id) = user.cafe_id
cafe_of (resume now user id) = user.cafe_id
cafe_of (progress device job pc input) = device.cafe_id
cafe_of (complete now device job pc verified) = device.cafe_id
cafe_of (fail now device job pc error) = device.cafe_id

-- A report that an installation is complete and verified.
abbrev pub is_verified : TargetRequest → Bool
is_verified (complete now device job pc verified) = verified
is_verified _ = false

-- A target of a job of the café.
abbrev pub of_cafe : (cafe_id : ℕ) → List DeploymentRow → TargetRow → Bool
of_cafe cafe_id jobs t = any (λ d. d.id == t.deployment_id && d.cafe_id == cafe_id) jobs

abbrev pub is_ready : TargetRow → Bool
is_ready t = target_state_eq t.state DeploymentTargetState.ready
