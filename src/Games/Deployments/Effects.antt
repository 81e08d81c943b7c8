-- ===== src/Games/Deployments/Effects.antt =====
-- What a request of apps/server/src/modules/games/handlers.ts does to the table of targets.
use gaming_cafe_management.Prelude.{
  ℕ, ◌≡◌, refl, inl, inr, ◌⊎◌, true, false, ◌&&◌, Bool, List, Option, none, some, All, arith,
  String, ◌==◌, find?, update_where, Bool-cases, Option-cases,
}
use gaming_cafe_management.Prelude.Rows.{UniqueKeys, find-true}
use gaming_cafe_management.Auth.{UserClaims, DevicePrincipal}
use gaming_cafe_management.World.Catalog.{DeploymentRow, TargetRow}
use gaming_cafe_management.World.{World}
use gaming_cafe_management.Shared.{DeploymentTargetState}
use gaming_cafe_management.Games.Deployments.{target_state_eq}
use gaming_cafe_management.Games.Deployments.Requests.{
  TargetRequest, pause, resume, progress, complete, fail, handle_target, cafe_of, is_verified,
  of_cafe, is_ready,
}
use gaming_cafe_management.Games.Deployments.Owned.{owned_by_key, found_job, staff_owned, job_owned}
use gaming_cafe_management.Games.Deployments.Agent.{
  ProgressInput, handle_deployment_target_progress, handle_deployment_target_complete,
  handle_deployment_target_fail, owned_target, owned_by, of_job, reports_any, progressed_target,
  ready_target, failed_target, given_state, ReportedState,
}
use gaming_cafe_management.Games.Deployments.Staff.{
  handle_pause_deployment_target, handle_resume_deployment_target, target_with_cafe, paused_target,
  resumed_target,
}

pub jobs_kept :
    (r : TargetRequest) (w : World) → (handle_target r w).game_deployments ≡ w.game_deployments
unfolding handle_target handle_pause_deployment_target handle_resume_deployment_target
    handle_deployment_target_progress handle_deployment_target_complete
    handle_deployment_target_fail
jobs_kept (pause user id) w = ground arith
jobs_kept (resume now user id) w = ground arith
jobs_kept (progress device job pc input) w = ground arith
jobs_kept (complete now device job pc verified) w = ground arith
jobs_kept (fail now device job pc error) w = ground arith

-- The columns that no request sets.
abbrev pub SameTarget : TargetRow → TargetRow → Type 0
SameTarget x y = (y.id ≡ x.id) × (y.deployment_id ≡ x.deployment_id) × (y.pc_id ≡ x.pc_id)

-- An update of targets that are the café's, which makes none ready unless it may.
pub record Change (cafe_id : ℕ) (may_ready : Bool) (w : World) (after : List TargetRow)
    : Type 0 where
  pub hit : TargetRow → Bool
  pub set : TargetRow → TargetRow
  pub updated : after ≡ update_where hit set w.game_deployment_targets
  pub owned :
      All
        (λ x. hit x ≡ true → of_cafe cafe_id w.game_deployments x ≡ true)
        w.game_deployment_targets
  pub same : (x : TargetRow) → SameTarget x (set x)
  pub unready : may_ready ≡ false → (x : TargetRow) → is_ready (set x) ≡ true → is_ready x ≡ true

abbrev pub Effect : (cafe_id : ℕ) → (may_ready : Bool) → World → List TargetRow → Type 0
Effect cafe_id may_ready w after =
    (after ≡ w.game_deployment_targets) ⊎ Change cafe_id may_ready w after

pause-Effect :
    (user : UserClaims) (id : ℕ) (w : World)
    → UniqueKeys (λ x. x.id) w.game_deployment_targets
    → Effect user.cafe_id false w
        (handle_pause_deployment_target user id w).1.game_deployment_targets
unfolding handle_pause_deployment_target paused_target
pause-Effect user id w u = elim (Option-cases (target_with_cafe id w)) [
  | inl missing ↦ inl (ground arith)
  | inr (row, found) ↦ elim (Bool-cases (row.1 == user.cafe_id)) [
    | inr other ↦ inl (ground arith)
    | inl own ↦ elim (Bool-cases (target_state_eq row.0.state DeploymentTargetState.downloading)) [
      | inr wrong ↦ inl (ground arith)
      | inl right ↦ inr (record {
        hit = λ t. t.id == id;
        set = paused_target;
        updated = ground arith;
        owned = staff_owned user id w row u found own;
        same = λ x. (refl, refl, refl);
        unready = λ m x h. absurd (ground arith);
      })
    ]
  ]
]

resume-Effect :
    (now : ℕ) (user : UserClaims) (id : ℕ) (w : World)
    → UniqueKeys (λ x. x.id) w.game_deployment_targets
    → Effect user.cafe_id false w
        (handle_resume_deployment_target now user id w).1.game_deployment_targets
unfolding handle_resume_deployment_target resumed_target
resume-Effect now user id w u = elim (Option-cases (target_with_cafe id w)) [
  | inl missing ↦ inl (ground arith)
  | inr (row, found) ↦ elim (Bool-cases (row.1 == user.cafe_id)) [
    | inr other ↦ inl (ground arith)
    | inl own ↦ elim (Bool-cases (target_state_eq row.0.state DeploymentTargetState.paused)) [
      | inr wrong ↦ inl (ground arith)
      | inl right ↦ inr (record {
        hit = λ t. t.id == id;
        set = resumed_target now row.0;
        updated = ground arith;
        owned = staff_owned user id w row u found own;
        same = λ x. (refl, refl, refl);
        unready = λ m x h. absurd (ground arith);
      })
    ]
  ]
]

given_state-unready :
    (s : Option ReportedState) (old : DeploymentTargetState)
    → target_state_eq (given_state s old) DeploymentTargetState.ready ≡ true
    → target_state_eq old DeploymentTargetState.ready ≡ true
given_state-unready none old h = h
given_state-unready (some ReportedState.downloading) old h = absurd (ground arith)
given_state-unready (some ReportedState.verifying) old h = absurd (ground arith)
given_state-unready (some ReportedState.installing) old h = absurd (ground arith)
given_state-unready (some ReportedState.paused) old h = absurd (ground arith)

owned_by-cafe :
    (job_id pc_id cafe_id : ℕ) (jobs : List DeploymentRow) (t : TargetRow)
    → owned_by job_id pc_id cafe_id jobs t ≡ true
    → of_cafe cafe_id jobs t ≡ true
owned_by-cafe job_id pc_id cafe_id jobs t h = ground arith

progress-Effect :
    (device : DevicePrincipal) (job_id pc_id : ℕ) (input : ProgressInput) (w : World)
    → UniqueKeys (λ x. x.id) w.game_deployment_targets
    → Effect device.cafe_id false w
        (handle_deployment_target_progress device job_id pc_id input w).1.game_deployment_targets
unfolding handle_deployment_target_progress progressed_target owned_target
progress-Effect device job_id pc_id input w u = elim (Bool-cases (pc_id == device.pc_id)) [
  | inr other ↦ inl (ground arith)
  | inl mine ↦ elim (Option-cases (owned_target job_id pc_id device.cafe_id w)) [
    | inl missing ↦ inl (ground arith)
    | inr (t, found) ↦
        let q = owned_by job_id pc_id device.cafe_id w.game_deployments in
        let own =
          owned_by-cafe job_id pc_id device.cafe_id w.game_deployments t
            (find-true q w.game_deployment_targets t found) in
        elim (Bool-cases (reports_any input)) [
          | inr empty ↦ inl (ground arith)
          | inl given ↦ inr (record {
            hit = λ x. x.id == t.id;
            set = progressed_target input;
            updated = ground arith;
            owned = owned_by_key device.cafe_id q t w u found own;
            same = λ x. (refl, refl, refl);
            unready = λ m x h. given_state-unready input.state x.state h;
          })
        ]
  ]
]

complete-Effect :
    (now : ℕ) (device : DevicePrincipal) (job_id pc_id : ℕ) (verified : Bool) (w : World)
    → Effect device.cafe_id verified w
        (handle_deployment_target_complete now device job_id pc_id verified
          w).1.game_deployment_targets
unfolding handle_deployment_target_complete ready_target
complete-Effect now device job_id pc_id false w = inl (ground arith)
complete-Effect now device job_id pc_id true w = elim (Bool-cases (pc_id == device.pc_id)) [
  | inr other ↦ inl (ground arith)
  | inl mine ↦
      let p = λ (d : DeploymentRow). d.id == job_id && d.cafe_id == device.cafe_id in
      elim (Option-cases (find? p w.game_deployments)) [
        | inl missing ↦ inl (ground arith)
        | inr (d, found) ↦ inr (record {
          hit = of_job job_id pc_id;
          set = ready_target now;
          updated = ground arith;
          owned =
              job_owned job_id pc_id device.cafe_id w.game_deployments w.game_deployment_targets (
                found_job p device.cafe_id job_id w.game_deployments d found
                  (find-true p w.game_deployments d found));
          same = λ x. (refl, refl, refl);
          unready = λ m. absurd (ground arith);
        })
      ]
]

fail-Effect :
    (now : ℕ) (device : DevicePrincipal) (job_id pc_id : ℕ) (error : String) (w : World)
    → Effect device.cafe_id false w
        (handle_deployment_target_fail now device job_id pc_id error w).1.game_deployment_targets
unfolding handle_deployment_target_fail failed_target
fail-Effect now device job_id pc_id error w = elim (Bool-cases (pc_id == device.pc_id)) [
  | inr other ↦ inl (ground arith)
  | inl mine ↦
      let p = λ (d : DeploymentRow). d.id == job_id in
      elim (Option-cases (find? p w.game_deployments)) [
        | inl missing ↦ inl (ground arith)
        | inr (d, found) ↦ elim (Bool-cases (d.cafe_id == device.cafe_id)) [
          | inr foreign ↦ inl (ground arith)
          | inl own ↦ inr (record {
            hit = of_job job_id pc_id;
            set = failed_target now error;
            updated = ground arith;
            owned =
                job_owned job_id pc_id device.cafe_id w.game_deployments w.game_deployment_targets (
                  found_job p device.cafe_id job_id w.game_deployments d found
                    (rw (find-true p w.game_deployments d found, own) refl));
            same = λ x. (refl, refl, refl);
            unready = λ m x h. absurd (ground arith);
          })
        ]
      ]
]

-- A request changes no target, or targets of the requester's café.
pub handle_target-Effect :
    (r : TargetRequest) (w : World)
    → UniqueKeys (λ x. x.id) w.game_deployment_targets
    → Effect (cafe_of r) (is_verified r) w (handle_target r w).game_deployment_targets
unfolding handle_target
handle_target-Effect (pause user id) w u = pause-Effect user id w u
handle_target-Effect (resume now user id) w u = resume-Effect now user id w u
handle_target-Effect (progress device job pc input) w u = progress-Effect device job pc input w u
handle_target-Effect (complete now device job pc verified) w u =
    complete-Effect now device job pc verified w
handle_target-Effect (fail now device job pc error) w u = fail-Effect now device job pc error w
