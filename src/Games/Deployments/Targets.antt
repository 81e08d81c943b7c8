-- ===== src/Games/Deployments/Targets.antt =====
-- The targets of a new deployment.
use gaming_cafe_management.Prelude.{
  ℕ, ◌≡◌, refl, sym, ap, ◌∙◌, inl, inr, true, List, [], ◌∷◌, ◌++◌, map, suc, All, arith, ◌==◌,
  filter, length,
}
use mathlib.Core.Path.{subst}
use gaming_cafe_management.Prelude.Pigeonhole.{Distinct}
use gaming_cafe_management.Prelude.Rows.{UniqueKeys}
use gaming_cafe_management.Auth.{UserClaims}
use gaming_cafe_management.Shared.{HttpProblem, DeploymentTargetState}
use gaming_cafe_management.World.Action.{ok, err, Result-cases, err≢ok, ok_inj}
use gaming_cafe_management.World.Tables.{PcRow}
use gaming_cafe_management.World.Catalog.{DeploymentRow, TargetRow}
use gaming_cafe_management.Games.Deployments.Counting.{
  is_target, in_cafe, distinct_from-Distinct, counted-in_cafe, All-in_cafe,
}
use gaming_cafe_management.World.{World, publish}
use gaming_cafe_management.Games.Deployments.{
  CreateDeploymentInput, distinct, handle_create_deployment, new_deployment, new_target,
  new_targets, publish_deployment_targets, validate_deployment_refs,
}

validate-ok :
    (cafe_id : ℕ) (input : CreateDeploymentInput) (w after : World) (ids : List ℕ)
    → validate_deployment_refs cafe_id input w ≡ (ok ids, after)
    → (ids ≡ distinct input.pc_ids)
      × (after ≡ w)
      × ((length (filter (is_target cafe_id (distinct input.pc_ids)) w.pcs)
            == length (distinct input.pc_ids))
          ≡ true)
unfolding validate_deployment_refs
validate-ok cafe_id input w after ids h = (ground arith, ground arith, ground arith)

publish_targets-db :
    (cafe_id job_id : ℕ) (ts : List TargetRow) (w : World)
    → (publish_deployment_targets cafe_id job_id ts w).db ≡ w.db
unfolding publish
publish_targets-db cafe_id job_id [] w = refl
publish_targets-db cafe_id job_id (t ∷ ts) w = publish_targets-db cafe_id job_id ts _

-- What a creation does once its input is accepted.
created :
    (new_id : ℕ) (next_key : ℕ → ℕ) (user : UserClaims) (input : CreateDeploymentInput) (w : World)
    (ids : List ℕ)
    → validate_deployment_refs user.cafe_id input w ≡ (ok ids, w)
    → let r = handle_create_deployment new_id next_key user input w in
      let job = new_deployment new_id user input in
      let targets = new_targets next_key job.id ids in
      (r.0 ≡ ok (job, targets))
      × (r.1.game_deployment_targets ≡ w.game_deployment_targets ++ targets)
unfolding handle_create_deployment
created new_id next_key user input w ids h = (rw h refl, rw (h, publish_targets-db) refl)

-- A target of a new deployment, with its machine.
abbrev pub IsNewTarget : (job_id cafe_id : ℕ) → List PcRow → TargetRow → Type 0
IsNewTarget job_id cafe_id pcs t =
    (t.deployment_id ≡ job_id)
    × (t.state ≡ DeploymentTargetState.queued)
    × (t.progress_pct ≡ 0)
    × (in_cafe cafe_id pcs t.pc_id ≡ true)

new_targets-IsNew :
    (next_key : ℕ → ℕ) (job_id cafe_id : ℕ) (pcs : List PcRow) (ids : List ℕ)
    → All (λ id. in_cafe cafe_id pcs id ≡ true) ids
    → All (IsNewTarget job_id cafe_id pcs) (new_targets next_key job_id ids)
unfolding new_target
new_targets-IsNew next_key job_id cafe_id pcs [] h = tt
new_targets-IsNew next_key job_id cafe_id pcs (x ∷ ids) (h, hs) =
    ((refl, refl, refl, h), new_targets-IsNew (λ n. next_key (suc n)) job_id cafe_id pcs ids hs)

new_targets-pcs :
    (next_key : ℕ → ℕ) (job_id : ℕ) (ids : List ℕ)
    → map (λ t. t.pc_id) (new_targets next_key job_id ids) ≡ ids
unfolding new_target
new_targets-pcs next_key job_id [] = refl
new_targets-pcs next_key job_id (x ∷ ids) =
    ap (λ rest. x ∷ rest) (new_targets-pcs (λ n. next_key (suc n)) job_id ids)

refused :
    (new_id : ℕ) (next_key : ℕ → ℕ) (user : UserClaims) (input : CreateDeploymentInput)
    (w s : World) (e : HttpProblem)
    → validate_deployment_refs user.cafe_id input w ≡ (err e, s)
    → handle_create_deployment new_id next_key user input w ≡ (err e, s)
unfolding handle_create_deployment
refused new_id next_key user input w s e h = rw h refl

-- What the answer says of the rows before it.
abbrev Targeted :
    (new_id : ℕ)
    → UserClaims
    → CreateDeploymentInput
    → World
    → DeploymentRow × List TargetRow
    → Type 0
Targeted new_id user input w (job, targets) =
    (map (λ t. t.pc_id) targets ≡ distinct input.pc_ids)
    × Distinct ◌==◌ (map (λ t. t.pc_id) targets)
    × All (IsNewTarget job.id user.cafe_id w.pcs) targets

new_targets-Targeted :
    (new_id : ℕ) (next_key : ℕ → ℕ) (user : UserClaims) (input : CreateDeploymentInput) (w : World)
    → UniqueKeys (λ p. p.id) w.pcs
    → (length (filter (is_target user.cafe_id (distinct input.pc_ids)) w.pcs)
        == length (distinct input.pc_ids))
      ≡ true
    → let job = new_deployment new_id user input in
      Targeted new_id user input w (job, new_targets next_key job.id (distinct input.pc_ids))
unfolding new_deployment
new_targets-Targeted new_id next_key user input w u count =
    let ids = distinct input.pc_ids in
    let pcs_lem = new_targets-pcs next_key new_id ids in
    let d : Distinct ◌==◌ ids = distinct_from-Distinct [] input.pc_ids in
    let here =
      All-in_cafe user.cafe_id w.pcs ids
        (λ id. counted-in_cafe user.cafe_id ids w.pcs id d u count) in
    (pcs_lem, rw pcs_lem d, new_targets-IsNew next_key new_id user.cafe_id w.pcs ids here)

-- Where a deployment is created from tables in which no two machines have the same key, its new
-- targets are on the distinct machines that the request names, in their order, one on each; every
-- one of them is queued, without progress, and on a machine of the user's café. The table of targets
-- gets these rows and no other.
pub handle_create_deployment-targets :
    (new_id : ℕ) (next_key : ℕ → ℕ) (user : UserClaims) (input : CreateDeploymentInput)
    (w after : World) (job : DeploymentRow) (targets : List TargetRow)
    → UniqueKeys (λ p. p.id) w.pcs
    → handle_create_deployment new_id next_key user input w ≡ (ok (job, targets), after)
    → (map (λ t. t.pc_id) targets ≡ distinct input.pc_ids)
      × Distinct ◌==◌ (map (λ t. t.pc_id) targets)
      × All (IsNewTarget job.id user.cafe_id w.pcs) targets
      × (after.game_deployment_targets ≡ w.game_deployment_targets ++ targets)
handle_create_deployment-targets new_id next_key user input w after job targets u h =
    elim (Result-cases (validate_deployment_refs user.cafe_id input w)) [
      | inr (e, s, stop) ↦ absurd (
          err≢ok e (job, targets) s after (sym (refused new_id next_key user input w s e stop) ∙ h))
      | inl (ids, s, valid) ↦
          let (named, same, count) = validate-ok user.cafe_id input w s ids valid in
          let accepted : validate_deployment_refs user.cafe_id input w
              ≡ (ok (distinct input.pc_ids), w) =
            valid ∙ rw (named, same) refl in
          let (answer, table) =
            created new_id next_key user input w (distinct input.pc_ids) accepted in
          let given = ok_inj _ (job, targets) (sym answer ∙ ap (λ r. r.0) h) in
          let (pcs, one, new) =
            subst (Targeted new_id user input w) given
              (new_targets-Targeted new_id next_key user input w u count) in
          (
            pcs,
            one,
            new,
            ap (λ r. r.1.game_deployment_targets) (sym h)
                ∙ table
                ∙ ap (λ r. w.game_deployment_targets ++ r.1) given,
          )
    ]
