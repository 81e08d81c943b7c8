-- ===== src/Games/Deployments/Owned.antt =====
-- The targets that a request of apps/server/src/modules/games/handlers.ts finds are its café's.
use gaming_cafe_management.Prelude.{
  ℕ, ◌≡◌, refl, sym, ap, ◌∙◌, inl, inr, true, ◌&&◌, Bool, List, [], ◌∷◌, Option, none, some, All,
  arith, ◌==◌, ==_refl, find?, any, Bool-cases, Option-cases,
}
use mathlib.Core.Path.{subst}
use mathlib.Core.Option.{some-injective}
use gaming_cafe_management.Prelude.Rows.{UniqueKeys, unique-row, find-true, map-All}
use gaming_cafe_management.Auth.{UserClaims}
use gaming_cafe_management.World.Catalog.{DeploymentRow, TargetRow}
use gaming_cafe_management.World.{World}
use gaming_cafe_management.Games.Deployments.Requests.{of_cafe}
use gaming_cafe_management.Games.Deployments.Agent.{of_job}
use gaming_cafe_management.Games.Deployments.Staff.{target_with_cafe, join_target, join_cafe}

-- The targets with the key of a found one are the café's where the found one is.
pub owned_by_key :
    (cafe_id : ℕ) (q : TargetRow → Bool) (t : TargetRow) (w : World)
    → UniqueKeys (λ x. x.id) w.game_deployment_targets
    → find? q w.game_deployment_targets ≡ some t
    → of_cafe cafe_id w.game_deployments t ≡ true
    → All
        (λ x. (x.id == t.id) ≡ true → of_cafe cafe_id w.game_deployments x ≡ true)
        w.game_deployment_targets
owned_by_key cafe_id q t w u found own =
    map-All (λ x. (x.id == t.id) ≡ true → x ≡ t)
      (λ x. (x.id == t.id) ≡ true → of_cafe cafe_id w.game_deployments x ≡ true)
      w.game_deployment_targets
      (λ x h e. subst (λ y. of_cafe cafe_id w.game_deployments y ≡ true) (sym (h e)) own)
      (unique-row (λ x. x.id) q w.game_deployment_targets t u found)

pub found_job :
    (p : DeploymentRow → Bool) (cafe_id id : ℕ) (jobs : List DeploymentRow) (d : DeploymentRow)
    → find? p jobs ≡ some d
    → (d.id == id && d.cafe_id == cafe_id) ≡ true
    → any (λ j. j.id == id && j.cafe_id == cafe_id) jobs ≡ true
found_job p cafe_id id [] d h own = absurd (ground arith)
found_job p cafe_id id (j ∷ jobs) d h own = elim (Bool-cases (p j)) [
  | inl here ↦
      let e : j ≡ d = ground arith in
      let first : (j.id == id && j.cafe_id == cafe_id) ≡ true =
        subst (λ k. (k.id == id && k.cafe_id == cafe_id) ≡ true) (sym e) own in
      rw first refl
  | inr other ↦ let rest = found_job p cafe_id id jobs d (ground arith) own in ground arith
]

join_target-some :
    (o : Option TargetRow) (jobs : List DeploymentRow) (row : TargetRow × ℕ)
    → join_target o jobs ≡ some row
    → (o ≡ some row.0) × (of_cafe row.1 jobs row.0 ≡ true)
join_target-some none jobs row h = absurd (ground arith)
join_target-some (some t) jobs row h =
    elim (Option-cases (find? (λ d. d.id == t.deployment_id) jobs)) [
      | inl missing ↦ absurd (ground arith)
      | inr (d, found) ↦
          let job = find-true (λ d. d.id == t.deployment_id) jobs d found in
          let own =
            found_job (λ d. d.id == t.deployment_id) d.cafe_id t.deployment_id jobs d found
              (rw (job, ==_refl d.cafe_id) refl) in
          let e : ◌≡◌ {A = Option (TargetRow × ℕ)} (some (t, d.cafe_id)) (some row) =
            ap (λ o. join_cafe t o) (sym found) ∙ h in
          let given = some-injective (t, d.cafe_id) row e in
          subst
            (λ r. (◌≡◌ {A = Option TargetRow} (some t) (some r.0)) × (of_cafe r.1 jobs r.0 ≡ true))
            given (refl, own)
    ]

-- The target that staff name, with its café.
joined :
    (id : ℕ) (w : World) (row : TargetRow × ℕ)
    → target_with_cafe id w ≡ some row
    → (find? (λ t. t.id == id) w.game_deployment_targets ≡ some row.0)
      × (of_cafe row.1 w.game_deployments row.0 ≡ true)
      × ((row.0.id == id) ≡ true)
unfolding target_with_cafe
joined id w row h =
    let (found, own) =
      join_target-some (find? (λ t. t.id == id) w.game_deployment_targets) w.game_deployments row
        h in
    (found, own, find-true (λ t. t.id == id) w.game_deployment_targets row.0 found)

pub staff_owned :
    (user : UserClaims) (id : ℕ) (w : World) (row : TargetRow × ℕ)
    → UniqueKeys (λ x. x.id) w.game_deployment_targets
    → target_with_cafe id w ≡ some row
    → (row.1 == user.cafe_id) ≡ true
    → All
        (λ x. (x.id == id) ≡ true → of_cafe user.cafe_id w.game_deployments x ≡ true)
        w.game_deployment_targets
staff_owned user id w row u h cafe =
    let (found, own, named) = joined id w row h in
    let c : row.1 ≡ user.cafe_id = ground arith in
    let i : row.0.id ≡ id = ground arith in
    subst
      (λ k.
        All (λ x. (x.id == k) ≡ true → of_cafe user.cafe_id w.game_deployments x ≡ true)
          w.game_deployment_targets)
      i
      (owned_by_key user.cafe_id (λ t. t.id == id) row.0 w u found
        (subst (λ k. of_cafe k w.game_deployments row.0 ≡ true) c own))

pub job_owned :
    (job_id pc_id cafe_id : ℕ) (jobs : List DeploymentRow) (ts : List TargetRow)
    → any (λ d. d.id == job_id && d.cafe_id == cafe_id) jobs ≡ true
    → All (λ x. of_job job_id pc_id x ≡ true → of_cafe cafe_id jobs x ≡ true) ts
job_owned job_id pc_id cafe_id jobs [] h = tt
job_owned job_id pc_id cafe_id jobs (t ∷ ts) h = (
  λ e.
      let same : job_id ≡ t.deployment_id = ground arith in
      subst (λ k. any (λ d. d.id == k && d.cafe_id == cafe_id) jobs ≡ true) same h,
  job_owned job_id pc_id cafe_id jobs ts h,
)
