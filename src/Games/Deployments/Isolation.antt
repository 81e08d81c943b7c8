-- ===== src/Games/Deployments/Isolation.antt =====
-- Requests on targets over time: whose targets they change, and which targets become ready.
use gaming_cafe_management.Prelude.{
  ℕ, ◌≡◌, ◌≢◌, refl, sym, ap, ◌∙◌, inl, inr, true, false, ◌&&◌, Bool, List, [], ◌∷◌, All, arith,
  ◌==◌, any, filter, Bool-cases,
}
use mathlib.Core.Path.{subst}
use gaming_cafe_management.Prelude.Pigeonhole.{has}
use gaming_cafe_management.Prelude.Rows.{
  UniqueKeys, keys, keys-update, Pairs, Pairs-refl, Pairs-trans, Pairs-update, Pairs-filter,
}
use gaming_cafe_management.World.Catalog.{DeploymentRow, TargetRow}
use gaming_cafe_management.World.{World}
use gaming_cafe_management.Games.Deployments.Requests.{
  TargetRequest, handle_target, handle_targets, cafe_of, is_verified, of_cafe, is_ready,
}
use gaming_cafe_management.Games.Deployments.Effects.{SameTarget, jobs_kept, handle_target-Effect}

-- A key has one café.
any-absent :
    (cafe_id id : ℕ) (jobs : List DeploymentRow)
    → has ◌==◌ id (keys (λ d. d.id) jobs) ≡ false
    → any (λ d. d.id == id && d.cafe_id == cafe_id) jobs ≡ false
any-absent cafe_id id [] h = refl
any-absent cafe_id id (d ∷ jobs) h =
    let rest = any-absent cafe_id id jobs (ground arith) in ground arith

one_cafe :
    (a b id : ℕ) (jobs : List DeploymentRow)
    → UniqueKeys (λ d. d.id) jobs
    → any (λ d. d.id == id && d.cafe_id == a) jobs ≡ true
    → any (λ d. d.id == id && d.cafe_id == b) jobs ≡ true
    → a ≡ b
one_cafe a b id [] u h k = absurd (ground arith)
one_cafe a b id (d ∷ jobs) (fresh, u) h k = elim (Bool-cases (d.id == id)) [
  | inr other ↦ one_cafe a b id jobs u (ground arith) (ground arith)
  | inl here ↦
      let gone : has ◌==◌ id (keys (λ j. j.id) jobs) ≡ false =
        subst (λ n. has ◌==◌ n (keys (λ j. j.id) jobs) ≡ false)
          (let e : d.id ≡ id = ground arith in e) fresh in
      let na = any-absent a id jobs gone in let nb = any-absent b id jobs gone in ground arith
]

-- Before and after: the same target, unchanged where it is the café's.
abbrev Kept : (cafe_id : ℕ) → List DeploymentRow → TargetRow → TargetRow → Type 0
Kept cafe_id jobs x y = SameTarget x y × (of_cafe cafe_id jobs x ≡ true → y ≡ x)

-- Before and after: a target that is ready was.
abbrev pub NotMadeReady : TargetRow → TargetRow → Type 0
NotMadeReady x y = SameTarget x y × (is_ready y ≡ true → is_ready x ≡ true)

foreign-Kept :
    (cafe_id own : ℕ) (jobs : List DeploymentRow) (p : TargetRow → Bool) (f : TargetRow → TargetRow)
    (ts : List TargetRow)
    → UniqueKeys (λ d. d.id) jobs
    → own ≢ cafe_id
    → ((x : TargetRow) → SameTarget x (f x))
    → All (λ x. p x ≡ true → of_cafe own jobs x ≡ true) ts
    → All (λ x. p x ≡ true → Kept cafe_id jobs x (f x)) ts
foreign-Kept cafe_id own jobs p f [] u ne s h = tt
foreign-Kept cafe_id own jobs p f (t ∷ ts) u ne s (h, hs) = (
  λ e. (s t, λ k. absurd (ne (one_cafe own cafe_id t.deployment_id jobs u (h e) k))),
  foreign-Kept cafe_id own jobs p f ts u ne s hs,
)

step-Kept :
    (cafe_id : ℕ) (r : TargetRequest) (w : World)
    → UniqueKeys (λ d. d.id) w.game_deployments
    → UniqueKeys (λ t. t.id) w.game_deployment_targets
    → cafe_of r ≢ cafe_id
    → Pairs
        (Kept cafe_id w.game_deployments)
        w.game_deployment_targets
        (handle_target r w).game_deployment_targets
step-Kept cafe_id r w jobs_u u ne = elim (handle_target-Effect r w u) [
  | inl same ↦ rw same (
      Pairs-refl (Kept cafe_id w.game_deployments) (λ x. ((refl, refl, refl), λ k. refl))
        w.game_deployment_targets)
  | inr change ↦ rw change.updated (
      Pairs-update (Kept cafe_id w.game_deployments) change.hit change.set w.game_deployment_targets
        (λ x. ((refl, refl, refl), λ k. refl))
        (foreign-Kept cafe_id (cafe_of r) w.game_deployments change.hit change.set
          w.game_deployment_targets jobs_u ne change.same change.owned))
]

step-keys :
    (r : TargetRequest) (w : World)
    → UniqueKeys (λ t. t.id) w.game_deployment_targets
    → UniqueKeys (λ t. t.id) (handle_target r w).game_deployment_targets
step-keys r w u = elim (handle_target-Effect r w u) [
  | inl same ↦ rw same u
  | inr change ↦
      rw
        (
          change.updated,
          keys-update (λ t. t.id) change.hit change.set w.game_deployment_targets
              (λ x. (change.same x).0),
        )
        u
]

step-filter :
    (cafe_id : ℕ) (r : TargetRequest) (w : World)
    → UniqueKeys (λ d. d.id) w.game_deployments
    → UniqueKeys (λ t. t.id) w.game_deployment_targets
    → cafe_of r ≢ cafe_id
    → filter (of_cafe cafe_id w.game_deployments) (handle_target r w).game_deployment_targets
      ≡ filter (of_cafe cafe_id w.game_deployments) w.game_deployment_targets
step-filter cafe_id r w jobs_u u ne =
    Pairs-filter (Kept cafe_id w.game_deployments) (of_cafe cafe_id w.game_deployments)
      w.game_deployment_targets (handle_target r w).game_deployment_targets
      (λ x y k. ap (λ n. any (λ d. d.id == n && d.cafe_id == cafe_id) w.game_deployments) (k.0.1))
      (λ x y k own. k.1 own) (step-Kept cafe_id r w jobs_u u ne)

-- Over any requests on targets that come from other cafés, the targets of a café's jobs stay as they
-- are, where no two jobs and no two targets have the same key.
pub handle_targets-foreign :
    (cafe_id : ℕ) (rs : List TargetRequest) (w : World)
    → UniqueKeys (λ d. d.id) w.game_deployments
    → UniqueKeys (λ t. t.id) w.game_deployment_targets
    → All (λ r. cafe_of r ≢ cafe_id) rs
    → filter (of_cafe cafe_id w.game_deployments) (handle_targets rs w).game_deployment_targets
      ≡ filter (of_cafe cafe_id w.game_deployments) w.game_deployment_targets
unfolding handle_targets
handle_targets-foreign cafe_id [] w jobs_u u h = refl
handle_targets-foreign cafe_id (r ∷ rs) w jobs_u u (ne, h) =
    let next = handle_target r w in
    let same : next.game_deployments ≡ w.game_deployments = jobs_kept r w in
    let rest =
      handle_targets-foreign cafe_id rs next
        (subst (λ jobs. UniqueKeys (λ d. d.id) jobs) (sym same) jobs_u) (step-keys r w u) h in
    subst
      (λ jobs.
        filter (of_cafe cafe_id jobs) (handle_targets rs next).game_deployment_targets
        ≡ filter (of_cafe cafe_id jobs) next.game_deployment_targets)
      same rest
    ∙ step-filter cafe_id r w jobs_u u ne

set-NotMadeReady :
    (p : TargetRow → Bool) (f : TargetRow → TargetRow) (ts : List TargetRow)
    → ((x : TargetRow) → SameTarget x (f x))
    → ((x : TargetRow) → is_ready (f x) ≡ true → is_ready x ≡ true)
    → All (λ x. p x ≡ true → NotMadeReady x (f x)) ts
set-NotMadeReady p f [] s h = tt
set-NotMadeReady p f (t ∷ ts) s h = (λ e. (s t, h t), set-NotMadeReady p f ts s h)

step-NotMadeReady :
    (r : TargetRequest) (w : World)
    → UniqueKeys (λ t. t.id) w.game_deployment_targets
    → is_verified r ≡ false
    → Pairs NotMadeReady w.game_deployment_targets (handle_target r w).game_deployment_targets
step-NotMadeReady r w u other = elim (handle_target-Effect r w u) [
  | inl same ↦
      rw same
        (Pairs-refl NotMadeReady (λ x. ((refl, refl, refl), λ k. k)) w.game_deployment_targets)
  | inr change ↦ rw change.updated (
      Pairs-update NotMadeReady change.hit change.set w.game_deployment_targets
        (λ x. ((refl, refl, refl), λ k. k))
        (set-NotMadeReady change.hit change.set w.game_deployment_targets change.same
          (change.unready other)))
]

-- Over any requests on targets of which none is the completion of a verified installation, every
-- target stays with its job and its machine, and one that is ready in the end was ready before; no
-- target is added or lost. No two targets have the same key.
pub handle_targets-ready :
    (rs : List TargetRequest) (w : World)
    → UniqueKeys (λ t. t.id) w.game_deployment_targets
    → All (λ r. is_verified r ≡ false) rs
    → Pairs NotMadeReady w.game_deployment_targets (handle_targets rs w).game_deployment_targets
unfolding handle_targets
handle_targets-ready [] w u h =
    Pairs-refl NotMadeReady (λ x. ((refl, refl, refl), λ k. k)) w.game_deployment_targets
handle_targets-ready (r ∷ rs) w u (other, h) =
    let next = handle_target r w in
    Pairs-trans NotMadeReady
      (λ x y z a b. ((b.0.0 ∙ a.0.0, b.0.1 ∙ a.0.1, b.0.2 ∙ a.0.2), λ k. a.1 (b.1 k)))
      w.game_deployment_targets next.game_deployment_targets
      (handle_targets rs next).game_deployment_targets (step-NotMadeReady r w u other)
      (handle_targets-ready rs next (step-keys r w u) h)
