-- ===== src/Tests/Machines.antt =====
-- Deployments to machines, the kiosk's menu and the report on sessions.
use gaming_cafe_management.Prelude.{
  sum, length, ◌/◌, ℕ, ◌+◌, ◌≡◌, refl, true, false, List, [], ◌∷◌, ◌++◌, none, some, All, arith,
  map, filter, ◌==◌, ◌&&◌,
}
use gaming_cafe_management.Prelude.Pigeonhole.{Distinct}
use gaming_cafe_management.Prelude.Rows.{Pairs}
use gaming_cafe_management.Shared.{
  GamePlatform, GameVersionStatus, DeploymentJobStatus, DeploymentTargetState, SessionStatus,
}
use gaming_cafe_management.World.Action.{ok}
use gaming_cafe_management.World.Catalog.{
  GameRow, GameVersionRow, DeploymentRow, TargetRow, MenuCategoryRow,
}
use gaming_cafe_management.World.{World}
use gaming_cafe_management.Games.Deployments.{
  CreateDeploymentInput, distinct, handle_create_deployment, new_deployment, new_targets,
}
use gaming_cafe_management.Games.Deployments.Targets.{IsNewTarget, handle_create_deployment-targets}
use gaming_cafe_management.Games.Deployments.Requests.{
  TargetRequest, pause, resume, progress, complete, fail, handle_targets, of_cafe,
}
use gaming_cafe_management.Games.Deployments.Agent.{ReportedState}
use gaming_cafe_management.Games.Deployments.Isolation.{
  NotMadeReady, handle_targets-foreign, handle_targets-ready,
}
use gaming_cafe_management.Menu.Kiosk.{handle_agent_get_menu}
use gaming_cafe_management.Menu.Kiosk.Orderable.{Accepted, handle_agent_get_menu-Accepted}
use gaming_cafe_management.Reports.{handle_session_report}
use gaming_cafe_management.Reports.Days.{Ascending, is_reported, of_day, handle_session_report-days}
use gaming_cafe_management.Tests.Fixtures.{
  sitting, with_sessions, tables, machine, user, device, cafe,
}

abbrev game : GameRow
game = record {
  id = 20;
  cafe_id = 7;
  name = "Rocket";
  category = none;
  executable_path = none;
  launch_args = none;
  platform = GamePlatform.steam;
  enabled = true;
  display_order = 0;
}

abbrev version : GameVersionRow
version = record {
  id = 21;
  game_id = 20;
  version = "1.0";
  manifest_url = none;
  size_bytes = none;
  status = GameVersionStatus.published;
  published_at = none;
}

abbrev job : (id cafe_id : ℕ) → DeploymentRow
job id cafe_id = record {
  id = id;
  cafe_id = cafe_id;
  game_id = 20;
  target_version_id = 21;
  master_pc_id = 3;
  policy = none;
  status = DeploymentJobStatus.queued;
  created_by = 11;
}

abbrev target : (id job_id pc_id : ℕ) → DeploymentTargetState → TargetRow
target id job_id pc_id state = record {
  id = id;
  deployment_id = job_id;
  pc_id = pc_id;
  state = state;
  progress_pct = 40;
  bytes_transferred = 1000;
  error = none;
  started_at = none;
  finished_at = none;
}

abbrev drinks : MenuCategoryRow
drinks = record { id = 61; cafe_id = 7; name = "Drinks"; display_order = 0; available = true }

abbrev arcade : World
arcade = record cafe {
  db = record tables {
    pcs = machine ∷ record machine { id = 4 } ∷ [];
    games = game ∷ [];
    game_versions = version ∷ [];
    menu_categories = drinks ∷ [];
    game_deployments = job 30 7 ∷ job 31 8 ∷ [];
    game_deployment_targets =
        target 50 30 3 DeploymentTargetState.downloading
        ∷ target 51 31 9 DeploymentTargetState.downloading
        ∷ [];
  };
}

abbrev rollout : CreateDeploymentInput
rollout = record {
  game_id = 20;
  target_version_id = 21;
  master_pc_id = 3;
  pc_ids = 4 ∷ 3 ∷ 4 ∷ [];
  policy = none;
}

abbrev next_key : ℕ → ℕ
next_key n = n + 52

abbrev rolled_out : List TargetRow
rolled_out = new_targets next_key 32 (4 ∷ 3 ∷ [])

create_ok : handle_create_deployment 32 next_key user rollout arcade ≡ (
  ok (new_deployment 32 user rollout, rolled_out),
  (handle_create_deployment 32 next_key user rollout arcade).1,
)
unfolding handle_create_deployment new_deployment
create_ok = refl

handle_create_deployment-targets_example :
    (map (λ t. t.pc_id) rolled_out ≡ distinct (4 ∷ 3 ∷ 4 ∷ []))
    × Distinct ◌==◌ (map (λ t. t.pc_id) rolled_out)
    × All (IsNewTarget (new_deployment 32 user rollout).id 7 arcade.pcs) rolled_out
    × ((handle_create_deployment 32 next_key user rollout arcade).1.game_deployment_targets
        ≡ arcade.game_deployment_targets ++ rolled_out)
handle_create_deployment-targets_example =
    handle_create_deployment-targets 32 next_key user rollout arcade
      (handle_create_deployment 32 next_key user rollout arcade).1 (new_deployment 32 user rollout)
      rolled_out (refl, (refl, tt)) create_ok

abbrev requests : List TargetRequest
requests = pause user 50 ∷ resume 60000000 user 50 ∷ complete 60000000 device 30 3 true ∷ []

handle_targets-foreign_example :
    filter
      (of_cafe 8 arcade.game_deployments)
      (handle_targets requests arcade).game_deployment_targets
    ≡ filter (of_cafe 8 arcade.game_deployments) arcade.game_deployment_targets
handle_targets-foreign_example =
    handle_targets-foreign 8 requests arcade (refl, (refl, tt)) (refl, (refl, tt))
      ((λ e. omega (arith, e)), ((λ e. omega (arith, e)), ((λ e. omega (arith, e)), tt)))

abbrev reports : List TargetRequest
reports =
    progress device 30 3 (record {
      state = some ReportedState.installing;
      progress_pct = some 90;
      bytes_transferred = none;
    })
    ∷ complete 60000000 device 30 3 false
    ∷ fail 60000000 device 30 3 "CHECKSUM"
    ∷ []

handle_targets-ready_example :
    Pairs NotMadeReady arcade.game_deployment_targets
      (handle_targets reports arcade).game_deployment_targets
handle_targets-ready_example =
    handle_targets-ready reports arcade (refl, (refl, tt)) (refl, (refl, (refl, tt)))

handle_agent_get_menu-Accepted_example :
    All
      (λ k. Accepted 7 2 none arcade k.id)
      (handle_agent_get_menu (λ cs. cs) (λ items. items) 7 arcade)
handle_agent_get_menu-Accepted_example =
    handle_agent_get_menu-Accepted (λ cs. cs) (λ items. items) 7 2 none arcade (λ P xs h. h)
      (refl, tt)

abbrev ended : World
ended = with_sessions (sitting SessionStatus.ended ∷ sitting SessionStatus.expired ∷ [])

abbrev day_of : ℕ → ℕ
day_of t = t / 86400000

handle_session_report-days_example :
    let report = handle_session_report day_of user 0 70000000 ended in
    let rows =
      filter (λ s. is_reported 7 0 70000000 s && day_of s.started_at == 0) ended.sessions in
    Ascending report
    × (of_day (λ t. t.sessions) 0 report ≡ length rows)
    × (of_day (λ t. t.minutes) 0 report
        ≡ sum (map (λ s. s.planned_minutes + s.extended_minutes) rows))
    × (of_day (λ t. t.revenue) 0 report ≡ sum (map (λ s. s.price_amount) rows))
handle_session_report-days_example = handle_session_report-days day_of user 0 70000000 0 ended
