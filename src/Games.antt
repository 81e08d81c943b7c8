-- ===== src/Games.antt =====
-- apps/server/src/modules/games/handlers.ts: the games of a café and their versions. The keys of new
-- rows and the time are arguments. Of an input, a field that is not given is `none`; where a field
-- may also be null, as in a change, its value is an `Option` again.
pub mod Deployments
pub mod Views
use gaming_cafe_management.Prelude.{
  ℕ, Bool, true, ◌&&◌, ◌||◌, is_some, [], ◌∷◌, ◌++◌, List, Option, none, some, ◌==◌, find?,
  update_where, get_or, String,
}
use gaming_cafe_management.Auth.{UserClaims}
use gaming_cafe_management.Shared.{
  GamePlatform, GameVersionStatus, problem, internal, game_not_found,
}
use gaming_cafe_management.World.Audit.{staff_audit}
use gaming_cafe_management.World.Catalog.{GameRow, GameVersionRow}
use gaming_cafe_management.World.Action.{pure, gets, modify, require, check, ◌>>=◌, ◌>>◌}
use gaming_cafe_management.World.{World, M, write_audit}

-- The rows of a café with a key: `and(eq(games.id, id), eq(games.cafeId, cafeId))`.
abbrev pub game_at : (id cafe_id : ℕ) → GameRow → Bool
game_at id cafe_id g = g.id == id && g.cafe_id == cafe_id

-- The optional texts stand for a value, and `none` for null or no value.
pub record CreateGameInput : Type 0 where
  pub name : String
  pub platform : Option GamePlatform
  pub category : Option String
  pub executable_path : Option String
  pub launch_args : Option String
  pub display_order : Option ℕ

unfoldable pub new_game : (new_id cafe_id : ℕ) → CreateGameInput → GameRow
new_game new_id cafe_id input = record {
  id = new_id;
  cafe_id = cafe_id;
  name = input.name;
  category = input.category;
  executable_path = input.executable_path;
  launch_args = input.launch_args;
  platform = get_or input.platform GamePlatform.standalone;
  enabled = true;
  display_order = get_or input.display_order 0;
}

unfoldable pub insert_game : GameRow → World → World
insert_game row w = record w { db = record (w.db) { games = w.games ++ row ∷ [] } }

unfoldable pub handle_create_game : (new_id : ℕ) → UserClaims → CreateGameInput → M GameRow
unfolding new_game insert_game write_audit
handle_create_game new_id user input = do
  let game = new_game new_id user.cafe_id input
  modify (insert_game game)
  modify (write_audit (staff_audit user "GAME_CREATED" none ("game", game.id)))
  pure game

pub record PatchGameInput : Type 0 where
  pub name : Option String
  pub category : Option (Option String)
  pub executable_path : Option (Option String)
  pub launch_args : Option (Option String)
  pub enabled : Option Bool
  pub display_order : Option ℕ

unfoldable pub patched_game : PatchGameInput → GameRow → GameRow
patched_game input g = record g {
  name = get_or input.name g.name;
  category = get_or input.category g.category;
  executable_path = get_or input.executable_path g.executable_path;
  launch_args = get_or input.launch_args g.launch_args;
  enabled = get_or input.enabled g.enabled;
  display_order = get_or input.display_order g.display_order;
}

-- Whether a change sets a column; an update that sets none throws.
abbrev pub sets_any : PatchGameInput → Bool
sets_any input =
    is_some input.name
    || is_some input.category
    || is_some input.executable_path
    || is_some input.launch_args
    || is_some input.enabled
    || is_some input.display_order

unfoldable pub update_games : (GameRow → Bool) → (GameRow → GameRow) → World → World
update_games p set w = record w { db = record (w.db) { games = update_where p set w.games } }

unfoldable pub handle_patch_game : UserClaims → (id : ℕ) → PatchGameInput → M GameRow
unfolding patched_game update_games write_audit
handle_patch_game user id input = do
  check (sets_any input) (problem 500 internal)
  modify (update_games (game_at id user.cafe_id) (patched_game input))
  rows ← gets (λ w. w.games)
  game ← require (problem 404 game_not_found) (find? (game_at id user.cafe_id) rows)
  modify (write_audit (staff_audit user "GAME_UPDATED" none ("game", game.id)))
  pure game

pub record CreateGameVersionInput : Type 0 where
  pub version : String
  pub size_bytes : Option ℕ
  pub manifest_url : Option String

unfoldable pub new_game_version : (now new_id game_id : ℕ) → CreateGameVersionInput → GameVersionRow
new_game_version now new_id game_id input = record {
  id = new_id;
  game_id = game_id;
  version = input.version;
  manifest_url = input.manifest_url;
  size_bytes = input.size_bytes;
  status = GameVersionStatus.published;
  published_at = some now;
}

unfoldable pub insert_game_version : GameVersionRow → World → World
insert_game_version row w = record w {
  db = record (w.db) { game_versions = w.game_versions ++ row ∷ [] };
}

unfoldable pub handle_create_game_version :
    (now new_id : ℕ) → UserClaims → (id : ℕ) → CreateGameVersionInput → M GameVersionRow
unfolding new_game_version insert_game_version write_audit
handle_create_game_version now new_id user id input = do
  rows ← gets (λ w. w.games)
  game ← require (problem 404 game_not_found) (find? (game_at id user.cafe_id) rows)
  let version = new_game_version now new_id id input
  modify (insert_game_version version)
  modify (write_audit (staff_audit user "GAME_VERSION_PUBLISHED" none ("game_version", version.id)))
  pure version
