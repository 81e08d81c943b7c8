-- ===== src/Tests/Fixtures.antt =====
-- A small café for the tests: one machine, two rules and what a test adds.
use gaming_cafe_management.Prelude.{List, [], ◌∷◌, none, some, true}
use gaming_cafe_management.Prelude.Int.{pos}
use gaming_cafe_management.Pricing.{PricingRuleInput}
use gaming_cafe_management.Auth.{UserClaims, DevicePrincipal, TokenType}
use gaming_cafe_management.Shared
use gaming_cafe_management.Shared.{SessionStatus}
use gaming_cafe_management.World.Tables.{PcRow, SessionRow, OrderRow, CommandRow, MenuItemRow, Db}
use gaming_cafe_management.World.{World}

abbrev pub all_day : PricingRuleInput
all_day = record {
  id = some 1;
  name = some "All day";
  tier_id = none;
  day_of_week = 0 ∷ 1 ∷ 2 ∷ 3 ∷ 4 ∷ 5 ∷ 6 ∷ [];
  start_time = "00:00";
  end_time = "23:59";
  hourly_rate = 6000;
  priority = 1;
  active = true;
}

abbrev pub night : PricingRuleInput
night = record all_day {
  id = some 2;
  name = some "Night";
  start_time = "22:00";
  end_time = "06:00";
  hourly_rate = 9000;
  priority = 5;
}

abbrev pub rules : List PricingRuleInput
rules = all_day ∷ night ∷ []

abbrev pub user : UserClaims
user = record {
  sub = 11;
  cafe_id = 7;
  role = Shared.StaffRole.manager;
  email = 500;
  typ = TokenType.access;
}

abbrev pub colleague : UserClaims
colleague = record user { sub = 14; email = 501 }

abbrev pub device : DevicePrincipal
device = record { pc_id = 3; cafe_id = 7; name = 80 ∷ 67 ∷ []; tier_id = none }

abbrev pub machine : PcRow
machine = record {
  id = 3;
  cafe_id = 7;
  name = 80 ∷ 67 ∷ [];
  tier_id = none;
  status = Shared.PcStatus.online;
  hardware_fingerprint = none;
  agent_version = none;
  last_heartbeat_at = none;
}

-- Started at the 1000th minute of the epoch, for half an hour.
abbrev pub sitting : SessionStatus → SessionRow
sitting status = record {
  id = 40;
  cafe_id = 7;
  pc_id = 3;
  customer_id = none;
  started_at = 60000000;
  expires_at = 61800000;
  ended_at = none;
  planned_minutes = 30;
  extended_minutes = 0;
  price_amount = 3000;
  pricing_breakdown = [];
  status = status;
  origin = Shared.SessionOrigin.admin;
  created_by = some 11;
  idempotency_key = none;
}

abbrev pub coffee : MenuItemRow
coffee = record {
  id = 60;
  cafe_id = 7;
  category_id = 61;
  name = "Coffee";
  description = none;
  prep_minutes = 10;
  base_price = pos 12000;
  available = true;
  deleted_at = none;
}

abbrev pub tables : Db
tables = record {
  pcs = machine ∷ [];
  pricing_rules = record { cafe_id = 7; rule = all_day } ∷ [];
  sessions = [];
  session_events = [];
  audit_logs = [];
  pc_commands = [];
  offline_events = [];
  reconciliation_batches = [];
  menu_items = coffee ∷ [];
  menu_variants = [];
  orders = [];
  order_items = [];
  order_status_history = [];
  payments = [];
  payment_transactions = [];
  users = [];
  customers = [];
  device_credentials = [];
  cafe_enrollment_tokens = [];
  pairing_codes = [];
  pc_configurations = [];
  pc_health_snapshots = [];
  games = [];
  game_versions = [];
  pc_game_installations = [];
  game_deployments = [];
  game_deployment_targets = [];
  menu_categories = [];
}

abbrev pub cafe : World
cafe = record {
  db = tables;
  channels = λ cafe_id. none;
  buckets = λ key. none;
  superadmin_attempts = λ key. none;
}

abbrev pub with_sessions : List SessionRow → World
with_sessions rows = record cafe { db = record tables { sessions = rows } }

abbrev pub with_orders : List OrderRow → World
with_orders rows = record cafe { db = record tables { orders = rows } }

abbrev pub with_commands : List CommandRow → World
with_commands rows = record cafe { db = record tables { pc_commands = rows } }
