-- ===== src/Sessions.antt =====
-- apps/server/src/modules/sessions/shared.ts: what the session handlers share.
pub mod Start
pub mod Handlers
pub mod Expiry
pub mod Effects
pub mod Calls
pub mod Lookup
pub mod Results
pub mod Terminal
pub mod Occupancy
pub mod Again
pub mod Admission
pub mod Transitions
pub mod Extensions
use gaming_cafe_management.Prelude.{
  ℕ, zero, suc, ◌++◌, Bool, true, false, ◌&&◌, List, [], ◌∷◌, Option, none, some, ◌==◌, opt_eq,
  filter, map, find?, String, if◌then◌else◌,
}
use gaming_cafe_management.Pricing.{PricingRuleInput}
use gaming_cafe_management.Realtime.{EventName, session_updated, session_data}
use gaming_cafe_management.Shared.{
  SessionStatus, SessionOrigin, SessionEventType, ActorType, EventSource,
}
use gaming_cafe_management.Auth.{UserClaims}
use gaming_cafe_management.World.Tables.{
  SessionRow, SessionEventRow, EventPayload, AuditRow, ActorId,
}
use gaming_cafe_management.World.{World, publish}

-- The answer for a session; its instants go out as texts, which are the instants here.
pub record SessionDto : Type 0 where
  pub id : ℕ
  pub cafe_id : ℕ
  pub pc_id : ℕ
  pub customer_id : Option ℕ
  pub started_at : ℕ
  pub expires_at : ℕ
  pub ended_at : Option ℕ
  pub planned_minutes : ℕ
  pub extended_minutes : ℕ
  pub price_amount : ℕ
  pub status : SessionStatus
  pub origin : SessionOrigin

unfoldable pub to_session_dto : SessionRow → SessionDto
to_session_dto row = record {
  id = row.id;
  cafe_id = row.cafe_id;
  pc_id = row.pc_id;
  customer_id = row.customer_id;
  started_at = row.started_at;
  expires_at = row.expires_at;
  ended_at = row.ended_at;
  planned_minutes = row.planned_minutes;
  extended_minutes = row.extended_minutes;
  price_amount = row.price_amount;
  status = row.status;
  origin = row.origin;
}

abbrev take {ℓ} : {A : Type ℓ} → ℕ → List A → List A
take zero xs = []
take (suc n) [] = []
take (suc n) (x ∷ xs) = x ∷ take n xs

-- The active rules of the café, 200 at most, in the order in which the query returns them.
unfoldable pub load_pricing_rules : ℕ → World → List PricingRuleInput
load_pricing_rules cafe_id w =
    map (λ r. r.rule)
      (take 200 (filter (λ r. r.cafe_id == cafe_id && r.rule.active) w.pricing_rules))

-- `publishSession`, with the event for the admin stream where there is one.
abbrev publish_admin : ℕ → SessionDto → Option EventName → World → World
publish_admin cafe_id dto none w = w
publish_admin cafe_id dto (some event) w =
    publish cafe_id
      (record {
        event = event;
        content = session_data dto.id dto.pc_id dto.expires_at dto.status;
        pc_id = none;
      })
      w

unfoldable pub publish_session : ℕ → ℕ → SessionDto → Option EventName → World → World
unfolding publish
publish_session cafe_id pc_id dto admin_event w = publish_admin cafe_id dto admin_event (
    publish cafe_id
      (record {
        event = session_updated;
        content = session_data dto.id dto.pc_id dto.expires_at dto.status;
        pc_id = some pc_id;
      })
      w)

unfoldable pub insert_session : SessionRow → World → World
insert_session row w = record w { db = record (w.db) { sessions = w.sessions ++ row ∷ [] } }

-- `update(sessions).set(…).where(eq(sessions.id, id))`.
abbrev pub set_session : ℕ → (SessionRow → SessionRow) → List SessionRow → List SessionRow
set_session id set [] = []
set_session id set (s ∷ ss) = (if s.id == id then set s else s) ∷ set_session id set ss

unfoldable pub update_session : ℕ → (SessionRow → SessionRow) → World → World
update_session id set w = record w {
  db = record (w.db) { sessions = set_session id set w.sessions };
}

-- The first row with an id.
abbrev pub session_by_id : ℕ → List SessionRow → Option SessionRow
session_by_id id rows = find? (λ s. s.id == id) rows

-- The event that a user's request adds to a session.
unfoldable pub user_event :
    (now : ℕ) → UserClaims → SessionEventType → (session_id : ℕ) → EventPayload → SessionEventRow
user_event now user type session_id payload = record {
  session_id = session_id;
  type = type;
  actor_type = ActorType.user;
  actor_id = ActorId.id user.sub;
  occurred_at = now;
  payload = payload;
}

-- The audit row of a user's request on a session.
unfoldable pub user_audit : UserClaims → (action : String) → (pc_id session_id : ℕ) → AuditRow
user_audit user action pc_id session_id = record {
  cafe_id = user.cafe_id;
  actor_type = ActorType.user;
  actor_id = ActorId.id user.sub;
  actor_role = some user.role;
  action = action;
  source = EventSource.online;
  pc_id = some pc_id;
  entity_type = some "session";
  entity_id = some session_id;
}
