-- ===== src/World.antt =====
-- The state that the server's handlers share: the tables of apps/server/src/db/schema.ts that the
-- modelled code reads or writes, and the channels of realtime events. A handler is an action: it
-- returns or raises a problem, and what it wrote before a raise stays written, save inside
-- `transaction`. Columns that nothing here reads, as many generated keys, are left out.
pub mod Devices
pub mod Catalog
pub mod Tables
pub mod Audit
pub mod Action
use gaming_cafe_management.Prelude.{ℕ, List, [], ◌∷◌, ◌++◌}
use gaming_cafe_management.Realtime.{CafeEvent, Channels, publish_to_cafe}
use gaming_cafe_management.RateLimit.{Buckets}
use Tables.{Db, AuditRow, SessionEventRow}
use Action.{Exec, Result, ok, err}

-- `buckets` are those of apps/server/src/lib/rate-limit.ts, with the keys of logins;
-- `superadmin_attempts` is the map of apps/server/src/modules/pcs/handlers.ts, which has the same
-- shape, by machine.
pub record World : Type 0 where
  pub db : Db
  pub open db use *
  pub channels : Channels
  pub buckets : Buckets
  pub superadmin_attempts : Buckets

-- An action on the state.
abbrev pub M : Type 0 → Type 0
M A = Exec World A

-- `writeAudit` makes a new event id, so its insert meets no conflict.
unfoldable pub write_audit : AuditRow → World → World
write_audit row w = record w { db = record (w.db) { audit_logs = w.audit_logs ++ row ∷ [] } }

-- `tx.insert(sessionEvents)`.
unfoldable pub insert_session_event : SessionEventRow → World → World
insert_session_event row w = record w {
  db = record (w.db) { session_events = w.session_events ++ row ∷ [] };
}

-- `publishToCafe`, on the channels of this process.
unfoldable pub publish : ℕ → CafeEvent → World → World
publish cafe_id evt w = record w { channels = publish_to_cafe cafe_id evt w.channels }

-- A raise inside a transaction takes the tables back to where they were; what was published stays.
abbrev pub settle : {A : Type 0} → Db → Result A × World → Result A × World
settle before (ok a, w) = (ok a, w)
settle before (err e, w) = (err e, record w { db = before })

abbrev pub transaction : {A : Type 0} → M A → M A
transaction m w = settle w.db (m w)
