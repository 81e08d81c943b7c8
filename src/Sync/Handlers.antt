-- ===== src/Sync/Handlers.antt =====
-- apps/server/src/modules/sync/handlers.ts, less the two lists of rows.
use gaming_cafe_management.Prelude.{
  ℕ, suc, Bool, true, false, ◌&&◌, List, [], ◌∷◌, ◌++◌, Option, none, some, ◌==◌, find?,
  update_where, length, if◌then◌else◌,
}
use gaming_cafe_management.Auth.{UserClaims, DevicePrincipal}
use gaming_cafe_management.Shared.{
  ActorType, EventSource, OfflineEventState, problem, pc_not_found, event_not_found, not_conflicted,
  internal,
}
use gaming_cafe_management.World.Tables.{
  SessionRow, PcRow, OfflineEventRow, BatchRow, ActorId, PayloadField, absent, not_a_number, number,
  begins,
}
use gaming_cafe_management.World.Action.{pure, gets, modify, require, check, raise, ◌>>=◌, ◌>>◌}
use gaming_cafe_management.World.{World, M, write_audit}
use gaming_cafe_management.Sessions.{load_pricing_rules, update_session}
use gaming_cafe_management.Sync.{
  SyncEvent, SyncContext, SyncEventResult, ConflictAction, accept_extend, resolve_offline_event,
  compute_ack_seq, sort_by,
}
use gaming_cafe_management.Sync.Apply.{active_on, offline_extended}
use gaming_cafe_management.Sync.Events.{process_sync_event, set_offline_events}

-- `syncBatchSchema`, less the agent's version and the limit of 500 events.
pub record SyncBatch : Type 0 where
  pub last_server_seq : ℕ
  pub events : List SyncEvent

pub record SyncBatchResponse : Type 0 where
  pub results : List SyncEventResult
  pub ack_seq : ℕ

-- The time and the new key of each event, by its position in the batch.
pub record Supply : Type 0 where
  pub now : ℕ → ℕ
  pub new_id : ℕ → ℕ

-- The events one after the other.
unfoldable pub process_all : Supply → ℕ → SyncContext → List SyncEvent → M (List SyncEventResult)
process_all supply i ctx [] = pure []
process_all supply i ctx (evt ∷ evts) = do
  result ← process_sync_event (supply.now i) (supply.new_id i) evt ctx
  results ← process_all supply (suc i) ctx evts
  pure (result ∷ results)

unfoldable pub insert_batch : BatchRow → World → World
insert_batch row w = record w {
  db = record (w.db) { reconciliation_batches = w.reconciliation_batches ++ row ∷ [] };
}

abbrev pub context : (batch_id : ℕ) → DevicePrincipal → PcRow → World → SyncContext
context batch_id device pc w = record {
  cafe_id = device.cafe_id;
  pc_id = device.pc_id;
  batch_id = batch_id;
  pc = pc;
  pricing_rules = load_pricing_rules device.cafe_id w;
}

abbrev pub events_of : SyncBatch → List SyncEvent
events_of input = sort_by (λ e. e.seq) input.events

abbrev respond : SyncBatch → List SyncEventResult → M SyncBatchResponse
respond input results =
    let sorted = sort_by (λ r. r.seq) results in
    pure (record { results = sorted; ack_seq = compute_ack_seq input.last_server_seq sorted })

-- The handler from the machine's row on.
unfoldable pub process_batch :
    Supply → (batch_id : ℕ) → DevicePrincipal → SyncBatch → PcRow → M SyncBatchResponse
process_batch supply batch_id device input pc = do
  ctx ← gets (context batch_id device pc)
  results ← process_all supply 0 ctx (events_of input)
  respond input results

abbrev pub batch_row : (batch_id : ℕ) → DevicePrincipal → SyncBatch → BatchRow
batch_row batch_id device input = record {
  id = batch_id;
  pc_id = device.pc_id;
  last_server_seq = input.last_server_seq;
  event_count = length (events_of input);
}

unfoldable pub handle_sync_events :
    Supply → (batch_id : ℕ) → DevicePrincipal → SyncBatch → M SyncBatchResponse
unfolding insert_batch
handle_sync_events supply batch_id device input = do
  modify (insert_batch (batch_row batch_id device input))
  rows ← gets (λ w. w.pcs)
  pc ← require (problem 404 pc_not_found) (find? (λ p. p.id == device.pc_id) rows)
  process_batch supply batch_id device input pc

pub data Resolution : Type 0 where
  accept_server accept_offline manual : Resolution

-- `decision.action === "accept_extend" && activeSession && event.type === "SESSION_EXTENDED"`; the
-- decision is this one for no other type.
abbrev pub extends : ConflictAction → Bool
extends accept_extend = true
extends _ = false

-- `Number(payload.minutes ?? 0)`; a date that is not a number, or a fraction of minutes, does
-- not reach the table.
unfoldable pub extend_resolved : SessionRow → PayloadField → M (Unit {0})
unfolding update_session offline_extended
extend_resolved active absent = modify (update_session active.id (offline_extended 0 active))
extend_resolved active not_a_number = raise (problem 500 internal)
extend_resolved active (begins n) = raise (problem 500 internal)
extend_resolved active (number n) = modify (update_session active.id (offline_extended n active))

unfoldable pub apply_resolved : OfflineEventRow → Option SessionRow → M (Unit {0})
unfolding extend_resolved
apply_resolved event none = pure tt
apply_resolved event (some active) =
    if extends (resolve_offline_event (some active.status) event.type).action
    then extend_resolved active event.payload.minutes
    else pure tt

abbrev pub set_state : OfflineEventState → OfflineEventRow → OfflineEventRow
set_state state row = record row { state = state }

abbrev pub accept_row : OfflineEventRow → OfflineEventRow
accept_row row = record row { state = OfflineEventState.accepted; conflict_reason = none }

unfoldable pub update_event : ℕ → (OfflineEventRow → OfflineEventRow) → M (Unit {0})
unfolding set_offline_events
update_event id f = modify (set_offline_events (update_where (λ r. r.id == id) f))

unfoldable pub resolve_event : Resolution → OfflineEventRow → ℕ → M (Unit {0})
unfolding apply_resolved update_event
resolve_event accept_server event id = update_event id (set_state OfflineEventState.duplicate)
resolve_event manual event id = update_event id (set_state OfflineEventState.accepted)
resolve_event accept_offline event id = do
  active ← gets (λ w. find? (active_on event.pc_id) w.sessions)
  apply_resolved event active
  update_event id accept_row

abbrev pub is_conflicted : OfflineEventState → Bool
is_conflicted OfflineEventState.conflicted = true
is_conflicted _ = false

unfoldable pub handle_resolve_sync_conflict : UserClaims → (id : ℕ) → Resolution → M Resolution
unfolding resolve_event write_audit
handle_resolve_sync_conflict user id resolution = do
  rows ← gets (λ w. w.offline_events)
  event ←
      require (problem 404 event_not_found)
        (find? (λ r. r.id == id && r.cafe_id == user.cafe_id) rows)
  check (is_conflicted event.state) (problem 409 not_conflicted)
  resolve_event resolution event id
  modify (
      write_audit (record {
        cafe_id = user.cafe_id;
        actor_type = ActorType.user;
        actor_id = ActorId.id user.sub;
        actor_role = some user.role;
        action = "SUPERADMIN_CONFLICT_RESOLVED";
        source = EventSource.online;
        pc_id = some event.pc_id;
        entity_type = some "offline_event";
        entity_id = some id;
      }))
  pure resolution
