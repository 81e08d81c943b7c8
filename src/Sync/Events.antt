-- ===== src/Sync/Events.antt =====
-- apps/server/src/modules/sync: the record of offline events (the end of apply.ts) and the processing
-- of one event (handlers.ts).
use gaming_cafe_management.Prelude.{
  ℕ, Bool, true, false, ◌&&◌, ◌||◌, List, [], ◌∷◌, ◌++◌, Option, none, some, ◌==◌, any,
  update_where, if◌then◌else◌,
}
use gaming_cafe_management.Shared.{SessionStatus, OfflineEventState}
use gaming_cafe_management.World.Tables.{SessionRow, OfflineEventRow}
use gaming_cafe_management.World.Action.{pure, gets, modify, ◌>>=◌, ◌>>◌}
use gaming_cafe_management.World.{World, M, transaction}
use gaming_cafe_management.Sync.{
  SyncEvent, SyncContext, SyncEventResult, ConflictDecision, resolve_offline_event,
}
use gaming_cafe_management.Sync.Apply.{apply_offline_decision, load_active_session}

abbrev pub duplicate_result : SyncEvent → SyncEventResult
duplicate_result evt = record {
  event_id = evt.event_id;
  seq = evt.seq;
  state = OfflineEventState.duplicate;
  reason = none;
  session_id = none;
}

unfoldable pub offline_event_row : SyncEvent → SyncContext → OfflineEventRow
offline_event_row evt ctx = record {
  id = evt.event_id;
  cafe_id = ctx.cafe_id;
  pc_id = ctx.pc_id;
  seq = evt.seq;
  type = evt.type;
  occurred_at = evt.occurred_at;
  payload = evt.payload;
  state = OfflineEventState.accepted;
  conflict_reason = none;
  applied_session_id = none;
  received_batch_id = none;
}

unfoldable pub set_offline_events : (List OfflineEventRow → List OfflineEventRow) → World → World
set_offline_events f w = record w { db = record (w.db) { offline_events = f w.offline_events } }

-- An event that the table has: by its id, or by the machine and the sequence number.
abbrev pub is_recorded : (pc_id : ℕ) → SyncEvent → List OfflineEventRow → Bool
is_recorded pc_id evt rows =
    any (λ r. r.id == evt.event_id) rows || any (λ r. r.pc_id == pc_id && r.seq == evt.seq) rows

-- The insert with `onConflictDoNothing`: whether it inserted.
unfoldable pub insert_offline_event : OfflineEventRow → M Bool
unfolding set_offline_events
insert_offline_event row w =
    if any (λ r. r.id == row.id) w.offline_events
    then pure false w
    else pure true (set_offline_events (λ rows. rows ++ row ∷ []) w)

-- The insert of an event that the table does not have.
unfoldable pub record_new : SyncEvent → SyncContext → M (Option SyncEventResult)
unfolding insert_offline_event
record_new evt ctx = do
  inserted ← insert_offline_event (offline_event_row evt ctx)
  pure (if inserted then none else some (duplicate_result evt))

-- The result for an event that is there, or nothing once the event is recorded.
unfoldable pub record_offline_event : SyncEvent → SyncContext → M (Option SyncEventResult)
unfolding record_new
record_offline_event evt ctx = do
  rows ← gets (λ w. w.offline_events)
  if is_recorded ctx.pc_id evt rows then pure (some (duplicate_result evt)) else record_new evt ctx

-- The columns that the end of the processing sets.
unfoldable pub finalized :
    SyncContext
    → OfflineEventState
    → ConflictDecision
    → Option ℕ
    → OfflineEventRow
    → OfflineEventRow
finalized ctx state decision session_id row = record row {
  state = state;
  conflict_reason = decision.reason;
  applied_session_id = session_id;
  received_batch_id = some ctx.batch_id;
}

abbrev pub result_of : SyncEvent → OfflineEventState → ConflictDecision → Option ℕ → SyncEventResult
result_of evt state decision session_id = record {
  event_id = evt.event_id;
  seq = evt.seq;
  state = state;
  reason = decision.reason;
  session_id = session_id;
}

unfoldable pub finalize_offline_event :
    SyncEvent → SyncContext → OfflineEventState → ConflictDecision → Option ℕ → M SyncEventResult
unfolding set_offline_events
finalize_offline_event evt ctx state decision session_id = do
  modify (
      set_offline_events
        (update_where (λ r. r.id == evt.event_id) (finalized ctx state decision session_id)))
  pure (result_of evt state decision session_id)

abbrev pub status_of : Option SessionRow → Option SessionStatus
status_of none = none
status_of (some s) = some s.status

-- The processing of an event that has just been recorded.
unfoldable pub apply_event : (now new_id : ℕ) → SyncEvent → SyncContext → M SyncEventResult
unfolding apply_offline_decision finalize_offline_event
apply_event now new_id evt ctx = do
  active ← gets (λ w. load_active_session ctx.pc_id w.sessions)
  let decision = resolve_offline_event (status_of active) evt.type
  applied ← apply_offline_decision now new_id evt ctx active decision
  finalize_offline_event evt ctx applied.0 decision applied.1

abbrev unless_recorded : M SyncEventResult → Option SyncEventResult → M SyncEventResult
unless_recorded rest none = rest
unless_recorded rest (some result) = pure result

unfoldable pub process_sync_event : (now new_id : ℕ) → SyncEvent → SyncContext → M SyncEventResult
process_sync_event now new_id evt ctx =
    transaction (record_offline_event evt ctx >>= unless_recorded (apply_event now new_id evt ctx))
