-- ===== src/Tests/Syncs.antt =====
-- Batches of offline events.
use gaming_cafe_management.Shared.{problem, not_conflicted}
use gaming_cafe_management.World.{World}
use gaming_cafe_management.World.Tables.{OfflineEventRow}
use gaming_cafe_management.World.Action.{err}
use gaming_cafe_management.Sync.Handlers.{accept_offline, manual, handle_resolve_sync_conflict}
use gaming_cafe_management.Sync.Resolution.{handle_resolve_sync_conflict-once}
use gaming_cafe_management.Tests.Fixtures.{user, colleague, tables}
use gaming_cafe_management.Prelude.{
  ℕ, ◌+◌, ◌≤◌, ◌≡◌, refl, true, false, List, [], ◌∷◌, none, some, arith, mem, map,
}
use gaming_cafe_management.Shared.{
  OfflineEventState, session_started, session_extended, OfflineEventType, SessionStatus,
}
use gaming_cafe_management.World.Tables.{absent, number}
use gaming_cafe_management.Sync.{SyncEvent, SyncEventResult, compute_ack_seq}
use gaming_cafe_management.Sync.Ack.{compute_ack_seq-covers, compute_ack_seq-stops}
use gaming_cafe_management.Sync.Handlers.{Supply, SyncBatch, handle_sync_events}
use gaming_cafe_management.Sync.Resend.{Same, handle_sync_events-resent}
use gaming_cafe_management.Sync.Counts.{OneActive}
use gaming_cafe_management.Sync.Over.{SyncRequest, run_syncs, run_syncs-terminal}
use gaming_cafe_management.Sessions.{session_by_id}
use gaming_cafe_management.Sync.Active.{handle_sync_events-OneActive}
use gaming_cafe_management.Tests.Fixtures.{device, sitting, cafe, with_sessions}

abbrev offline_event : (event_id seq : ℕ) → OfflineEventType → SyncEvent
offline_event event_id seq type = record {
  event_id = event_id;
  seq = seq;
  type = type;
  occurred_at = 60000000;
  payload = record { minutes = number 15; planned_minutes = absent };
}

abbrev batch : SyncBatch
batch = record {
  last_server_seq = 4;
  events = offline_event 91 6 session_extended ∷ offline_event 90 5 session_started ∷ [];
}

abbrev supply : ℕ → Supply
supply now = record { now = λ i. now + i; new_id = λ i. 500 + i }

handle_sync_events-resent_example :
    let next = (handle_sync_events (supply 60500000) 1 device batch cafe).1 in
    Same (handle_sync_events (supply 70000000) 2 device batch next).1 next
handle_sync_events-resent_example =
    handle_sync_events-resent (supply 60500000) (supply 70000000) 1 2 device batch cafe

handle_sync_events-OneActive_example :
    OneActive
      (handle_sync_events
        (supply 60500000)
        1
        device
        batch
        (with_sessions (sitting SessionStatus.ended ∷ []))).1.sessions
handle_sync_events-OneActive_example =
    handle_sync_events-OneActive (supply 60500000) 1 device batch
      (with_sessions (sitting SessionStatus.ended ∷ [])) (λ pc. ground arith)

abbrev result : ℕ → SyncEventResult
result seq = record {
  event_id = 80 + seq;
  seq = seq;
  state = OfflineEventState.accepted;
  reason = none;
  session_id = none;
}

abbrev results : List SyncEventResult
results = result 6 ∷ result 5 ∷ result 8 ∷ []

acknowledged_six : compute_ack_seq 4 results ≡ 6
unfolding compute_ack_seq
acknowledged_six = refl

compute_ack_seq-covers_example : mem 6 (map (λ r. r.seq) results) ≡ true
compute_ack_seq-covers_example =
    compute_ack_seq-covers 4 6 results (omega arith) (omega (arith, acknowledged_six))

compute_ack_seq-stops_example :
    (4 ≤ compute_ack_seq 4 results)
    × (mem (compute_ack_seq 4 results + 1) (map (λ r. r.seq) results) ≡ false)
compute_ack_seq-stops_example = compute_ack_seq-stops 4 results

abbrev conflict : OfflineEventRow
conflict = record {
  id = 92;
  cafe_id = 7;
  pc_id = 3;
  seq = 9;
  type = session_extended;
  occurred_at = 60000000;
  payload = record { minutes = number 15; planned_minutes = absent };
  state = OfflineEventState.conflicted;
  conflict_reason = none;
  applied_session_id = none;
  received_batch_id = some 1;
}

abbrev with_conflict : World
with_conflict = record cafe { db = record tables { offline_events = conflict ∷ [] } }

handle_resolve_sync_conflict-once_example :
    let next = (handle_resolve_sync_conflict user 92 accept_offline with_conflict).1 in
    handle_resolve_sync_conflict colleague 92 manual next ≡ (err (problem 409 not_conflicted), next)
unfolding handle_resolve_sync_conflict
handle_resolve_sync_conflict-once_example =
    handle_resolve_sync_conflict-once user colleague 92 accept_offline manual with_conflict refl
      refl

abbrev over : World
over = record cafe {
  db = record tables {
    sessions = sitting SessionStatus.expired ∷ [];
    offline_events = conflict ∷ [];
  };
}

run_syncs-terminal_example :
    let qs =
      SyncRequest.batch (supply 60500000) 1 device batch
      ∷ SyncRequest.resolve user 92 accept_offline
      ∷ [] in
    session_by_id 40 (run_syncs qs over).sessions ≡ some (sitting SessionStatus.expired)
run_syncs-terminal_example =
    run_syncs-terminal
      (SyncRequest.batch (supply 60500000) 1 device batch
        ∷ SyncRequest.resolve user 92 accept_offline
        ∷ [])
      40 (sitting SessionStatus.expired) over refl ((λ h. refl), tt) ((λ i. ground arith), (tt, tt))
