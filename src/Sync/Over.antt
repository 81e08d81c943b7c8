-- ===== src/Sync/Over.antt =====
-- A session that is over stays as it is, whatever machines send and whatever conflicts are resolved.
use gaming_cafe_management.Prelude.{
  ℕ, ◌≡◌, refl, inl, inr, false, List, [], ◌∷◌, Option, none, some, All, ◌==◌, ◌&&◌, find?,
  Bool-cases, Option-cases,
}
use gaming_cafe_management.Auth.{DevicePrincipal, UserClaims}
use gaming_cafe_management.World.Tables.{
  SessionRow, OfflineEventRow, absent, not_a_number, number, begins, PayloadField,
}
use gaming_cafe_management.World.{World}
use gaming_cafe_management.World.Action.{Result-cases}
use gaming_cafe_management.Sessions.{session_by_id}
use gaming_cafe_management.Sync.{resolve_offline_event}
use gaming_cafe_management.Sync.Apply.{active_on, offline_extended}
use gaming_cafe_management.Sync.Handlers.{
  Supply, SyncBatch, Resolution, handle_sync_events, handle_resolve_sync_conflict, accept_server,
  manual, accept_offline, extend_resolved, apply_resolved, extends, resolve_event, is_conflicted,
}
use gaming_cafe_management.Sync.Spares.{AllOver, StaysOver, Spares, spared-StaysOver, find-other}
use gaming_cafe_management.Sync.Batches.{Avoids, batch-StaysOver}

extend_resolved-Spares :
    (id : ℕ) (active : SessionRow) (minutes : PayloadField) (w : World)
    → active.id == id ≡ false
    → Spares id w.sessions (extend_resolved active minutes w).1.sessions
unfolding extend_resolved offline_extended
extend_resolved-Spares id active absent w other = inr (inr (_, _, other, (λ r. refl), refl))
extend_resolved-Spares id active not_a_number w other = inl refl
extend_resolved-Spares id active (begins n) w other = inl refl
extend_resolved-Spares id active (number n) w other = inr (inr (_, _, other, (λ r. refl), refl))

apply_resolved-Spares :
    (id : ℕ) (event : OfflineEventRow) (active : Option SessionRow) (w : World)
    → ((a : SessionRow) → active ≡ some a → a.id == id ≡ false)
    → Spares id w.sessions (apply_resolved event active w).1.sessions
unfolding apply_resolved
apply_resolved-Spares id event none w other = inl refl
apply_resolved-Spares id event (some a) w other =
    elim (Bool-cases (extends (resolve_offline_event (some a.status) event.type).action)) [
      | inl longer ↦ rw longer (extend_resolved-Spares id a event.payload.minutes w (other a refl))
      | inr same ↦ rw same (inl refl)
    ]

resolve_event-sessions :
    (event : OfflineEventRow) (event_id : ℕ) (w : World)
    → (resolve_event accept_offline event event_id w).1.sessions
      ≡ (apply_resolved event (find? (active_on event.pc_id) w.sessions) w).1.sessions
unfolding resolve_event
resolve_event-sessions event event_id w =
    elim (Result-cases (apply_resolved event (find? (active_on event.pc_id) w.sessions) w)) [
      | inl (a, next, ran) ↦ rw ran refl
      | inr (e, next, ran) ↦ rw ran refl
    ]

resolve_event-Spares :
    (id : ℕ) (resolution : Resolution) (event : OfflineEventRow) (event_id : ℕ) (w : World)
    → AllOver id w.sessions
    → Spares id w.sessions (resolve_event resolution event event_id w).1.sessions
unfolding resolve_event
resolve_event-Spares id accept_server event event_id w over = inl refl
resolve_event-Spares id manual event event_id w over = inl refl
resolve_event-Spares id accept_offline event event_id w over =
    rw (resolve_event-sessions event event_id w) (
      apply_resolved-Spares id event (find? (active_on event.pc_id) w.sessions) w
        (λ a e. find-other id event.pc_id w.sessions a over e))

-- The conflict that a user resolves.
abbrev own_event : UserClaims → (event_id : ℕ) → World → Option OfflineEventRow
own_event user event_id w =
    find? (λ r. r.id == event_id && r.cafe_id == user.cafe_id) w.offline_events

resolve-Spares :
    (id : ℕ) (user : UserClaims) (event_id : ℕ) (resolution : Resolution) (w : World)
    → AllOver id w.sessions
    → Spares id w.sessions (handle_resolve_sync_conflict user event_id resolution w).1.sessions
unfolding handle_resolve_sync_conflict
resolve-Spares id user event_id resolution w over =
    elim (Option-cases (own_event user event_id w)) [
      | inl unknown ↦ rw unknown (inl refl)
      | inr (event, found) ↦ elim (Bool-cases (is_conflicted event.state)) [
        | inr settled ↦ rw (found, settled) (inl refl)
        | inl open_conflict ↦
            let spares = resolve_event-Spares id resolution event event_id w over in
            elim (Result-cases (resolve_event resolution event event_id w)) [
              | inl (a, next, ran) ↦ rw (found, open_conflict, ran) (rw ran at spares)
              | inr (e, next, ran) ↦ rw (found, open_conflict, ran) (rw ran at spares)
            ]
      ]
    ]

-- What reaches the server after a machine was offline: a batch, or a user's word on a conflict.
pub data SyncRequest : Type 0 where
  batch : Supply → (batch_id : ℕ) → DevicePrincipal → SyncBatch → SyncRequest
  resolve : UserClaims → (event_id : ℕ) → Resolution → SyncRequest

abbrev pub sync_step : SyncRequest → World → World
sync_step (batch supply batch_id device input) w =
    (handle_sync_events supply batch_id device input w).1
sync_step (resolve user event_id resolution) w =
    (handle_resolve_sync_conflict user event_id resolution w).1

abbrev pub run_syncs : List SyncRequest → World → World
run_syncs [] w = w
run_syncs (q ∷ qs) w = run_syncs qs (sync_step q w)

-- No session that a batch starts gets the key.
abbrev pub IsNew : ℕ → SyncRequest → Type 0
IsNew id (batch supply batch_id device input) = Avoids supply id
IsNew id (resolve user event_id resolution) = Unit

sync_step-StaysOver :
    (q : SyncRequest) (id : ℕ) (s : SessionRow) (w : World)
    → IsNew id q
    → StaysOver id s w.sessions
    → StaysOver id s (sync_step q w).sessions
sync_step-StaysOver (batch supply batch_id device input) id s w fresh h =
    batch-StaysOver id s supply batch_id device input w fresh h
sync_step-StaysOver (resolve user event_id resolution) id s w fresh h =
    spared-StaysOver id s w.sessions (sync_step (resolve user event_id resolution) w).sessions
      (resolve-Spares id user event_id resolution w h.1) h

-- Whatever batches of offline events arrive and whatever conflicts are resolved, in any order and
-- answered or refused, a session that has ended, was cancelled or has expired is found under its key
-- with every column as it was, where no other row has the key unless it is over too, and no session
-- that the batches start gets it.
pub run_syncs-terminal :
    (qs : List SyncRequest) (id : ℕ) (s : SessionRow) (w : World)
    → session_by_id id w.sessions ≡ some s
    → AllOver id w.sessions
    → All (IsNew id) qs
    → session_by_id id (run_syncs qs w).sessions ≡ some s
run_syncs-terminal [] id s w at over fresh = at
run_syncs-terminal (q ∷ qs) id s w at over fresh =
    let next = sync_step-StaysOver q id s w fresh.0 (at, over) in
    run_syncs-terminal qs id s (sync_step q w) next.0 next.1 fresh.1
