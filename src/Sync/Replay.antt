-- ===== src/Sync/Replay.antt =====
-- Events that the server has already are processed again.
use gaming_cafe_management.Prelude.{
  ℕ, suc, ◌≡◌, refl, ◌∙◌, ap, inl, inr, Bool, true, false, ◌&&◌, List, [], ◌∷◌, ◌++◌, Option, none,
  some, arith, ◌==◌, any, any-append, any-update, update_where, Bool-cases, map, All,
}
use gaming_cafe_management.Shared.{OfflineEventState}
use gaming_cafe_management.World.Tables.{SessionRow, OfflineEventRow}
use gaming_cafe_management.World.{World, settle}
use gaming_cafe_management.World.Action.{Result, ok, continue}
use gaming_cafe_management.Sync.{
  SyncEvent, SyncContext, SyncEventResult, ConflictAction, accept_start, accept_extend, accept_end,
  conflict, ConflictDecision, resolve_offline_event,
}
use gaming_cafe_management.Shared.{ConflictReason}
use gaming_cafe_management.Sync.Apply.{apply_offline_decision, load_active_session}
use gaming_cafe_management.Sync.Events.{
  is_recorded, duplicate_result, record_offline_event, process_sync_event, apply_event,
  offline_event_row, finalized, status_of, finalize_offline_event,
}
use gaming_cafe_management.Sync.Handlers.{Supply, process_all}

-- An event that is recorded is answered as a duplicate, and nothing changes.
pub recorded-duplicate :
    (now new_id : ℕ) (evt : SyncEvent) (ctx : SyncContext) (w : World)
    → is_recorded ctx.pc_id evt w.offline_events ≡ true
    → process_sync_event now new_id evt ctx w ≡ (ok (duplicate_result evt), w)
unfolding process_sync_event record_offline_event
recorded-duplicate now new_id evt ctx w h = ground arith

-- The update at the end keeps what is recorded.
recorded-finalized :
    (q : ℕ) (e evt : SyncEvent) (ctx : SyncContext) (state : OfflineEventState)
    (decision : ConflictDecision) (session_id : Option ℕ) (rows : List OfflineEventRow)
    → is_recorded q e
        (update_where (λ r. r.id == evt.event_id) (finalized ctx state decision session_id) rows)
      ≡ is_recorded q e rows
unfolding finalized
recorded-finalized q e evt ctx state decision session_id rows =
    let f = finalized ctx state decision session_id in
    let at : OfflineEventRow → Bool = λ r. r.id == evt.event_id in
    let ids = any-update (λ r. r.id == e.event_id) at f rows (λ r. refl) in
    let numbers = any-update (λ r. r.pc_id == q && r.seq == e.seq) at f rows (λ r. refl) in cc

-- A run that returns and keeps what is recorded.
abbrev pub Records : Result SyncEventResult × World → World → Type 0
Records run w =
    (result : SyncEventResult) × (next : World) × (run ≡ (ok result, next))
    × ((q : ℕ) (e : SyncEvent)
        → is_recorded q e next.offline_events ≡ is_recorded q e w.offline_events)

apply_decision-Records :
    (now new_id : ℕ) (evt : SyncEvent) (ctx : SyncContext) (active : Option SessionRow)
    (reason : Option ConflictReason) (action : ConflictAction) (w : World)
    → let decision : ConflictDecision = record { action = action; reason = reason } in
      Records
        (continue
          (apply_offline_decision now new_id evt ctx active decision w)
          (λ applied. finalize_offline_event evt ctx applied.0 decision applied.1))
        w
unfolding apply_offline_decision finalize_offline_event
apply_decision-Records now new_id evt ctx active reason accept_start w =
    (_, _, refl, λ q e. recorded-finalized q e evt ctx _ _ _ _)
apply_decision-Records now new_id evt ctx none reason accept_extend w =
    (_, _, refl, λ q e. recorded-finalized q e evt ctx _ _ _ _)
apply_decision-Records now new_id evt ctx (some active) reason accept_extend w =
    (_, _, refl, λ q e. recorded-finalized q e evt ctx _ _ _ _)
apply_decision-Records now new_id evt ctx none reason accept_end w =
    (_, _, refl, λ q e. recorded-finalized q e evt ctx _ _ _ _)
apply_decision-Records now new_id evt ctx (some active) reason accept_end w =
    (_, _, refl, λ q e. recorded-finalized q e evt ctx _ _ _ _)
apply_decision-Records now new_id evt ctx active reason conflict w =
    (_, _, refl, λ q e. recorded-finalized q e evt ctx _ _ _ _)
apply_decision-Records now new_id evt ctx active reason ConflictAction.duplicate w =
    (_, _, refl, λ q e. recorded-finalized q e evt ctx _ _ _ _)

pub apply_event-Records :
    (now new_id : ℕ) (evt : SyncEvent) (ctx : SyncContext) (w : World)
    → Records (apply_event now new_id evt ctx w) w
unfolding apply_event
apply_event-Records now new_id evt ctx w =
    let active = load_active_session ctx.pc_id w.sessions in
    let decision = resolve_offline_event (status_of active) evt.type in
    apply_decision-Records now new_id evt ctx active decision.reason decision.action w

-- The state after the insert of a new event.
abbrev pub with_event : SyncEvent → SyncContext → World → World
with_event evt ctx w = record w {
  db = record (w.db) { offline_events = w.offline_events ++ offline_event_row evt ctx ∷ [] };
}

record_new_lem :
    (evt : SyncEvent) (ctx : SyncContext) (w : World)
    → is_recorded ctx.pc_id evt w.offline_events ≡ false
    → record_offline_event evt ctx w ≡ (ok none, with_event evt ctx w)
unfolding record_offline_event offline_event_row
record_new_lem evt ctx w h =
    let absent : any (λ r. r.id == evt.event_id) w.offline_events ≡ false = ground arith in cc

pub process_new :
    (now new_id : ℕ) (evt : SyncEvent) (ctx : SyncContext) (w : World)
    → is_recorded ctx.pc_id evt w.offline_events ≡ false
    → process_sync_event now new_id evt ctx w
      ≡ settle w.db (apply_event now new_id evt ctx (with_event evt ctx w))
unfolding process_sync_event
process_new now new_id evt ctx w h = rw (record_new_lem evt ctx w h) refl

with_event-recorded :
    (evt : SyncEvent) (ctx : SyncContext) (w : World)
    → is_recorded ctx.pc_id evt (with_event evt ctx w).offline_events ≡ true
unfolding offline_event_row
with_event-recorded evt ctx w =
    let new =
      any-append (λ r. r.id == evt.event_id) w.offline_events (offline_event_row evt ctx ∷ []) in
    ground (arith)

with_event-keeps :
    (q : ℕ) (e evt : SyncEvent) (ctx : SyncContext) (w : World)
    → is_recorded q e w.offline_events ≡ true
    → is_recorded q e (with_event evt ctx w).offline_events ≡ true
with_event-keeps q e evt ctx w h =
    let row = offline_event_row evt ctx ∷ [] in
    let a = any-append (λ r. r.id == e.event_id) w.offline_events row in
    let b = any-append (λ r. r.pc_id == q && r.seq == e.seq) w.offline_events row in ground (arith)

-- What processing an event returns, and what is recorded after it.
pub process-recorded :
    (now new_id : ℕ) (evt : SyncEvent) (ctx : SyncContext) (w : World)
    → (result : SyncEventResult) × (next : World) × (process_sync_event now new_id evt ctx w
        ≡ (ok result, next))
      × (is_recorded ctx.pc_id evt next.offline_events ≡ true)
      × ((q : ℕ) (e : SyncEvent)
          → is_recorded q e w.offline_events ≡ true
          → is_recorded q e next.offline_events ≡ true)
process-recorded now new_id evt ctx w =
    elim (Bool-cases (is_recorded ctx.pc_id evt w.offline_events)) [
      | inl old ↦
          (duplicate_result evt, w, recorded-duplicate now new_id evt ctx w old, old, λ q e h. h)
      | inr new ↦
          let (result, next, ran, keeps) =
            apply_event-Records now new_id evt ctx (with_event evt ctx w) in
          (
            result,
            next,
            process_new now new_id evt ctx w new ∙ ap (settle w.db) ran,
            keeps ctx.pc_id evt ∙ with_event-recorded evt ctx w,
            λ q e h. keeps q e ∙ with_event-keeps q e evt ctx w h,
          )
    ]

-- The whole of a batch is recorded.
abbrev pub AllRecorded : ℕ → List SyncEvent → World → Type 0
AllRecorded pc evts w = All (λ e. is_recorded pc e w.offline_events ≡ true) evts

pub process_all-duplicates :
    (supply : Supply) (i : ℕ) (ctx : SyncContext) (evts : List SyncEvent) (w : World)
    → AllRecorded ctx.pc_id evts w
    → process_all supply i ctx evts w ≡ (ok (map duplicate_result evts), w)
unfolding process_all
process_all-duplicates supply i ctx [] w h = refl
process_all-duplicates supply i ctx (e ∷ evts) w (old, olds) =
    let first = recorded-duplicate (supply.now i) (supply.new_id i) e ctx w old in
    let rest = process_all-duplicates supply (suc i) ctx evts w olds in cc

pub process_all-recorded :
    (supply : Supply) (i : ℕ) (ctx : SyncContext) (evts : List SyncEvent) (w : World)
    → (results : List SyncEventResult) × (next : World) × (process_all supply i ctx evts w
        ≡ (ok results, next))
      × AllRecorded ctx.pc_id evts next
      × ((q : ℕ) (e : SyncEvent)
          → is_recorded q e w.offline_events ≡ true
          → is_recorded q e next.offline_events ≡ true)
unfolding process_all
process_all-recorded supply i ctx [] w = ([], w, refl, tt, λ q e h. h)
process_all-recorded supply i ctx (e ∷ evts) w =
    let (result, mid, first, here, keeps) =
      process-recorded (supply.now i) (supply.new_id i) e ctx w in
    let (results, next, rest, there, keeps_rest) =
      process_all-recorded supply (suc i) ctx evts mid in
    (
      result ∷ results,
      next,
      cc,
      (keeps_rest ctx.pc_id e here, there),
      λ q d h. keeps_rest q d (keeps q d h),
    )
