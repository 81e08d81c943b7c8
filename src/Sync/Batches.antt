-- ===== src/Sync/Batches.antt =====
-- A batch of offline events leaves a session that is over as it is.
use gaming_cafe_management.Prelude.{
  ℕ, suc, ◌≡◌, refl, sym, ap, ◌∙◌, inl, inr, false, List, [], ◌∷◌, Option, none, some, ◌==◌,
  Bool-cases, Option-cases,
}
use gaming_cafe_management.Auth.{DevicePrincipal}
use gaming_cafe_management.Shared.{ConflictReason}
use gaming_cafe_management.World.Tables.{SessionRow}
use gaming_cafe_management.World.{World, settle}
use gaming_cafe_management.World.Action.{continue}
use gaming_cafe_management.Sync.{
  SyncEvent, SyncContext, ConflictAction, accept_start, accept_extend, accept_end, conflict,
  ConflictDecision, resolve_offline_event,
}
use gaming_cafe_management.Sync.Apply.{
  load_active_session, offline_session, apply_offline_decision, offline_extended, offline_ended,
}
use gaming_cafe_management.Sync.Events.{
  is_recorded, process_sync_event, apply_event, status_of, finalize_offline_event,
}
use gaming_cafe_management.Sync.Handlers.{
  Supply, SyncBatch, insert_batch, process_all, handle_sync_events, context, events_of,
}
use gaming_cafe_management.Sync.Replay.{
  recorded-duplicate, process-recorded, process_new, with_event, apply_event-Records,
  process_all-recorded,
}
use gaming_cafe_management.Sync.Resend.{absent_lem, found_lem, with_batch, device_pc}
use gaming_cafe_management.Sync.Spares.{AllOver, StaysOver, Spares, spared-StaysOver, load-other}

apply_decision-Spares :
    (id now new_id : ℕ) (evt : SyncEvent) (ctx : SyncContext) (active : Option SessionRow)
    (reason : Option ConflictReason) (action : ConflictAction) (w : World)
    → new_id == id ≡ false
    → ((a : SessionRow) → active ≡ some a → a.id == id ≡ false)
    → let decision : ConflictDecision = record { action = action; reason = reason } in
      Spares id w.sessions
        (continue
          (apply_offline_decision now new_id evt ctx active decision w)
          (λ applied. finalize_offline_event evt ctx applied.0 decision applied.1)).1.sessions
unfolding apply_offline_decision finalize_offline_event offline_session offline_extended
    offline_ended
apply_decision-Spares id now new_id evt ctx active reason accept_start w new other =
    inr (inl (_, new, refl))
apply_decision-Spares id now new_id evt ctx none reason accept_extend w new other = inl refl
apply_decision-Spares id now new_id evt ctx (some s) reason accept_extend w new other =
    inr (inr (_, _, other s refl, (λ r. refl), refl))
apply_decision-Spares id now new_id evt ctx none reason accept_end w new other = inl refl
apply_decision-Spares id now new_id evt ctx (some s) reason accept_end w new other =
    inr (inr (_, _, other s refl, (λ r. refl), refl))
apply_decision-Spares id now new_id evt ctx active reason conflict w new other = inl refl
apply_decision-Spares id now new_id evt ctx active reason ConflictAction.duplicate w new other =
    inl refl

apply_event-Spares :
    (id now new_id : ℕ) (evt : SyncEvent) (ctx : SyncContext) (w : World)
    → new_id == id ≡ false
    → AllOver id w.sessions
    → Spares id w.sessions (apply_event now new_id evt ctx w).1.sessions
unfolding apply_event
apply_event-Spares id now new_id evt ctx w new over =
    let active = load_active_session ctx.pc_id w.sessions in
    let decision = resolve_offline_event (status_of active) evt.type in
    apply_decision-Spares id now new_id evt ctx active decision.reason decision.action w new
      (λ a e. load-other id ctx.pc_id w.sessions a over e)

process-Spares :
    (id now new_id : ℕ) (evt : SyncEvent) (ctx : SyncContext) (w : World)
    → new_id == id ≡ false
    → AllOver id w.sessions
    → Spares id w.sessions (process_sync_event now new_id evt ctx w).1.sessions
process-Spares id now new_id evt ctx w fresh over =
    elim (Bool-cases (is_recorded ctx.pc_id evt w.offline_events)) [
      | inl old ↦ rw (recorded-duplicate now new_id evt ctx w old) (inl refl)
      | inr new ↦
          let (result, next, ran, keeps) =
            apply_event-Records now new_id evt ctx (with_event evt ctx w) in
          let all = process_new now new_id evt ctx w new ∙ ap (settle w.db) ran in
          let changes =
            apply_event-Spares id now new_id evt ctx (with_event evt ctx w) fresh over in
          let same : next.sessions
              ≡ (apply_event now new_id evt ctx (with_event evt ctx w)).1.sessions =
            ap (λ r. r.1.sessions) (sym ran) in
          rw all (rw same changes)
    ]

-- No new session gets the key.
abbrev pub Avoids : Supply → ℕ → Type 0
Avoids supply id = (i : ℕ) → supply.new_id i == id ≡ false

process_all-StaysOver :
    (id : ℕ) (s : SessionRow) (supply : Supply) (i : ℕ) (ctx : SyncContext) (evts : List SyncEvent)
    (w : World)
    → Avoids supply id
    → StaysOver id s w.sessions
    → StaysOver id s (process_all supply i ctx evts w).1.sessions
unfolding process_all
process_all-StaysOver id s supply i ctx [] w fresh h = h
process_all-StaysOver id s supply i ctx (e ∷ evts) w fresh h =
    let (result, mid, first, here, keeps) =
      process-recorded (supply.now i) (supply.new_id i) e ctx w in
    let (results, next, rest, there, others) = process_all-recorded supply (suc i) ctx evts mid in
    let changes = process-Spares id (supply.now i) (supply.new_id i) e ctx w (fresh i) h.1 in
    let mid_over : StaysOver id s mid.sessions =
      spared-StaysOver id s w.sessions mid.sessions
        (rw (ap (λ r. r.1.sessions) (sym first)) changes) h in
    rw (first, rest)
      (rw (ap (λ r. r.1.sessions) (sym rest))
        (process_all-StaysOver id s supply (suc i) ctx evts mid fresh mid_over))

pub batch-StaysOver :
    (id : ℕ) (s : SessionRow) (supply : Supply) (batch_id : ℕ) (device : DevicePrincipal)
    (input : SyncBatch) (w : World)
    → Avoids supply id
    → StaysOver id s w.sessions
    → StaysOver id s (handle_sync_events supply batch_id device input w).1.sessions
unfolding insert_batch
batch-StaysOver id s supply batch_id device input w fresh h =
    elim (Option-cases (device_pc device w)) [
      | inl unknown ↦ rw (absent_lem supply batch_id device input w unknown) h
      | inr (pc, found) ↦
          let before = with_batch batch_id device input w in
          let ctx = context batch_id device pc before in
          let (results, next, ran, recorded, keeps) =
            process_all-recorded supply 0 ctx (events_of input) before in
          let after = process_all-StaysOver id s supply 0 ctx (events_of input) before fresh h in
          rw (found_lem supply batch_id device input w pc results next found ran)
            (rw (ap (λ r. r.1.sessions) (sym ran)) after)
    ]
