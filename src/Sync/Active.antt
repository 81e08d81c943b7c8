-- ===== src/Sync/Active.antt =====
-- How many active sessions the processing of a batch leaves on a machine.
use gaming_cafe_management.Prelude.{
  ℕ, suc, ◌≡◌, refl, sym, ap, ◌∙◌, inl, inr, ◌⊎◌, false, List, [], ◌∷◌, ◌++◌, Option, none, some,
  arith, Bool-cases, Option-cases,
}
use gaming_cafe_management.Auth.{DevicePrincipal}
use gaming_cafe_management.Shared.{
  SessionStatus, OfflineEventType, ConflictReason, session_started, session_extended, session_ended,
  session_cancelled, customer_assigned, order_created, superadmin_entered, superadmin_login_failed,
  tamper_suspected,
}
use gaming_cafe_management.World.Tables.{SessionRow}
use gaming_cafe_management.World.{World, settle}
use gaming_cafe_management.World.Action.{continue}
use gaming_cafe_management.Sessions.{set_session}
use gaming_cafe_management.Sync.{
  SyncEvent, SyncContext, ConflictAction, accept_start, accept_extend, accept_end, conflict,
  ConflictDecision, resolve_offline_event, is_active,
}
use gaming_cafe_management.Sync.Apply.{load_active_session, offline_session, apply_offline_decision}
use gaming_cafe_management.Sync.Events.{
  is_recorded, process_sync_event, apply_event, status_of, finalize_offline_event,
}
use gaming_cafe_management.Sync.Handlers.{
  Supply, SyncBatch, insert_batch, process_all, handle_sync_events, context, events_of,
}
use gaming_cafe_management.Sync.Replay.{
  recorded-duplicate, process-recorded, process_new, with_event, apply_event-Records,
  process_all-recorded,
}
use gaming_cafe_management.Sync.Resend.{absent_lem, found_lem, with_batch, device_pc}
use gaming_cafe_management.Sync.Counts.{
  count_active, OneActive, count-append, Quiet, count-set, extended-Quiet, ended-Quiet, load-active,
  load-none,
}

-- What an event does to the sessions.
abbrev Changes : SyncContext → List SessionRow → List SessionRow → Type 0
Changes ctx before after =
    (after ≡ before)
    ⊎ ((new : SessionRow) × (new.pc_id ≡ ctx.pc_id)
        × (count_active ctx.pc_id before ≡ 0)
        × (after ≡ before ++ new ∷ []))
    ⊎ ((id : ℕ) × (f : SessionRow → SessionRow) × Quiet f × (after ≡ set_session id f before))

changed-OneActive :
    (ctx : SyncContext) (before after : List SessionRow)
    → Changes ctx before after
    → OneActive before
    → OneActive after
changed-OneActive ctx before after (inl same) one = rw same one
changed-OneActive ctx before after (inr (inl (new, here, none_there, added))) one =
    rw added λ pc. ground (arith, count-append pc before new, one pc)
changed-OneActive ctx before after (inr (inr (id, f, quiet, set))) one =
    rw set λ pc. omega (arith, count-set pc id f before quiet, one pc)

apply_decision-Changes :
    (now new_id : ℕ) (evt : SyncEvent) (ctx : SyncContext) (active : Option SessionRow)
    (reason : Option ConflictReason) (action : ConflictAction) (w : World)
    → (action ≡ accept_start → count_active ctx.pc_id w.sessions ≡ 0)
    → let decision : ConflictDecision = record { action = action; reason = reason } in
      Changes ctx w.sessions
        (continue
          (apply_offline_decision now new_id evt ctx active decision w)
          (λ applied. finalize_offline_event evt ctx applied.0 decision applied.1)).1.sessions
unfolding apply_offline_decision finalize_offline_event offline_session
apply_decision-Changes now new_id evt ctx active reason accept_start w free =
    inr (inl (_, refl, free refl, refl))
apply_decision-Changes now new_id evt ctx none reason accept_extend w free = inl refl
apply_decision-Changes now new_id evt ctx (some s) reason accept_extend w free =
    inr (inr (_, _, extended-Quiet _ s, refl))
apply_decision-Changes now new_id evt ctx none reason accept_end w free = inl refl
apply_decision-Changes now new_id evt ctx (some s) reason accept_end w free =
    inr (inr (_, _, ended-Quiet evt.type _, refl))
apply_decision-Changes now new_id evt ctx active reason conflict w free = inl refl
apply_decision-Changes now new_id evt ctx active reason ConflictAction.duplicate w free = inl refl

start_needs_none :
    (server : Option SessionStatus) (type : OfflineEventType)
    → (resolve_offline_event server type).action ≡ accept_start
    → is_active server ≡ false
start_needs_none server session_started h = ground arith
start_needs_none server session_extended h = ground arith
start_needs_none server session_ended h = ground arith
start_needs_none server session_cancelled h = ground arith
start_needs_none server customer_assigned h = ground arith
start_needs_none server order_created h = ground arith
start_needs_none server superadmin_entered h = ground arith
start_needs_none server superadmin_login_failed h = ground arith
start_needs_none server tamper_suspected h = ground arith

accepted-free :
    (pc : ℕ) (rows : List SessionRow) (type : OfflineEventType)
    → (resolve_offline_event (status_of (load_active_session pc rows)) type).action ≡ accept_start
    → count_active pc rows ≡ 0
accepted-free pc rows type h =
    let idle = start_needs_none (status_of (load_active_session pc rows)) type h in
    elim (Option-cases (load_active_session pc rows)) [
      | inl empty ↦ load-none pc rows empty
      | inr (s, e) ↦ let on = load-active pc rows s e in ground arith
    ]

apply_event-Changes :
    (now new_id : ℕ) (evt : SyncEvent) (ctx : SyncContext) (w : World)
    → Changes ctx w.sessions (apply_event now new_id evt ctx w).1.sessions
unfolding apply_event
apply_event-Changes now new_id evt ctx w =
    let active = load_active_session ctx.pc_id w.sessions in
    let decision = resolve_offline_event (status_of active) evt.type in
    apply_decision-Changes now new_id evt ctx active decision.reason decision.action w
      (accepted-free ctx.pc_id w.sessions evt.type)

process-Changes :
    (now new_id : ℕ) (evt : SyncEvent) (ctx : SyncContext) (w : World)
    → Changes ctx w.sessions (process_sync_event now new_id evt ctx w).1.sessions
process-Changes now new_id evt ctx w =
    elim (Bool-cases (is_recorded ctx.pc_id evt w.offline_events)) [
      | inl old ↦ rw (recorded-duplicate now new_id evt ctx w old) (inl refl)
      | inr new ↦
          let (result, next, ran, keeps) =
            apply_event-Records now new_id evt ctx (with_event evt ctx w) in
          let all = process_new now new_id evt ctx w new ∙ ap (settle w.db) ran in
          let changes = apply_event-Changes now new_id evt ctx (with_event evt ctx w) in
          let same : next.sessions
              ≡ (apply_event now new_id evt ctx (with_event evt ctx w)).1.sessions =
            ap (λ r. r.1.sessions) (sym ran) in
          rw all (rw same changes)
    ]

process_all-OneActive :
    (supply : Supply) (i : ℕ) (ctx : SyncContext) (evts : List SyncEvent) (w : World)
    → OneActive w.sessions
    → OneActive (process_all supply i ctx evts w).1.sessions
unfolding process_all
process_all-OneActive supply i ctx [] w one = one
process_all-OneActive supply i ctx (e ∷ evts) w one =
    let (result, mid, first, here, keeps) =
      process-recorded (supply.now i) (supply.new_id i) e ctx w in
    let (results, next, rest, there, others) = process_all-recorded supply (suc i) ctx evts mid in
    let changes = process-Changes (supply.now i) (supply.new_id i) e ctx w in
    let mid_one : OneActive mid.sessions =
      changed-OneActive ctx w.sessions mid.sessions
        (rw (ap (λ r. r.1.sessions) (sym first)) changes) one in
    rw (first, rest)
      (rw (ap (λ r. r.1.sessions) (sym rest))
        (process_all-OneActive supply (suc i) ctx evts mid mid_one))

-- When no machine has two active sessions, none has after a batch of offline events, whatever the
-- answer to the batch is.
pub handle_sync_events-OneActive :
    (supply : Supply) (batch_id : ℕ) (device : DevicePrincipal) (input : SyncBatch) (w : World)
    → OneActive w.sessions
    → OneActive (handle_sync_events supply batch_id device input w).1.sessions
unfolding insert_batch
handle_sync_events-OneActive supply batch_id device input w one =
    elim (Option-cases (device_pc device w)) [
      | inl absent ↦ rw (absent_lem supply batch_id device input w absent) one
      | inr (pc, found) ↦
          let before = with_batch batch_id device input w in
          let ctx = context batch_id device pc before in
          let (results, next, ran, recorded, keeps) =
            process_all-recorded supply 0 ctx (events_of input) before in
          let after = process_all-OneActive supply 0 ctx (events_of input) before one in
          rw (found_lem supply batch_id device input w pc results next found ran)
            (rw (ap (λ r. r.1.sessions) (sym ran)) after)
    ]
