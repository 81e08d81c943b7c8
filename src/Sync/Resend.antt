-- ===== src/Sync/Resend.antt =====
-- A batch that an agent sends again.
use gaming_cafe_management.Prelude.{
  ℕ, ◌≡◌, refl, ap, ◌∙◌, inl, inr, List, Option, none, some, arith, ◌==◌, find?, Option-cases,
}
use gaming_cafe_management.Auth.{DevicePrincipal}
use gaming_cafe_management.World.Tables.{PcRow}
use gaming_cafe_management.World.{World}
use gaming_cafe_management.World.Action.{ok}
use gaming_cafe_management.Sync.{SyncEventResult}
use gaming_cafe_management.Sync.Handlers.{
  Supply, SyncBatch, insert_batch, process_all, handle_sync_events, process_batch, events_of,
  context, batch_row,
}
use gaming_cafe_management.Sync.Replay.{AllRecorded, process_all-duplicates, process_all-recorded}

-- Two states with the same sessions, records of them, offline events and channels.
abbrev pub Same : World → World → Type 0
Same v w =
    (v.sessions ≡ w.sessions)
    × (v.session_events ≡ w.session_events)
    × (v.audit_logs ≡ w.audit_logs)
    × (v.offline_events ≡ w.offline_events)
    × (v.channels ≡ w.channels)

abbrev pub device_pc : DevicePrincipal → World → Option PcRow
device_pc device w = find? (λ p. p.id == device.pc_id) w.pcs

-- The state after the insert of the batch's row.
abbrev pub with_batch : (batch_id : ℕ) → DevicePrincipal → SyncBatch → World → World
unfolding insert_batch
with_batch batch_id device input w = insert_batch (batch_row batch_id device input) w

module _ (supply : Supply) (batch_id : ℕ) (device : DevicePrincipal) (input : SyncBatch)
    (w : World) where
  pub absent_lem :
      device_pc device w ≡ none
      → (handle_sync_events supply batch_id device input w).1 ≡ with_batch batch_id device input w
  unfolding handle_sync_events insert_batch
  absent_lem h = cc

  process_lem :
      (pc : PcRow)
      → device_pc device w ≡ some pc
      → handle_sync_events supply batch_id device input w
        ≡ process_batch supply batch_id device input pc (with_batch batch_id device input w)
  unfolding handle_sync_events insert_batch
  process_lem pc h = cc

  batch_lem :
      (pc : PcRow) (results : List SyncEventResult) (before next : World)
      → process_all supply 0 (context batch_id device pc before) (events_of input) before
        ≡ (ok results, next)
      → (process_batch supply batch_id device input pc before).1 ≡ next
  unfolding process_batch
  batch_lem pc results before next ran = rw ran refl

  pub found_lem :
      (pc : PcRow) (results : List SyncEventResult) (next : World)
      → device_pc device w ≡ some pc
      → let before = with_batch batch_id device input w in
        process_all supply 0 (context batch_id device pc before) (events_of input) before
          ≡ (ok results, next)
        → (handle_sync_events supply batch_id device input w).1 ≡ next
  found_lem pc results next h ran =
      ap (λ r. r.1) (process_lem pc h) ∙ batch_lem pc results _ next ran

  recorded-Same :
      AllRecorded device.pc_id (events_of input) w
      → Same (handle_sync_events supply batch_id device input w).1 w
  unfolding insert_batch
  recorded-Same recorded = elim (Option-cases (device_pc device w)) [
    | inl absent ↦ rw (absent_lem absent) (refl, refl, refl, refl, refl)
    | inr (pc, found) ↦
        let ran =
          process_all-duplicates supply 0
            (context batch_id device pc (with_batch batch_id device input w)) (events_of input)
            (with_batch batch_id device input w) recorded in
        rw (found_lem pc _ _ found ran) (refl, refl, refl, refl, refl)
  ]

  after-AllRecorded :
      (pc : PcRow)
      → device_pc device w ≡ some pc
      → AllRecorded device.pc_id
          (events_of input)
          (handle_sync_events supply batch_id device input w).1
  after-AllRecorded pc found =
      let (results, next, ran, recorded, keeps) =
        process_all-recorded supply 0
          (context batch_id device pc (with_batch batch_id device input w)) (events_of input)
          (with_batch batch_id device input w) in
      rw (found_lem pc results next found ran) recorded

  again_absent :
      (later : Supply) (batch : ℕ)
      → device_pc device w ≡ none
      → let next = (handle_sync_events supply batch_id device input w).1 in
        Same (handle_sync_events later batch device input next).1 next
  unfolding handle_sync_events insert_batch
  again_absent later batch h = ground arith

-- A batch that a device sends a second time, in whatever state the first request left, changes no
-- session, no session event, no audit row, no offline event and no channel.
pub handle_sync_events-resent :
    (first second : Supply) (batch again : ℕ) (device : DevicePrincipal) (input : SyncBatch)
    (w : World)
    → let next = (handle_sync_events first batch device input w).1 in
      Same (handle_sync_events second again device input next).1 next
handle_sync_events-resent first second batch again device input w =
    elim (Option-cases (device_pc device w)) [
      | inl absent ↦ again_absent first batch device input w second again absent
      | inr (pc, found) ↦
          recorded-Same second again device input _
            (after-AllRecorded first batch device input w pc found)
    ]
