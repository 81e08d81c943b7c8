-- ===== src/Sync.antt =====
-- apps/server/src/modules/sync: the events that an agent recorded while it was offline. This file has
-- conflicts.ts, ack-seq.ts and types.ts; the children have apply.ts and handlers.ts.
pub mod Ack
pub mod Rows
pub mod Apply
pub mod Events
pub mod Handlers
pub mod Replay
pub mod Resolution
pub mod Resend
pub mod Counts
pub mod Active
pub mod Spares
pub mod Batches
pub mod Over
use gaming_cafe_management.Prelude.{
  ℕ, ◌+◌, Bool, true, false, ◌&&◌, List, [], ◌∷◌, Option, none, some, leb, ◌==◌, if◌then◌else◌,
}
use gaming_cafe_management.Pricing.{PricingRuleInput}
use gaming_cafe_management.Shared.{
  SessionStatus, session_status_eq, OfflineEventType, session_started, session_extended,
  session_ended, session_cancelled, OfflineEventState, ConflictReason, duplicate_session,
  session_already_ended,
}
use gaming_cafe_management.World.Tables.{PcRow, OfflinePayload}

-- `offlineEventEnvelope`.
pub record SyncEvent : Type 0 where
  pub event_id : ℕ
  pub seq : ℕ
  pub type : OfflineEventType
  pub occurred_at : ℕ
  pub payload : OfflinePayload

pub record SyncContext : Type 0 where
  pub cafe_id : ℕ
  pub pc_id : ℕ
  pub batch_id : ℕ
  pub pc : PcRow
  pub pricing_rules : List PricingRuleInput

pub record SyncEventResult : Type 0 where
  pub event_id : ℕ
  pub seq : ℕ
  pub state : OfflineEventState
  pub reason : Option ConflictReason
  pub session_id : Option ℕ

pub data ConflictAction : Type 0 where
  accept_start accept_extend accept_end : ConflictAction
  duplicate conflict : ConflictAction

pub record ConflictDecision : Type 0 where
  pub action : ConflictAction
  pub reason : Option ConflictReason

abbrev decide : ConflictAction → ConflictDecision
decide action = record { action = action; reason = none }

abbrev conflict_for : ConflictReason → ConflictDecision
conflict_for reason = record { action = conflict; reason = some reason }

-- `serverSession && serverSession.status === "active"`.
abbrev pub is_active : Option SessionStatus → Bool
is_active none = false
is_active (some status) = session_status_eq status SessionStatus.active

-- The server's session is given by its status, the one part of it that is read.
abbrev pub resolve_offline_event : Option SessionStatus → OfflineEventType → ConflictDecision
resolve_offline_event server session_started =
    if is_active server then conflict_for duplicate_session else decide accept_start
resolve_offline_event server session_extended =
    if is_active server then decide accept_extend else conflict_for session_already_ended
resolve_offline_event server session_ended =
    if is_active server then decide accept_end else decide ConflictAction.duplicate
resolve_offline_event server session_cancelled =
    if is_active server then decide accept_end else decide ConflictAction.duplicate
resolve_offline_event server _ = decide ConflictAction.duplicate

-- `xs.sort((a, b) => a.seq - b.seq)`, which is stable.
module _ {A : Type 0} (key : A → ℕ) where
  abbrev pub insert_by : A → List A → List A
  insert_by x [] = x ∷ []
  insert_by x (y ∷ ys) = if leb (key x) (key y) then x ∷ y ∷ ys else y ∷ insert_by x ys

  abbrev pub sort_by : List A → List A
  sort_by [] = []
  sort_by (x ∷ xs) = insert_by x (sort_by xs)

-- The states that an acknowledgement counts.
abbrev pub counts : OfflineEventState → Bool
counts OfflineEventState.accepted = true
counts OfflineEventState.duplicate = true
counts OfflineEventState.conflicted = true

abbrev pub ack_step : ℕ → SyncEventResult → ℕ
ack_step ack r = if r.seq == ack + 1 && counts r.state then r.seq else ack

-- The `reduce` over the sorted results.
abbrev pub ack_loop : ℕ → List SyncEventResult → ℕ
ack_loop ack [] = ack
ack_loop ack (r ∷ rs) = ack_loop (ack_step ack r) rs

unfoldable pub compute_ack_seq : (last_server_seq : ℕ) → List SyncEventResult → ℕ
compute_ack_seq last_server_seq results = ack_loop last_server_seq (sort_by (λ r. r.seq) results)
