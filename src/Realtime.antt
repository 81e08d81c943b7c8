-- ===== src/Realtime.antt =====
-- apps/server/src/modules/realtime/service.ts: the channel of recent events that each café has. The
-- Redis client is not modelled: an entry that another process published arrives parsed, or as
-- `none` where `rememberRemoteEntry` rejects the text.
pub mod Ring
pub mod Replay
use gaming_cafe_management.Prelude.{
  ℕ, ◌+◌, Bool, true, false, not, ◌&&◌, List, [], ◌∷◌, ◌++◌, Option, none, some, ltb, ◌==◌,
  if◌then◌else◌, length, mem, filter, max,
}
use gaming_cafe_management.Shared.{
  SessionStatus, OrderStatus, CommandType, CommandStatus, ConflictReason, PcStatus,
  DeploymentTargetState,
}

-- The names of the events that the modelled code publishes.
pub data EventName : Type 0 where
  session_updated session_started session_ended order_updated command sync_conflict : EventName
  pc_status deployment_updated deployment_progress : EventName

-- Their payloads.
pub data EventData : Type 0 where
  session_data : (session_id pc_id expires_at : ℕ) → SessionStatus → EventData
  order_data : (order_id order_number : ℕ) → Option ℕ → OrderStatus → (at : ℕ) → EventData
  command_data : (command_id pc_id : ℕ) → CommandType → CommandStatus → (issued_at : ℕ) → EventData
  conflict_data : (event_id pc_id : ℕ) → Option ConflictReason → EventData
  pc_status_data : (pc_id : ℕ) → PcStatus → (at : ℕ) → EventData
  -- A failure's event has no progress.
  deployment_data :
      (job_id pc_id : ℕ) → DeploymentTargetState → (progress_pct : Option ℕ) → EventData

pub record CafeEvent : Type 0 where
  pub event : EventName
  pub content : EventData
  pub pc_id : Option ℕ

pub record StreamEntry : Type 0 where
  pub id : ℕ
  pub event : CafeEvent

-- `seen` is a set of ids, in the order of insertion.
pub record ChannelState : Type 0 where
  pub entries : List StreamEntry
  pub seen : List ℕ
  pub counter : ℕ

abbrev pub ring_size : ℕ
ring_size = 200

abbrev pub empty_channel : ChannelState
empty_channel = record { entries = []; seen = []; counter = 0 }

-- `seen.delete(id)`.
abbrev pub delete : ℕ → List ℕ → List ℕ
delete id ids = filter (λ k. not (k == id)) ids

-- `entries.shift()`, and the removal of the id that it drops.
pub drop_oldest : ChannelState → List StreamEntry → ChannelState
drop_oldest s [] = s
drop_oldest s (e ∷ es) = record s { entries = es; seen = delete e.id s.seen }

-- The push of an entry, with the bound on the ring.
pub push_entry : StreamEntry → ChannelState → ChannelState
unfolding drop_oldest
push_entry entry s =
    let t = record s { seen = s.seen ++ entry.id ∷ []; entries = s.entries ++ entry ∷ [] } in
    if ltb ring_size (length t.entries) then drop_oldest t t.entries else t

-- `allocateEntry`, on the channel of the café.
pub allocate_entry : CafeEvent → ChannelState → StreamEntry × ChannelState
allocate_entry evt s =
    let t = record s { counter = s.counter + 1 } in
    let entry : StreamEntry = record { id = t.counter; event = evt } in
    (entry, if mem entry.id t.seen then t else push_entry entry t)

-- `rememberRemoteEntry`, on the channel of the café.
pub remember_remote_entry : Option StreamEntry → ChannelState → Option StreamEntry × ChannelState
remember_remote_entry none s = (none, s)
remember_remote_entry (some parsed) s = if mem parsed.id s.seen then (some parsed, s) else (
  some parsed,
  let t = push_entry parsed s in record t { counter = max t.counter parsed.id },
)

pub data SseContext : Type 0 where
  pc : ℕ → SseContext
  admin kitchen : SseContext

abbrev is_order_updated : EventName → Bool
is_order_updated order_updated = true
is_order_updated _ = false

pub matches_context : CafeEvent → SseContext → Bool
matches_context evt kitchen = is_order_updated evt.event
matches_context evt admin = true
matches_context evt (pc id) = elim evt.pc_id [ none ↦ true | some p ↦ p == id ]

-- `lastEventId === null || e.id > lastEventId`.
abbrev pub is_newer : Option ℕ → ℕ → Bool
is_newer none id = true
is_newer (some last) id = ltb last id

pub get_replay : Option ChannelState → Option ℕ → SseContext → List StreamEntry
get_replay none last ctx = []
get_replay (some s) last ctx =
    filter (λ e. is_newer last e.id && matches_context e.event ctx) s.entries

-- The channels of the cafés; `channelState` makes an empty one where there is none.
abbrev pub Channels : Type 0
Channels = ℕ → Option ChannelState

abbrev pub channel_state : Channels → ℕ → ChannelState
channel_state channels cafe_id = elim (channels cafe_id) [ none ↦ empty_channel | some s ↦ s ]

-- `channels.set(cafeId, state)`.
abbrev pub set_channel : Channels → ℕ → ChannelState → Channels
set_channel channels cafe_id s other = if other == cafe_id then some s else channels other

-- `publishToCafe`.
pub publish_to_cafe : ℕ → CafeEvent → Channels → Channels
publish_to_cafe cafe_id evt channels =
    set_channel channels cafe_id (allocate_entry evt (channel_state channels cafe_id)).1
