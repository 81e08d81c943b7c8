-- ===== src/Shared.antt =====
-- packages/shared/src/enums.ts and the problems of apps/server/src/lib/problem.ts. Identifiers and
-- texts that the program only compares for equality are numbers; instants are milliseconds.
use gaming_cafe_management.Prelude.{ℕ, Bool, true, false, List, [], ◌∷◌, ◌==◌, ◌||◌, ℕ}

pub data StaffRole : Type 0 where
  owner manager staff kitchen : StaffRole

pub data ActorType : Type 0 where
  user pc system customer superadmin_local : ActorType

pub data EventSource : Type 0 where
  online offline local : EventSource

pub data PcStatus : Type 0 where
  online offline maintenance disabled : PcStatus

pub data GamePlatform : Type 0 where
  steam epic riot ea battlenet standalone : GamePlatform

pub data GameVersionStatus : Type 0 where
  draft published deprecated : GameVersionStatus

pub data InstallationState : Type 0 where
  not_installed installing ready failed : InstallationState

pub data DeploymentJobStatus : Type 0 where
  queued running completed failed cancelled : DeploymentJobStatus

pub data DeploymentTargetState : Type 0 where
  queued downloading verifying installing ready paused failed offline : DeploymentTargetState

pub data AuthMethod : Type 0 where
  none password otp : AuthMethod

pub data SessionStatus : Type 0 where
  scheduled active paused expired ended cancelled : SessionStatus

pub data SessionOrigin : Type 0 where
  admin launcher superadmin_offline : SessionOrigin

pub data SessionEventType : Type 0 where
  started extended ended cancelled paused resumed transferred expired : SessionEventType

pub data CommandType : Type 0 where
  start_session extend_session end_session lock unlock launch_game restart shutdown : CommandType
  refresh_config enter_maintenance request_health deployment_control : CommandType

pub data CommandStatus : Type 0 where
  pending sent applied failed expired : CommandStatus

pub data OrderStatus : Type 0 where
  placed accepted preparing ready delivered completed cancelled : OrderStatus

pub data OfflineEventType : Type 0 where
  session_started session_extended session_ended session_cancelled : OfflineEventType
  customer_assigned order_created superadmin_entered superadmin_login_failed : OfflineEventType
  tamper_suspected : OfflineEventType

pub data OfflineEventState : Type 0 where
  accepted duplicate conflicted : OfflineEventState

pub data ConflictReason : Type 0 where
  duplicate_session session_already_ended clock_skew unknown_event_type : ConflictReason

pub data PaymentMethod : Type 0 where
  cash upi card online wallet : PaymentMethod

-- The equality of two session statuses.
abbrev session_rank : SessionStatus → ℕ
session_rank scheduled = 0
session_rank active = 1
session_rank paused = 2
session_rank expired = 3
session_rank ended = 4
session_rank cancelled = 5

abbrev pub session_status_eq : SessionStatus → SessionStatus → Bool
session_status_eq a b = session_rank a == session_rank b

abbrev order_rank : OrderStatus → ℕ
order_rank placed = 0
order_rank accepted = 1
order_rank preparing = 2
order_rank ready = 3
order_rank delivered = 4
order_rank completed = 5
order_rank cancelled = 6

abbrev pub order_status_eq : OrderStatus → OrderStatus → Bool
order_status_eq a b = order_rank a == order_rank b

-- `list.includes(status)` on order statuses.
abbrev pub includes_order_status : OrderStatus → List OrderStatus → Bool
includes_order_status s [] = false
includes_order_status s (t ∷ ts) = order_status_eq s t || includes_order_status s ts

-- `DANGEROUS_COMMANDS.includes(type)`.
unfoldable pub is_dangerous : CommandType → Bool
is_dangerous end_session = true
is_dangerous restart = true
is_dangerous shutdown = true
is_dangerous _ = false

-- Legal transitions of the order state machine.
unfoldable pub order_transitions : OrderStatus → List OrderStatus
order_transitions placed = OrderStatus.accepted ∷ OrderStatus.cancelled ∷ []
order_transitions accepted = OrderStatus.preparing ∷ OrderStatus.cancelled ∷ []
order_transitions preparing = OrderStatus.ready ∷ OrderStatus.cancelled ∷ []
order_transitions ready = OrderStatus.delivered ∷ []
order_transitions delivered = OrderStatus.completed ∷ []
order_transitions completed = []
order_transitions cancelled = []

-- The `code` of a problem; `internal` is what the error handler answers to any other exception.
pub data ErrorCode : Type 0 where
  validation_error internal : ErrorCode
  session_not_found session_not_active session_already_terminal session_not_paused : ErrorCode
  pc_not_found pc_not_available pc_busy idempotency_failed : ErrorCode
  order_not_found order_invalid_transition menu_item_not_found item_unavailable : ErrorCode
  command_not_found confirmation_required : ErrorCode
  event_not_found not_conflicted : ErrorCode
  login_rate_limited invalid_credentials invalid_token missing_token wrong_token_type : ErrorCode
  role_not_allowed user_inactive invalid_device_token pc_id_mismatch : ErrorCode
  invalid_pairing_code invalid_enroll_token not_your_pc : ErrorCode
  game_not_found game_version_not_found pc_not_in_cafe : ErrorCode
  deployment_not_found deployment_target_not_found : ErrorCode
  deployment_target_invalid_transition not_your_target manifest_not_verified : ErrorCode
  menu_category_not_found contact_required customer_exists customer_not_found : ErrorCode

-- `HttpProblem`, less its texts.
pub record HttpProblem : Type 0 where
  pub status : ℕ
  pub code : ErrorCode

unfoldable pub problem : ℕ → ErrorCode → HttpProblem
problem status code = record { status = status; code = code }
