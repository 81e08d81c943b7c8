-- ===== src/World/Tables.antt =====
-- Rows of apps/server/src/db/schema.ts. Money is in minor units.
use gaming_cafe_management.Prelude.{ℕ, Bool, List, Option, String}
use gaming_cafe_management.Prelude.Int.{ℤ}
use gaming_cafe_management.Pricing.{PricingRuleInput, PriceSegment}
use gaming_cafe_management.World.Devices.{
  UserRow, CustomerRow, CredentialRow, EnrollmentTokenRow, PairingCodeRow, PcConfigurationRow,
  HealthSnapshotRow,
}
use gaming_cafe_management.World.Catalog.{
  GameRow, GameVersionRow, InstallationRow, DeploymentRow, TargetRow, MenuCategoryRow,
}
use gaming_cafe_management.Shared.{
  StaffRole, ActorType, EventSource, PcStatus, SessionStatus, SessionOrigin, SessionEventType,
  CommandType, CommandStatus, OrderStatus, OfflineEventType, OfflineEventState, ConflictReason,
  PaymentMethod,
}

-- A name is the list of its UTF-16 code units.
pub record PcRow : Type 0 where
  pub id : ℕ
  pub cafe_id : ℕ
  pub name : List ℕ
  pub tier_id : Option ℕ
  pub status : PcStatus
  pub hardware_fingerprint : Option ℕ
  pub agent_version : Option ℕ
  pub last_heartbeat_at : Option ℕ

pub record SessionRow : Type 0 where
  pub id : ℕ
  pub cafe_id : ℕ
  pub pc_id : ℕ
  pub customer_id : Option ℕ
  pub started_at : ℕ
  pub expires_at : ℕ
  pub ended_at : Option ℕ
  pub planned_minutes : ℕ
  pub extended_minutes : ℕ
  pub price_amount : ℕ
  pub pricing_breakdown : List PriceSegment
  pub status : SessionStatus
  pub origin : SessionOrigin
  pub created_by : Option ℕ
  pub idempotency_key : Option ℕ

-- Who acted: an id, or the name of a part of the system.
pub data ActorId : Type 0 where
  id : ℕ → ActorId
  named : String → ActorId

-- The `payload` of a session event.
pub data EventPayload : Type 0 where
  no_payload : EventPayload
  started_with : (planned_minutes price_amount : ℕ) → EventPayload
  started_offline : (planned_minutes : ℕ) → EventPayload
  extended_by : (minutes : ℕ) → (delta_amount : ℤ) → (new_expires_at : ℕ) → EventPayload
  extended_offline : (minutes : ℕ) → EventPayload
  ended_offline : EventPayload
  expired_at : (expires_at : ℕ) → EventPayload

pub record SessionEventRow : Type 0 where
  pub session_id : ℕ
  pub type : SessionEventType
  pub actor_type : ActorType
  pub actor_id : ActorId
  pub occurred_at : ℕ
  pub payload : EventPayload

-- A row of the audit log, less its metadata.
pub record AuditRow : Type 0 where
  pub cafe_id : ℕ
  pub actor_type : ActorType
  pub actor_id : ActorId
  pub actor_role : Option StaffRole
  pub action : String
  pub source : EventSource
  pub pc_id : Option ℕ
  pub entity_type : Option String
  pub entity_id : Option ℕ

pub record PricingRuleRow : Type 0 where
  pub cafe_id : ℕ
  pub rule : PricingRuleInput

pub record CommandRow : Type 0 where
  pub id : ℕ
  pub cafe_id : ℕ
  pub pc_id : ℕ
  pub type : CommandType
  pub requires_confirm : Bool
  pub confirmed_by : Option ℕ
  pub status : CommandStatus
  pub issued_by : ℕ
  pub issued_at : ℕ
  pub delivered_at : Option ℕ
  pub acked_at : Option ℕ
  pub expires_at : ℕ

-- A field of an offline event's payload: not there; there but not read as a number; a number; or, for
-- `begins n`, a text or a fraction that begins with the digits of `n` and goes on, which parseInt reads
-- as `n` and Number does not. Negative numbers are left out.
pub data PayloadField : Type 0 where
  absent not_a_number : PayloadField
  number begins : ℕ → PayloadField

-- The fields of an offline event's payload that the server reads.
pub record OfflinePayload : Type 0 where
  pub minutes : PayloadField
  pub planned_minutes : PayloadField

pub record OfflineEventRow : Type 0 where
  pub id : ℕ
  pub cafe_id : ℕ
  pub pc_id : ℕ
  pub seq : ℕ
  pub type : OfflineEventType
  pub occurred_at : ℕ
  pub payload : OfflinePayload
  pub state : OfflineEventState
  pub conflict_reason : Option ConflictReason
  pub applied_session_id : Option ℕ
  pub received_batch_id : Option ℕ

pub record BatchRow : Type 0 where
  pub id : ℕ
  pub pc_id : ℕ
  pub last_server_seq : ℕ
  pub event_count : ℕ

pub record MenuItemRow : Type 0 where
  pub id : ℕ
  pub cafe_id : ℕ
  pub category_id : ℕ
  pub name : String
  pub description : Option String
  pub base_price : ℤ
  pub prep_minutes : ℕ
  pub available : Bool
  pub deleted_at : Option ℕ

pub record VariantRow : Type 0 where
  pub id : ℕ
  pub item_id : ℕ
  pub price_delta : ℤ

pub record OrderRow : Type 0 where
  pub id : ℕ
  pub cafe_id : ℕ
  pub pc_id : Option ℕ
  pub session_id : Option ℕ
  pub number : ℕ
  pub status : OrderStatus
  pub total_amount : ℤ
  pub placed_at : ℕ
  pub cancelled_reason : Option String

pub record OrderItemRow : Type 0 where
  pub order_id : ℕ
  pub menu_item_id : ℕ
  pub variant_id : Option ℕ
  pub name_snapshot : String
  pub unit_price : ℤ
  pub qty : ℕ
  pub line_total : ℤ

pub record OrderHistoryRow : Type 0 where
  pub order_id : ℕ
  pub from_status : Option OrderStatus
  pub to_status : OrderStatus
  pub actor_type : ActorType
  pub actor_id : ℕ

pub record PaymentRow : Type 0 where
  pub id : ℕ
  pub cafe_id : ℕ
  pub session_id : Option ℕ
  pub order_id : Option ℕ
  pub method : PaymentMethod
  pub amount : ℕ
  pub external_ref : Option String
  pub idempotency_key : ℕ

-- A row of the payment ledger; all rows that the modelled code inserts are charges.
pub record PaymentTransactionRow : Type 0 where
  pub payment_id : ℕ
  pub amount : ℕ
  pub actor_id : ℕ

pub record Db : Type 0 where
  pub pcs : List PcRow
  pub pricing_rules : List PricingRuleRow
  pub sessions : List SessionRow
  pub session_events : List SessionEventRow
  pub audit_logs : List AuditRow
  pub pc_commands : List CommandRow
  pub offline_events : List OfflineEventRow
  pub reconciliation_batches : List BatchRow
  pub menu_items : List MenuItemRow
  pub menu_variants : List VariantRow
  pub orders : List OrderRow
  pub order_items : List OrderItemRow
  pub order_status_history : List OrderHistoryRow
  pub payments : List PaymentRow
  pub payment_transactions : List PaymentTransactionRow
  pub users : List UserRow
  pub customers : List CustomerRow
  pub device_credentials : List CredentialRow
  pub cafe_enrollment_tokens : List EnrollmentTokenRow
  pub pairing_codes : List PairingCodeRow
  pub pc_configurations : List PcConfigurationRow
  pub pc_health_snapshots : List HealthSnapshotRow
  pub games : List GameRow
  pub game_versions : List GameVersionRow
  pub pc_game_installations : List InstallationRow
  pub game_deployments : List DeploymentRow
  pub game_deployment_targets : List TargetRow
  pub menu_categories : List MenuCategoryRow
