-- ===== src/World/Devices.antt =====
-- Rows of apps/server/src/db/schema.ts on users, customers and the credentials of machines.
use gaming_cafe_management.Prelude.{ℕ, Bool, List, Option, String}
use gaming_cafe_management.Shared.{StaffRole, AuthMethod}

-- An address is the number of its text, as it was typed.
pub record UserRow : Type 0 where
  pub id : ℕ
  pub cafe_id : ℕ
  pub email : ℕ
  pub password_hash : ℕ
  pub role : StaffRole
  pub name : String
  pub active : Bool
  pub last_login_at : Option ℕ

pub record CustomerRow : Type 0 where
  pub id : ℕ
  pub cafe_id : ℕ
  pub phone : Option ℕ
  pub email : Option ℕ
  pub name : String
  pub auth_method : AuthMethod
  pub password_hash : Option ℕ

-- `pc_id` is the primary key.
pub record CredentialRow : Type 0 where
  pub pc_id : ℕ
  pub token_hash : ℕ
  pub paired_at : ℕ
  pub revoked_at : Option ℕ

pub record EnrollmentTokenRow : Type 0 where
  pub cafe_id : ℕ
  pub label : String
  pub token_hash : ℕ
  pub active : Bool

pub record PairingCodeRow : Type 0 where
  pub id : ℕ
  pub pc_id : ℕ
  pub code : List ℕ
  pub expires_at : ℕ
  pub used_at : Option ℕ

pub record PcConfigurationRow : Type 0 where
  pub pc_id : ℕ
  pub version : ℕ
  pub config : ℕ

-- A health report, with percentages in whole numbers.
pub record HealthSnapshotRow : Type 0 where
  pub pc_id : ℕ
  pub captured_at : ℕ
  pub cpu_pct : ℕ
  pub ram_pct : ℕ
  pub gpu_pct : Option ℕ
  pub disk_pct : ℕ
  pub disk_free_bytes : ℕ
  pub net_rx_bps : Option ℕ
  pub net_tx_bps : Option ℕ
  pub uptime_s : ℕ
  pub current_game_id : Option ℕ
  pub agent_status : String
