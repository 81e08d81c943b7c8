-- ===== src/Auth.antt =====
-- The principals of apps/server/src/auth/guards.ts that the handlers read.
pub mod Services
pub mod Guards
pub mod Login
pub mod Pairing
pub mod Enroll
use gaming_cafe_management.Prelude.{ℕ, List, Option}
use gaming_cafe_management.Shared.{StaffRole}

pub data TokenType : Type 0 where
  access refresh sse : TokenType

pub record UserClaims : Type 0 where
  pub sub : ℕ
  pub cafe_id : ℕ
  pub role : StaffRole
  pub email : ℕ
  pub typ : TokenType

pub record DevicePrincipal : Type 0 where
  pub pc_id : ℕ
  pub cafe_id : ℕ
  pub name : List ℕ
  pub tier_id : Option ℕ
