-- ===== src/Auth/Services.antt =====
-- What the authentication takes from outside: the tokens of the library jose, the password hashes
-- of the library argon2, SHA-256, random texts and the case of the texts that are addresses.
use gaming_cafe_management.Prelude.{ℕ, ◌+◌, ◌/◌, ◌<◌, ◌≤◌, ◌≡◌, Bool, Option, none, some, false}
use gaming_cafe_management.Auth.{UserClaims, TokenType}
use gaming_cafe_management.Shared.{StaffRole}

-- The claims in a token that `jwtVerify` accepts: `none` where a claim is not there or not a text.
pub record Payload : Type 0 where
  pub sub : Option ℕ
  pub cafe_id : Option ℕ
  pub role : Option StaffRole
  pub email : Option ℕ
  pub typ : Option TokenType

unfoldable pub payload_of : UserClaims → Payload
payload_of claims = record {
  sub = some claims.sub;
  cafe_id = some claims.cafe_id;
  role = some claims.role;
  email = some claims.email;
  typ = some claims.typ;
}

-- `sign` makes a token at a time in milliseconds, for a life in seconds; `jwt_verify` is `none` where
-- the library throws. A token is a text, with the second of its issue, and is good before the second of
-- its end. `verify_password` is `none` where argon2 throws, as on a malformed hash. `lower_case` is the
-- language's, `db_lower` the database's.
pub record Services : Type 1 where
  pub Token : Type 0
  pub is_empty : Token → Bool
  pub sign : (now lifetime : ℕ) → UserClaims → Token
  pub jwt_verify : (now : ℕ) → Token → Option Payload
  pub sha256_hex : Token → ℕ
  pub verify_password : (hash password : ℕ) → Option Bool
  pub lower_case : ℕ → ℕ
  pub db_lower : ℕ → ℕ
  pub verify-sign :
      (now lifetime later : ℕ) (claims : UserClaims)
      → later / 1000 < now / 1000 + lifetime
      → jwt_verify later (sign now lifetime claims) ≡ some (payload_of claims)
  pub verify-old :
      (now lifetime later : ℕ) (claims : UserClaims)
      → now / 1000 + lifetime ≤ later / 1000
      → jwt_verify later (sign now lifetime claims) ≡ none
  pub sign-nonempty :
      (now lifetime : ℕ) (claims : UserClaims) → is_empty (sign now lifetime claims) ≡ false
