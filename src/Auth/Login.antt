-- ===== src/Auth/Login.antt =====
-- The handlers of apps/server/src/modules/auth/handlers.ts that give tokens to users.
pub mod Tokens
pub mod Attempts
use gaming_cafe_management.Prelude.{
  ℕ, suc, Bool, true, false, not, ◌&&◌, [], ◌∷◌, List, Option, none, some, ◌==◌, ltb, find?, filter,
  update_where, length, get_or, String, if◌then◌else◌,
}
use gaming_cafe_management.Auth.{UserClaims, TokenType}
use gaming_cafe_management.Auth.Services.{Services}
use gaming_cafe_management.Auth.Guards.{
  token_type_eq, verify_jwt, sign_access_token, sign_refresh_token, sign_sse_token,
}
use gaming_cafe_management.RateLimit.{
  Buckets, check_rate_limit, fail_rate_limit, reset_rate_limit, retry_after_seconds,
}
use gaming_cafe_management.Shared.{
  StaffRole, ActorType, EventSource, problem, internal, login_rate_limited, invalid_credentials,
  wrong_token_type, user_inactive,
}
use gaming_cafe_management.World.Devices.{UserRow}
use gaming_cafe_management.World.Tables.{ActorId}
use gaming_cafe_management.World.Audit.{plain_audit}
use gaming_cafe_management.World.Action.{
  Result, pure, raise, gets, modify, require, check, ◌>>=◌, ◌>>◌,
}
use gaming_cafe_management.World.{World, M, write_audit}

pub record LoginInput : Type 0 where
  pub email : ℕ
  pub password : ℕ

-- The answer to a login: the tokens, and the user with its address.
pub record LoginResponse (Token : Type 0) : Type 0 where
  pub access_token : Token
  pub refresh_token : Token
  pub id : ℕ
  pub email : ℕ
  pub name : String
  pub role : StaffRole
  pub cafe_id : ℕ

pub record RefreshResponse (Token : Type 0) : Type 0 where
  pub access_token : Token
  pub refresh_token : Token

unfoldable pub set_buckets : (Buckets → Buckets) → World → World
set_buckets f w = record w { buckets = f w.buckets }

-- `checkRateLimit` on the process's buckets.
unfoldable pub check_limit : (now key : ℕ) → M Bool
check_limit now key w =
    let (allowed, buckets) = check_rate_limit now key w.buckets in
    (Result.ok allowed, record w { buckets = buckets })

unfoldable pub update_users : (UserRow → Bool) → (UserRow → UserRow) → World → World
update_users p set w = record w { db = record (w.db) { users = update_where p set w.users } }

-- `rows[0]` where there is one row and no other.
abbrev pub only_row : List UserRow → Option UserRow
only_row [] = none
only_row (u ∷ []) = some u
only_row (u ∷ v ∷ us) = none

module _ (s : Services) where
  open s use {Token, lower_case, db_lower, verify_password}

  -- The active users with the address; the query's limit of two is enough to tell whether there is
  -- just one.
  abbrev pub login_rows : (email : ℕ) → World → List UserRow
  login_rows email w = filter (λ u. db_lower u.email == lower_case email && u.active) w.users

  -- `failRateLimit`, and the answer to wrong credentials.
  unfoldable pub refuse_login : {A : Type 0} → (now key : ℕ) → M A
  unfolding set_buckets
  refuse_login now key = do
    modify (set_buckets (fail_rate_limit now key))
    raise (problem 401 invalid_credentials)

  abbrev pub claims_of_user : UserRow → UserClaims
  claims_of_user u = record {
    sub = u.id;
    cafe_id = u.cafe_id;
    role = u.role;
    email = u.email;
    typ = TokenType.access;
  }

  unfoldable pub admit_user : (now key : ℕ) → UserRow → M (LoginResponse Token)
  unfolding set_buckets update_users write_audit plain_audit
  admit_user now key user = do
    modify (set_buckets (reset_rate_limit key))
    modify (update_users (λ u. u.id == user.id) (λ u. record u { last_login_at = some now }))
    modify (
        write_audit (record (plain_audit user.cafe_id ActorType.user user.id "ADMIN_LOGIN" none) {
          actor_role = some user.role;
        }))
    pure (record {
      access_token = sign_access_token s now (claims_of_user user);
      refresh_token = sign_refresh_token s now (claims_of_user user);
      id = user.id;
      email = user.email;
      name = user.name;
      role = user.role;
      cafe_id = user.cafe_id;
    })

  -- What follows the check of the password; a hash that argon2 cannot read is an error of the server.
  unfoldable pub verified_login : (now key : ℕ) → UserRow → Option Bool → M (LoginResponse Token)
  unfolding admit_user refuse_login
  verified_login now key user none = raise (problem 500 internal)
  verified_login now key user (some true) = admit_user now key user
  verified_login now key user (some false) = refuse_login now key

  unfoldable pub login_user : (now key password : ℕ) → Option UserRow → M (LoginResponse Token)
  unfolding verified_login refuse_login
  login_user now key password none = refuse_login now key
  login_user now key password (some user) =
      verified_login now key user (verify_password user.password_hash password)

  -- The key of the buckets, "login:" and the address in lower case, is the number of that address.
  unfoldable pub handle_login : (now : ℕ) → LoginInput → M (LoginResponse Token)
  unfolding check_limit login_user
  handle_login now input = do
    let key = lower_case input.email
    allowed ← check_limit now key
    check allowed (problem 429 login_rate_limited)
    rows ← gets (login_rows input.email)
    login_user now key input.password (only_row rows)

  unfoldable pub handle_refresh : (now : ℕ) → Token → M (RefreshResponse Token)
  unfolding verify_jwt
  handle_refresh now refresh_token = do
    claims ← verify_jwt s now refresh_token
    check (token_type_eq claims.typ TokenType.refresh) (problem 401 wrong_token_type)
    rows ← gets (λ w. w.users)
    user ← require (problem 401 user_inactive) (find? (λ u. u.id == claims.sub) rows)
    check user.active (problem 401 user_inactive)
    pure (record {
      access_token = sign_access_token s now claims;
      refresh_token = sign_refresh_token s now claims;
    })

  -- The answer's `expires_in` is always 300.
  unfoldable pub handle_sse_token : (now : ℕ) → UserClaims → M Token
  handle_sse_token now user = pure (sign_sse_token s now user)
