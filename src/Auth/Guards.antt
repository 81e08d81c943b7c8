-- ===== src/Auth/Guards.antt =====
-- apps/server/src/auth/guards.ts: the tokens of users and machines, and the guards of the routes.
use gaming_cafe_management.Prelude.{
  ℕ, Bool, false, not, ◌&&◌, ◌||◌, [], ◌∷◌, List, Option, none, some, ◌==◌, find?, is_some,
  if◌then◌else◌, get_or,
}
use gaming_cafe_management.Auth.{UserClaims, DevicePrincipal, TokenType}
use gaming_cafe_management.Auth.Services.{Services, Payload}
use gaming_cafe_management.Shared.{
  StaffRole, problem, invalid_token, missing_token, wrong_token_type, role_not_allowed,
  invalid_device_token, pc_id_mismatch,
}
use gaming_cafe_management.World.Devices.{CredentialRow}
use gaming_cafe_management.World.Tables.{PcRow}
use gaming_cafe_management.World.Action.{pure, gets, require, check, ◌>>=◌, ◌>>◌}
use gaming_cafe_management.World.{M}

abbrev token_rank : TokenType → ℕ
token_rank TokenType.access = 0
token_rank TokenType.refresh = 1
token_rank TokenType.sse = 2

abbrev pub token_type_eq : TokenType → TokenType → Bool
token_type_eq a b = token_rank a == token_rank b

abbrev role_rank : StaffRole → ℕ
role_rank StaffRole.owner = 0
role_rank StaffRole.manager = 1
role_rank StaffRole.staff = 2
role_rank StaffRole.kitchen = 3

-- `roles.includes(role)`.
abbrev pub includes_role : StaffRole → List StaffRole → Bool
includes_role r [] = false
includes_role r (s ∷ roles) = role_rank r == role_rank s || includes_role r roles

-- `roles && roles.length > 0 && !roles.includes(role)`.
abbrev pub is_excluded : Option (List StaffRole) → StaffRole → Bool
is_excluded none r = false
is_excluded (some []) r = false
is_excluded (some (s ∷ roles)) r = not (includes_role r (s ∷ roles))

-- The header `authorization` of a request: a text that begins with "Bearer ", with the trimmed rest
-- of it, or any other.
pub data Authorization (Token : Type 0) : Type 0 where
  bearer : Token → Authorization Token
  other_header : Authorization Token

-- What the guards read of a request: the query's `token`, where it is a text, and `x-pc-id`.
pub record Credentials (Token : Type 0) : Type 0 where
  pub authorization : Authorization Token
  pub query_token : Option Token
  pub x_pc_id : Option ℕ

abbrev pub principal_of : PcRow → DevicePrincipal
principal_of p = record { pc_id = p.id; cafe_id = p.cafe_id; name = p.name; tier_id = p.tier_id }

-- The machine of the first credential with the hash that is not revoked.
abbrev pub pc_of_hash : ℕ → List CredentialRow → List PcRow → Option PcRow
pc_of_hash h [] pcs = none
pc_of_hash h (c ∷ cs) pcs =
    let rest = pc_of_hash h cs pcs in
    if c.token_hash == h && not (is_some c.revoked_at)
    then elim (find? (λ p. p.id == c.pc_id) pcs) [ none ↦ rest | some p ↦ some p ]
    else rest

module _ (s : Services) where
  open s use {Token, is_empty, sign, jwt_verify, sha256_hex}

  unfoldable pub sign_access_token : (now : ℕ) → UserClaims → Token
  sign_access_token now claims = sign now 900 (record claims { typ = TokenType.access })

  unfoldable pub sign_refresh_token : (now : ℕ) → UserClaims → Token
  sign_refresh_token now claims = sign now 2592000 (record claims { typ = TokenType.refresh })

  unfoldable pub sign_sse_token : (now : ℕ) → UserClaims → Token
  sign_sse_token now claims = sign now 300 (record claims { typ = TokenType.sse })

  -- The claims of a payload that has them all; an address that it has not is empty, which is 0.
  abbrev all_claims :
      Option ℕ → Option ℕ → Option StaffRole → Option TokenType → ℕ → Option UserClaims
  all_claims (some sub) (some cafe_id) (some role) (some typ) email =
      some (record { sub = sub; cafe_id = cafe_id; role = role; email = email; typ = typ })
  all_claims _ _ _ _ email = none

  abbrev pub claims_of : Option Payload → Option UserClaims
  claims_of none = none
  claims_of (some p) = all_claims p.sub p.cafe_id p.role p.typ (get_or p.email 0)

  unfoldable pub verify_jwt : (now : ℕ) → Token → M UserClaims
  verify_jwt now token = require (problem 401 invalid_token) (claims_of (jwt_verify now token))

  abbrev query_of : Option Token → Option Token
  query_of none = none
  query_of (some t) = if is_empty t then none else some t

  unfoldable pub extract_token : Credentials Token → Option Token
  extract_token req = elim req.authorization [
    | bearer t ↦ some t
    | other_header ↦ query_of req.query_token
  ]

  -- `if (!token) throw …`: an empty token is none.
  unfoldable pub require_token : Credentials Token → M Token
  unfolding extract_token
  require_token req = require (problem 401 missing_token) (query_of (extract_token req))

  unfoldable pub authenticate_user : (now : ℕ) → Credentials Token → M UserClaims
  unfolding require_token verify_jwt
  authenticate_user now req = do
    token ← require_token req
    claims ← verify_jwt now token
    check (token_type_eq claims.typ TokenType.access) (problem 401 wrong_token_type)
    pure claims

  -- The claims that the guard sets as the request's user.
  unfoldable pub require_user :
      (roles : Option (List StaffRole)) → (now : ℕ) → Credentials Token → M UserClaims
  unfolding authenticate_user
  require_user roles now req = do
    claims ← authenticate_user now req
    check (not (is_excluded roles claims.role)) (problem 403 role_not_allowed)
    pure claims

  unfoldable pub load_device_by_token : Token → M DevicePrincipal
  load_device_by_token token = do
    found ← gets (λ w. pc_of_hash (sha256_hex token) w.device_credentials w.pcs)
    row ← require (problem 401 invalid_device_token) found
    pure (principal_of row)

  abbrev has_pc_id : Option ℕ → ℕ → Bool
  has_pc_id none pc_id = false
  has_pc_id (some header) pc_id = header == pc_id

  unfoldable pub require_device : Credentials Token → M DevicePrincipal
  unfolding require_token load_device_by_token
  require_device req = do
    token ← require_token req
    principal ← load_device_by_token token
    check (has_pc_id req.x_pc_id principal.pc_id) (problem 401 pc_id_mismatch)
    pure principal

  unfoldable pub require_device_for_sse : Credentials Token → M DevicePrincipal
  unfolding require_token load_device_by_token
  require_device_for_sse req = require_token req >>= load_device_by_token

  unfoldable pub require_user_for_sse : (now : ℕ) → Credentials Token → M UserClaims
  unfolding require_token verify_jwt
  require_user_for_sse now req = do
    token ← require_token req
    claims ← verify_jwt now token
    check (token_type_eq claims.typ TokenType.sse || token_type_eq claims.typ TokenType.access)
        (problem 401 wrong_token_type)
    pure claims
