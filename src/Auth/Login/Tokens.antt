-- ===== src/Auth/Login/Tokens.antt =====
-- The tokens that apps/server/src/modules/auth/handlers.ts gives, at the guards of
-- apps/server/src/auth/guards.ts.
use gaming_cafe_management.Prelude.{
  ℕ, ◌+◌, ◌/◌, ◌<◌, ◌≤◌, ◌≡◌, refl, inl, inr, true, false, Bool, List, Option, none, arith, ltb,
  ltb→lt, if◌then◌else◌, Bool-cases,
}
use gaming_cafe_management.Auth.{UserClaims, TokenType}
use gaming_cafe_management.Auth.Services.{Services, payload_of}
use gaming_cafe_management.Auth.Guards.{
  Credentials, bearer, sign_access_token, sign_refresh_token, require_user, is_excluded,
  token_type_eq,
}
use gaming_cafe_management.Auth.Login.{LoginInput, LoginResponse, handle_login}
use gaming_cafe_management.Shared.{
  StaffRole, problem, wrong_token_type, role_not_allowed, invalid_token,
}
use gaming_cafe_management.World.Action.{Result, ok, err}
use gaming_cafe_management.World.{World}

module _ (s : Services) where
  open s use {Token, is_empty, sign, jwt_verify, verify-sign, verify-old, sign-nonempty}

  -- A request with the token in its header.
  abbrev pub bearing : Token → Credentials Token
  bearing token = record { authorization = bearer token; query_token = none; x_pc_id = none }

  -- The user that a login's answer names.
  abbrev pub user_of : LoginResponse Token → TokenType → UserClaims
  user_of r typ = record {
    sub = r.id;
    cafe_id = r.cafe_id;
    role = r.role;
    email = r.email;
    typ = typ;
  }

  -- What the guard answers to a signed token.
  abbrev answer : Bool → Option (List StaffRole) → (later : ℕ) → UserClaims → Result UserClaims
  answer fresh roles later claims =
      if fresh
      then (if token_type_eq claims.typ TokenType.access
          then if is_excluded roles claims.role
            then err (problem 403 role_not_allowed)
            else ok claims
          else err (problem 401 wrong_token_type))
      else err (problem 401 invalid_token)

  require_fresh :
      (roles : Option (List StaffRole)) (now lifetime later : ℕ) (claims : UserClaims) (w : World)
      → later / 1000 < now / 1000 + lifetime
      → require_user s roles later (bearing (sign now lifetime claims)) w
        ≡ (answer true roles later claims, w)
  unfolding require_user payload_of
  require_fresh roles now lifetime later claims w good =
      elim (Bool-cases (token_type_eq claims.typ TokenType.access)) [
        | inr wrong ↦
            rw
              (sign-nonempty now lifetime claims, verify-sign now lifetime later claims good, wrong)
              refl
        | inl right ↦ elim (Bool-cases (is_excluded roles claims.role)) [
          | inl out ↦
              rw
                (
                  sign-nonempty now lifetime claims,
                  verify-sign now lifetime later claims good,
                  right,
                  out,
                )
                refl
          | inr allowed ↦
              rw
                (
                  sign-nonempty now lifetime claims,
                  verify-sign now lifetime later claims good,
                  right,
                  allowed,
                )
                refl
        ]
      ]

  require_old :
      (roles : Option (List StaffRole)) (now lifetime later : ℕ) (claims : UserClaims) (w : World)
      → now / 1000 + lifetime ≤ later / 1000
      → require_user s roles later (bearing (sign now lifetime claims)) w
        ≡ (answer false roles later claims, w)
  unfolding require_user
  require_old roles now lifetime later claims w old =
      rw (sign-nonempty now lifetime claims, verify-old now lifetime later claims old) refl

  require_signed :
      (roles : Option (List StaffRole)) (now lifetime later : ℕ) (claims : UserClaims) (w : World)
      → require_user s roles later (bearing (sign now lifetime claims)) w
        ≡ (answer (ltb (later / 1000) (now / 1000 + lifetime)) roles later claims, w)
  require_signed roles now lifetime later claims w =
      elim (Bool-cases (ltb (later / 1000) (now / 1000 + lifetime))) [
        | inl fresh ↦ rw fresh (require_fresh roles now lifetime later claims w (ltb→lt _ _ fresh))
        | inr old ↦ rw old (require_old roles now lifetime later claims w (ground arith))
      ]

  login-ok :
      (now : ℕ) (input : LoginInput) (w after : World) (r : LoginResponse Token)
      → handle_login s now input w ≡ (ok r, after)
      → (r.access_token ≡ sign_access_token s now (user_of r TokenType.access))
        × (r.refresh_token ≡ sign_refresh_token s now (user_of r TokenType.access))
  unfolding handle_login
  login-ok now input w after r h = (ground arith, ground arith)

  -- After a login, in any state and at any later time, for any roles: the access token passes the
  -- guard for 15 minutes as the user that the answer names, save that it is refused with 403 where
  -- roles are asked for and the user's is not among them; after 15 minutes it is refused with 401.
  -- The refresh token never passes: it is refused as of the wrong type for 30 days, and then as
  -- invalid.
  pub handle_login-guard :
      (roles : Option (List StaffRole)) (now later : ℕ) (input : LoginInput)
      (w after any_state : World) (r : LoginResponse Token)
      → handle_login s now input w ≡ (ok r, after)
      → let user = user_of r TokenType.access in
        (require_user s roles later (bearing r.access_token) any_state ≡ (
          if ltb (later / 1000) (now / 1000 + 900)
              then if is_excluded roles r.role then err (problem 403 role_not_allowed) else ok user
              else err (problem 401 invalid_token),
          any_state,
        ))
        × (require_user s roles later (bearing r.refresh_token) any_state ≡ (
          if ltb (later / 1000) (now / 1000 + 2592000)
              then err (problem 401 wrong_token_type)
              else err (problem 401 invalid_token),
          any_state,
        ))
  unfolding sign_access_token sign_refresh_token
  handle_login-guard roles now later input w after any_state r h =
      let (access, refresh) = login-ok now input w after r h in
      (
        rw access (require_signed roles now 900 later (user_of r TokenType.access) any_state),
        rw refresh (require_signed roles now 2592000 later (user_of r TokenType.refresh) any_state),
      )
