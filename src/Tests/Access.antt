-- ===== src/Tests/Access.antt =====
-- Logins, pairings and enrolments, with services that compute.
use gaming_cafe_management.Prelude.{
  ℕ, ◌+◌, ◌/◌, ◌<◌, ◌≤◌, ◌≡◌, refl, true, false, ◌&&◌, Bool, List, [], ◌∷◌, Option, none, some,
  arith, ltb, lt→ltb, ◌==◌, if◌then◌else◌, All,
}
use gaming_cafe_management.Prelude.Texts.{Text, to_lower_case}
use gaming_cafe_management.Auth.{UserClaims, DevicePrincipal, TokenType}
use gaming_cafe_management.Auth.Services.{Services, Payload, payload_of}
use gaming_cafe_management.Auth.Guards.{
  require_user, require_device, is_excluded, sign_access_token, sign_refresh_token,
}
use gaming_cafe_management.Auth.Login.{LoginInput, LoginResponse, handle_login, claims_of_user}
use gaming_cafe_management.Auth.Login.Tokens.{bearing, user_of, handle_login-guard}
use gaming_cafe_management.Auth.Login.Attempts.{Attempt, login_at, login_all, handle_login-locked}
use gaming_cafe_management.Auth.Pairing.{PairDeviceInput, PairDeviceResponse, handle_device_pair}
use gaming_cafe_management.Auth.Pairing.Once.{device_request, handle_device_pair-once}
use gaming_cafe_management.Auth.Enroll.{EnrollInput, has_name, free_name, handle_device_enroll}
use gaming_cafe_management.Auth.Enroll.Naming.{free_name_terminates}
use gaming_cafe_management.Auth.Enroll.Again.{is_live, handle_device_enroll-known}
use gaming_cafe_management.Pcs.Superadmin.{handle_superadmin_verify, is_owners}
use gaming_cafe_management.Pcs.Superadmin.Lockout.{counted, handle_superadmin_verify-rate}
use gaming_cafe_management.RateLimit.{check_rate_limit, fail_rate_limit, retry_after_seconds}
use gaming_cafe_management.Shared.{
  StaffRole, problem, internal, invalid_token, role_not_allowed, wrong_token_type,
  login_rate_limited, invalid_pairing_code,
}
use gaming_cafe_management.World.Action.{ok, err}
use gaming_cafe_management.World.Devices.{
  UserRow, CredentialRow, EnrollmentTokenRow, PairingCodeRow,
}
use gaming_cafe_management.World.{World}
use gaming_cafe_management.Tests.Fixtures.{tables, machine, device, cafe}

-- A signed token with the second of its end, or a text with a number.
data TestToken : Type 0 where
  signed : (end : ℕ) → UserClaims → TestToken
  plain : ℕ → TestToken

abbrev is_empty : TestToken → Bool
is_empty (signed end claims) = false
is_empty (plain n) = n == 0

abbrev read_token : (now : ℕ) → TestToken → Option Payload
read_token now (signed end claims) = if ltb (now / 1000) end then some (payload_of claims) else none
read_token now (plain n) = none

abbrev hash : TestToken → ℕ
hash (signed end claims) = 0
hash (plain n) = n + 1000

read_token-fresh :
    (now lifetime later : ℕ) (claims : UserClaims)
    → later / 1000 < now / 1000 + lifetime
    → read_token later (signed (now / 1000 + lifetime) claims) ≡ some (payload_of claims)
read_token-fresh now lifetime later claims h = rw (lt→ltb _ _ h) refl

read_token-old :
    (now lifetime later : ℕ) (claims : UserClaims)
    → now / 1000 + lifetime ≤ later / 1000
    → read_token later (signed (now / 1000 + lifetime) claims) ≡ none
read_token-old now lifetime later claims h = ground arith

abbrev services : Services
services = record {
  Token = TestToken;
  is_empty = is_empty;
  sign = λ now lifetime claims. signed (now / 1000 + lifetime) claims;
  jwt_verify = read_token;
  sha256_hex = hash;
  verify_password = λ h password. some (h == password);
  lower_case = λ text. text;
  db_lower = λ text. text;
  verify-sign = read_token-fresh;
  verify-old = read_token-old;
  sign-nonempty = λ now lifetime claims. refl;
}

abbrev boss : UserRow
boss = record {
  id = 12;
  cafe_id = 7;
  email = 500;
  password_hash = 4242;
  role = StaffRole.owner;
  name = "Asha";
  active = true;
  last_login_at = none;
}

abbrev fingerprint : ℕ
fingerprint = 31337

abbrev code_row : PairingCodeRow
code_row = record {
  id = 90;
  pc_id = 3;
  code = 65 ∷ 67 ∷ 50 ∷ [];
  expires_at = 60900000;
  used_at = none;
}

abbrev token_row : EnrollmentTokenRow
token_row = record { cafe_id = 7; label = "rollout"; token_hash = 1005; active = true }

abbrev old_credential : CredentialRow
old_credential = record { pc_id = 3; token_hash = 1008; paired_at = 50000000; revoked_at = none }

abbrev site : World
site = record cafe {
  db = record tables {
    pcs = record machine { hardware_fingerprint = some fingerprint } ∷ [];
    users = boss ∷ [];
    pairing_codes = code_row ∷ [];
    cafe_enrollment_tokens = token_row ∷ [];
    device_credentials = old_credential ∷ [];
  };
}

abbrev login : LoginInput
login = record { email = 500; password = 4242 }

abbrev login_answer : LoginResponse TestToken
login_answer = record {
  access_token = sign_access_token services 60000000 (claims_of_user services boss);
  refresh_token = sign_refresh_token services 60000000 (claims_of_user services boss);
  id = 12;
  email = 500;
  name = "Asha";
  role = StaffRole.owner;
  cafe_id = 7;
}

abbrev owners_only : Option (List StaffRole)
owners_only = some (StaffRole.owner ∷ [])

login_ok :
    handle_login services 60000000 login site
    ≡ (ok login_answer, (handle_login services 60000000 login site).1)
unfolding handle_login check_rate_limit
login_ok = refl

handle_login-guard_example :
    (require_user services owners_only 60600000 (bearing services login_answer.access_token) site
      ≡ (
        if ltb (60600000 / 1000) (60000000 / 1000 + 900)
            then if is_excluded owners_only StaffRole.owner
              then err (problem 403 role_not_allowed)
              else ok (user_of services login_answer TokenType.access)
            else err (problem 401 invalid_token),
        site,
      ))
    × (require_user services owners_only 60600000 (bearing services login_answer.refresh_token) site
        ≡ (
          if ltb (60600000 / 1000) (60000000 / 1000 + 2592000)
              then err (problem 401 wrong_token_type)
              else err (problem 401 invalid_token),
          site,
        ))
handle_login-guard_example =
    handle_login-guard services owners_only 60000000 60600000 login site
      (handle_login services 60000000 login site).1 site login_answer login_ok

abbrev guess : (now password : ℕ) → Attempt
guess now password = record { now = now; password = password }

abbrev guesses : List Attempt
guesses = guess 1000 1 ∷ guess 2000 2 ∷ guess 3000 3 ∷ guess 4000 4 ∷ []

handle_login-locked_example :
    let after = (login_at services 500 (guess 5000 5) (login_all services 500 guesses site)).1 in
    login_at services 500 (guess 20000 4242) after ≡ (err (problem 429 login_rate_limited), after)
unfolding handle_login check_rate_limit fail_rate_limit
handle_login-locked_example =
    handle_login-locked services 500 guesses (guess 5000 5) (guess 20000 4242) site
      (refl, (refl, (refl, (refl, tt)))) refl (omega arith) (omega arith)

abbrev pairing : PairDeviceInput
pairing = record {
  pairing_code = 65 ∷ 67 ∷ 50 ∷ [];
  hardware_fingerprint = fingerprint;
  agent_version = 2;
}

abbrev pair_answer : PairDeviceResponse TestToken
pair_answer = record { pc_id = 3; device_token = plain 77; config_version = 0 }

pair_ok :
    handle_device_pair services 60000000 (plain 77) pairing site
    ≡ (ok pair_answer, (handle_device_pair services 60000000 (plain 77) pairing site).1)
unfolding handle_device_pair
pair_ok = refl

handle_device_pair-once_example :
    let after = (handle_device_pair services 60000000 (plain 77) pairing site).1 in
    ((p : DevicePrincipal) × (p.pc_id ≡ 3)
      × (require_device services (device_request services (plain 77) 3) after ≡ (ok p, after)))
    × (handle_device_pair services 60100000 (plain 78) pairing after
        ≡ (err (problem 401 invalid_pairing_code), after))
handle_device_pair-once_example =
    handle_device_pair-once services 60000000 60100000 (plain 77) (plain 78) pairing pairing site
      (handle_device_pair services 60000000 (plain 77) pairing site).1 pair_answer (refl, tt)
      (refl, tt) refl pair_ok refl

abbrev enrolment : EnrollInput TestToken
enrolment = record {
  enroll_token = plain 5;
  hostname = 80 ∷ 67 ∷ [];
  hardware_fingerprint = fingerprint;
  agent_version = 3;
}

handle_device_enroll-known_example :
    let r = handle_device_enroll services 60000000 4 (plain 79) enrolment site in
    (r.0 ≡ err (problem 500 internal)) × All (λ c. is_live 3 c ≡ false) r.1.device_credentials
handle_device_enroll-known_example =
    handle_device_enroll-known services 60000000 4 (plain 79) enrolment site token_row
      (record machine { hardware_fingerprint = some fingerprint }) refl refl refl refl

-- Two names are taken, and one of them in other letters.
abbrev taken : List Text
taken = (112 ∷ 99 ∷ []) ∷ (112 ∷ 99 ∷ 45 ∷ 50 ∷ []) ∷ []

free_name_terminates_example :
    (n : Text) × (free_name taken (80 ∷ 67 ∷ []) ≡ some n)
    × (has_name taken (to_lower_case n) ≡ false)
free_name_terminates_example = free_name_terminates taken (80 ∷ 67 ∷ [])

handle_superadmin_verify-rate_example :
    let allowed = (check_rate_limit 60000000 3 site.superadmin_attempts).0 in
    let good = is_owners services 7 4242 site.users in
    let r = handle_superadmin_verify services 60000000 device 3 4242 site in
    (r.0
      ≡ ok (record {
        ok = allowed && good;
        retry_after_s = retry_after_seconds 60000000 3 site.superadmin_attempts;
      }))
    × (r.1 ≡ (if allowed then counted 60000000 3 good device site else site))
handle_superadmin_verify-rate_example =
    handle_superadmin_verify-rate services 60000000 device 4242 site
