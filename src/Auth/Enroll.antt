-- ===== src/Auth/Enroll.antt =====
-- The handlers of apps/server/src/modules/auth/handlers.ts by which a machine enrols itself in a
-- café, under a name of its own.
pub mod Naming
pub mod Again
use gaming_cafe_management.Prelude.{
  ℕ, zero, suc, ◌+◌, Bool, true, false, not, ◌&&◌, [], ◌∷◌, ◌++◌, List, Option, none, some, ◌==◌,
  find?, filter, map, any, take, update_where, length, opt_eq, if◌then◌else◌, get_or, String,
}
use gaming_cafe_management.Prelude.Texts.{Text, text_eq, to_lower_case, trim, decimal}
use gaming_cafe_management.Auth.{UserClaims}
use gaming_cafe_management.Auth.Services.{Services}
use gaming_cafe_management.Auth.Pairing.{PairDeviceResponse, credential}
use gaming_cafe_management.Pcs.Rows.{name_clashes, insert_pc, update_pcs}
use gaming_cafe_management.Shared.{ActorType, PcStatus, problem, internal, invalid_enroll_token}
use gaming_cafe_management.World.Devices.{CredentialRow, EnrollmentTokenRow, PcConfigurationRow}
use gaming_cafe_management.World.Tables.{PcRow}
use gaming_cafe_management.World.Audit.{plain_audit}
use gaming_cafe_management.World.Action.{pure, gets, modify, require, check, ◌>>=◌, ◌>>◌}
use gaming_cafe_management.World.{World, M, write_audit}

abbrev pub has_name : List Text → Text → Bool
has_name names s = any (text_eq s) names

-- `${name}-${i}`.
abbrev pub numbered : Text → ℕ → Text
numbered name i = name ++ 45 ∷ decimal i

-- `while (names.has(`${name}-${i}`.toLowerCase())) i++`, in at most `fuel` tests.
abbrev pub free_number : (fuel : ℕ) → List Text → Text → ℕ → Option ℕ
free_number zero names name i = none
free_number (suc fuel) names name i =
    let rest = free_number fuel names name (i + 1) in
    if has_name names (to_lower_case (numbered name i)) then rest else some i

abbrev pub taken_names : (cafe_id : ℕ) → List PcRow → List Text
taken_names cafe_id pcs =
    map (λ p. to_lower_case p.name) (take 500 (filter (λ p. p.cafe_id == cafe_id) pcs))

-- The name of a new machine; one test more than there are names is enough.
unfoldable pub free_name : List Text → Text → Option Text
free_name names name =
    if has_name names (to_lower_case name)
    then elim (free_number (suc (length names)) names name 2) [
      | none ↦ none
      | some i ↦ some (numbered name i)
    ]
    else some name

pub record EnrollInput (Token : Type 0) : Type 0 where
  pub enroll_token : Token
  pub hostname : Text
  pub hardware_fingerprint : ℕ
  pub agent_version : ℕ

-- The update of a known machine's row, by its key.
unfoldable pub rename_pc : (id cafe_id : ℕ) → Text → (agent_version : ℕ) → M (Unit {0})
unfolding update_pcs
rename_pc id cafe_id name agent_version = do
  rows ← gets (λ w. w.pcs)
  check (not (name_clashes id cafe_id name rows)) (problem 500 internal)
  modify (
      update_pcs (λ p. p.id == id)
        (λ p. record p { name = name; agent_version = some agent_version }))

unfoldable pub insert_configuration : PcConfigurationRow → World → World
insert_configuration row w = record w {
  db = record (w.db) { pc_configurations = w.pc_configurations ++ row ∷ [] };
}

unfoldable pub revoke_credentials : (now pc_id : ℕ) → World → World
revoke_credentials now pc_id w = record w {
  db = record (w.db) {
    device_credentials =
        update_where (λ c. c.pc_id == pc_id) (λ c. record c { revoked_at = some now })
          w.device_credentials;
  };
}

-- A plain insert: the machine is the primary key.
unfoldable pub insert_credential : CredentialRow → M (Unit {0})
insert_credential row = do
  rows ← gets (λ w. w.device_credentials)
  check (not (any (λ c. c.pc_id == row.pc_id) rows)) (problem 500 internal)
  modify (λ w. record w {
    db = record (w.db) { device_credentials = w.device_credentials ++ row ∷ [] };
  })

unfoldable pub insert_enrollment_token : EnrollmentTokenRow → World → World
insert_enrollment_token row w = record w {
  db = record (w.db) { cafe_enrollment_tokens = w.cafe_enrollment_tokens ++ row ∷ [] };
}

module _ (s : Services) where
  open s use {Token, sha256_hex}

  -- The answer is the token, which is random.
  unfoldable pub handle_enroll_token : Token → UserClaims → (label : Option String) → M Token
  unfolding insert_enrollment_token write_audit plain_audit
  handle_enroll_token plaintext user label = do
    modify (
        insert_enrollment_token (record {
          cafe_id = user.cafe_id;
          label = get_or label "rollout";
          token_hash = sha256_hex plaintext;
          active = true;
        }))
    modify (
        write_audit
          (record (plain_audit user.cafe_id ActorType.user user.sub "ENROLL_TOKEN_CREATED" none) {
            actor_role = some user.role;
          }))
    pure plaintext

  -- The row of a new machine, under the key that the database makes.
  unfoldable pub enroll_new : (new_id cafe_id : ℕ) → EnrollInput Token → M ℕ
  unfolding insert_pc insert_configuration
  enroll_new new_id cafe_id input = do
    pcs ← gets (λ w. w.pcs)
    name ←
        require (problem 500 internal) (free_name (taken_names cafe_id pcs) (trim input.hostname))
    insert_pc (record {
      id = new_id;
      cafe_id = cafe_id;
      name = name;
      tier_id = none;
      status = PcStatus.online;
      hardware_fingerprint = some input.hardware_fingerprint;
      agent_version = some input.agent_version;
      last_heartbeat_at = none;
    })
    modify (insert_configuration (record { pc_id = new_id; version = 1; config = 0 }))
    pure new_id

  unfoldable pub enroll_known : (cafe_id pc_id : ℕ) → EnrollInput Token → M ℕ
  unfolding rename_pc
  enroll_known cafe_id pc_id input = do
    rename_pc pc_id cafe_id (trim input.hostname) input.agent_version
    pure pc_id

  abbrev pub known_pc : (cafe_id fingerprint : ℕ) → List PcRow → Option PcRow
  known_pc cafe_id fingerprint pcs =
      find? (λ p. p.cafe_id == cafe_id && opt_eq p.hardware_fingerprint (some fingerprint)) pcs

  unfoldable pub enrolled_pc : (new_id cafe_id : ℕ) → EnrollInput Token → Option PcRow → M ℕ
  unfolding enroll_new enroll_known
  enrolled_pc new_id cafe_id input none = enroll_new new_id cafe_id input
  enrolled_pc new_id cafe_id input (some p) = enroll_known cafe_id p.id input

  unfoldable pub give_credential : (now pc_id : ℕ) → Token → M (Unit {0})
  unfolding revoke_credentials insert_credential
  give_credential now pc_id device_token = do
    modify (revoke_credentials now pc_id)
    insert_credential (credential now pc_id (sha256_hex device_token))

  -- The configuration's version in the answer is always 0.
  unfoldable pub handle_device_enroll :
      (now new_id : ℕ) → Token → EnrollInput Token → M (PairDeviceResponse Token)
  unfolding enrolled_pc give_credential write_audit plain_audit
  handle_device_enroll now new_id device_token input = do
    tokens ← gets (λ w. w.cafe_enrollment_tokens)
    token ←
        require (problem 401 invalid_enroll_token)
          (find? (λ t. t.token_hash == sha256_hex input.enroll_token && t.active) tokens)
    pcs ← gets (λ w. w.pcs)
    pc_id ←
        enrolled_pc new_id token.cafe_id input
          (known_pc token.cafe_id input.hardware_fingerprint pcs)
    give_credential now pc_id device_token
    modify
        (write_audit (plain_audit token.cafe_id ActorType.pc pc_id "DEVICE_ENROLLED" (some pc_id)))
    pure (record { pc_id = pc_id; device_token = device_token; config_version = 0 })
