-- ===== src/Auth/Pairing.antt =====
-- The handlers of apps/server/src/modules/auth/handlers.ts by which a known machine is paired: a
-- code that staff asks for, and the credential that the machine gets for it. The random texts are
-- arguments.
pub mod Codes
pub mod Once
use gaming_cafe_management.Prelude.{
  ℕ, zero, suc, ◌+◌, Bool, true, false, not, ◌&&◌, [], ◌∷◌, ◌++◌, List, Option, none, some, ◌==◌,
  ltb, max, find?, update_where, is_some, if◌then◌else◌, any, get_elem?, get_or,
}
use gaming_cafe_management.Prelude.Texts.{text_eq}
use gaming_cafe_management.Auth.{UserClaims}
use gaming_cafe_management.Auth.Services.{Services}
use gaming_cafe_management.Pcs.Rows.{update_pcs}
use gaming_cafe_management.Shared.{ActorType, problem, pc_not_found, invalid_pairing_code}
use gaming_cafe_management.World.Devices.{CredentialRow, PairingCodeRow, PcConfigurationRow}
use gaming_cafe_management.World.Tables.{PcRow}
use gaming_cafe_management.World.Audit.{plain_audit}
use gaming_cafe_management.World.Action.{pure, gets, modify, require, check, ◌>>=◌, ◌>>◌}
use gaming_cafe_management.World.{World, M, transaction, write_audit}

-- "ACDEFGHJKLMNPQRSTUVWXYZ23456789".
abbrev pub alphabet : List ℕ
alphabet =
    65 ∷ 67 ∷ 68 ∷ 69 ∷ 70 ∷ 71 ∷ 72 ∷ 74 ∷ 75 ∷ 76 ∷ 77 ∷ 78 ∷ 80 ∷ 81 ∷ 82 ∷ 83 ∷ 84 ∷ 85 ∷ 86
    ∷ 87 ∷ 88 ∷ 89 ∷ 90 ∷ 50 ∷ 51 ∷ 52 ∷ 53 ∷ 54 ∷ 55 ∷ 56 ∷ 57 ∷ []

-- The `n` letters at the random places, which `randomInt(alphabet.length)` keeps below the length;
-- 0 stands for a letter that is not there.
abbrev pub code_letters : (n : ℕ) → (random_int : ℕ → ℕ) → List ℕ
code_letters zero random_int = []
code_letters (suc n) random_int =
    get_or (get_elem? alphabet (random_int 0)) 0 ∷ code_letters n (λ i. random_int (suc i))

unfoldable pub generate_pairing_code : (random_int : ℕ → ℕ) → List ℕ
generate_pairing_code random_int = code_letters 6 random_int

unfoldable pub insert_pairing_code : PairingCodeRow → World → World
insert_pairing_code row w = record w {
  db = record (w.db) { pairing_codes = w.pairing_codes ++ row ∷ [] };
}

unfoldable pub handle_pairing_code :
    (now new_id : ℕ) → (random_int : ℕ → ℕ) → UserClaims → (pc_id : ℕ) → M PairingCodeRow
unfolding insert_pairing_code write_audit plain_audit
handle_pairing_code now new_id random_int user pc_id = do
  rows ← gets (λ w. w.pcs)
  pc ←
      require (problem 404 pc_not_found)
        (find? (λ p. p.id == pc_id && p.cafe_id == user.cafe_id) rows)
  let code : PairingCodeRow = record {
    id = new_id;
    pc_id = pc.id;
    code = generate_pairing_code random_int;
    expires_at = now + 900000;
    used_at = none;
  }
  modify (insert_pairing_code code)
  modify (
      write_audit
        (record (plain_audit user.cafe_id ActorType.user user.sub "PAIRING_CODE_CREATED"
          (some pc.id)) { actor_role = some user.role }))
  pure code

-- A code that is unused and not over at the database's time.
abbrev pub is_open_code : (now : ℕ) → List ℕ → PairingCodeRow → Bool
is_open_code now code c = text_eq c.code code && (not (is_some c.used_at) && ltb now c.expires_at)

-- The first open code that has a machine, with the machine.
abbrev pub open_code :
    (now : ℕ) → List ℕ → List PairingCodeRow → List PcRow → Option (PairingCodeRow × PcRow)
open_code now code [] pcs = none
open_code now code (c ∷ cs) pcs =
    let rest = open_code now code cs pcs in
    if is_open_code now code c
    then elim (find? (λ p. p.id == c.pc_id) pcs) [ none ↦ rest | some p ↦ some (c, p) ]
    else rest

unfoldable pub use_code : (now id : ℕ) → World → World
use_code now id w = record w {
  db = record (w.db) {
    pairing_codes =
        update_where (λ c. c.id == id) (λ c. record c { used_at = some now }) w.pairing_codes;
  };
}

-- `insert(deviceCredentials) … onConflictDoUpdate`: a machine has one row.
abbrev pub upsert_row : CredentialRow → List CredentialRow → List CredentialRow
upsert_row row [] = row ∷ []
upsert_row row (c ∷ cs) = if c.pc_id == row.pc_id then row ∷ cs else c ∷ upsert_row row cs

unfoldable pub upsert_credential : CredentialRow → World → World
upsert_credential row w = record w {
  db = record (w.db) { device_credentials = upsert_row row w.device_credentials };
}

-- The highest version of a machine's configurations, or 0.
abbrev pub latest_version : (pc_id : ℕ) → List PcConfigurationRow → ℕ
latest_version pc_id [] = 0
latest_version pc_id (c ∷ cs) =
    let rest = latest_version pc_id cs in if c.pc_id == pc_id then max c.version rest else rest

pub record PairDeviceInput : Type 0 where
  pub pairing_code : List ℕ
  pub hardware_fingerprint : ℕ
  pub agent_version : ℕ

-- The answer, less the time.
pub record PairDeviceResponse (Token : Type 0) : Type 0 where
  pub pc_id : ℕ
  pub device_token : Token
  pub config_version : ℕ

abbrev pub credential : (now pc_id token_hash : ℕ) → CredentialRow
credential now pc_id token_hash = record {
  pc_id = pc_id;
  token_hash = token_hash;
  paired_at = now;
  revoked_at = none;
}

module _ (s : Services) where
  open s use {Token, sha256_hex}

  unfoldable pub pair_in_tx : (now : ℕ) → Token → PairDeviceInput → M (PcRow × ℕ)
  unfolding use_code upsert_credential update_pcs
  pair_in_tx now device_token input = do
    found ← gets (λ w. open_code now input.pairing_code w.pairing_codes w.pcs)
    row ← require (problem 401 invalid_pairing_code) found
    modify (use_code now row.0.id)
    modify (upsert_credential (credential now row.1.id (sha256_hex device_token)))
    modify (
        update_pcs (λ p. p.id == row.1.id)
          (λ p. record p {
            hardware_fingerprint = some input.hardware_fingerprint;
            agent_version = some input.agent_version;
          }))
    versions ← gets (λ w. w.pc_configurations)
    pure (row.1, latest_version row.1.id versions)

  unfoldable pub handle_device_pair :
      (now : ℕ) → Token → PairDeviceInput → M (PairDeviceResponse Token)
  unfolding pair_in_tx write_audit plain_audit
  handle_device_pair now device_token input = do
    result ← transaction (pair_in_tx now device_token input)
    modify (
        write_audit (
          plain_audit result.0.cafe_id ActorType.pc result.0.id "DEVICE_PAIRED" (some result.0.id)))
    pure (record { pc_id = result.0.id; device_token = device_token; config_version = result.1 })
