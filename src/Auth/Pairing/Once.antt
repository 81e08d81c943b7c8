-- ===== src/Auth/Pairing/Once.antt =====
-- A pairing of apps/server/src/modules/auth/handlers.ts and the guards of
-- apps/server/src/auth/guards.ts.
use gaming_cafe_management.Prelude.{
  ℕ, ◌≡◌, refl, sym, inl, inr, false, none, some, arith, ◌==◌, ==_refl, update_where, map,
  Option-cases,
}
use gaming_cafe_management.Prelude.Texts.{text_eq}
use gaming_cafe_management.Prelude.Pigeonhole.{Distinct}
use gaming_cafe_management.Auth.{DevicePrincipal}
use gaming_cafe_management.Auth.Services.{Services}
use gaming_cafe_management.Auth.Guards.{
  Credentials, bearer, require_device, principal_of, pc_of_hash,
}
use gaming_cafe_management.Auth.Pairing.{
  PairDeviceInput, PairDeviceResponse, handle_device_pair, open_code, upsert_row, credential,
}
use gaming_cafe_management.Auth.Pairing.Codes.{
  Unhashed, pc_with, mark_used, reported, pc_of_hash-upsert, open_code-pc, open_code-used,
  pc_with-update,
}
use gaming_cafe_management.Shared.{problem, invalid_pairing_code}
use gaming_cafe_management.World.Action.{ok, err}
use gaming_cafe_management.World.Devices.{PairingCodeRow}
use gaming_cafe_management.World.Tables.{PcRow}
use gaming_cafe_management.World.{World}

module _ (s : Services) where
  open s use {Token, sha256_hex, is_empty}

  paired :
      (now : ℕ) (token : Token) (input : PairDeviceInput) (w after : World)
      (r : PairDeviceResponse Token)
      → handle_device_pair s now token input w ≡ (ok r, after)
      → (row : PairingCodeRow × PcRow) × (open_code now input.pairing_code w.pairing_codes w.pcs
          ≡ some row)
        × (r.pc_id ≡ row.1.id)
        × (r.device_token ≡ token)
        × (after.device_credentials
            ≡ upsert_row (credential now row.1.id (sha256_hex token)) w.device_credentials)
        × (after.pcs ≡ update_where (λ p. p.id == row.1.id) (reported input) w.pcs)
        × (after.pairing_codes ≡ mark_used now row.0.id w.pairing_codes)
  unfolding handle_device_pair
  paired now token input w after r h =
      elim (Option-cases (open_code now input.pairing_code w.pairing_codes w.pcs)) [
        | inl missing ↦ absurd (ground arith)
        | inr (row, found) ↦
            (row, found, ground arith, ground arith, ground arith, ground arith, ground arith)
      ]

  -- A machine's request: the token in the header, and its key in `x-pc-id`.
  abbrev pub device_request : Token → (pc_id : ℕ) → Credentials Token
  device_request token pc_id = record {
    authorization = bearer token;
    query_token = none;
    x_pc_id = some pc_id;
  }

  require_device-found :
      (token : Token) (p : PcRow) (w : World)
      → is_empty token ≡ false
      → pc_of_hash (sha256_hex token) w.device_credentials w.pcs ≡ some p
      → require_device s (device_request token p.id) w ≡ (ok (principal_of p), w)
  unfolding require_device
  require_device-found token p w full found = rw (full, found, ==_refl p.id) refl

  pair_refused :
      (now : ℕ) (token : Token) (input : PairDeviceInput) (w : World)
      → open_code now input.pairing_code w.pairing_codes w.pcs ≡ none
      → handle_device_pair s now token input w ≡ (err (problem 401 invalid_pairing_code), w)
  unfolding handle_device_pair
  pair_refused now token input w missing = rw missing refl

  -- Where a machine is paired, no two codes have the same text, and the new token is not empty and
  -- has a hash of its own: the token passes the machines' guard with the machine's key, as that
  -- machine; and the same code, asked for again at any time with any token, is refused with 401, and
  -- nothing changes.
  pub handle_device_pair-once :
      (now later : ℕ) (token other_token : Token) (input again : PairDeviceInput) (w after : World)
      (r : PairDeviceResponse Token)
      → Distinct text_eq (map (λ c. c.code) w.pairing_codes)
      → Unhashed (sha256_hex token) w.device_credentials
      → is_empty token ≡ false
      → handle_device_pair s now token input w ≡ (ok r, after)
      → again.pairing_code ≡ input.pairing_code
      → ((p : DevicePrincipal) × (p.pc_id ≡ r.pc_id)
          × (require_device s (device_request r.device_token r.pc_id) after ≡ (ok p, after)))
        × (handle_device_pair s later other_token again after
            ≡ (err (problem 401 invalid_pairing_code), after))
  handle_device_pair-once now later token other_token input again w after r d u full h same =
      let (row, found, pc, given, credentials, pcs, used) = paired now token input w after r h in
      let machine = open_code-pc now input.pairing_code w.pairing_codes w.pcs row found in
      let p = reported input row.1 in
      let listed : pc_with row.1.id after.pcs ≡ some p =
        rw pcs (pc_with-update row.1.id (reported input) w.pcs row.1 (λ q. refl) machine) in
      let known : pc_of_hash (sha256_hex token) after.device_credentials after.pcs ≡ some p =
        rw credentials (
          pc_of_hash-upsert now row.1.id (sha256_hex token) w.device_credentials after.pcs p u
            listed) in
      let closed : open_code later again.pairing_code after.pairing_codes after.pcs ≡ none =
        rw (same, used)
          (open_code-used now later input.pairing_code w.pairing_codes w.pcs after.pcs row d
            found) in
      (
        (principal_of p, sym pc, rw (given, pc) (require_device-found token p after full known)),
        pair_refused later other_token again after closed,
      )
