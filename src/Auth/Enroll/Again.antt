-- ===== src/Auth/Enroll/Again.antt =====
-- A second enrolment of a machine by apps/server/src/modules/auth/handlers.ts.
use gaming_cafe_management.Prelude.{
  ℕ, ◌≡◌, refl, inl, inr, true, false, not, ◌&&◌, Bool, List, [], ◌∷◌, Option, some, All, ◌==◌,
  find?, any, is_some, update_where, Bool-cases,
}
use gaming_cafe_management.Prelude.Texts.{trim}
use gaming_cafe_management.Pcs.Rows.{name_clashes}
use gaming_cafe_management.Auth.Services.{Services}
use gaming_cafe_management.Auth.Enroll.{EnrollInput, handle_device_enroll, known_pc}
use gaming_cafe_management.Shared.{problem, internal}
use gaming_cafe_management.World.Action.{err}
use gaming_cafe_management.World.Devices.{CredentialRow, EnrollmentTokenRow}
use gaming_cafe_management.World.Tables.{PcRow}
use gaming_cafe_management.World.{World}

abbrev revoked : (now pc_id : ℕ) → List CredentialRow → List CredentialRow
revoked now pc_id cs =
    update_where (λ c. c.pc_id == pc_id) (λ c. record c { revoked_at = some now }) cs

-- A credential of the machine that is not revoked.
abbrev pub is_live : (pc_id : ℕ) → CredentialRow → Bool
is_live pc_id c = c.pc_id == pc_id && not (is_some c.revoked_at)

revoked-live :
    (now pc_id : ℕ) (cs : List CredentialRow)
    → All (λ c. is_live pc_id c ≡ false) (revoked now pc_id cs)
revoked-live now pc_id [] = tt
revoked-live now pc_id (c ∷ cs) = elim (Bool-cases (c.pc_id == pc_id)) [
  | inl own ↦ rw own (rw own refl, revoked-live now pc_id cs)
  | inr other ↦ rw other (rw other refl, revoked-live now pc_id cs)
]

revoked-any :
    (now pc_id : ℕ) (cs : List CredentialRow)
    → any (λ c. c.pc_id == pc_id) (revoked now pc_id cs) ≡ any (λ c. c.pc_id == pc_id) cs
revoked-any now pc_id [] = refl
revoked-any now pc_id (c ∷ cs) = elim (Bool-cases (c.pc_id == pc_id)) [
  | inl own ↦ rw (own, own) refl
  | inr other ↦ rw (other, other, revoked-any now pc_id cs) refl
]

module _ (s : Services) where
  open s use {Token, sha256_hex}

  abbrev pub enroll_token : EnrollInput Token → World → Option EnrollmentTokenRow
  enroll_token input w =
      find? (λ t. t.token_hash == sha256_hex input.enroll_token && t.active)
        w.cafe_enrollment_tokens

  -- Where a machine that the café knows by its fingerprint, and that has a credential, enrols again
  -- with an active token of the café and a name that no other machine there has: the answer is 500,
  -- and in the end the machine has no credential that is not revoked.
  pub handle_device_enroll-known :
      (now new_id : ℕ) (device_token : Token) (input : EnrollInput Token) (w : World)
      (t : EnrollmentTokenRow) (p : PcRow)
      → enroll_token input w ≡ some t
      → known_pc s t.cafe_id input.hardware_fingerprint w.pcs ≡ some p
      → name_clashes p.id t.cafe_id (trim input.hostname) w.pcs ≡ false
      → any (λ c. c.pc_id == p.id) w.device_credentials ≡ true
      → let r = handle_device_enroll s now new_id device_token input w in
        (r.0 ≡ err (problem 500 internal))
        × All (λ c. is_live p.id c ≡ false) r.1.device_credentials
  unfolding handle_device_enroll
  handle_device_enroll-known now new_id device_token input w t p token known fresh has =
      let again = revoked-any now p.id w.device_credentials in
      let live = revoked-live now p.id w.device_credentials in
      (rw (token, known, fresh, again, has) refl, rw (token, known, fresh, again, has) live)
