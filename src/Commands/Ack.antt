-- ===== src/Commands/Ack.antt =====
-- Commands that are acknowledged again, and dangerous ones.
use gaming_cafe_management.Prelude.{
  ℕ, ◌≡◌, ◌≢◌, refl, sym, inl, inr, true, false, List, [], ◌∷◌, Option, none, some, arith, ◌==◌,
  find?, update_where, Bool-cases, Option-cases,
}
use mathlib.Core.Path.{subst}
use gaming_cafe_management.Auth.{DevicePrincipal}
use gaming_cafe_management.World.Tables.{CommandRow}
use gaming_cafe_management.World.{World}
use gaming_cafe_management.World.Action.{Result, ok}
use gaming_cafe_management.Commands.{
  AckStatus, applied, failed, acked_command, is_open, handle_command_ack, acknowledge,
}

find-update :
    (id : ℕ) (f : CommandRow → CommandRow) (rows : List CommandRow) (c : CommandRow)
    → ((r : CommandRow) → (f r).id ≡ r.id)
    → find? (λ r. r.id == id) rows ≡ some c
    → find? (λ r. r.id == id) (update_where (λ r. r.id == id) f rows) ≡ some (f c)
find-update id f [] c keep h = cc
find-update id f (x ∷ xs) c keep h = ground (arith, keep x, find-update id f xs c keep)

found-id :
    (id : ℕ) (rows : List CommandRow) (c : CommandRow)
    → find? (λ r. r.id == id) rows ≡ some c
    → c.id ≡ id
found-id id [] c h = ground arith
found-id id (x ∷ xs) c h = ground (arith, found-id id xs c)

abbrev command_by_id : ℕ → World → Option CommandRow
command_by_id id w = find? (λ c. c.id == id) w.pc_commands

module _ (now : ℕ) (device : DevicePrincipal) (id : ℕ) (status : AckStatus) (w : World) where
  abbrev ack : Result CommandRow × World
  ack = handle_command_ack now device id status w

  absent_lem : (c : CommandRow) → command_by_id id w ≡ none → ack.0 ≢ ok c
  unfolding handle_command_ack
  absent_lem c absent h = ground arith

  other_lem :
      (c cmd : CommandRow)
      → command_by_id id w ≡ some cmd
      → (cmd.pc_id == device.pc_id) ≡ false
      → ack.0 ≢ ok c
  unfolding handle_command_ack
  other_lem c cmd found other h = ground arith

  closed_lem :
      (cmd : CommandRow)
      → command_by_id id w ≡ some cmd
      → (cmd.pc_id == device.pc_id) ≡ true
      → is_open cmd.status ≡ false
      → ack ≡ (ok cmd, w)
  unfolding handle_command_ack
  closed_lem cmd found mine closed = rw (found, mine, closed) refl

  open_lem :
      (cmd : CommandRow)
      → command_by_id id w ≡ some cmd
      → (cmd.pc_id == device.pc_id) ≡ true
      → is_open cmd.status ≡ true
      → ack ≡ acknowledge now device status cmd w
  unfolding handle_command_ack
  open_lem cmd found mine still = rw (found, mine, still) refl

acked-id :
    (now : ℕ) (status : AckStatus) (cmd r : CommandRow) → (acked_command now status cmd r).id ≡ r.id
unfolding acked_command
acked-id now status cmd r = refl

module _ (now : ℕ) (device : DevicePrincipal) (status : AckStatus) (cmd : CommandRow) (w : World)
    (found : command_by_id cmd.id w ≡ some cmd) where
  abbrev next : World
  next = (acknowledge now device status cmd w).1

  acknowledged : command_by_id cmd.id next ≡ some (acked_command now status cmd cmd)
  unfolding acknowledge
  acknowledged =
      let again =
        find-update cmd.id (acked_command now status cmd) w.pc_commands cmd
          (acked-id now status cmd) found in
      ground arith

  acknowledged_result :
      (acknowledge now device status cmd w).0 ≡ ok (acked_command now status cmd cmd)
  unfolding acknowledge
  acknowledged_result =
      let again =
        find-update cmd.id (acked_command now status cmd) w.pc_commands cmd
          (acked-id now status cmd) found in
      ground arith

acked-closed :
    (now : ℕ) (status : AckStatus) (cmd : CommandRow)
    → is_open (acked_command now status cmd cmd).status ≡ false
unfolding acked_command
acked-closed now applied cmd = refl
acked-closed now failed cmd = refl

acked-pc :
    (now : ℕ) (status : AckStatus) (cmd : CommandRow)
    → (acked_command now status cmd cmd).pc_id ≡ cmd.pc_id
unfolding acked_command
acked-pc now status cmd = refl

-- A command whose acknowledgement was answered is not acknowledged again: a further one, at any time
-- and with either status, is answered with the row of the first answer, and nothing changes.
pub handle_command_ack-twice :
    (now later : ℕ) (device : DevicePrincipal) (id : ℕ) (first second : AckStatus) (c : CommandRow)
    (w : World)
    → let r = handle_command_ack now device id first w in
      r.0 ≡ ok c → handle_command_ack later device id second r.1 ≡ (ok c, r.1)
handle_command_ack-twice now later device id first second c w h =
    elim (Option-cases (command_by_id id w)) [
      | inl absent ↦ absurd (absent_lem now device id first w c absent h)
      | inr (cmd, found) ↦ elim (Bool-cases (cmd.pc_id == device.pc_id)) [
        | inr other ↦ absurd (other_lem now device id first w c cmd found other h)
        | inl mine ↦ elim (Bool-cases (is_open cmd.status)) [
          | inr closed ↦
              let a = closed_lem now device id first w cmd found mine closed in
              let b = closed_lem later device id second w cmd found mine closed in cc
          | inl still ↦
              let same = found-id id w.pc_commands cmd found in
              let at : command_by_id cmd.id w ≡ some cmd =
                subst (λ i. command_by_id i w ≡ some cmd) (sym same) found in
              let a = open_lem now device id first w cmd found mine still in
              let answer = acknowledged_result now device first cmd w at in
              let there = acknowledged now device first cmd w at in
              let row = acked_command now first cmd cmd in
              let after = (acknowledge now device first cmd w).1 in
              let b =
                closed_lem later device id second after row
                  (subst (λ i. command_by_id i after ≡ some row) same there)
                  (rw (acked-pc now first cmd) mine) (acked-closed now first cmd) in
              cc
        ]
      ]
    ]
