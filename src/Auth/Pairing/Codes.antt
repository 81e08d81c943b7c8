-- ===== src/Auth/Pairing/Codes.antt =====
-- Pairing codes and credentials before and after a pairing of
-- apps/server/src/modules/auth/handlers.ts.
use gaming_cafe_management.Prelude.{
  ℕ, ◌≡◌, refl, ap, ◌∙◌, inl, inr, true, false, List, [], ◌∷◌, Option, none, some, All, arith, ◌==◌,
  ==_refl, find?, update_where, map, Bool-cases, Option-cases,
}
use mathlib.Core.Path.{subst}
use mathlib.Core.Option.{some-injective}
use gaming_cafe_management.Prelude.Texts.{text_eq, text_eq_sym, text_eq→≡}
use gaming_cafe_management.Prelude.Pigeonhole.{has, Distinct}
use gaming_cafe_management.Prelude.Rows.{find-true}
use gaming_cafe_management.Auth.Guards.{pc_of_hash}
use gaming_cafe_management.Auth.Pairing.{
  PairDeviceInput, open_code, is_open_code, upsert_row, credential,
}
use gaming_cafe_management.World.Devices.{CredentialRow, PairingCodeRow}
use gaming_cafe_management.World.Tables.{PcRow}

-- No credential has the hash.
abbrev pub Unhashed : ℕ → List CredentialRow → Type 0
Unhashed h cs = All (λ c. (c.token_hash == h) ≡ false) cs

-- The machine with a key.
abbrev pub pc_with : ℕ → List PcRow → Option PcRow
pc_with id pcs = find? (λ p. p.id == id) pcs

pub pc_of_hash-upsert :
    (now pc_id h : ℕ) (cs : List CredentialRow) (pcs : List PcRow) (p : PcRow)
    → Unhashed h cs
    → pc_with pc_id pcs ≡ some p
    → pc_of_hash h (upsert_row (credential now pc_id h) cs) pcs ≡ some p
pc_of_hash-upsert now pc_id h [] pcs p u found = ground (arith, ==_refl h)
pc_of_hash-upsert now pc_id h (c ∷ cs) pcs p (ne, u) found = elim (Bool-cases (c.pc_id == pc_id)) [
  | inl same ↦ ground (arith, ==_refl h)
  | inr other ↦ let rest = pc_of_hash-upsert now pc_id h cs pcs p u found in ground arith
]

-- An open code's machine is in the table.
pub open_code-pc :
    (now : ℕ) (code : List ℕ) (cs : List PairingCodeRow) (pcs : List PcRow)
    (row : PairingCodeRow × PcRow)
    → open_code now code cs pcs ≡ some row
    → pc_with row.1.id pcs ≡ some row.1
open_code-pc now code [] pcs row h = absurd (ground arith)
open_code-pc now code (c ∷ cs) pcs row h = elim (Bool-cases (is_open_code now code c)) [
  | inr closed ↦ open_code-pc now code cs pcs row (ground arith)
  | inl good ↦ elim (Option-cases (pc_with c.pc_id pcs)) [
    | inl missing ↦ open_code-pc now code cs pcs row (ground arith)
    | inr (p, found) ↦
        let e : ◌≡◌ {A = Option (PairingCodeRow × PcRow)} (some (c, p)) (some row) = ground arith in
        let given = some-injective (c, p) row e in
        let named = find-true (λ q. q.id == c.pc_id) pcs p found in
        let same : c.pc_id ≡ p.id = ground arith in
        subst (λ r. pc_with r.1.id pcs ≡ some r.1) given
          (subst (λ n. pc_with n pcs ≡ some p) same found)
  ]
]

abbrev pub codes : List PairingCodeRow → List (List ℕ)
codes cs = map (λ c. c.code) cs

abbrev pub mark_used : (now id : ℕ) → List PairingCodeRow → List PairingCodeRow
mark_used now id cs = update_where (λ c. c.id == id) (λ c. record c { used_at = some now }) cs

open_code-has :
    (now : ℕ) (code : List ℕ) (cs : List PairingCodeRow) (pcs : List PcRow)
    (row : PairingCodeRow × PcRow)
    → open_code now code cs pcs ≡ some row
    → has text_eq code (codes cs) ≡ true
open_code-has now code [] pcs row h = absurd (ground arith)
open_code-has now code (c ∷ cs) pcs row h = elim (Bool-cases (text_eq c.code code)) [
  | inl same ↦ rw (text_eq_sym code c.code, same) refl
  | inr other ↦ let rest = open_code-has now code cs pcs row (ground arith) in ground arith
]

-- A text that no row has opens nothing, also after a use of another code.
open_code-absent :
    (now later id : ℕ) (code : List ℕ) (cs : List PairingCodeRow) (pcs : List PcRow)
    → has text_eq code (codes cs) ≡ false
    → open_code later code (mark_used now id cs) pcs ≡ none
open_code-absent now later id code [] pcs h = refl
open_code-absent now later id code (c ∷ cs) pcs h =
    let rest = open_code-absent now later id code cs pcs (ground arith) in
    let other : text_eq c.code code ≡ false = text_eq_sym c.code code ∙ ground arith in ground arith

pub open_code-used :
    (now later : ℕ) (code : List ℕ) (cs : List PairingCodeRow) (before after : List PcRow)
    (row : PairingCodeRow × PcRow)
    → Distinct text_eq (codes cs)
    → open_code now code cs before ≡ some row
    → open_code later code (mark_used now row.0.id cs) after ≡ none
open_code-used now later code [] before after row d h = refl
open_code-used now later code (c ∷ cs) before after row (fresh, d) h =
    elim (Bool-cases (text_eq c.code code)) [
      | inr other ↦
          let rest = open_code-used now later code cs before after row d (ground arith) in
          ground arith
      | inl same ↦
          let gone : has text_eq code (codes cs) ≡ false =
            subst (λ t. has text_eq t (codes cs) ≡ false) (text_eq→≡ c.code code same) fresh in
          let tail = open_code-absent now later row.0.id code cs after gone in
          elim (Option-cases (open_code now code cs before)) [
            | inr (r, found) ↦
                absurd (let there = open_code-has now code cs before r found in ground arith)
            | inl nothing ↦ elim (Option-cases (pc_with c.pc_id before)) [
              | inl missing ↦ absurd (ground arith)
              | inr (p, found) ↦
                  let e : ◌≡◌ {A = Option (PairingCodeRow × PcRow)} (some (c, p)) (some row) =
                    ground arith in
                  let id : c.id ≡ row.0.id = ap (λ r. r.0.id) (some-injective (c, p) row e) in
                  ground arith
            ]
          ]
    ]

pub pc_with-update :
    (id : ℕ) (f : PcRow → PcRow) (pcs : List PcRow) (p : PcRow)
    → ((q : PcRow) → (f q).id ≡ q.id)
    → pc_with id pcs ≡ some p
    → pc_with id (update_where (λ q. q.id == id) f pcs) ≡ some (f p)
pc_with-update id f [] p keep h = absurd (ground arith)
pc_with-update id f (q ∷ pcs) p keep h = elim (Bool-cases (q.id == id)) [
  | inl here ↦
      let same : q ≡ p = ground arith in
      let kept : ((f q).id == id) ≡ true = ap (λ n. n == id) (keep q) ∙ here in
      rw (here, kept) (ap (λ r. some (f r)) same)
  | inr other ↦ rw (other, other) (pc_with-update id f pcs p keep (ground arith))
]

abbrev pub reported : PairDeviceInput → PcRow → PcRow
reported input p = record p {
  hardware_fingerprint = some input.hardware_fingerprint;
  agent_version = some input.agent_version;
}
