-- ===== src/Games/Deployments/Counting.antt =====
-- The count by which apps/server/src/modules/games/deployment.ts checks that all the machines it is
-- given are the café's.
use gaming_cafe_management.Prelude.{
  ℕ, ◌≡◌, refl, ap, ◌∙◌, inl, inr, true, false, ◌&&◌, Bool, List, [], ◌∷◌, suc, All, arith, ◌==◌,
  ==_refl, any, filter, mem, length, Bool-cases,
}
use gaming_cafe_management.Prelude.Pigeonhole.{has, Distinct, AllIn, Distinct-full}
use gaming_cafe_management.Prelude.Rows.{UniqueKeys, keys}
use gaming_cafe_management.World.Tables.{PcRow}
use gaming_cafe_management.Games.Deployments.{distinct_from}

pub ==_sound : (a b : ℕ) → (a == b) ≡ true → a ≡ b
==_sound a b h = ground arith

pub ==_sym : (a b : ℕ) → (a == b) ≡ (b == a)
==_sym a b = ground arith

distinct_from-fresh :
    (id : ℕ) (seen ids : List ℕ) → mem id seen ≡ true → has ◌==◌ id (distinct_from seen ids) ≡ false
distinct_from-fresh id seen [] h = refl
distinct_from-fresh id seen (x ∷ ids) h = elim (Bool-cases (mem x seen)) [
  | inl old ↦ rw old (distinct_from-fresh id seen ids h)
  | inr new ↦
      let rest = distinct_from-fresh id (x ∷ seen) ids (ground arith) in
      let apart : (id == x) ≡ false = elim (Bool-cases (id == x)) [
        | inr ne ↦ ne
        | inl same ↦ absurd (let e : id ≡ x = ==_sound id x same in ground arith)
      ] in
      rw (new, apart) rest
]

pub distinct_from-Distinct : (seen ids : List ℕ) → Distinct ◌==◌ (distinct_from seen ids)
distinct_from-Distinct seen [] = tt
distinct_from-Distinct seen (x ∷ ids) = elim (Bool-cases (mem x seen)) [
  | inl old ↦ rw old (distinct_from-Distinct seen ids)
  | inr new ↦
      let here : mem x (x ∷ seen) ≡ true = rw (==_refl x) refl in
      rw new (distinct_from-fresh x (x ∷ seen) ids here, distinct_from-Distinct (x ∷ seen) ids)
]

-- A machine of the café that the list names.
abbrev pub is_target : (cafe_id : ℕ) → List ℕ → PcRow → Bool
is_target cafe_id ids p = mem p.id ids && p.cafe_id == cafe_id

abbrev target_ids : (cafe_id : ℕ) → List ℕ → List PcRow → List ℕ
target_ids cafe_id ids pcs = keys (λ p. p.id) (filter (is_target cafe_id ids) pcs)

abbrev pub in_cafe : (cafe_id : ℕ) → List PcRow → (id : ℕ) → Bool
in_cafe cafe_id pcs id = any (λ p. p.id == id && p.cafe_id == cafe_id) pcs

target_ids-length :
    (cafe_id : ℕ) (ids : List ℕ) (pcs : List PcRow)
    → length (target_ids cafe_id ids pcs) ≡ length (filter (is_target cafe_id ids) pcs)
target_ids-length cafe_id ids [] = refl
target_ids-length cafe_id ids (p ∷ pcs) = elim (Bool-cases (is_target cafe_id ids p)) [
  | inl hit ↦ rw hit (ap suc (target_ids-length cafe_id ids pcs))
  | inr miss ↦ rw miss (target_ids-length cafe_id ids pcs)
]

target_ids-has :
    (cafe_id id : ℕ) (ids : List ℕ) (pcs : List PcRow)
    → has ◌==◌ id (target_ids cafe_id ids pcs) ≡ true
    → (in_cafe cafe_id pcs id ≡ true) × (has ◌==◌ id (keys (λ p. p.id) pcs) ≡ true)
target_ids-has cafe_id id ids [] h = absurd (ground arith)
target_ids-has cafe_id id ids (p ∷ pcs) h = elim (Bool-cases (is_target cafe_id ids p)) [
  | inr miss ↦
      let rest = target_ids-has cafe_id id ids pcs (ground arith) in (ground arith, ground arith)
  | inl hit ↦ elim (Bool-cases (id == p.id)) [
    | inl here ↦ (ground arith, ground arith)
    | inr later ↦
        let rest = target_ids-has cafe_id id ids pcs (ground arith) in (ground arith, ground arith)
  ]
]

target_ids-Distinct :
    (cafe_id : ℕ) (ids : List ℕ) (pcs : List PcRow)
    → UniqueKeys (λ p. p.id) pcs
    → Distinct ◌==◌ (target_ids cafe_id ids pcs)
target_ids-Distinct cafe_id ids [] u = tt
target_ids-Distinct cafe_id ids (p ∷ pcs) (fresh, u) = elim (Bool-cases (is_target cafe_id ids p)) [
  | inr miss ↦ rw miss (target_ids-Distinct cafe_id ids pcs u)
  | inl hit ↦ elim (Bool-cases (has ◌==◌ p.id (target_ids cafe_id ids pcs))) [
    | inr new ↦ rw hit (new, target_ids-Distinct cafe_id ids pcs u)
    | inl old ↦ absurd (let k = (target_ids-has cafe_id p.id ids pcs old).1 in ground arith)
  ]
]

has-mem : (id : ℕ) (ids : List ℕ) → has ◌==◌ id ids ≡ mem id ids
has-mem id [] = refl
has-mem id (x ∷ ids) = rw (has-mem id ids) refl

target_ids-AllIn :
    (cafe_id : ℕ) (ids : List ℕ) (pcs : List PcRow) → AllIn ◌==◌ ids (target_ids cafe_id ids pcs)
target_ids-AllIn cafe_id ids [] = tt
target_ids-AllIn cafe_id ids (p ∷ pcs) = elim (Bool-cases (is_target cafe_id ids p)) [
  | inr miss ↦ rw miss (target_ids-AllIn cafe_id ids pcs)
  | inl hit ↦ rw hit (has-mem p.id ids ∙ ground arith, target_ids-AllIn cafe_id ids pcs)
]

-- The count is right only when each of the machines is of the café.
pub counted-in_cafe :
    (cafe_id : ℕ) (ids : List ℕ) (pcs : List PcRow) (id : ℕ)
    → Distinct ◌==◌ ids
    → UniqueKeys (λ p. p.id) pcs
    → (length (filter (is_target cafe_id ids) pcs) == length ids) ≡ true
    → has ◌==◌ id ids ≡ true
    → in_cafe cafe_id pcs id ≡ true
counted-in_cafe cafe_id ids pcs id d u count here =
    (target_ids-has cafe_id id ids pcs (
      Distinct-full ◌==◌ ==_sound id (target_ids cafe_id ids pcs) ids ==_sym
        (target_ids-Distinct cafe_id ids pcs u) (target_ids-AllIn cafe_id ids pcs)
        (target_ids-length cafe_id ids pcs ∙ ==_sound _ _ count) here)).0

pub All-in_cafe :
    (cafe_id : ℕ) (pcs : List PcRow) (ids : List ℕ)
    → ((id : ℕ) → has ◌==◌ id ids ≡ true → in_cafe cafe_id pcs id ≡ true)
    → All (λ id. in_cafe cafe_id pcs id ≡ true) ids
All-in_cafe cafe_id pcs [] h = tt
All-in_cafe cafe_id pcs (x ∷ ids) h =
    (h x (rw (==_refl x) refl), All-in_cafe cafe_id pcs ids (λ id k. h id (ground arith)))
