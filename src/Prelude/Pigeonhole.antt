-- ===== src/Prelude/Pigeonhole.antt =====
-- Lists without repetition, by a Boolean equality: one whose elements all stand in another list is
-- not longer than it.
use Prim.Native.Nat.{suc, ◌≤◌}
use mathlib.Core.Path.{◌≡◌, refl, ap, subst}
use mathlib.Core.Logic.{inl, inr}
use mathlib.Core.Bool.{Bool, true, false}
use mathlib.Core.List.{List, [], ◌∷◌}
use native.Mathlib.Omega.{arith}
use gaming_cafe_management.Prelude.Tests.{if◌then◌else◌, Bool-cases}
use gaming_cafe_management.Prelude.Lists.{length, All, any}

module _ {A : Type 0} (eq : A → A → Bool) where
  abbrev pub has : A → List A → Bool
  has a xs = any (eq a) xs

  abbrev pub Distinct : List A → Type 0
  Distinct [] = Unit
  Distinct (x ∷ xs) = (has x xs ≡ false) × Distinct xs

  -- The list less the first element that is equal to `a`.
  abbrev remove : A → List A → List A
  remove a [] = []
  remove a (x ∷ xs) = let rest = remove a xs in if eq a x then xs else x ∷ rest

  abbrev pub AllIn : List A → List A → Type 0
  AllIn ys xs = All (λ x. has x ys ≡ true) xs

module _ {A : Type 0} (eq : A → A → Bool) (sound : (a b : A) → eq a b ≡ true → a ≡ b) where
  length-remove :
      (a : A) (xs : List A) → has eq a xs ≡ true → suc (length (remove eq a xs)) ≡ length xs
  length-remove a [] h = absurd (ground arith)
  length-remove a (x ∷ xs) h = elim (Bool-cases (eq a x)) [
    | inl here ↦ rw here refl
    | inr other ↦ rw other (ap suc (length-remove a xs (ground arith)))
  ]

  has-remove :
      (a b : A) (xs : List A)
      → eq b a ≡ false
      → has eq b xs ≡ true
      → has eq b (remove eq a xs) ≡ true
  has-remove a b [] ne h = h
  has-remove a b (x ∷ xs) ne h = elim (Bool-cases (eq a x)) [
    | inl here ↦
        let same : a ≡ x = sound a x here in
        let apart : eq b x ≡ false = subst (λ y. eq b y ≡ false) same ne in rw here (ground arith)
    | inr other ↦ rw other (elim (Bool-cases (eq b x)) [
      | inl first ↦ rw first refl
      | inr later ↦ rw later (has-remove a b xs ne (ground arith))
    ])
  ]

  -- What stands in `ys` and is not `x` stands in `ys` less `x`.
  AllIn-remove :
      (x : A) (xs ys : List A)
      → ((a b : A) → eq a b ≡ eq b a)
      → has eq x xs ≡ false
      → AllIn eq ys xs
      → AllIn eq (remove eq x ys) xs
  AllIn-remove x [] ys flip fresh h = tt
  AllIn-remove x (a ∷ xs) ys flip fresh (h, hs) =
      let apart : eq a x ≡ false = ground (arith, flip a x) in
      (has-remove x a ys apart h, AllIn-remove x xs ys flip (ground arith) hs)

  pub Distinct-length :
      (xs ys : List A)
      → ((a b : A) → eq a b ≡ eq b a)
      → Distinct eq xs
      → AllIn eq ys xs
      → length xs ≤ length ys
  Distinct-length [] ys flip d h = omega arith
  Distinct-length (x ∷ xs) ys flip (fresh, d) (h, hs) = omega (
    arith,
    length-remove x ys h,
    Distinct-length xs (remove eq x ys) flip d (AllIn-remove x xs ys flip fresh hs),
  )

  -- A list with no repetition, of as many elements as another that they all stand in, has all the
  -- other's elements.
  pub Distinct-full :
      (x : A) (xs ys : List A)
      → ((a b : A) → eq a b ≡ eq b a)
      → Distinct eq xs
      → AllIn eq ys xs
      → length xs ≡ length ys
      → has eq x ys ≡ true
      → has eq x xs ≡ true
  Distinct-full x xs ys flip d h same here = elim (Bool-cases (has eq x xs)) [
    | inl there ↦ there
    | inr missing ↦ absurd (
        omega (
          arith,
          same,
          length-remove x ys here,
          Distinct-length xs (remove eq x ys) flip d (AllIn-remove x xs ys flip missing h),
        ))
  ]
