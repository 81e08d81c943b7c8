-- ===== src/Prelude/Texts.antt =====
-- Texts as lists of UTF-16 code units, with the functions of the source language that the modelled
-- code calls on them. The case and the white space are those of the Latin-1 range.
use gaming_cafe_management.Prelude.Tests.{leb, ◌==◌, if◌then◌else◌, Bool-cases}
use Prim.Native.Nat.{ℕ, zero, suc, ◌+◌, ◌-◌, ◌*◌, ◌/◌, ◌%◌, ◌<◌}
use mathlib.Core.Path.{◌≡◌, refl, ap, ◌∙◌}
use mathlib.Core.Bool.{Bool, true, false, ◌&&◌, ◌||◌}
use mathlib.Core.List.{List, [], ◌∷◌, map}
use mathlib.Core.Logic.{inl, inr}
use native.Mathlib.Omega.{arith}

abbrev pub Text : Type 0
Text = List ℕ

abbrev pub text_eq : Text → Text → Bool
text_eq [] [] = true
text_eq (a ∷ s) (b ∷ t) = a == b && text_eq s t
text_eq _ _ = false

-- The upper-case letters A to Z, À to Ö and Ø to Þ.
abbrev pub is_upper : ℕ → Bool
is_upper c = leb 65 c && leb c 90 || (leb 192 c && leb c 214 || leb 216 c && leb c 222)

abbrev pub lower_unit : ℕ → ℕ
lower_unit c = if is_upper c then c + 32 else c

-- `text.toLowerCase()`.
unfoldable pub to_lower_case : Text → Text
to_lower_case s = map lower_unit s

abbrev pub is_space : ℕ → Bool
is_space c = leb 9 c && leb c 13 || (c == 32 || c == 160)

abbrev trim_start : Text → Text
trim_start [] = []
trim_start (c ∷ s) = if is_space c then trim_start s else c ∷ s

-- A unit before a trimmed rest, left out where it is space and nothing comes after it.
abbrev keep_unless_last : ℕ → Text → Text
keep_unless_last c [] = if is_space c then [] else c ∷ []
keep_unless_last c (d ∷ s) = c ∷ d ∷ s

abbrev trim_end : Text → Text
trim_end [] = []
trim_end (c ∷ s) = keep_unless_last c (trim_end s)

-- `text.trim()`.
unfoldable pub trim : Text → Text
trim s = trim_end (trim_start s)

-- The decimal digits of a number in at most `fuel` divisions, before those that are made already.
abbrev digits_before : (fuel n : ℕ) → Text → Text
digits_before zero n after = after
digits_before (suc fuel) n after =
    if leb 10 n then digits_before fuel (n / 10) ((48 + n % 10) ∷ after) else ((48 + n) ∷ after)

-- The text of a number in a template: `n + 1` divisions are enough.
unfoldable pub decimal : ℕ → Text
decimal n = digits_before (suc n) n []

pub text_eq→≡ : (s t : Text) → text_eq s t ≡ true → s ≡ t
text_eq→≡ [] [] h = refl
text_eq→≡ [] (b ∷ t) h = absurd (ground arith)
text_eq→≡ (a ∷ s) [] h = absurd (ground arith)
text_eq→≡ (a ∷ s) (b ∷ t) h =
    let rest : s ≡ t = text_eq→≡ s t (ground arith) in let first : a ≡ b = ground arith in cc

pub text_eq_refl : (s : Text) → text_eq s s ≡ true
text_eq_refl [] = refl
text_eq_refl (a ∷ s) = ground (arith, text_eq_refl s)

pub text_eq_sym : (s t : Text) → text_eq s t ≡ text_eq t s
text_eq_sym [] [] = refl
text_eq_sym [] (b ∷ t) = refl
text_eq_sym (a ∷ s) [] = refl
text_eq_sym (a ∷ s) (b ∷ t) = ground (arith, text_eq_sym s t)

-- The number that a text of digits stands for, after the number of those before it.
abbrev pub read_digits : (before : ℕ) → Text → ℕ
read_digits n [] = n
read_digits n (c ∷ s) = read_digits (n * 10 + (c - 48)) s

digits_before-read :
    (fuel n : ℕ) (after : Text)
    → n < fuel
    → read_digits 0 (digits_before fuel n after) ≡ read_digits n after
digits_before-read zero n after h = absurd (omega arith)
digits_before-read (suc fuel) n after h = elim (Bool-cases (leb 10 n)) [
  | inl large ↦
      let less : n / 10 < fuel = ground arith in
      let back : n / 10 * 10 + (48 + n % 10 - 48) ≡ n = omega arith in
      rw large (
        digits_before-read fuel (n / 10) ((48 + n % 10) ∷ after) less
        ∙ ap (λ m. read_digits m after) back)
  | inr small ↦
      let one : 0 * 10 + (48 + n - 48) ≡ n = omega arith in
      rw small (ap (λ m. read_digits m after) one)
]

pub decimal-read : (n : ℕ) → read_digits 0 (decimal n) ≡ n
unfolding decimal
decimal-read n = digits_before-read (suc n) n [] (omega arith)

digits_before-lower :
    (fuel n : ℕ) (after : Text)
    → map lower_unit after ≡ after
    → map lower_unit (digits_before fuel n after) ≡ digits_before fuel n after
digits_before-lower zero n after h = h
digits_before-lower (suc fuel) n after h = elim (Bool-cases (leb 10 n)) [
  | inl large ↦
      let digit : lower_unit (48 + n % 10) ≡ 48 + n % 10 = ground arith in
      rw large (digits_before-lower fuel (n / 10) ((48 + n % 10) ∷ after) (rw (digit, h) refl))
  | inr small ↦ let digit : lower_unit (48 + n) ≡ 48 + n = ground arith in rw (small, digit, h) refl
]

pub decimal-lower : (n : ℕ) → to_lower_case (decimal n) ≡ decimal n
unfolding decimal to_lower_case
decimal-lower n = digits_before-lower (suc n) n [] refl
