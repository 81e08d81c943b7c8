-- ===== src/Auth/Enroll/Naming.antt =====
-- The loop of apps/server/src/modules/auth/handlers.ts that looks for a free name.
use gaming_cafe_management.Prelude.{
  ℕ, zero, suc, ◌+◌, ◌<◌, ◌≡◌, refl, sym, ap, ◌∙◌, inl, inr, false, List, [], ◌∷◌, ◌++◌, none, some,
  length, arith, Bool-cases, Option-cases,
}
use gaming_cafe_management.Prelude.Texts.{
  Text, text_eq, text_eq→≡, text_eq_sym, to_lower_case, lower_unit, decimal, read_digits,
  decimal-read, decimal-lower,
}
use gaming_cafe_management.Prelude.Pigeonhole.{Distinct, AllIn, Distinct-length}
use gaming_cafe_management.Auth.Enroll.{has_name, numbered, free_number, free_name}

-- The text after the first units, as many as `s` has, and one more.
abbrev after_dash : Text → Text → Text
after_dash [] [] = []
after_dash [] (c ∷ t) = t
after_dash (a ∷ s) [] = []
after_dash (a ∷ s) (c ∷ t) = after_dash s t

lower-numbered :
    (name : Text) (i : ℕ) → to_lower_case (numbered name i) ≡ to_lower_case name ++ 45 ∷ decimal i
unfolding to_lower_case
lower-numbered [] i = ap (λ t. 45 ∷ t) (decimal-lower i)
lower-numbered (c ∷ name) i = ap (λ t. lower_unit c ∷ t) (lower-numbered name i)

after_dash-numbered : (s t : Text) → after_dash s (s ++ 45 ∷ t) ≡ t
after_dash-numbered [] t = refl
after_dash-numbered (c ∷ s) t = after_dash-numbered s t

-- Two numbers make two names.
numbered_inj :
    (name : Text) (i j : ℕ)
    → to_lower_case (numbered name i) ≡ to_lower_case (numbered name j)
    → i ≡ j
numbered_inj name i j h =
    let back : (k : ℕ)
        → read_digits 0 (after_dash (to_lower_case name) (to_lower_case (numbered name k))) ≡ k =
      λ k.
        rw (lower-numbered name k, after_dash-numbered (to_lower_case name) (decimal k))
          (decimal-read k) in
    sym (back i) ∙ ap (λ t. read_digits 0 (after_dash (to_lower_case name) t)) h ∙ back j

-- The names that the loop tests, in lower case.
abbrev candidates : (fuel : ℕ) → Text → ℕ → List Text
candidates zero name i = []
candidates (suc fuel) name i = to_lower_case (numbered name i) ∷ candidates fuel name (i + 1)

candidates-length : (fuel : ℕ) (name : Text) (i : ℕ) → length (candidates fuel name i) ≡ fuel
candidates-length zero name i = refl
candidates-length (suc fuel) name i = ap suc (candidates-length fuel name (i + 1))

candidates-fresh :
    (fuel : ℕ) (name : Text) (i j : ℕ)
    → i < j
    → has_name (candidates fuel name j) (to_lower_case (numbered name i)) ≡ false
candidates-fresh zero name i j h = refl
candidates-fresh (suc fuel) name i j h =
    elim (Bool-cases
      (text_eq (to_lower_case (numbered name i)) (to_lower_case (numbered name j)))) [
        | inl same ↦ absurd (omega (arith, numbered_inj name i j (text_eq→≡ _ _ same)))
        | inr apart ↦ rw apart (candidates-fresh fuel name i (j + 1) (omega arith))
      ]

candidates-Distinct : (fuel : ℕ) (name : Text) (i : ℕ) → Distinct text_eq (candidates fuel name i)
candidates-Distinct zero name i = tt
candidates-Distinct (suc fuel) name i =
    (candidates-fresh fuel name i (i + 1) (omega arith), candidates-Distinct fuel name (i + 1))

free_number-none :
    (fuel : ℕ) (names : List Text) (name : Text) (i : ℕ)
    → free_number fuel names name i ≡ none
    → AllIn text_eq names (candidates fuel name i)
free_number-none zero names name i h = tt
free_number-none (suc fuel) names name i h =
    elim (Bool-cases (has_name names (to_lower_case (numbered name i)))) [
      | inl taken ↦ (taken, free_number-none fuel names name (i + 1) (ground arith))
      | inr free ↦ absurd (ground arith)
    ]

free_number-some :
    (fuel : ℕ) (names : List Text) (name : Text) (i k : ℕ)
    → free_number fuel names name i ≡ some k
    → has_name names (to_lower_case (numbered name k)) ≡ false
free_number-some zero names name i k h = absurd (ground arith)
free_number-some (suc fuel) names name i k h =
    elim (Bool-cases (has_name names (to_lower_case (numbered name i)))) [
      | inl taken ↦ free_number-some fuel names name (i + 1) k (ground arith)
      | inr free ↦
          let same : i ≡ k = ground arith in
          ap (λ j. has_name names (to_lower_case (numbered name j))) (sym same) ∙ free
    ]

free_number-enough :
    (names : List Text) (name : Text) (i : ℕ)
    → (k : ℕ) × (free_number (suc (length names)) names name i ≡ some k)
free_number-enough names name i =
    elim (Option-cases (free_number (suc (length names)) names name i)) [
      | inr found ↦ found
      | inl missing ↦ absurd (
          omega (
            arith,
            candidates-length (suc (length names)) name i,
            Distinct-length text_eq text_eq→≡ (candidates (suc (length names)) name i) names
                text_eq_sym (candidates-Distinct (suc (length names)) name i)
                (free_number-none (suc (length names)) names name i missing),
          ))
    ]

-- The search for the name of a new machine ends: one test more than there are taken names finds a
-- name, and in lower case that name is not among the taken ones.
pub free_name_terminates :
    (names : List Text) (name : Text)
    → (n : Text) × (free_name names name ≡ some n) × (has_name names (to_lower_case n) ≡ false)
unfolding free_name
free_name_terminates names name = elim (Bool-cases (has_name names (to_lower_case name))) [
  | inr free ↦ (name, rw free refl, free)
  | inl taken ↦
      let (k, found) = free_number-enough names name 2 in
      (
        numbered name k,
        rw (taken, found) refl,
        free_number-some (suc (length names)) names name 2 k found,
      )
]
