-- ===== src/World/Action.antt =====
-- Actions on a state that may raise a problem.
use gaming_cafe_management.Prelude.{
  arith, ◌≡◌, refl, ap, ◌⊎◌, inl, inr, ◌≢◌, Bool, true, false, Option, none, some,
}
use gaming_cafe_management.Shared.{HttpProblem}

pub data Result {ℓ} (A : Type ℓ) : Type ℓ where
  ok : A → Result A
  err : HttpProblem → Result A

abbrev pub Exec : Type 0 → Type 0 → Type 0
Exec S A = S → Result A × S

module _ {S A : Type 0} where
  abbrev pub pure : A → Exec S A
  pure a s = (ok a, s)

  abbrev pub raise : HttpProblem → Exec S A
  raise e s = (err e, s)

  abbrev pub gets : (S → A) → Exec S A
  gets f s = (ok (f s), s)

  -- `rows[0]`, or the problem where there is no row.
  abbrev pub require : HttpProblem → Option A → Exec S A
  require e none s = (err e, s)
  require e (some a) s = (ok a, s)

module _ {S : Type 0} where
  abbrev pub modify : (S → S) → Exec S (Unit {0})
  modify f s = (ok tt, f s)

  -- `if (!test) throw e`.
  abbrev pub check : Bool → HttpProblem → Exec S (Unit {0})
  check true e s = (ok tt, s)
  check false e s = (err e, s)

module _ {S A B : Type 0} where
  abbrev pub continue : Result A × S → (A → Exec S B) → Result B × S
  continue (ok a, s) f = f a s
  continue (err e, s) f = (err e, s)

  infixl 5 ◌>>=◌
  abbrev pub ◌>>=◌ : Exec S A → (A → Exec S B) → Exec S B
  ◌>>=◌ m f s = continue (m s) f

module _ {S B : Type 0} where
  infixl 5 ◌>>◌
  abbrev pub ◌>>◌ : Exec S (Unit {0}) → Exec S B → Exec S B
  m >> k = m >>= λ _. k

module _ {A S : Type 0} where
  -- How an action ended: with a result, or with a problem.
  pub Result-cases :
      (r : Result A × S)
      → ((a : A) × (s : S) × (r ≡ (ok a, s))) ⊎ ((e : HttpProblem) × (s : S) × (r ≡ (err e, s)))
  Result-cases (ok a, s) = inl (a, s, refl)
  Result-cases (err e, s) = inr (e, s, refl)

  abbrev is_ok : Result A × S → Bool
  is_ok (ok a, s) = true
  is_ok (err e, s) = false

  pub err≢ok : (e : HttpProblem) (a : A) (s t : S) → ◌≢◌ {A = Result A × S} (err e, s) (ok a, t)
  err≢ok e a s t h = let k = ap is_ok h in ground arith

module _ {A : Type 0} where
  abbrev result_or : A → Result A → A
  result_or d (ok a) = a
  result_or d (err e) = d

  pub ok_inj : (a b : A) → ◌≡◌ {A = Result A} (ok a) (ok b) → a ≡ b
  ok_inj a b h = ap (result_or a) h
