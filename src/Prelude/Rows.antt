-- ===== src/Prelude/Rows.antt =====
-- Tables before and after an update, row by row.
use mathlib.Core.Path.{◌≡◌, refl, sym, ap, subst}
use mathlib.Core.Logic.{inl, inr}
use mathlib.Core.Bool.{Bool, true, false}
use mathlib.Core.List.{List, [], ◌∷◌, ◌++◌, map}
use mathlib.Core.Option.{some}
use native.Mathlib.Omega.{arith}
use Prim.Native.Nat.{ℕ}
use gaming_cafe_management.Prelude.Tests.{Bool-cases, ◌==◌, ==_refl}
use gaming_cafe_management.Prelude.Lists.{All, update_where, find?, filter}
use gaming_cafe_management.Prelude.Pigeonhole.{has, Distinct}

module _ {A : Type 0} (R : A → A → Type 0) where
  -- The rows of two tables stand in a relation, one after the other.
  abbrev pub Pairs : List A → List A → Type 0
  Pairs [] [] = Unit
  Pairs (x ∷ xs) (y ∷ ys) = R x y × Pairs xs ys
  Pairs _ _ = ⊥

  pub Pairs-refl : ((x : A) → R x x) → (xs : List A) → Pairs xs xs
  Pairs-refl r [] = tt
  Pairs-refl r (x ∷ xs) = (r x, Pairs-refl r xs)

  pub Pairs-trans :
      ((x y z : A) → R x y → R y z → R x z)
      → (xs ys zs : List A) → Pairs xs ys
      → Pairs ys zs
      → Pairs xs zs
  Pairs-trans t [] [] zs h k = k
  Pairs-trans t [] (y ∷ ys) zs h k = absurd h
  Pairs-trans t (x ∷ xs) [] zs h k = absurd h
  Pairs-trans t (x ∷ xs) (y ∷ ys) [] h k = absurd k
  Pairs-trans t (x ∷ xs) (y ∷ ys) (z ∷ zs) (h, hs) (k, ks) =
      (t x y z h k, Pairs-trans t xs ys zs hs ks)

  pub Pairs-update :
      (p : A → Bool) (f : A → A) (xs : List A)
      → ((x : A) → R x x)
      → All (λ x. p x ≡ true → R x (f x)) xs
      → Pairs xs (update_where p f xs)
  Pairs-update p f [] r h = tt
  Pairs-update p f (x ∷ xs) r (h, hs) = elim (Bool-cases (p x)) [
    | inl hit ↦ rw hit (h hit, Pairs-update p f xs r hs)
    | inr miss ↦ rw miss (r x, Pairs-update p f xs r hs)
  ]

module _ {A : Type 0} (key : A → ℕ) where
  abbrev pub keys : List A → List ℕ
  keys xs = map key xs

  -- No two rows have the same key.
  abbrev pub UniqueKeys : List A → Type 0
  UniqueKeys xs = Distinct ◌==◌ (keys xs)

module _ {A : Type 0} where
  pub find-true : (q : A → Bool) (xs : List A) (r : A) → find? q xs ≡ some r → q r ≡ true
  find-true q [] r h = absurd (ground arith)
  find-true q (x ∷ xs) r h = elim (Bool-cases (q x)) [
    | inl here ↦ let same : x ≡ r = ground arith in subst (λ y. q y ≡ true) same here
    | inr other ↦ find-true q xs r (ground arith)
  ]

  -- Rows that an update does not change where `p` holds.
  pub Pairs-filter :
      (R : A → A → Type 0) (p : A → Bool) (xs ys : List A)
      → ((x y : A) → R x y → p y ≡ p x)
      → ((x y : A) → R x y → p x ≡ true → y ≡ x)
      → Pairs R xs ys
      → filter p ys ≡ filter p xs
  Pairs-filter R p [] [] keep same h = refl
  Pairs-filter R p [] (y ∷ ys) keep same h = absurd h
  Pairs-filter R p (x ∷ xs) [] keep same h = absurd h
  Pairs-filter R p (x ∷ xs) (y ∷ ys) keep same (h, hs) =
      let rest = Pairs-filter R p xs ys keep same hs in
      elim (Bool-cases (p x)) [
        | inl hit ↦ rw (keep x y h, hit, same x y h hit, rest) refl
        | inr miss ↦ rw (keep x y h, miss, rest) refl
      ]

module _ {A : Type 0} (key : A → ℕ) where
  pub find-has :
      (q : A → Bool) (xs : List A) (r : A)
      → find? q xs ≡ some r
      → has ◌==◌ (key r) (keys key xs) ≡ true
  find-has q [] r h = absurd (ground arith)
  find-has q (x ∷ xs) r h = elim (Bool-cases (q x)) [
    | inl here ↦
        let same : x ≡ r = ground arith in
        subst (λ y. has ◌==◌ (key y) (keys key (x ∷ xs)) ≡ true) same (rw (==_refl (key x)) refl)
    | inr other ↦ let rest = find-has q xs r (ground arith) in ground arith
  ]

  differs :
      (k : ℕ) (r : A) (xs : List A)
      → has ◌==◌ k (keys key xs) ≡ false
      → (key r == k) ≡ true
      → All (λ x. (key x == key r) ≡ true → x ≡ r) xs
  differs k r [] h e = tt
  differs k r (x ∷ xs) h e = (λ s. absurd (ground arith), differs k r xs (ground arith) e)

  -- Where no two rows have the same key, the row that a query finds is the one with its key.
  pub unique-row :
      (q : A → Bool) (xs : List A) (r : A)
      → UniqueKeys key xs
      → find? q xs ≡ some r
      → All (λ x. (key x == key r) ≡ true → x ≡ r) xs
  unique-row q [] r u h = tt
  unique-row q (x ∷ xs) r (fresh, u) h = elim (Bool-cases (q x)) [
    | inl here ↦
        let same : x ≡ r = ground arith in
        let own : (key r == key x) ≡ true =
          subst (λ y. (key y == key x) ≡ true) same (==_refl (key x)) in
        (λ s. same, differs (key x) r xs fresh own)
    | inr other ↦
        let later : find? q xs ≡ some r = ground arith in
        let there = find-has q xs r later in
        (
          λ s. absurd (
              let e : key x ≡ key r = ground arith in
              let k = subst (λ n. has ◌==◌ n (keys key xs) ≡ false) e fresh in ground arith),
          unique-row q xs r u later,
        )
  ]

  pub keys-update :
      (p : A → Bool) (f : A → A) (xs : List A)
      → ((x : A) → key (f x) ≡ key x)
      → keys key (update_where p f xs) ≡ keys key xs
  keys-update p f [] h = refl
  keys-update p f (x ∷ xs) h = elim (Bool-cases (p x)) [
    | inl hit ↦ rw (hit, h x, keys-update p f xs h) refl
    | inr miss ↦ rw (miss, keys-update p f xs h) refl
  ]

module _ {A : Type 0} where
  -- The first row with `p`, where it has `q` too, is the first of the rows with `q`.
  pub find-filter :
      (p q : A → Bool) (xs : List A) (r : A)
      → find? p xs ≡ some r
      → q r ≡ true
      → find? p (filter q xs) ≡ some r
  find-filter p q [] r h good = absurd (ground arith)
  find-filter p q (x ∷ xs) r h good = elim (Bool-cases (p x)) [
    | inl here ↦
        let same : x ≡ r = ground arith in
        let also : q x ≡ true = subst (λ y. q y ≡ true) (sym same) good in
        rw (also, here) (ap some same)
    | inr other ↦
        let rest = find-filter p q xs r (ground arith) good in
        elim (Bool-cases (q x)) [ inl kept ↦ rw (kept, other) rest | inr dropped ↦ rw dropped rest ]
  ]

  pub map-All : (P Q : A → Type 0) (xs : List A) → ((x : A) → P x → Q x) → All P xs → All Q xs
  map-All P Q [] f h = tt
  map-All P Q (x ∷ xs) f (h, hs) = (f x h, map-All P Q xs f hs)

  pub filter-All :
      (P : A → Type 0) (p : A → Bool) (xs : List A)
      → All P xs
      → All (λ x. P x × (p x ≡ true)) (filter p xs)
  filter-All P p [] h = tt
  filter-All P p (x ∷ xs) (h, hs) = elim (Bool-cases (p x)) [
    | inl kept ↦ rw kept ((h, kept), filter-All P p xs hs)
    | inr dropped ↦ rw dropped (filter-All P p xs hs)
  ]

  pub append-All : (P : A → Type 0) (xs ys : List A) → All P xs → All P ys → All P (xs ++ ys)
  append-All P [] ys h k = k
  append-All P (x ∷ xs) ys (h, hs) k = (h, append-All P xs ys hs k)

module _ {A B : Type 0} where
  pub All-map :
      (P : B → Type 0) (f : A → B) (xs : List A) → All (λ x. P (f x)) xs → All P (map f xs)
  All-map P f [] h = tt
  All-map P f (x ∷ xs) (h, hs) = (h, All-map P f xs hs)

module _ {A : Type 0} (key : A → ℕ) where
  later_self :
      (x : A) (xs ys : List A)
      → has ◌==◌ (key x) (keys key ys) ≡ false
      → All (λ y. find? (λ z. key z == key y) xs ≡ some y) ys
      → All (λ y. find? (λ z. key z == key y) (x ∷ xs) ≡ some y) ys
  later_self x xs [] fresh h = tt
  later_self x xs (y ∷ ys) fresh (h, hs) = (
    let other : (key x == key y) ≡ false = ground arith in rw other h,
    later_self x xs ys (ground arith) hs,
  )

  -- Where no two rows have the same key, each row is the one that its key finds.
  pub find_self :
      (xs : List A) → UniqueKeys key xs → All (λ x. find? (λ y. key y == key x) xs ≡ some x) xs
  find_self [] u = tt
  find_self (x ∷ xs) (fresh, u) =
      (rw (==_refl (key x)) refl, later_self x xs xs fresh (find_self xs u))
