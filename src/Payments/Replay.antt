-- ===== src/Payments/Replay.antt =====
-- A payment that is sent again.
use gaming_cafe_management.Prelude.{
  ℕ, ◌≡◌, refl, Bool, true, false, ◌&&◌, List, [], ◌∷◌, ◌++◌, Option, some, arith, ◌==◌, ltb, any,
  find?, inl, inr, Bool-cases,
}
use mathlib.Core.Path.{subst}
use gaming_cafe_management.Auth.{UserClaims}
use gaming_cafe_management.World.Tables.{PaymentRow}
use gaming_cafe_management.World.{World}
use gaming_cafe_management.World.Action.{ok}
use gaming_cafe_management.Payments.{
  PaymentInput, PaymentResponse, has_payment_key, new_payment, handle_create_payment, own_session,
  own_order, charge,
}

any-last :
    (key : ℕ) (rows : List PaymentRow) (p : PaymentRow)
    → p.idempotency_key ≡ key
    → any (has_payment_key key) (rows ++ p ∷ []) ≡ true
any-last key [] p h = ground arith
any-last key (r ∷ rs) p h = ground (arith, any-last key rs p)

find-last :
    (key cafe : ℕ) (rows : List PaymentRow) (p : PaymentRow)
    → p.idempotency_key ≡ key
    → p.cafe_id ≡ cafe
    → any (has_payment_key key) rows ≡ false
    → find? (λ q. has_payment_key key q && q.cafe_id == cafe) (rows ++ p ∷ []) ≡ some p
find-last key cafe [] p h c a = ground arith
find-last key cafe (r ∷ rs) p h c a = ground (arith, find-last key cafe rs p)

-- The checks before the insert.
abbrev Admitted : (cafe_id : ℕ) → PaymentInput → World → Type 0
Admitted cafe_id input w =
    (ltb 0 input.amount ≡ true)
    × (own_session cafe_id input.session_id w ≡ true)
    × (own_order cafe_id input.order_id w ≡ true)

abbrev prior : (cafe_id : ℕ) → PaymentInput → World → Option PaymentRow
prior cafe_id input w =
    find? (λ p. has_payment_key input.idempotency_key p && p.cafe_id == cafe_id) w.payments

abbrev is_known : PaymentInput → World → Bool
is_known input w = any (has_payment_key input.idempotency_key) w.payments

abbrev answer : Option PaymentRow → Bool → PaymentResponse
answer payment duplicate = record { payment = payment; duplicate = duplicate }

module _ (new_id : ℕ) (user : UserClaims) (input : PaymentInput) (w : World) where
  known_lem :
      Admitted user.cafe_id input w
      → is_known input w ≡ true
      → handle_create_payment new_id user input w
        ≡ (ok (answer (prior user.cafe_id input w) true), w)
  unfolding handle_create_payment
  known_lem (a, s, o) k = rw (a, s, o, k) refl

  new_lem :
      Admitted user.cafe_id input w
      → is_known input w ≡ false
      → let row = new_payment new_id user input in
        handle_create_payment new_id user input w
        ≡ (ok (answer (some row) false), (charge user row w).1)
  unfolding handle_create_payment
  new_lem (a, s, o) k = rw (a, s, o, k) refl

  admitted_lem :
      (a : PaymentResponse)
      → (handle_create_payment new_id user input w).0 ≡ ok a
      → Admitted user.cafe_id input w
  unfolding handle_create_payment
  admitted_lem a h = ground arith

  charged-known : is_known input (charge user (new_payment new_id user input) w).1 ≡ true
  unfolding charge new_payment
  charged-known = any-last input.idempotency_key w.payments (new_payment new_id user input) refl

  charged-prior :
      is_known input w ≡ false
      → let row = new_payment new_id user input in
        prior user.cafe_id input (charge user row w).1 ≡ some row
  unfolding charge new_payment
  charged-prior k =
      find-last input.idempotency_key user.cafe_id w.payments (new_payment new_id user input) refl
        refl k

  charged-Admitted :
      Admitted user.cafe_id input w
      → Admitted user.cafe_id input (charge user (new_payment new_id user input) w).1
  unfolding charge
  charged-Admitted h = ground arith

-- The answer to a key that a payment has, for any user of the café.
again_lem :
    (later_id cafe_id : ℕ) (other : UserClaims) (input : PaymentInput) (w : World)
    → other.cafe_id ≡ cafe_id
    → Admitted cafe_id input w
    → is_known input w ≡ true
    → handle_create_payment later_id other input w ≡ (ok (answer (prior cafe_id input w) true), w)
again_lem later_id cafe_id other input w same fit known =
    subst
      (λ c.
        Admitted c input w
        → handle_create_payment later_id other input w ≡ (ok (answer (prior c input w) true), w))
      same (λ h. known_lem later_id other input w h known) fit

-- A payment that succeeded and is sent again, by the same or another user of the café, is answered as
-- a duplicate with the payment of the first answer, and nothing changes.
pub handle_create_payment-twice :
    (new_id later_id : ℕ) (user other : UserClaims) (input : PaymentInput) (a : PaymentResponse)
    (w : World)
    → other.cafe_id ≡ user.cafe_id
    → let r = handle_create_payment new_id user input w in
      r.0 ≡ ok a
      → let b : PaymentResponse = record { payment = a.payment; duplicate = true } in
        handle_create_payment later_id other input r.1 ≡ (ok b, r.1)
handle_create_payment-twice new_id later_id user other input a w same h =
    let fit = admitted_lem new_id user input w a h in
    let row = new_payment new_id user input in
    elim (Bool-cases (is_known input w)) [
      | inl known ↦
          let first = known_lem new_id user input w fit known in
          let second = again_lem later_id user.cafe_id other input w same fit known in cc
      | inr new ↦
          let first = new_lem new_id user input w fit new in
          let prior_is = charged-prior new_id user input w new in
          let second =
            again_lem later_id user.cafe_id other input (charge user row w).1 same
              (charged-Admitted new_id user input w fit) (charged-known new_id user input w) in
          cc
    ]
