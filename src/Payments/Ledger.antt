-- ===== src/Payments/Ledger.antt =====
-- Payments and the ledger of their transactions.
use gaming_cafe_management.Prelude.{
  ℕ, ◌≡◌, refl, sym, ap, ◌∙◌, inl, inr, ◌⊎◌, List, [], ◌∷◌, ◌++◌, map, arith,
}
use gaming_cafe_management.Auth.{UserClaims}
use gaming_cafe_management.World.Tables.{PaymentRow, PaymentTransactionRow}
use gaming_cafe_management.World.{World}
use gaming_cafe_management.Payments.{PaymentInput, handle_create_payment, new_payment}

abbrev due : List PaymentRow → List (ℕ × ℕ)
due rows = map (λ p. (p.id, p.amount)) rows

abbrev charged : List PaymentTransactionRow → List (ℕ × ℕ)
charged rows = map (λ t. (t.payment_id, t.amount)) rows

-- The ledger has one charge for each payment, of its amount, in the order of the payments.
abbrev pub Balanced : World → Type 0
Balanced w = due w.payments ≡ charged w.payment_transactions

due-append :
    (rows : List PaymentRow) (p : PaymentRow)
    → due (rows ++ p ∷ []) ≡ due rows ++ (p.id, p.amount) ∷ []
due-append [] p = refl
due-append (r ∷ rs) p = ap (◌∷◌ (r.id, r.amount)) (due-append rs p)

charged-append :
    (rows : List PaymentTransactionRow) (t : PaymentTransactionRow)
    → charged (rows ++ t ∷ []) ≡ charged rows ++ (t.payment_id, t.amount) ∷ []
charged-append [] t = refl
charged-append (r ∷ rs) t = ap (◌∷◌ (r.payment_id, r.amount)) (charged-append rs t)

-- What a request does to the two tables: nothing, or a payment and its charge.
abbrev Pays : UserClaims → PaymentInput → (new_id : ℕ) → World → World → Type 0
Pays user input new_id v w =
    ((w.payments ≡ v.payments) × (w.payment_transactions ≡ v.payment_transactions))
    ⊎ ((w.payments ≡ v.payments ++ new_payment new_id user input ∷ [])
        × (w.payment_transactions
            ≡ v.payment_transactions
              ++ record { payment_id = new_id; amount = input.amount; actor_id = user.sub } ∷ []))

create-Pays :
    (new_id : ℕ) (user : UserClaims) (input : PaymentInput) (w : World)
    → Pays user input new_id w (handle_create_payment new_id user input w).1
unfolding handle_create_payment new_payment
create-Pays new_id user input w = ground arith

-- A request to pay, answered or refused, keeps the ledger: each payment has one charge, of its amount.
pub handle_create_payment-Balanced :
    (new_id : ℕ) (user : UserClaims) (input : PaymentInput) (w : World)
    → Balanced w
    → Balanced (handle_create_payment new_id user input w).1
unfolding new_payment
handle_create_payment-Balanced new_id user input w h = elim (create-Pays new_id user input w) [
  | inl (payments, charges) ↦ rw (payments, charges) h
  | inr (payments, charges) ↦
      let a = due-append w.payments (new_payment new_id user input) in
      let b =
        charged-append w.payment_transactions
          (record { payment_id = new_id; amount = input.amount; actor_id = user.sub }) in
      rw (payments, charges) (a ∙ ap (λ xs. xs ++ (new_id, input.amount) ∷ []) h ∙ sym b)
]
