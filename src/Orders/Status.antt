-- ===== src/Orders/Status.antt =====
-- The status of an order over requests.
use gaming_cafe_management.Prelude.{
  ℕ, ◌≡◌, ◌≢◌, refl, sym, inl, inr, ◌⊎◌, true, false, String, List, [], ◌∷◌, Option, none, some,
  arith, ◌==◌, ==_refl, find?, update_where, Bool-cases, Option-cases,
}
use mathlib.Core.Path.{subst}
use gaming_cafe_management.Auth.{UserClaims}
use gaming_cafe_management.Shared.{OrderStatus, order_transitions, includes_order_status}
use gaming_cafe_management.World.Tables.{OrderRow}
use gaming_cafe_management.World.{World}
use gaming_cafe_management.Orders.Progress.{
  stays, moves, Advances, Advance, HasNo, UniqueIds, Advance-refl, Advance-trans, UniqueIds-Advance,
}
use gaming_cafe_management.Orders.{
  TransitionArgs, moved, order_at, transition_order, handle_order_transition,
}

-- What a transition request does to the orders: nothing, or the move of an order of the café along an
-- edge of the table of transitions.
abbrev pub Moves : TransitionArgs → List OrderRow → List OrderRow → Type 0
Moves args before after =
    (after ≡ before)
    ⊎ ((o : OrderRow) × (find? (order_at args.order_id args.cafe_id) before ≡ some o)
        × (includes_order_status args.to (order_transitions o.status) ≡ true)
        × (after ≡ update_where (λ r. r.id == o.id) (moved args) before))

found_lem :
    (now : ℕ) (args : TransitionArgs) (o : OrderRow) (w : World)
    → find? (order_at args.order_id args.cafe_id) w.orders ≡ some o
    → includes_order_status args.to (order_transitions o.status) ≡ true
    → (transition_order now args w).1.orders
      ≡ update_where (λ r. r.id == o.id) (moved args) w.orders
unfolding transition_order
found_lem now args o w found legal = ground arith

illegal_lem :
    (now : ℕ) (args : TransitionArgs) (o : OrderRow) (w : World)
    → find? (order_at args.order_id args.cafe_id) w.orders ≡ some o
    → includes_order_status args.to (order_transitions o.status) ≡ false
    → (transition_order now args w).1.orders ≡ w.orders
unfolding transition_order
illegal_lem now args o w found illegal = ground arith

absent_lem :
    (now : ℕ) (args : TransitionArgs) (w : World)
    → find? (order_at args.order_id args.cafe_id) w.orders ≡ none
    → (transition_order now args w).1.orders ≡ w.orders
unfolding transition_order
absent_lem now args w absent = ground arith

transition-Moves :
    (now : ℕ) (args : TransitionArgs) (w : World)
    → Moves args w.orders (transition_order now args w).1.orders
transition-Moves now args w =
    elim (Option-cases (find? (order_at args.order_id args.cafe_id) w.orders)) [
      | inl absent ↦ inl (absent_lem now args w absent)
      | inr (o, found) ↦
          elim (Bool-cases (includes_order_status args.to (order_transitions o.status))) [
            | inl legal ↦ inr (o, found, legal, found_lem now args o w found legal)
            | inr illegal ↦ inl (illegal_lem now args o w found illegal)
          ]
    ]

-- A row that has no namesake is not touched by the update of its key.
update-absent :
    (id : ℕ) (f : OrderRow → OrderRow) (rows : List OrderRow)
    → HasNo id rows
    → update_where (λ r. r.id == id) f rows ≡ rows
update-absent id f [] h = refl
update-absent id f (r ∷ rs) (ne, h) = let rest = update-absent id f rs h in ground arith

moved-Advances :
    (args : TransitionArgs) (o : OrderRow)
    → includes_order_status args.to (order_transitions o.status) ≡ true
    → Advances o (moved args o)
unfolding moved
moved-Advances args o legal = (refl, refl, refl, moves o.status args.to stays legal)

update-head :
    (f : OrderRow → OrderRow) (x : OrderRow) (xs : List OrderRow)
    → HasNo x.id xs
    → update_where (λ r. r.id == x.id) f (x ∷ xs) ≡ f x ∷ xs
update-head f x xs fresh = rw (==_refl x.id, update-absent x.id f xs fresh) refl

abbrev Legal : TransitionArgs → OrderRow → Type 0
Legal args o = includes_order_status args.to (order_transitions o.status) ≡ true

head-Advance :
    (args : TransitionArgs) (x : OrderRow) (xs : List OrderRow)
    → HasNo x.id xs
    → Legal args x
    → Advance (x ∷ xs) (update_where (λ r. r.id == x.id) (moved args) (x ∷ xs))
head-Advance args x xs fresh legal =
    subst (λ ys. Advance (x ∷ xs) ys) (sym (update-head (moved args) x xs fresh))
      (moved-Advances args x legal, Advance-refl xs)

found-ne :
    (id order cafe : ℕ) (o : OrderRow) (rows : List OrderRow)
    → HasNo id rows
    → find? (order_at order cafe) rows ≡ some o
    → o.id ≢ id
found-ne id order cafe o [] fresh found = absurd (ground arith)
found-ne id order cafe o (r ∷ rs) (ne, fresh) found = elim (Bool-cases (order_at order cafe r)) [
  | inl here ↦ let same : r ≡ o = ground arith in rw (← same) ne
  | inr other ↦ found-ne id order cafe o rs fresh (ground arith)
]

update-Advance :
    (args : TransitionArgs) (o : OrderRow) (rows : List OrderRow)
    → UniqueIds rows
    → find? (order_at args.order_id args.cafe_id) rows ≡ some o
    → includes_order_status args.to (order_transitions o.status) ≡ true
    → Advance rows (update_where (λ r. r.id == o.id) (moved args) rows)
update-Advance args o [] u found legal = tt
update-Advance args o (x ∷ xs) (fresh, u) found legal =
    elim (Bool-cases (order_at args.order_id args.cafe_id x)) [
      | inl here ↦
          let same : x ≡ o = ground arith in
          subst
            (λ p.
              Legal args p
              → Advance (x ∷ xs) (update_where (λ r. r.id == p.id) (moved args) (x ∷ xs)))
            same (head-Advance args x xs fresh) legal
      | inr other ↦
          let later : find? (order_at args.order_id args.cafe_id) xs ≡ some o = ground arith in
          let ne = found-ne x.id args.order_id args.cafe_id o xs fresh later in
          let apart : (x.id == o.id) ≡ false = ground arith in
          rw apart ((refl, refl, refl, stays), update-Advance args o xs u later legal)
    ]

transition-Advance :
    (now : ℕ) (args : TransitionArgs) (w : World)
    → UniqueIds w.orders
    → Advance w.orders (transition_order now args w).1.orders
transition-Advance now args w u = elim (transition-Moves now args w) [
  | inl same ↦ rw same (Advance-refl w.orders)
  | inr (o, found, legal, changed) ↦ rw changed (update-Advance args o w.orders u found legal)
]

-- A request of the transition routes.
pub record Request : Type 0 where
  pub now : ℕ
  pub user : UserClaims
  pub id : ℕ
  pub to : OrderStatus
  pub reason : Option String

-- The requests one after the other, whatever each answers.
unfoldable pub run_requests : List Request → World → World
run_requests [] w = w
run_requests (r ∷ rs) w =
    run_requests rs (handle_order_transition r.now r.user r.id r.to r.reason w).1

-- Over any requests of the transition routes, from a table with unique keys, every order keeps its
-- key, number and total, and its status is one that its status before reaches along the table of
-- legal transitions. No order is added or lost, and the keys stay unique.
pub run_requests-Advance :
    (rs : List Request) (w : World)
    → UniqueIds w.orders
    → Advance w.orders (run_requests rs w).orders × UniqueIds (run_requests rs w).orders
unfolding run_requests handle_order_transition
run_requests-Advance [] w u = (Advance-refl w.orders, u)
run_requests-Advance (r ∷ rs) w u =
    let next = (handle_order_transition r.now r.user r.id r.to r.reason w).1 in
    let first : Advance w.orders next.orders = transition-Advance r.now _ w u in
    let (rest, unique) =
      run_requests-Advance rs next (UniqueIds-Advance w.orders next.orders first u) in
    (Advance-trans w.orders next.orders (run_requests rs next).orders first rest, unique)
