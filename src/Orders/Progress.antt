-- ===== src/Orders/Progress.antt =====
-- Orders that go on along the table of transitions.
use gaming_cafe_management.Prelude.{ℕ, ◌≡◌, ◌≢◌, refl, sym, ◌∙◌, true, List, [], ◌∷◌}
use gaming_cafe_management.Shared.{OrderStatus, order_transitions, includes_order_status}
use gaming_cafe_management.World.Tables.{OrderRow}

-- The statuses that an order gets to along the table of transitions.
pub data Reaches (a : OrderStatus) : OrderStatus → Type 0 where
  stays : Reaches a a
  moves :
      (b c : OrderStatus)
      → Reaches a b
      → includes_order_status c (order_transitions b) ≡ true
      → Reaches a c

pub Reaches-trans : (a b c : OrderStatus) → Reaches a b → Reaches b c → Reaches a c
Reaches-trans a b c h stays = h
Reaches-trans a b c h (moves d _ more edge) = moves d c (Reaches-trans a b d h more) edge

-- An order that went on: the same but for its status, which it reached, and the reason.
abbrev pub Advances : OrderRow → OrderRow → Type 0
Advances a b =
    (b.id ≡ a.id)
    × (b.number ≡ a.number)
    × (b.total_amount ≡ a.total_amount)
    × Reaches a.status b.status

-- Row by row.
abbrev pub Advance : List OrderRow → List OrderRow → Type 0
Advance [] [] = Unit
Advance (x ∷ xs) (y ∷ ys) = Advances x y × Advance xs ys
Advance _ _ = ⊥

abbrev pub HasNo : ℕ → List OrderRow → Type 0
HasNo id [] = Unit
HasNo id (r ∷ rs) = (r.id ≢ id) × HasNo id rs

-- No two rows have the same key.
abbrev pub UniqueIds : List OrderRow → Type 0
UniqueIds [] = Unit
UniqueIds (r ∷ rs) = HasNo r.id rs × UniqueIds rs

pub Advance-refl : (rows : List OrderRow) → Advance rows rows
Advance-refl [] = tt
Advance-refl (r ∷ rs) = ((refl, refl, refl, stays), Advance-refl rs)

pub Advance-trans : (xs ys zs : List OrderRow) → Advance xs ys → Advance ys zs → Advance xs zs
Advance-trans [] [] [] h k = tt
Advance-trans [] [] (z ∷ zs) h k = k
Advance-trans [] (y ∷ ys) zs h k = absurd h
Advance-trans (x ∷ xs) [] zs h k = absurd h
Advance-trans (x ∷ xs) (y ∷ ys) [] h k = absurd k
Advance-trans (x ∷ xs) (y ∷ ys) (z ∷ zs) ((i, n, t, r), h) ((j, m, u, s), k) = (
  (j ∙ i, m ∙ n, u ∙ t, Reaches-trans x.status y.status z.status r s),
  Advance-trans xs ys zs h k,
)

pub HasNo-Advance : (id : ℕ) (xs ys : List OrderRow) → Advance xs ys → HasNo id xs → HasNo id ys
HasNo-Advance id [] [] h k = tt
HasNo-Advance id [] (y ∷ ys) h k = absurd h
HasNo-Advance id (x ∷ xs) [] h k = absurd h
HasNo-Advance id (x ∷ xs) (y ∷ ys) ((i, n, t, r), h) (ne, k) =
    (λ e. ne (sym i ∙ e), HasNo-Advance id xs ys h k)

pub UniqueIds-Advance : (xs ys : List OrderRow) → Advance xs ys → UniqueIds xs → UniqueIds ys
UniqueIds-Advance [] [] h k = tt
UniqueIds-Advance [] (y ∷ ys) h k = absurd h
UniqueIds-Advance (x ∷ xs) [] h k = absurd h
UniqueIds-Advance (x ∷ xs) (y ∷ ys) ((i, n, t, r), h) (fresh, k) =
    (rw i (HasNo-Advance x.id xs ys h fresh), UniqueIds-Advance xs ys h k)
