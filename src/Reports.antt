-- ===== src/Reports.antt =====
-- The reports by day of apps/server/src/modules/reports/handlers.ts. The day of an instant is the
-- database's, in its own time zone, and an argument, as a number; the bounds of the query are instants,
-- which the code reads from the dates of the request.
pub mod Days
use gaming_cafe_management.Prelude.{
  ℕ, ◌+◌, Bool, true, false, not, ◌&&◌, List, [], ◌∷◌, ◌==◌, leb, ltb, filter, map, if◌then◌else◌,
}
use gaming_cafe_management.Prelude.Int.{ℤ, ◌+ℤ◌}
use gaming_cafe_management.Auth.{UserClaims}
use gaming_cafe_management.Shared.{OrderStatus, order_status_eq}
use gaming_cafe_management.World.Tables.{SessionRow, OrderRow}
use gaming_cafe_management.World.{World}

-- A group of rows: their day and what is added up over them.
pub record Day (V : Type 0) : Type 0 where
  pub day : ℕ
  pub total : V

module _ {V : Type 0} (add : V → V → V) where
  -- A row joins the group of its day, or makes one, in the order of the days.
  abbrev pub add_to_day : (day : ℕ) → V → List (Day V) → List (Day V)
  add_to_day day v [] = record { day = day; total = v } ∷ []
  add_to_day day v (g ∷ gs) =
      let rest = add_to_day day v gs in
      if day == g.day
      then record g { total = add v g.total } ∷ gs
      else if ltb day g.day
      then record { day = day; total = v } ∷ g ∷ gs
      else g ∷ rest

  -- `groupBy(day)` and `orderBy(day)`.
  abbrev pub group_by_day : {A : Type 0} → (A → ℕ) → (A → V) → List A → List (Day V)
  group_by_day day value [] = []
  group_by_day day value (x ∷ xs) = add_to_day (day x) (value x) (group_by_day day value xs)

pub record SessionTotals : Type 0 where
  pub sessions : ℕ
  pub minutes : ℕ
  pub revenue : ℕ

abbrev pub session_totals : SessionRow → SessionTotals
session_totals s = record {
  sessions = 1;
  minutes = s.planned_minutes + s.extended_minutes;
  revenue = s.price_amount;
}

abbrev pub add_sessions : SessionTotals → SessionTotals → SessionTotals
add_sessions a b = record {
  sessions = a.sessions + b.sessions;
  minutes = a.minutes + b.minutes;
  revenue = a.revenue + b.revenue;
}

-- The sessions of the café that started between the bounds.
abbrev pub reported_sessions : (cafe_id from to : ℕ) → World → List SessionRow
reported_sessions cafe_id from to w =
    filter (λ s. s.cafe_id == cafe_id && (leb from s.started_at && leb s.started_at to)) w.sessions

unfoldable pub handle_session_report :
    (day_of : ℕ → ℕ) → UserClaims → (from to : ℕ) → World → List (Day SessionTotals)
handle_session_report day_of user from to w =
    group_by_day add_sessions (λ s. day_of s.started_at) session_totals
      (reported_sessions user.cafe_id from to w)

pub record FoodTotals : Type 0 where
  pub orders : ℕ
  pub revenue : ℤ

abbrev pub food_totals : OrderRow → FoodTotals
food_totals o = record { orders = 1; revenue = o.total_amount }

abbrev pub add_food : FoodTotals → FoodTotals → FoodTotals
add_food a b = record { orders = a.orders + b.orders; revenue = a.revenue +ℤ b.revenue }

-- The orders of the café between the bounds that are not cancelled.
abbrev pub reported_orders : (cafe_id from to : ℕ) → World → List OrderRow
reported_orders cafe_id from to w =
    filter
      (λ o.
        o.cafe_id == cafe_id
        && (not (order_status_eq o.status OrderStatus.cancelled)
            && (leb from o.placed_at && leb o.placed_at to)))
      w.orders

unfoldable pub handle_food_report :
    (day_of : ℕ → ℕ) → UserClaims → (from to : ℕ) → World → List (Day FoodTotals)
handle_food_report day_of user from to w =
    group_by_day add_food (λ o. day_of o.placed_at) food_totals
      (reported_orders user.cafe_id from to w)
