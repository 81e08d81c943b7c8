-- ===== src/Reports/Days.antt =====
-- The days of a report of apps/server/src/modules/reports/handlers.ts and the rows that it is about.
use gaming_cafe_management.Prelude.{
  ℕ, ◌+◌, ◌<◌, ◌≡◌, refl, ◌∙◌, inl, inr, List, [], ◌∷◌, map, arith, ◌==◌, ltb, filter, sum, length,
  All, if◌then◌else◌, Bool-cases, not, leb, ◌&&◌, Bool, sym,
}
use gaming_cafe_management.Auth.{UserClaims}
use gaming_cafe_management.World.Tables.{SessionRow}
use gaming_cafe_management.World.{World}
use gaming_cafe_management.Reports.{
  Day, add_to_day, group_by_day, SessionTotals, session_totals, add_sessions, reported_sessions,
  handle_session_report,
}

-- Each day is before the next.
abbrev pub Ascending : {V : Type 0} → List (Day V) → Type 0
Ascending [] = Unit
Ascending (g ∷ gs) = All (λ h. g.day < h.day) gs × Ascending gs

-- A measure of the groups of a day.
abbrev pub of_day : {V : Type 0} → (V → ℕ) → (day : ℕ) → List (Day V) → ℕ
of_day m day [] = 0
of_day m day (g ∷ gs) =
    let rest = of_day m day gs in if g.day == day then m g.total + rest else rest

module _ {V : Type 0} (add : V → V → V) where
  later-All :
      (k day : ℕ) (v : V) (gs : List (Day V))
      → k < day
      → All (λ h. k < h.day) gs
      → All (λ h. k < h.day) (add_to_day add day v gs)
  later-All k day v [] lt h = (lt, tt)
  later-All k day v (g ∷ gs) lt (h, hs) = elim (Bool-cases (day == g.day)) [
    | inl same ↦ rw same (h, hs)
    | inr other ↦ elim (Bool-cases (ltb day g.day)) [
      | inl before ↦ rw (other, before) (lt, (h, hs))
      | inr after ↦ rw (other, after) (h, later-All k day v gs lt hs)
    ]
  ]

  below-All :
      (k j : ℕ) (gs : List (Day V)) → j < k → All (λ h. k < h.day) gs → All (λ h. j < h.day) gs
  below-All k j [] lt h = tt
  below-All k j (g ∷ gs) lt (h, hs) = (omega (arith, lt, h), below-All k j gs lt hs)

  add_to_day-Ascending :
      (day : ℕ) (v : V) (gs : List (Day V)) → Ascending gs → Ascending (add_to_day add day v gs)
  add_to_day-Ascending day v [] h = (tt, tt)
  add_to_day-Ascending day v (g ∷ gs) (h, hs) = elim (Bool-cases (day == g.day)) [
    | inl same ↦ rw same (h, hs)
    | inr other ↦ elim (Bool-cases (ltb day g.day)) [
      | inl before ↦
          let lt : day < g.day = ground arith in
          rw (other, before) ((lt, below-All g.day day gs lt h), (h, hs))
      | inr after ↦
          let lt : g.day < day = ground arith in
          rw (other, after) (later-All g.day day v gs lt h, add_to_day-Ascending day v gs hs)
    ]
  ]

  add_to_day-of_day :
      (m : V → ℕ) (d day : ℕ) (v : V) (gs : List (Day V))
      → ((a b : V) → m (add a b) ≡ m a + m b)
      → of_day m d (add_to_day add day v gs) ≡ (if day == d then m v else 0) + of_day m d gs
  add_to_day-of_day m d day v [] h = ground arith
  add_to_day-of_day m d day v (g ∷ gs) h =
      let rest = add_to_day-of_day m d day v gs h in ground (arith, h v g.total)

  module _ {A : Type 0} (day : A → ℕ) (value : A → V) where
    group_by_day-Ascending : (xs : List A) → Ascending (group_by_day add day value xs)
    group_by_day-Ascending [] = tt
    group_by_day-Ascending (x ∷ xs) =
        add_to_day-Ascending (day x) (value x) (group_by_day add day value xs)
          (group_by_day-Ascending xs)

    group_by_day-of_day :
        (m : V → ℕ) (d : ℕ) (xs : List A)
        → ((a b : V) → m (add a b) ≡ m a + m b)
        → of_day m d (group_by_day add day value xs)
          ≡ sum (map (λ x. m (value x)) (filter (λ x. day x == d) xs))
    group_by_day-of_day m d [] h = refl
    group_by_day-of_day m d (x ∷ xs) h =
        let rest = group_by_day-of_day m d xs h in
        add_to_day-of_day m d (day x) (value x) (group_by_day add day value xs) h
        ∙ elim (Bool-cases (day x == d)) [
          | inl hit ↦ rw hit (omega (arith, rest))
          | inr miss ↦ rw miss (omega (arith, rest))
        ]

-- A session of the café that started at one of the bounds or between them.
abbrev pub is_reported : (cafe_id from to : ℕ) → SessionRow → Bool
is_reported cafe_id from to s =
    cafe_id == s.cafe_id && (not (ltb s.started_at from) && not (ltb to s.started_at))

reported-filter :
    (day_of : ℕ → ℕ) (cafe_id from to day : ℕ) (rows : List SessionRow)
    → filter
        (λ s. day_of s.started_at == day)
        (filter (λ s. s.cafe_id == cafe_id && (leb from s.started_at && leb s.started_at to)) rows)
      ≡ filter (λ s. is_reported cafe_id from to s && day_of s.started_at == day) rows
reported-filter day_of cafe_id from to day [] = refl
reported-filter day_of cafe_id from to day (s ∷ rows) =
    let rest = reported-filter day_of cafe_id from to day rows in ground arith

sum-ones : (xs : List SessionRow) → sum (map (λ x. 1) xs) ≡ length xs
sum-ones [] = refl
sum-ones (x ∷ xs) = omega (arith, sum-ones xs)

-- The days of a session report ascend without repetition, and what it says of any day is the number,
-- the minutes, planned and extended, and the prices of the sessions of the user's café that started on
-- that day and between the bounds, these included; a day that it leaves out has none.
pub handle_session_report-days :
    (day_of : ℕ → ℕ) (user : UserClaims) (from to day : ℕ) (w : World)
    → let report = handle_session_report day_of user from to w in
      let rows =
        filter (λ s. is_reported user.cafe_id from to s && day_of s.started_at == day) w.sessions in
      Ascending report
      × (of_day (λ t. t.sessions) day report ≡ length rows)
      × (of_day (λ t. t.minutes) day report
          ≡ sum (map (λ s. s.planned_minutes + s.extended_minutes) rows))
      × (of_day (λ t. t.revenue) day report ≡ sum (map (λ s. s.price_amount) rows))
unfolding handle_session_report
handle_session_report-days day_of user from to day w =
    let xs = reported_sessions user.cafe_id from to w in
    let of =
      λ (m : SessionTotals → ℕ) (h : (a b : SessionTotals) → m (add_sessions a b) ≡ m a + m b).
        group_by_day-of_day add_sessions (λ s. day_of s.started_at) session_totals m day xs h in
    rw (sym (reported-filter day_of user.cafe_id from to day w.sessions)) (
      group_by_day-Ascending add_sessions (λ s. day_of s.started_at) session_totals xs,
      of (λ t. t.sessions) (λ a b. refl) ∙ sum-ones (filter (λ s. day_of s.started_at == day) xs),
      of (λ t. t.minutes) (λ a b. refl),
      of (λ t. t.revenue) (λ a b. refl),
    )
