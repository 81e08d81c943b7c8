-- ===== src/Sessions/Again.antt =====
-- A start request that is sent again with its key.
use gaming_cafe_management.Prelude.{
  ℕ, ◌≡◌, ◌≢◌, refl, true, false, List, [], ◌∷◌, ◌++◌, none, some, arith, find?, any, Option-cases,
  inl, inr, ==_refl,
}
use gaming_cafe_management.Auth.{UserClaims}
use gaming_cafe_management.World.Tables.{SessionRow, PcRow}
use gaming_cafe_management.Pricing.{PriceResult}
use gaming_cafe_management.World.{World}
use gaming_cafe_management.World.Action.{ok}
use gaming_cafe_management.Sessions.{to_session_dto}
use gaming_cafe_management.Sessions.Start.{
  StartInput, StartResponse, has_key, handle_start_session, new_session, valid_minutes,
}
use gaming_cafe_management.Sessions.Effects.{own_pc, start_price}

key-last :
    (key : ℕ) (rows : List SessionRow) (s : SessionRow)
    → find? (has_key key) rows ≡ none
    → has_key key s ≡ true
    → find? (has_key key) (rows ++ s ∷ []) ≡ some s
key-last key [] s h k = ground arith
key-last key (r ∷ rs) s h k = ground (arith, key-last key rs s)

none-any :
    (key : ℕ) (rows : List SessionRow)
    → find? (has_key key) rows ≡ none
    → any (has_key key) rows ≡ false
none-any key [] h = refl
none-any key (r ∷ rs) h = ground (arith, none-any key rs)

module _ (now new_id : ℕ) (user : UserClaims) (input : StartInput) (key : ℕ) (w : World)
    (keyed : input.idempotency_key ≡ some key) where
  known_lem :
      (s : SessionRow)
      → valid_minutes input.planned_minutes ≡ true
      → find? (has_key key) w.sessions ≡ some s
      → handle_start_session now new_id user input w
        ≡ (ok (record { session = to_session_dto s; existing = true }), w)
  unfolding handle_start_session
  known_lem s valid found = rw (valid, keyed, found) refl

  valid_lem :
      (a : StartResponse)
      → (handle_start_session now new_id user input w).0 ≡ ok a
      → valid_minutes input.planned_minutes ≡ true
  unfolding handle_start_session
  valid_lem a h = ground arith

  no_pc_lem :
      (a : StartResponse)
      → find? (has_key key) w.sessions ≡ none
      → own_pc user input w ≡ none
      → (handle_start_session now new_id user input w).0 ≢ ok a
  unfolding handle_start_session
  no_pc_lem a absent no_pc h = ground arith

  started_lem :
      (a : StartResponse) (pc : PcRow)
      → find? (has_key key) w.sessions ≡ none
      → any (has_key key) w.sessions ≡ false
      → own_pc user input w ≡ some pc
      → (handle_start_session now new_id user input w).0 ≡ ok a
      → let s = new_session now new_id user input pc (start_price now user input pc w) in
        (a.session ≡ to_session_dto s)
        × ((handle_start_session now new_id user input w).1.sessions ≡ w.sessions ++ s ∷ [])
  unfolding handle_start_session
  started_lem a pc absent none_there found h = ground arith

  keyed_lem :
      (pc : PcRow) (price : PriceResult)
      → has_key key (new_session now new_id user input pc price) ≡ true
  unfolding new_session
  keyed_lem pc price = rw keyed (==_refl key)

  fresh_lem :
      (a : StartResponse)
      → find? (has_key key) w.sessions ≡ none
      → (handle_start_session now new_id user input w).0 ≡ ok a
      → (s : SessionRow) × (a.session ≡ to_session_dto s)
        × (find? (has_key key) (handle_start_session now new_id user input w).1.sessions ≡ some s)
  fresh_lem a absent h = elim (Option-cases (own_pc user input w)) [
    | inl no_pc ↦ absurd (no_pc_lem a absent no_pc h)
    | inr (pc, found) ↦
        let price = start_price now user input pc w in
        let s = new_session now new_id user input pc price in
        let (session, added) = started_lem a pc absent (none-any key w.sessions absent) found h in
        (s, session, rw added (key-last key w.sessions s absent (keyed_lem pc price)))
  ]

-- A start with a key that succeeded and is sent again, at any time, is answered with the session of the
-- first answer, marked as existing, and changes nothing.
pub handle_start_session-twice :
    (now later new_id later_id : ℕ) (user : UserClaims) (input : StartInput) (key : ℕ)
    (a : StartResponse) (w : World)
    → input.idempotency_key ≡ some key
    → let r = handle_start_session now new_id user input w in
      r.0 ≡ ok a
      → let b : StartResponse = record { session = a.session; existing = true } in
        handle_start_session later later_id user input r.1 ≡ (ok b, r.1)
handle_start_session-twice now later new_id later_id user input key a w keyed h =
    let valid = valid_lem now new_id user input key w keyed a h in
    elim (Option-cases (find? (has_key key) w.sessions)) [
      | inr (s, found) ↦
          let first = known_lem now new_id user input key w keyed s valid found in
          let second = known_lem later later_id user input key w keyed s valid found in cc
      | inl absent ↦
          let (s, session, found) = fresh_lem now new_id user input key w keyed a absent h in
          let next = (handle_start_session now new_id user input w).1 in
          let second = known_lem later later_id user input key next keyed s valid found in cc
    ]
