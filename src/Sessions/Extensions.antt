-- ===== src/Sessions/Extensions.antt =====
-- Which extensions of apps/server/src/modules/sessions/handlers.ts are refused, with what problem, and
-- what the others leave.
use gaming_cafe_management.Prelude.{
  ℕ, ◌+◌, ◌*◌, ◌≡◌, refl, inl, inr, Bool, true, false, ◌||◌, Option, none, some, arith, ltb, ◌==◌,
  find?, if◌then◌else◌, Bool-cases, Option-cases,
}
use gaming_cafe_management.Auth.{UserClaims}
use gaming_cafe_management.Shared.{
  HttpProblem, SessionStatus, problem, validation_error, session_not_found, session_not_active,
  internal, session_status_eq,
}
use gaming_cafe_management.World.Tables.{SessionRow, PcRow}
use gaming_cafe_management.World.{World}
use gaming_cafe_management.World.Action.{Result, ok, err}
use gaming_cafe_management.Sessions.{SessionDto, to_session_dto, session_by_id}
use gaming_cafe_management.Sessions.Start.{valid_minutes}
use gaming_cafe_management.Sessions.Handlers.{handle_extend_session}
use gaming_cafe_management.Sessions.Effects.{stay_price}
use gaming_cafe_management.Sessions.Results.{extend_result}
use gaming_cafe_management.Sessions.Admission.{valid_minutes_lem}

abbrev pub is_running : SessionStatus → Bool
is_running SessionStatus.active = true
is_running _ = false

-- What is wrong with an extension of a session that was found, if anything is.
abbrev pub session_problem : UserClaims → SessionRow → Option PcRow → Option HttpProblem
session_problem user s pc =
    if s.cafe_id == user.cafe_id
    then if is_running s.status
      then elim pc [ none ↦ some (problem 500 internal) | some p ↦ none ]
      else some (problem 409 session_not_active)
    else some (problem 404 session_not_found)

abbrev pub pc_of : SessionRow → World → Option PcRow
pc_of s w = find? (λ p. p.id == s.pc_id) w.pcs

-- What is wrong with a request to extend a session, if anything is.
abbrev pub extend_problem :
    UserClaims → (minutes : ℕ) → Option SessionRow → World → Option HttpProblem
extend_problem user minutes found w =
    if ltb minutes 5 || ltb 1440 minutes then some (problem 400 validation_error) else elim found [
      | none ↦ some (problem 404 session_not_found)
      | some s ↦ session_problem user s (pc_of s w)
    ]

-- How an extension ends: refused with a problem and with no change at all, or with the session of the
-- user's café extended, at the price of the whole stay.
abbrev pub Extended :
    UserClaims → (id minutes : ℕ) → World → Option HttpProblem → Result SessionDto × World → Type 0
Extended user id minutes w (some e) r = r ≡ (err e, w)
Extended user id minutes w none r =
    (s : SessionRow) × (pc : PcRow) × (session_by_id id w.sessions ≡ some s)
    × (pc_of s w ≡ some pc)
    × (let price = stay_price user s minutes pc w in
        let next = record s {
          expires_at = s.expires_at + minutes * 60000;
          extended_minutes = s.extended_minutes + minutes;
          price_amount = price.amount;
          pricing_breakdown = price.breakdown;
        } in
        (r.0 ≡ ok (to_session_dto next)) × (session_by_id id r.1.sessions ≡ some next))

is_running_lem : (st : SessionStatus) → session_status_eq st SessionStatus.active ≡ is_running st
is_running_lem st = ground arith

running-active : (st : SessionStatus) → is_running st ≡ true → st ≡ SessionStatus.active
running-active st h = ground arith

module _ (now : ℕ) (user : UserClaims) (id minutes : ℕ) (w : World) where
  extend-invalid :
      ltb minutes 5 || ltb 1440 minutes ≡ true
      → handle_extend_session now user id minutes w ≡ (err (problem 400 validation_error), w)
  unfolding handle_extend_session
  extend-invalid h = rw (valid_minutes_lem minutes, h) refl

  module _ (valid : ltb minutes 5 || ltb 1440 minutes ≡ false) where
    extend-absent :
        session_by_id id w.sessions ≡ none
        → handle_extend_session now user id minutes w ≡ (err (problem 404 session_not_found), w)
    unfolding handle_extend_session
    extend-absent h = rw (valid_minutes_lem minutes, valid, h) refl

    module _ (s : SessionRow) (found : session_by_id id w.sessions ≡ some s) where
      extend-foreign :
          s.cafe_id == user.cafe_id ≡ false
          → handle_extend_session now user id minutes w ≡ (err (problem 404 session_not_found), w)
      unfolding handle_extend_session
      extend-foreign h = rw (valid_minutes_lem minutes, valid, found, h) refl

      module _ (mine : s.cafe_id == user.cafe_id ≡ true) where
        extend-inactive :
            is_running s.status ≡ false
            → handle_extend_session now user id minutes w
              ≡ (err (problem 409 session_not_active), w)
        unfolding handle_extend_session
        extend-inactive h =
            rw (valid_minutes_lem minutes, valid, found, mine, is_running_lem s.status, h) refl

        extend-lost :
            is_running s.status ≡ true
            → pc_of s w ≡ none
            → handle_extend_session now user id minutes w ≡ (err (problem 500 internal), w)
        unfolding handle_extend_session
        extend-lost h lost =
            rw (valid_minutes_lem minutes, valid, found, mine, is_running_lem s.status, h, lost)
              refl

        extend-Extended :
            Extended user id minutes w
              (session_problem user s (pc_of s w))
              (handle_extend_session now user id minutes w)
        extend-Extended = elim (Bool-cases (is_running s.status)) [
          | inr idle ↦ rw (mine, idle) (extend-inactive idle)
          | inl runs ↦ elim (Option-cases (pc_of s w)) [
            | inl lost ↦ rw (mine, runs, lost) (extend-lost runs lost)
            | inr (pc, at) ↦
                let active = running-active s.status runs in
                let own : s.cafe_id ≡ user.cafe_id = ground arith in
                let valid_too : valid_minutes minutes ≡ true =
                  rw (valid_minutes_lem minutes, valid) refl in
                rw (mine, runs, at)
                  (
                    s,
                    pc,
                    found,
                    at,
                    extend_result now user id minutes s pc w valid_too found own active at,
                  )
          ]
        ]

-- A request to extend a session is refused with 400 unless it asks for 5 to 1440 minutes, with 404
-- unless the session is one of the user's café, with 409 unless it is active, and with 500 where its
-- machine is not in the table. A refusal leaves the whole state as it was; every other request
-- succeeds, and the answer and the table have the session extended by the minutes, at the price of the
-- whole stay.
pub handle_extend_session-Extended :
    (now : ℕ) (user : UserClaims) (id minutes : ℕ) (w : World)
    → Extended user id minutes w
        (extend_problem user minutes (session_by_id id w.sessions) w)
        (handle_extend_session now user id minutes w)
handle_extend_session-Extended now user id minutes w =
    elim (Bool-cases (ltb minutes 5 || ltb 1440 minutes)) [
      | inl bad ↦ rw bad (extend-invalid now user id minutes w bad)
      | inr valid ↦ elim (Option-cases (session_by_id id w.sessions)) [
        | inl absent ↦ rw (valid, absent) (extend-absent now user id minutes w valid absent)
        | inr (s, found) ↦ elim (Bool-cases (s.cafe_id == user.cafe_id)) [
          | inr other ↦
              rw (valid, found, other) (extend-foreign now user id minutes w valid s found other)
          | inl mine ↦ rw (valid, found) (extend-Extended now user id minutes w valid s found mine)
        ]
      ]
    ]
