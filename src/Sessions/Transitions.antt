-- ===== src/Sessions/Transitions.antt =====
-- Which transitions of apps/server/src/modules/sessions/handlers.ts are refused, with what problem, and
-- what the others leave.
use gaming_cafe_management.Prelude.{
  ℕ, ◌≡◌, refl, inl, inr, true, false, Option, none, some, arith, ◌==◌, if◌then◌else◌, Bool-cases,
  Option-cases,
}
use gaming_cafe_management.Auth.{UserClaims}
use gaming_cafe_management.Shared.{
  HttpProblem, SessionStatus, problem, session_not_found, session_not_active,
  session_already_terminal, session_not_paused,
}
use gaming_cafe_management.World.Tables.{SessionRow}
use gaming_cafe_management.World.{World}
use gaming_cafe_management.World.Action.{Result, ok, err}
use gaming_cafe_management.Sessions.{SessionDto, to_session_dto, session_by_id, set_session}
use gaming_cafe_management.Sessions.Handlers.{
  Apply, pause, resume, handle_transition, applied, is_terminal, pause_refused, resume_refused,
}
use gaming_cafe_management.Sessions.Results.{transition_result}

-- What is wrong with a transition of a session in a state, if anything is.
abbrev pub status_problem : Apply → SessionStatus → Option HttpProblem
status_problem apply SessionStatus.ended = some (problem 409 session_already_terminal)
status_problem apply SessionStatus.cancelled = some (problem 409 session_already_terminal)
status_problem apply SessionStatus.expired = some (problem 409 session_already_terminal)
status_problem pause SessionStatus.active = none
status_problem pause _ = some (problem 409 session_not_active)
status_problem resume SessionStatus.paused = none
status_problem resume _ = some (problem 409 session_not_paused)
status_problem _ _ = none

abbrev pub found_problem : Apply → UserClaims → Option SessionRow → Option HttpProblem
found_problem apply user none = some (problem 404 session_not_found)
found_problem apply user (some s) =
    if s.cafe_id == user.cafe_id
    then status_problem apply s.status
    else some (problem 404 session_not_found)

-- How a transition ends: refused with a problem and with no change at all, or with the session of the
-- user's café in its next state.
abbrev pub Transitioned :
    (now : ℕ)
    → UserClaims
    → Apply
    → (id : ℕ) → World
    → Option HttpProblem
    → Result SessionDto × World
    → Type 0
Transitioned now user apply id w (some e) r = r ≡ (err e, w)
Transitioned now user apply id w none r =
    (s : SessionRow) × (session_by_id id w.sessions ≡ some s)
    × (s.cafe_id ≡ user.cafe_id)
    × (r.0 ≡ ok (to_session_dto (applied now apply s)))
    × (r.1.sessions ≡ set_session id (applied now apply) w.sessions)

status_problem_lem :
    (apply : Apply) (st : SessionStatus)
    → status_problem apply st ≡ (
        if is_terminal st
        then some (problem 409 session_already_terminal)
        else if pause_refused apply st
        then some (problem 409 session_not_active)
        else if resume_refused apply st
        then some (problem 409 session_not_paused)
        else none)
status_problem_lem apply st = ground arith

module _ (now new_id : ℕ) (user : UserClaims) (apply : Apply) (id : ℕ) (w : World) where
  transition-absent :
      session_by_id id w.sessions ≡ none
      → handle_transition now new_id user apply id w ≡ (err (problem 404 session_not_found), w)
  unfolding handle_transition
  transition-absent h = rw h refl

  module _ (s : SessionRow) (found : session_by_id id w.sessions ≡ some s) where
    transition-foreign :
        s.cafe_id == user.cafe_id ≡ false
        → handle_transition now new_id user apply id w ≡ (err (problem 404 session_not_found), w)
    unfolding handle_transition
    transition-foreign h = rw (found, h) refl

    module _ (mine : s.cafe_id == user.cafe_id ≡ true) where
      transition-terminal :
          is_terminal s.status ≡ true
          → handle_transition now new_id user apply id w
            ≡ (err (problem 409 session_already_terminal), w)
      unfolding handle_transition
      transition-terminal h = rw (found, mine, h) refl

      transition-inactive :
          is_terminal s.status ≡ false
          → pause_refused apply s.status ≡ true
          → handle_transition now new_id user apply id w ≡ (err (problem 409 session_not_active), w)
      unfolding handle_transition
      transition-inactive t h = rw (found, mine, t, h) refl

      transition-unpaused :
          is_terminal s.status ≡ false
          → pause_refused apply s.status ≡ false
          → resume_refused apply s.status ≡ true
          → handle_transition now new_id user apply id w ≡ (err (problem 409 session_not_paused), w)
      unfolding handle_transition
      transition-unpaused t p h = rw (found, mine, t, p, h) refl

      transition-Transitioned :
          Transitioned now user apply id w
            (status_problem apply s.status)
            (handle_transition now new_id user apply id w)
      transition-Transitioned =
          let own : s.cafe_id ≡ user.cafe_id = ground arith in
          rw (status_problem_lem apply s.status) (elim (Bool-cases (is_terminal s.status)) [
            | inl t ↦ rw t (transition-terminal t)
            | inr t ↦ elim (Bool-cases (pause_refused apply s.status)) [
              | inl p ↦ rw (t, p) (transition-inactive t p)
              | inr p ↦ elim (Bool-cases (resume_refused apply s.status)) [
                | inl r ↦ rw (t, p, r) (transition-unpaused t p r)
                | inr r ↦
                    let done =
                      transition_result now new_id user apply id s w found (own, t, p, r) in
                    rw (t, p, r) (s, found, own, done.0, done.1)
              ]
            ]
          ])

-- A request to end, cancel, pause or resume a session is refused with 404 unless the session is one of
-- the user's café, with 409 where it has ended, was cancelled or has expired, with 409 where it is to
-- be paused and is not active, and with 409 where it is to be resumed and is not paused. A refusal
-- leaves the whole state as it was; every other request succeeds, is answered with the session in its
-- next state, and sets that session's columns in the table, where every other session stays as it was.
pub handle_transition-Transitioned :
    (now new_id : ℕ) (user : UserClaims) (apply : Apply) (id : ℕ) (w : World)
    → Transitioned now user apply id w
        (found_problem apply user (session_by_id id w.sessions))
        (handle_transition now new_id user apply id w)
handle_transition-Transitioned now new_id user apply id w =
    elim (Option-cases (session_by_id id w.sessions)) [
      | inl absent ↦ rw absent (transition-absent now new_id user apply id w absent)
      | inr (s, found) ↦ elim (Bool-cases (s.cafe_id == user.cafe_id)) [
        | inr other ↦
            rw (found, other) (transition-foreign now new_id user apply id w s found other)
        | inl mine ↦
            rw (found, mine) (transition-Transitioned now new_id user apply id w s found mine)
      ]
    ]
