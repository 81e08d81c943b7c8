-- ===== src/Tests/Sittings.antt =====
-- Histories of sessions on one machine.
use gaming_cafe_management.Prelude.{◌≤◌, ◌≡◌, refl, true, false, List, [], ◌∷◌, none, some, arith}
use gaming_cafe_management.Shared.{
  SessionStatus, SessionOrigin, problem, session_not_active, session_not_paused, pc_busy,
}
use gaming_cafe_management.World.Action.{ok, err}
use gaming_cafe_management.Sessions.{session_by_id, to_session_dto}
use gaming_cafe_management.Sessions.Start.{
  StartInput, StartResponse, handle_start_session, new_session,
}
use gaming_cafe_management.Sessions.Handlers.{
  pause, resume, handle_extend_session, handle_transition,
}
use gaming_cafe_management.Sessions.Effects.{start_price}
use gaming_cafe_management.Sessions.Calls.{Call, start, extend, transition, sweep, run}
use gaming_cafe_management.Sessions.Admission.{handle_start_session-Started}
use gaming_cafe_management.Sessions.Extensions.{handle_extend_session-Extended}
use gaming_cafe_management.Sessions.Transitions.{handle_transition-Transitioned}
use gaming_cafe_management.Sessions.Terminal.{run-terminal}
use gaming_cafe_management.Sessions.Occupancy.{
  AtMostOne, count_occupying, run-AtMostOne, resume_doubles,
}
use gaming_cafe_management.Sessions.Again.{handle_start_session-twice}
use gaming_cafe_management.Tests.Fixtures.{user, machine, sitting, cafe, with_sessions}

-- A start with a key.
abbrev request : StartInput
request = record {
  pc_id = 3;
  customer_id = none;
  planned_minutes = 30;
  origin = SessionOrigin.admin;
  idempotency_key = some 99;
}

abbrev history : List Call
history =
    start 60000000 40 user request
    ∷ extend 60060000 user 40 15
    ∷ transition 60120000 41 user pause 40
    ∷ sweep 90000000
    ∷ []

run-AtMostOne_example : AtMostOne (run history cafe).sessions
run-AtMostOne_example =
    run-AtMostOne history cafe ((λ h. h), ((λ h. h), ((λ h. h), ((λ h. h), tt))))
      (λ pc. omega arith)

abbrev running : SessionStatus
running = SessionStatus.active

run-terminal_example :
    session_by_id 40 (run history (with_sessions (sitting SessionStatus.ended ∷ []))).sessions
    ≡ some (sitting SessionStatus.ended)
run-terminal_example =
    run-terminal history 40 (sitting SessionStatus.ended)
      (with_sessions (sitting SessionStatus.ended ∷ [])) refl refl

resume_doubles_example :
    let s = sitting SessionStatus.paused in
    let w = with_sessions (s ∷ record (sitting running) { id = 41 } ∷ []) in
    let r = handle_transition 60120000 50 user resume 40 w in
    (r.0 ≡ ok (to_session_dto (record s { status = SessionStatus.active })))
    × (2 ≤ count_occupying 3 r.1.sessions)
resume_doubles_example =
    resume_doubles 60120000 50 user 40 (sitting SessionStatus.paused)
      (with_sessions (sitting SessionStatus.paused ∷ record (sitting running) { id = 41 } ∷ []))
      refl refl refl (omega arith)

handle_start_session-Started_example :
    handle_start_session 60000000 41 user request (with_sessions (sitting running ∷ []))
    ≡ (err (problem 409 pc_busy), with_sessions (sitting running ∷ []))
handle_start_session-Started_example =
    handle_start_session-Started 60000000 41 user request (with_sessions (sitting running ∷ []))
      refl

handle_extend_session-Extended_example :
    handle_extend_session 60060000 user 40 15 (with_sessions (sitting SessionStatus.paused ∷ []))
    ≡ (err (problem 409 session_not_active), with_sessions (sitting SessionStatus.paused ∷ []))
handle_extend_session-Extended_example =
    handle_extend_session-Extended 60060000 user 40 15
      (with_sessions (sitting SessionStatus.paused ∷ []))

handle_transition-Transitioned_example :
    handle_transition 60060000 50 user resume 40 (with_sessions (sitting running ∷ []))
    ≡ (err (problem 409 session_not_paused), with_sessions (sitting running ∷ []))
handle_transition-Transitioned_example =
    handle_transition-Transitioned 60060000 50 user resume 40 (with_sessions (sitting running ∷ []))

abbrev first_answer : StartResponse
first_answer = record {
  session = to_session_dto (
      new_session 60000000 40 user request machine
        (start_price 60000000 user request machine cafe));
  existing = false;
}

handle_start_session-twice_example :
    let r = handle_start_session 60000000 40 user request cafe in
    let b : StartResponse = record { session = first_answer.session; existing = true } in
    handle_start_session 60005000 77 user request r.1 ≡ (ok b, r.1)
unfolding handle_start_session
handle_start_session-twice_example =
    handle_start_session-twice 60000000 60005000 40 77 user request 99 first_answer cafe refl refl
