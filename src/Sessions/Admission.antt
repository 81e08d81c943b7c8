-- ===== src/Sessions/Admission.antt =====
-- Which starts of apps/server/src/modules/sessions/start.ts are refused, with what problem, and what
-- the others leave.
use gaming_cafe_management.Prelude.{
  ℕ, ◌≡◌, refl, inl, inr, Bool, true, false, not, ◌&&◌, ◌||◌, List, [], ◌∷◌, ◌++◌, Option, none,
  some, arith, ltb, ◌==◌, any, find?, if◌then◌else◌, Bool-cases, Option-cases, sym,
}
use mathlib.Core.Path.{subst}
use gaming_cafe_management.Auth.{UserClaims}
use gaming_cafe_management.Shared.{
  HttpProblem, PcStatus, SessionStatus, problem, validation_error, pc_not_found, pc_not_available,
  pc_busy,
}
use gaming_cafe_management.World.Tables.{SessionRow, PcRow}
use gaming_cafe_management.World.{World, settle}
use gaming_cafe_management.World.Action.{Result, ok, err}
use gaming_cafe_management.Sessions.{to_session_dto, insert_session}
use gaming_cafe_management.Sessions.Start.{
  StartInput, StartResponse, handle_start_session, start_with_key, start_new, has_key,
  insert_session_record, valid_minutes, is_unavailable, occupies, new_session,
}
use gaming_cafe_management.Sessions.Effects.{own_pc, start_price}

-- A session in one of these states has its machine.
abbrev pub has_machine : SessionStatus → Bool
has_machine SessionStatus.active = true
has_machine SessionStatus.scheduled = true
has_machine _ = false

abbrev pub is_taken : (pc_id : ℕ) → List SessionRow → Bool
is_taken pc_id [] = false
is_taken pc_id (s ∷ ss) = s.pc_id == pc_id && has_machine s.status || is_taken pc_id ss

abbrev pub is_closed : PcStatus → Bool
is_closed PcStatus.maintenance = true
is_closed PcStatus.disabled = true
is_closed _ = false

abbrev pub machine_problem : Option PcRow → List SessionRow → Option HttpProblem
machine_problem none sessions = some (problem 404 pc_not_found)
machine_problem (some pc) sessions =
    if is_closed pc.status
    then some (problem 409 pc_not_available)
    else if is_taken pc.id sessions
    then some (problem 409 pc_busy)
    else none

-- What is wrong with a request to start a session, if anything is.
abbrev pub start_problem : UserClaims → StartInput → World → Option HttpProblem
start_problem user input w =
    if ltb input.planned_minutes 5 || ltb 1440 input.planned_minutes
    then some (problem 400 validation_error)
    else machine_problem (own_pc user input w) w.sessions

-- Whether a session has the request's key.
abbrev pub is_used : Option ℕ → List SessionRow → Bool
is_used none rows = false
is_used (some key) rows = any (has_key key) rows

-- How a start ends: refused with a problem and with no change at all, or with a new active session at
-- the end of the table, at the price of the stay.
abbrev pub Started :
    (now new_id : ℕ)
    → UserClaims
    → StartInput
    → World
    → Option HttpProblem
    → Result StartResponse × World
    → Type 0
Started now new_id user input w (some e) r = r ≡ (err e, w)
Started now new_id user input w none r =
    (pc : PcRow) × (own_pc user input w ≡ some pc)
    × (r.0
        ≡ ok (record {
          session =
              to_session_dto
                (new_session now new_id user input pc (start_price now user input pc w));
          existing = false;
        }))
    × (r.1.sessions
        ≡ w.sessions ++ new_session now new_id user input pc (start_price now user input pc w) ∷ [])

unused-find :
    (key : ℕ) (rows : List SessionRow)
    → any (has_key key) rows ≡ false
    → find? (has_key key) rows ≡ none
unused-find key [] h = refl
unused-find key (r ∷ rs) h = let rest = unused-find key rs in ground arith

start_with_key-unused :
    (now new_id : ℕ) (user : UserClaims) (input : StartInput) (key : Option ℕ) (w : World)
    → is_used key w.sessions ≡ false
    → start_with_key now new_id user input key w ≡ start_new now new_id user input w
unfolding start_with_key
start_with_key-unused now new_id user input none w h = refl
start_with_key-unused now new_id user input (some key) w h = rw (unused-find key w.sessions h) refl

insert-unused :
    (key : Option ℕ) (row : SessionRow) (w : World)
    → is_used key w.sessions ≡ false
    → insert_session_record key row w ≡ (ok (row, false), insert_session row w)
unfolding insert_session_record
insert-unused none row w h = refl
insert-unused (some key) row w h = rw h refl

pub valid_minutes_lem : (n : ℕ) → valid_minutes n ≡ not (ltb n 5 || ltb 1440 n)
valid_minutes_lem n = ground arith

is_taken_lem :
    (pc_id : ℕ) (rows : List SessionRow) → any (occupies pc_id) rows ≡ is_taken pc_id rows
is_taken_lem pc_id [] = refl
is_taken_lem pc_id (s ∷ ss) = let rest = is_taken_lem pc_id ss in ground arith

is_closed_lem : (s : PcStatus) → is_unavailable s ≡ is_closed s
is_closed_lem s = ground arith

module _ (now new_id : ℕ) (user : UserClaims) (input : StartInput) (w : World) where
  start-invalid :
      ltb input.planned_minutes 5 || ltb 1440 input.planned_minutes ≡ true
      → handle_start_session now new_id user input w ≡ (err (problem 400 validation_error), w)
  unfolding handle_start_session
  start-invalid h = rw (valid_minutes_lem input.planned_minutes, h) refl

  start-valid :
      ltb input.planned_minutes 5 || ltb 1440 input.planned_minutes ≡ false
      → is_used input.idempotency_key w.sessions ≡ false
      → handle_start_session now new_id user input w
        ≡ settle w.db (start_new now new_id user input w)
  unfolding handle_start_session
  start-valid h unused =
      rw
        (
          valid_minutes_lem input.planned_minutes,
          h,
          start_with_key-unused now new_id user input input.idempotency_key w unused,
        )
        refl

  start_new-absent :
      own_pc user input w ≡ none
      → start_new now new_id user input w ≡ (err (problem 404 pc_not_found), w)
  unfolding start_new
  start_new-absent h = rw h refl

  module _ (pc : PcRow) (found : own_pc user input w ≡ some pc) where
    start_new-closed :
        is_closed pc.status ≡ true
        → start_new now new_id user input w ≡ (err (problem 409 pc_not_available), w)
    unfolding start_new
    start_new-closed h = rw (found, is_closed_lem pc.status, h) refl

    start_new-taken :
        is_closed pc.status ≡ false
        → is_taken pc.id w.sessions ≡ true
        → start_new now new_id user input w ≡ (err (problem 409 pc_busy), w)
    unfolding start_new
    start_new-taken c h =
        rw (found, is_closed_lem pc.status, c, is_taken_lem pc.id w.sessions, h) refl

    start_new-free :
        is_closed pc.status ≡ false
        → is_taken pc.id w.sessions ≡ false
        → is_used input.idempotency_key w.sessions ≡ false
        → Started now new_id user input w none (start_new now new_id user input w)
    unfolding start_new insert_session
    start_new-free c h unused =
        let row = new_session now new_id user input pc (start_price now user input pc w) in
        let put = insert-unused input.idempotency_key row w unused in
        (
          pc,
          found,
          rw (found, is_closed_lem pc.status, c, is_taken_lem pc.id w.sessions, h, put) refl,
          rw (found, is_closed_lem pc.status, c, is_taken_lem pc.id w.sessions, h, put) refl,
        )

settle-Started :
    (now new_id : ℕ) (user : UserClaims) (input : StartInput) (w : World)
    (r : Result StartResponse × World)
    → Started now new_id user input w none r
    → Started now new_id user input w none (settle w.db r)
settle-Started now new_id user input w (ok a, v) h = h
settle-Started now new_id user input w (err e, v) (pc, found, h, k) = absurd (ground arith)

start_new-Started :
    (now new_id : ℕ) (user : UserClaims) (input : StartInput) (w : World)
    → is_used input.idempotency_key w.sessions ≡ false
    → Started now new_id user input w
        (machine_problem (own_pc user input w) w.sessions)
        (settle w.db (start_new now new_id user input w))
start_new-Started now new_id user input w unused = elim (Option-cases (own_pc user input w)) [
  | inl absent ↦ rw (absent, start_new-absent now new_id user input w absent) refl
  | inr (pc, found) ↦ elim (Bool-cases (is_closed pc.status)) [
    | inl closed ↦ rw (found, closed, start_new-closed now new_id user input w pc found closed) refl
    | inr c ↦ elim (Bool-cases (is_taken pc.id w.sessions)) [
      | inl h ↦ rw (found, c, h, start_new-taken now new_id user input w pc found c h) refl
      | inr h ↦
          let made = start_new-free now new_id user input w pc found c h unused in
          let kept =
            settle-Started now new_id user input w (start_new now new_id user input w) made in
          let problem_free : machine_problem (own_pc user input w) w.sessions ≡ none =
            rw (found, c, h) refl in
          subst
            (λ p.
              Started now new_id user input w p (settle w.db (start_new now new_id user input w)))
            (sym problem_free) kept
    ]
  ]
]

-- A request to start a session whose key, if it has one, no session has is refused with 400 unless it
-- asks for 5 to 1440 minutes, with 404 unless the machine is one of the user's café, with 409 where the
-- machine is disabled or in maintenance, and with 409 where an active or scheduled session has it. A
-- refusal leaves the whole state as it was; every other request succeeds, and adds a session that the
-- answer gives, at the end of the table and at the price of the stay.
pub handle_start_session-Started :
    (now new_id : ℕ) (user : UserClaims) (input : StartInput) (w : World)
    → is_used input.idempotency_key w.sessions ≡ false
    → Started now new_id user input w
        (start_problem user input w)
        (handle_start_session now new_id user input w)
handle_start_session-Started now new_id user input w unused =
    elim (Bool-cases (ltb input.planned_minutes 5 || ltb 1440 input.planned_minutes)) [
      | inl bad ↦ rw (bad, start-invalid now new_id user input w bad) refl
      | inr good ↦
          rw (good, start-valid now new_id user input w good unused)
            (start_new-Started now new_id user input w unused)
    ]
