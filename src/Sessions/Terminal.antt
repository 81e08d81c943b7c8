-- ===== src/Sessions/Terminal.antt =====
-- A session that has ended, was cancelled or has expired stays as it is.
use gaming_cafe_management.Sessions.Results.{applied-id, extended-id}
use gaming_cafe_management.Sessions.Lookup.{by_id-append, by_id-set_ne}
use mathlib.Core.Path.{subst}
use gaming_cafe_management.Prelude.{
  ℕ, ◌≡◌, ◌≢◌, ◌∙◌, inl, inr, Bool-cases, true, false, List, [], ◌∷◌, Option, some, arith, map,
  ◌==◌,
}
use gaming_cafe_management.Shared.{SessionStatus, session_status_eq}
use gaming_cafe_management.World.Tables.{SessionRow}
use gaming_cafe_management.World.{World}
use gaming_cafe_management.Sessions.{session_by_id, set_session}
use gaming_cafe_management.Sessions.Handlers.{is_terminal}
use gaming_cafe_management.Sessions.Expiry.{expire_session}
use gaming_cafe_management.Sessions.Effects.{transition-effect, extend-effect, start-effect}
use gaming_cafe_management.Sessions.Calls.{
  Call, start, extend, transition, sweep, step, run, sweep-effect,
}

-- The session `s` is in the table under its id, and is terminal.
abbrev pub IsOver : ℕ → SessionRow → List SessionRow → Type 0
IsOver id s rows = (session_by_id id rows ≡ some s) × (is_terminal s.status ≡ true)

-- An update of a session that is not terminal does not touch `s`.
set-IsOver :
    (id j : ℕ) (s t : SessionRow) (f : SessionRow → SessionRow) (rows : List SessionRow)
    → ((r : SessionRow) → (f r).id ≡ r.id)
    → session_by_id j rows ≡ some t
    → is_terminal t.status ≡ false
    → IsOver id s rows
    → IsOver id s (set_session j f rows)
set-IsOver id j s t f rows keep found live (at, over) =
    (by_id-set_ne id j f rows keep other ∙ at, over)
  where
    other : id ≢ j
    other e =
        let at' : session_by_id j rows ≡ some s =
          subst (λ (k : ℕ). session_by_id k rows ≡ some s) e at in
        ground arith

expire-id : (now : ℕ) (r : SessionRow) → (expire_session now r).id ≡ r.id
unfolding expire_session
expire-id now r = ground arith

expire-terminal :
    (now : ℕ) (r : SessionRow) → is_terminal r.status ≡ true → expire_session now r ≡ r
unfolding expire_session
expire-terminal now r h = ground arith

sweep-IsOver :
    (now id : ℕ) (s : SessionRow) (rows : List SessionRow)
    → IsOver id s rows
    → session_by_id id (map (expire_session now) rows) ≡ some s
sweep-IsOver now id s [] h = h.0
sweep-IsOver now id s (r ∷ rows) h = elim (Bool-cases (r.id == id)) [
  | inl mine ↦
      let p : ◌≡◌ {A = Option SessionRow} (some r) (some s) = rw mine at h.0 in
      let e : r ≡ s = cc in rw (expire-terminal now r (rw e h.1), mine) p
  | inr other ↦ rw (expire-id now r, other) (sweep-IsOver now id s rows (rw other at h.0, h.1))
]

active-not_terminal :
    (status : SessionStatus)
    → session_status_eq status SessionStatus.active ≡ true
    → is_terminal status ≡ false
active-not_terminal status h = ground arith

step-IsOver :
    (c : Call) (id : ℕ) (s : SessionRow) (w : World)
    → IsOver id s w.sessions
    → IsOver id s (step c w).sessions
unfolding step
step-IsOver (start now new_id user input) id s w h = elim (start-effect now new_id user input w) [
  | inl same ↦ rw same h
  | inr (pc, price, free, added) ↦ rw added (by_id-append id w.sessions _ s h.0, h.1)
]
step-IsOver (extend now user j minutes) id s w h = elim (extend-effect now user j minutes w) [
  | inl same ↦ rw same h
  | inr (t, price, found, mine, active, changed) ↦ rw changed (
      set-IsOver id j s t _ w.sessions (extended-id t minutes price) found
        (active-not_terminal t.status active) h)
]
step-IsOver (transition now new_id user apply j) id s w h =
    elim (transition-effect now new_id user apply j w) [
      | inl same ↦ rw same h
      | inr (t, found, mine, live, p, q, changed) ↦
          rw changed (set-IsOver id j s t _ w.sessions (applied-id now apply) found live h)
    ]
step-IsOver (sweep now) id s w h = rw (sweep-effect now w) (sweep-IsOver now id s w.sessions h, h.1)

-- Whatever requests to start, extend, end, cancel, pause or resume a session and whatever expiry
-- sweeps follow, a session that has ended, was cancelled or has expired is found under its id with
-- every column as it was.
pub run-terminal :
    (cs : List Call) (id : ℕ) (s : SessionRow) (w : World)
    → session_by_id id w.sessions ≡ some s
    → is_terminal s.status ≡ true
    → session_by_id id (run cs w).sessions ≡ some s
unfolding run
run-terminal [] id s w at over = at
run-terminal (c ∷ cs) id s w at over =
    let next = step-IsOver c id s w (at, over) in run-terminal cs id s (step c w) next.0 over
