-- ===== src/Sessions/Occupancy.antt =====
-- How many sessions occupy a machine.
use gaming_cafe_management.Sessions.Results.{resume_result}
use gaming_cafe_management.Prelude.{
  ℕ, ◌+◌, ◌≤◌, ◌≡◌, ◌≢◌, refl, inl, inr, true, false, List, [], ◌∷◌, ◌++◌, arith, All, any, map,
  if◌then◌else◌, some, ◌<◌,
}
use gaming_cafe_management.Pricing.{PriceResult}
use gaming_cafe_management.Auth.{UserClaims}
use gaming_cafe_management.Shared.{SessionStatus}
use gaming_cafe_management.World.Tables.{SessionRow, PcRow}
use gaming_cafe_management.World.{World}
use gaming_cafe_management.World.Action.{ok}
use gaming_cafe_management.Sessions.{session_by_id, set_session, to_session_dto}
use gaming_cafe_management.Sessions.Start.{StartInput, new_session, occupies}
use gaming_cafe_management.Sessions.Handlers.{
  Apply, end, cancel, pause, resume, applied, extended_session, handle_transition,
}
use gaming_cafe_management.Sessions.Expiry.{expire_session}
use gaming_cafe_management.Sessions.Effects.{transition-effect, extend-effect, start-effect}
use gaming_cafe_management.Sessions.Calls.{
  Call, start, extend, transition, sweep, step, run, sweep-effect,
}

-- The sessions that are active or scheduled on a machine.
abbrev pub count_occupying : ℕ → List SessionRow → ℕ
count_occupying pc [] = 0
count_occupying pc (s ∷ ss) = (if occupies pc s then 1 else 0) + count_occupying pc ss

count-append :
    (pc : ℕ) (xs : List SessionRow) (s : SessionRow)
    → count_occupying pc (xs ++ s ∷ []) ≡ count_occupying pc xs + (if occupies pc s then 1 else 0)
count-append pc [] s = omega arith
count-append pc (x ∷ xs) s = omega (arith, count-append pc xs s)

count-none :
    (pc : ℕ) (xs : List SessionRow) → any (occupies pc) xs ≡ false → count_occupying pc xs ≡ 0
count-none pc [] h = refl
count-none pc (x ∷ xs) h = ground (arith, count-none pc xs)

-- An update after which no session occupies a machine that it did not occupy before.
abbrev Vacates : (SessionRow → SessionRow) → Type 0
Vacates f = (pc : ℕ) (r : SessionRow) → occupies pc (f r) ≡ true → occupies pc r ≡ true

count-set :
    (pc id : ℕ) (f : SessionRow → SessionRow) (xs : List SessionRow)
    → Vacates f
    → count_occupying pc (set_session id f xs) ≤ count_occupying pc xs
count-set pc id f [] v = omega arith
count-set pc id f (x ∷ xs) v = ground (arith, v pc x, count-set pc id f xs v)

count-map :
    (pc : ℕ) (f : SessionRow → SessionRow) (xs : List SessionRow)
    → Vacates f
    → count_occupying pc (map f xs) ≤ count_occupying pc xs
count-map pc f [] v = omega arith
count-map pc f (x ∷ xs) v = ground (arith, v pc x, count-map pc f xs v)

extended-Vacates :
    (s : SessionRow) (minutes : ℕ) (price : PriceResult)
    → Vacates (extended_session s minutes price)
unfolding extended_session
extended-Vacates s minutes price pc r h = h

applied-Vacates : (now : ℕ) (apply : Apply) → apply ≢ resume → Vacates (applied now apply)
unfolding applied
applied-Vacates now end ne pc r h = ground arith
applied-Vacates now cancel ne pc r h = ground arith
applied-Vacates now pause ne pc r h = ground arith
applied-Vacates now resume ne pc r h = absurd (ne refl)

expire-Vacates : (now : ℕ) → Vacates (expire_session now)
unfolding expire_session
expire-Vacates now pc r h = ground arith

-- No machine is occupied by two sessions.
abbrev pub AtMostOne : List SessionRow → Type 0
AtMostOne rows = (pc : ℕ) → count_occupying pc rows ≤ 1

start-AtMostOne :
    (now new_id : ℕ) (user : UserClaims) (input : StartInput) (pc : PcRow) (price : PriceResult)
    (rows : List SessionRow)
    → any (occupies pc.id) rows ≡ false
    → AtMostOne rows
    → AtMostOne (rows ++ new_session now new_id user input pc price ∷ [])
unfolding new_session
start-AtMostOne now new_id user input pc price rows free one q =
    let new = new_session now new_id user input pc price in
    ground (arith, count-append q rows new, count-none pc.id rows free, one q)

abbrev pub IsResumption : Call → Type 0
IsResumption (transition now new_id user resume id) = Unit
IsResumption _ = ⊥

step-AtMostOne :
    (c : Call) (w : World) → ¬ IsResumption c → AtMostOne w.sessions → AtMostOne (step c w).sessions
unfolding step
step-AtMostOne (start now new_id user input) w n one = elim (start-effect now new_id user input w) [
  | inl same ↦ rw same one
  | inr (pc, price, free, added) ↦
      rw added (start-AtMostOne now new_id user input pc price w.sessions free one)
]
step-AtMostOne (extend now user id minutes) w n one = elim (extend-effect now user id minutes w) [
  | inl same ↦ rw same one
  | inr (s, price, found, mine, active, changed) ↦
      let f = extended_session s minutes price in
      rw changed
        λ q. omega (arith, count-set q id f w.sessions (extended-Vacates s minutes price), one q)
]
step-AtMostOne (transition now new_id user apply id) w n one =
    elim (transition-effect now new_id user apply id w) [
      | inl same ↦ rw same one
      | inr (s, found, mine, live, p, r, changed) ↦ rw changed λ q. omega (
        arith,
        count-set q id (applied now apply) w.sessions
            (applied-Vacates now apply (not_resume apply n)),
        one q,
      )
    ]
  where
    not_resume : (a : Apply) → ¬ IsResumption (transition now new_id user a id) → a ≢ resume
    not_resume end k e = cc
    not_resume cancel k e = cc
    not_resume pause k e = cc
    not_resume resume k e = k tt
step-AtMostOne (sweep now) w n one =
    rw (sweep-effect now w)
      λ q. omega (arith, count-map q (expire_session now) w.sessions (expire-Vacates now), one q)

-- From a table in which no machine has two active or scheduled sessions, every history of starts,
-- extensions, ends, cancellations, pauses and sweeps leads to such a table. Resumptions are left out.
pub run-AtMostOne :
    (cs : List Call) (w : World)
    → All (λ c. ¬ IsResumption c) cs
    → AtMostOne w.sessions
    → AtMostOne (run cs w).sessions
unfolding run
run-AtMostOne [] w h one = one
run-AtMostOne (c ∷ cs) w h one = run-AtMostOne cs (step c w) h.1 (step-AtMostOne c w h.0 one)

-- A resumption takes no session off a machine.
count-resume_le :
    (pc id now : ℕ) (rows : List SessionRow)
    → count_occupying pc rows ≤ count_occupying pc (set_session id (applied now resume) rows)
unfolding applied
count-resume_le pc id now [] = omega arith
count-resume_le pc id now (r ∷ rows) = ground (arith, count-resume_le pc id now rows)

count-set_resume :
    (pc id now : ℕ) (rows : List SessionRow) (s : SessionRow)
    → session_by_id id rows ≡ some s
    → s.pc_id ≡ pc
    → s.status ≡ SessionStatus.paused
    → count_occupying pc rows < count_occupying pc (set_session id (applied now resume) rows)
unfolding applied
count-set_resume pc id now [] s found at p = cc
count-set_resume pc id now (r ∷ rows) s found at p =
    ground (arith, count-resume_le pc id now rows, count-set_resume pc id now rows s)

-- A paused session that is resumed is active again even where another session occupies its machine
-- by then: the request succeeds, and two sessions or more occupy the machine.
pub resume_doubles :
    (now new_id : ℕ) (user : UserClaims) (id : ℕ) (s : SessionRow) (w : World)
    → session_by_id id w.sessions ≡ some s
    → s.cafe_id ≡ user.cafe_id
    → s.status ≡ SessionStatus.paused
    → 1 ≤ count_occupying s.pc_id w.sessions
    → let r = handle_transition now new_id user resume id w in
      (r.0 ≡ ok (to_session_dto (record s { status = SessionStatus.active })))
      × (2 ≤ count_occupying s.pc_id r.1.sessions)
resume_doubles now new_id user id s w found mine paused busy =
    let (answer, changed) = resume_result now new_id user id s w found mine paused in
    (
      answer,
      rw changed (omega (arith, count-set_resume s.pc_id id now w.sessions s found refl paused)),
    )
