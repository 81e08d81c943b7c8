-- ===== src/Sessions/Calls.antt =====
-- Histories of the table of sessions: the requests and sweeps of apps/server/src/modules/sessions,
-- one after another.
use gaming_cafe_management.Prelude.{ℕ, ◌≡◌, refl, List, [], ◌∷◌, map, filter}
use gaming_cafe_management.Auth.{UserClaims}
use gaming_cafe_management.World.Tables.{SessionRow}
use gaming_cafe_management.World.{World}
use gaming_cafe_management.Sessions.Start.{StartInput, handle_start_session}
use gaming_cafe_management.Sessions.Handlers.{Apply, handle_extend_session, handle_transition}
use gaming_cafe_management.Sessions.Expiry.{
  expire_session, record_expiry, record_expiries, expire_due_sessions, is_due,
}

pub data Call : Type 0 where
  start : (now new_id : ℕ) → UserClaims → StartInput → Call
  extend : (now : ℕ) → UserClaims → (id minutes : ℕ) → Call
  transition : (now new_id : ℕ) → UserClaims → Apply → (id : ℕ) → Call
  sweep : (now : ℕ) → Call

-- The state after a call, whether it was answered or refused.
unfoldable pub step : Call → World → World
step (start now new_id user input) w = (handle_start_session now new_id user input w).1
step (extend now user id minutes) w = (handle_extend_session now user id minutes w).1
step (transition now new_id user apply id) w = (handle_transition now new_id user apply id w).1
step (sweep now) w = (expire_due_sessions now w).1

unfoldable pub run : List Call → World → World
run [] w = w
run (c ∷ cs) w = run cs (step c w)

record_expiries-sessions :
    (now : ℕ) (rows : List SessionRow) (w : World)
    → (record_expiries now rows w).sessions ≡ w.sessions
unfolding record_expiries record_expiry
record_expiries-sessions now [] w = refl
record_expiries-sessions now (row ∷ rows) w =
    record_expiries-sessions now rows (record_expiry now row w)

pub sweep-effect :
    (now : ℕ) (w : World)
    → (expire_due_sessions now w).1.sessions ≡ map (expire_session now) w.sessions
unfolding expire_due_sessions
sweep-effect now w =
    record_expiries-sessions now (map (expire_session now) (filter (is_due now) w.sessions))
      (record w { db = record (w.db) { sessions = map (expire_session now) w.sessions } })
