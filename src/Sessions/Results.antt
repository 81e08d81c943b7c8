-- ===== src/Sessions/Results.antt =====
-- What a session request answers and leaves in the table, when it succeeds.
use gaming_cafe_management.Prelude.{ℕ, ◌+◌, ◌*◌, ◌≡◌, refl, some, arith, find?, ◌==◌, true, false}
use gaming_cafe_management.Pricing.{PriceResult}
use gaming_cafe_management.Auth.{UserClaims}
use gaming_cafe_management.Shared.{SessionStatus}
use gaming_cafe_management.World.Tables.{SessionRow, PcRow}
use gaming_cafe_management.World.{World}
use gaming_cafe_management.World.Action.{ok}
use gaming_cafe_management.Sessions.{session_by_id, set_session, to_session_dto}
use gaming_cafe_management.Sessions.Start.{valid_minutes}
use gaming_cafe_management.Sessions.Handlers.{
  Apply, end, cancel, pause, resume, applied, extended_session, handle_transition,
  handle_extend_session, is_terminal, pause_refused, resume_refused,
}
use gaming_cafe_management.Sessions.Lookup.{by_id-set_self}
use gaming_cafe_management.Sessions.Effects.{stay_price}

pub applied-id : (now : ℕ) (apply : Apply) (r : SessionRow) → (applied now apply r).id ≡ r.id
unfolding applied
applied-id now end r = refl
applied-id now cancel r = refl
applied-id now pause r = refl
applied-id now resume r = refl

pub extended-id :
    (s : SessionRow) (minutes : ℕ) (price : PriceResult) (r : SessionRow)
    → (extended_session s minutes price r).id ≡ r.id
unfolding extended_session
extended-id s minutes price r = refl

-- The transition of a session that is found, is not terminal and suits the request.
abbrev pub Allowed : UserClaims → Apply → SessionRow → Type 0
Allowed user apply s =
    (s.cafe_id ≡ user.cafe_id)
    × (is_terminal s.status ≡ false)
    × (pause_refused apply s.status ≡ false)
    × (resume_refused apply s.status ≡ false)

pub transition_result :
    (now new_id : ℕ) (user : UserClaims) (apply : Apply) (id : ℕ) (s : SessionRow) (w : World)
    → session_by_id id w.sessions ≡ some s
    → Allowed user apply s
    → let r = handle_transition now new_id user apply id w in
      (r.0 ≡ ok (to_session_dto (applied now apply s)))
      × (r.1.sessions ≡ set_session id (applied now apply) w.sessions)
unfolding handle_transition
transition_result now new_id user end id s w found h =
    let again = by_id-set_self id (applied now end) w.sessions s (applied-id now end) found in
    ground arith
transition_result now new_id user cancel id s w found h =
    let again = by_id-set_self id (applied now cancel) w.sessions s (applied-id now cancel) found in
    ground arith
transition_result now new_id user pause id s w found h =
    let again = by_id-set_self id (applied now pause) w.sessions s (applied-id now pause) found in
    ground arith
transition_result now new_id user resume id s w found h =
    let again = by_id-set_self id (applied now resume) w.sessions s (applied-id now resume) found in
    ground arith

pub resume_result :
    (now new_id : ℕ) (user : UserClaims) (id : ℕ) (s : SessionRow) (w : World)
    → session_by_id id w.sessions ≡ some s
    → s.cafe_id ≡ user.cafe_id
    → s.status ≡ SessionStatus.paused
    → let r = handle_transition now new_id user resume id w in
      (r.0 ≡ ok (to_session_dto (record s { status = SessionStatus.active })))
      × (r.1.sessions ≡ set_session id (applied now resume) w.sessions)
unfolding applied
resume_result now new_id user id s w found mine p =
    transition_result now new_id user resume id s w found (ground arith)

extend_result_as_row :
    (now : ℕ) (user : UserClaims) (id minutes : ℕ) (s : SessionRow) (pc : PcRow) (w : World)
    → valid_minutes minutes ≡ true
    → session_by_id id w.sessions ≡ some s
    → s.cafe_id ≡ user.cafe_id
    → s.status ≡ SessionStatus.active
    → find? (λ p. p.id == s.pc_id) w.pcs ≡ some pc
    → let price = stay_price user s minutes pc w in
      let next = extended_session s minutes price s in
      let r = handle_extend_session now user id minutes w in
      (r.0 ≡ ok (to_session_dto next)) × (session_by_id id r.1.sessions ≡ some next)
unfolding handle_extend_session
extend_result_as_row now user id minutes s pc w valid found mine active at =
    let price = stay_price user s minutes pc w in
    let again =
      by_id-set_self id (extended_session s minutes price) w.sessions s
        (extended-id s minutes price) found in
    ground arith

pub extend_result :
    (now : ℕ) (user : UserClaims) (id minutes : ℕ) (s : SessionRow) (pc : PcRow) (w : World)
    → valid_minutes minutes ≡ true
    → session_by_id id w.sessions ≡ some s
    → s.cafe_id ≡ user.cafe_id
    → s.status ≡ SessionStatus.active
    → find? (λ p. p.id == s.pc_id) w.pcs ≡ some pc
    → let price = stay_price user s minutes pc w in
      let next = record s {
        expires_at = s.expires_at + minutes * 60000;
        extended_minutes = s.extended_minutes + minutes;
        price_amount = price.amount;
        pricing_breakdown = price.breakdown;
      } in
      let r = handle_extend_session now user id minutes w in
      (r.0 ≡ ok (to_session_dto next)) × (session_by_id id r.1.sessions ≡ some next)
unfolding extended_session
extend_result = extend_result_as_row
