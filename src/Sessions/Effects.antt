-- ===== src/Sessions/Effects.antt =====
-- What each session handler does to the table of sessions.
use gaming_cafe_management.Prelude.{
  ℕ, ◌+◌, ◌≡◌, ◌⊎◌, inl, inr, Option-cases, true, false, Option, none, some, arith, ◌==◌, ◌++◌,
  List, [], ◌∷◌, any, find?, ◌&&◌,
}
use gaming_cafe_management.Pricing.{PriceResult, compute_price}
use gaming_cafe_management.Shared.{SessionStatus, session_status_eq}
use gaming_cafe_management.Auth.{UserClaims}
use gaming_cafe_management.World.Tables.{SessionRow, PcRow}
use gaming_cafe_management.World.{World}
use gaming_cafe_management.Sessions.{session_by_id, set_session, load_pricing_rules}
use gaming_cafe_management.Sessions.Start.{StartInput, handle_start_session, occupies, new_session}
use gaming_cafe_management.Sessions.Handlers.{
  Apply, end, cancel, pause, resume, handle_transition, handle_extend_session, is_terminal,
  pause_refused, resume_refused, applied, extended_session,
}

-- A transition leaves the table alone, or it updates a session of the user's café that is not
-- terminal, and that is active for a pause and paused for a resumption.
abbrev pub Transitions :
    (now : ℕ) → UserClaims → Apply → ℕ → List SessionRow → List SessionRow → Type 0
Transitions now user apply id before after =
    (after ≡ before)
    ⊎ ((s : SessionRow) × (session_by_id id before ≡ some s)
        × (s.cafe_id ≡ user.cafe_id)
        × (is_terminal s.status ≡ false)
        × (pause_refused apply s.status ≡ false)
        × (resume_refused apply s.status ≡ false)
        × (after ≡ set_session id (applied now apply) before))

pub transition-effect :
    (now new_id : ℕ) (user : UserClaims) (apply : Apply) (id : ℕ) (w : World)
    → Transitions now user apply id w.sessions
        (handle_transition now new_id user apply id w).1.sessions
unfolding handle_transition
transition-effect now new_id user end id w = ground arith
transition-effect now new_id user cancel id w = ground arith
transition-effect now new_id user pause id w = ground arith
transition-effect now new_id user resume id w = ground arith

-- An extension leaves the table alone, or it updates an active session of the user's café.
abbrev pub Extends : UserClaims → (id minutes : ℕ) → List SessionRow → List SessionRow → Type 0
Extends user id minutes before after =
    (after ≡ before)
    ⊎ ((s : SessionRow) × (price : PriceResult) × (session_by_id id before ≡ some s)
        × (s.cafe_id ≡ user.cafe_id)
        × (session_status_eq s.status SessionStatus.active ≡ true)
        × (after ≡ set_session id (extended_session s minutes price) before))

-- The price that an extension asks for.
abbrev pub stay_price : UserClaims → SessionRow → (minutes : ℕ) → PcRow → World → PriceResult
stay_price user s minutes pc w =
    compute_price (load_pricing_rules user.cafe_id w) s.started_at
      (s.planned_minutes + s.extended_minutes + minutes) pc.tier_id

extend_found :
    (now : ℕ) (user : UserClaims) (id minutes : ℕ) (w : World) (s : SessionRow) (pc : PcRow)
    → session_by_id id w.sessions ≡ some s
    → find? (λ p. p.id == s.pc_id) w.pcs ≡ some pc
    → ((handle_extend_session now user id minutes w).1.sessions ≡ w.sessions)
      ⊎ ((s.cafe_id ≡ user.cafe_id)
          × (session_status_eq s.status SessionStatus.active ≡ true)
          × ((handle_extend_session now user id minutes w).1.sessions
              ≡ set_session id
                  (extended_session s minutes (stay_price user s minutes pc w))
                  w.sessions))
unfolding handle_extend_session
extend_found now user id minutes w s pc es ep = ground arith

extend_lost :
    (now : ℕ) (user : UserClaims) (id minutes : ℕ) (w : World) (s : SessionRow)
    → session_by_id id w.sessions ≡ some s
    → find? (λ p. p.id == s.pc_id) w.pcs ≡ none
    → (handle_extend_session now user id minutes w).1.sessions ≡ w.sessions
unfolding handle_extend_session
extend_lost now user id minutes w s es ep = ground arith

extend_absent :
    (now : ℕ) (user : UserClaims) (id minutes : ℕ) (w : World)
    → session_by_id id w.sessions ≡ none
    → (handle_extend_session now user id minutes w).1.sessions ≡ w.sessions
unfolding handle_extend_session
extend_absent now user id minutes w es = ground arith

pub extend-effect :
    (now : ℕ) (user : UserClaims) (id minutes : ℕ) (w : World)
    → Extends user id minutes w.sessions (handle_extend_session now user id minutes w).1.sessions
extend-effect now user id minutes w = elim (Option-cases (session_by_id id w.sessions)) [
  | inl absent ↦ inl (extend_absent now user id minutes w absent)
  | inr (s, es) ↦ elim (Option-cases (find? (λ p. p.id == s.pc_id) w.pcs)) [
    | inl lost ↦ inl (extend_lost now user id minutes w s es lost)
    | inr (pc, ep) ↦ elim (extend_found now user id minutes w s pc es ep) [
      | inl same ↦ inl same
      | inr (mine, active, changed) ↦
          inr (s, stay_price user s minutes pc w, es, mine, active, changed)
    ]
  ]
]

-- A start leaves the table alone, or it adds a session on a machine that no session occupies.
abbrev pub Starts :
    (now new_id : ℕ) → UserClaims → StartInput → List SessionRow → List SessionRow → Type 0
Starts now new_id user input before after =
    (after ≡ before)
    ⊎ ((pc : PcRow) × (price : PriceResult) × (any (occupies pc.id) before ≡ false)
        × (after ≡ before ++ new_session now new_id user input pc price ∷ []))

-- The price that a start asks for.
abbrev pub start_price : (now : ℕ) → UserClaims → StartInput → PcRow → World → PriceResult
start_price now user input pc w =
    compute_price (load_pricing_rules user.cafe_id w) now input.planned_minutes pc.tier_id

abbrev pub own_pc : UserClaims → StartInput → World → Option PcRow
own_pc user input w = find? (λ p. p.id == input.pc_id && p.cafe_id == user.cafe_id) w.pcs

start_found :
    (now new_id : ℕ) (user : UserClaims) (input : StartInput) (w : World) (pc : PcRow)
    → own_pc user input w ≡ some pc
    → ((handle_start_session now new_id user input w).1.sessions ≡ w.sessions)
      ⊎ ((any (occupies pc.id) w.sessions ≡ false)
          × ((handle_start_session now new_id user input w).1.sessions
              ≡ w.sessions
                ++ new_session now new_id user input pc (start_price now user input pc w) ∷ []))
unfolding handle_start_session
start_found now new_id user input w pc e = ground arith

start_absent :
    (now new_id : ℕ) (user : UserClaims) (input : StartInput) (w : World)
    → own_pc user input w ≡ none
    → (handle_start_session now new_id user input w).1.sessions ≡ w.sessions
unfolding handle_start_session
start_absent now new_id user input w e = ground arith

pub start-effect :
    (now new_id : ℕ) (user : UserClaims) (input : StartInput) (w : World)
    → Starts now new_id user input w.sessions
        (handle_start_session now new_id user input w).1.sessions
start-effect now new_id user input w = elim (Option-cases (own_pc user input w)) [
  | inl absent ↦ inl (start_absent now new_id user input w absent)
  | inr (pc, e) ↦ elim (start_found now new_id user input w pc e) [
    | inl same ↦ inl same
    | inr (free, added) ↦ inr (pc, start_price now user input pc w, free, added)
  ]
]
