-- ===== src/Sync/Counts.antt =====
-- Counting the active sessions of a machine.
use gaming_cafe_management.Prelude.{
  ℕ, ◌+◌, ◌≤◌, ◌≡◌, refl, inl, inr, true, List, [], ◌∷◌, ◌++◌, none, some, arith, Option-cases,
  if◌then◌else◌,
}
use gaming_cafe_management.Shared.{
  OfflineEventType, session_started, session_extended, session_ended, session_cancelled,
  customer_assigned, order_created, superadmin_entered, superadmin_login_failed, tamper_suspected,
}
use gaming_cafe_management.World.Tables.{SessionRow}
use gaming_cafe_management.Sessions.{set_session}
use gaming_cafe_management.Sync.Apply.{
  active_on, load_active_session, offline_extended, offline_ended,
}

abbrev pub count_active : ℕ → List SessionRow → ℕ
count_active pc [] = 0
count_active pc (s ∷ ss) = (if active_on pc s then 1 else 0) + count_active pc ss

-- No machine has two active sessions.
abbrev pub OneActive : List SessionRow → Type 0
OneActive rows = (pc : ℕ) → count_active pc rows ≤ 1

pub count-append :
    (pc : ℕ) (xs : List SessionRow) (s : SessionRow)
    → count_active pc (xs ++ s ∷ []) ≡ count_active pc xs + (if active_on pc s then 1 else 0)
count-append pc [] s = omega arith
count-append pc (x ∷ xs) s = omega (arith, count-append pc xs s)

-- An update after which no session is active on a machine that was not before.
abbrev pub Quiet : (SessionRow → SessionRow) → Type 0
Quiet f = (pc : ℕ) (r : SessionRow) → active_on pc (f r) ≡ true → active_on pc r ≡ true

pub count-set :
    (pc id : ℕ) (f : SessionRow → SessionRow) (xs : List SessionRow)
    → Quiet f
    → count_active pc (set_session id f xs) ≤ count_active pc xs
count-set pc id f [] v = omega arith
count-set pc id f (x ∷ xs) v = ground (arith, v pc x, count-set pc id f xs v)

pub extended-Quiet : (minutes : ℕ) (s : SessionRow) → Quiet (offline_extended minutes s)
unfolding offline_extended
extended-Quiet minutes s pc r h = h

pub ended-Quiet : (type : OfflineEventType) (at : ℕ) → Quiet (offline_ended type at)
unfolding offline_ended
ended-Quiet session_started at pc r h = ground arith
ended-Quiet session_extended at pc r h = ground arith
ended-Quiet session_ended at pc r h = ground arith
ended-Quiet session_cancelled at pc r h = ground arith
ended-Quiet customer_assigned at pc r h = ground arith
ended-Quiet order_created at pc r h = ground arith
ended-Quiet superadmin_entered at pc r h = ground arith
ended-Quiet superadmin_login_failed at pc r h = ground arith
ended-Quiet tamper_suspected at pc r h = ground arith

pub load-active :
    (pc : ℕ) (rows : List SessionRow) (s : SessionRow)
    → load_active_session pc rows ≡ some s
    → active_on pc s ≡ true
load-active pc [] s h = ground arith
load-active pc (x ∷ xs) s h = elim (Option-cases (load_active_session pc xs)) [
  | inl empty ↦ ground arith
  | inr (t, e) ↦ let rest = load-active pc xs t e in ground arith
]

pub load-none :
    (pc : ℕ) (rows : List SessionRow)
    → load_active_session pc rows ≡ none
    → count_active pc rows ≡ 0
load-none pc [] h = refl
load-none pc (x ∷ xs) h = elim (Option-cases (load_active_session pc xs)) [
  | inl empty ↦ let rest = load-none pc xs empty in ground arith
  | inr (t, e) ↦ ground arith
]
