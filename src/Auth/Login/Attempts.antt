-- ===== src/Auth/Login/Attempts.antt =====
-- Failed logins of apps/server/src/modules/auth/handlers.ts against the buckets of
-- apps/server/src/lib/rate-limit.ts.
use gaming_cafe_management.Prelude.{
  ℕ, ◌+◌, ◌≤◌, ◌<◌, ◌≡◌, refl, ap, ◌∙◌, inl, inr, true, List, [], ◌∷◌, length, arith, ltb, lt→ltb,
  ==_refl, Bool-cases,
}
use gaming_cafe_management.Auth.Services.{Services}
use gaming_cafe_management.Auth.Login.{LoginResponse, handle_login}
use gaming_cafe_management.RateLimit.{
  Buckets, bucket_of, max_attempts, lock_until, check_rate_limit, fail_rate_limit,
}
use gaming_cafe_management.RateLimit.Lockout.{bucket_of-fail, lock_until_bounds}
use gaming_cafe_management.Shared.{problem, invalid_credentials, login_rate_limited}
use gaming_cafe_management.World.Action.{Result, err}
use gaming_cafe_management.World.{World}

-- A login with an address: when, and with which password.
pub record Attempt : Type 0 where
  pub now : ℕ
  pub password : ℕ

check-bucket :
    (now key : ℕ) (buckets : Buckets)
    → bucket_of (check_rate_limit now key buckets).1 key ≡ bucket_of buckets key
unfolding check_rate_limit
check-bucket now key buckets = elim (Bool-cases (ltb now (bucket_of buckets key).locked_until)) [
  | inl locked ↦ rw locked refl
  | inr free ↦ rw (free, ==_refl key, bucket_of) refl
]

module _ (s : Services) where
  open s use {Token, lower_case}

  abbrev pub login_at : (email : ℕ) → Attempt → World → Result (LoginResponse Token) × World
  login_at email a w = handle_login s a.now (record { email = email; password = a.password }) w

  -- An attempt that is answered with 401.
  abbrev pub Refused : (email : ℕ) → Attempt → World → Type 0
  Refused email a w = (login_at email a w).0 ≡ err (problem 401 invalid_credentials)

  abbrev pub login_all : (email : ℕ) → List Attempt → World → World
  login_all email [] w = w
  login_all email (a ∷ rest) w = login_all email rest (login_at email a w).1

  abbrev pub AllRefused : (email : ℕ) → List Attempt → World → Type 0
  AllRefused email [] w = Unit
  AllRefused email (a ∷ rest) w = Refused email a w × AllRefused email rest (login_at email a w).1

  buckets_after :
      (email : ℕ) (a : Attempt) (w : World)
      → Refused email a w
      → (login_at email a w).1.buckets
        ≡ fail_rate_limit a.now
            (lower_case email)
            (check_rate_limit a.now (lower_case email) w.buckets).1
  unfolding handle_login problem
  buckets_after email a w h = ground arith

  locked-login :
      (email : ℕ) (a : Attempt) (w : World)
      → ltb a.now (bucket_of w.buckets (lower_case email)).locked_until ≡ true
      → login_at email a w ≡ (err (problem 429 login_rate_limited), w)
  unfolding handle_login check_rate_limit
  locked-login email a w h = rw h refl

  bucket_after :
      (email : ℕ) (a : Attempt) (w : World)
      → Refused email a w
      → let count = (bucket_of w.buckets (lower_case email)).count + 1 in
        bucket_of (login_at email a w).1.buckets (lower_case email)
        ≡ record { count = count; locked_until = lock_until a.now count }
  bucket_after email a w h =
      let key = lower_case email in
      let checked = (check_rate_limit a.now key w.buckets).1 in
      rw (buckets_after email a w h) (
        bucket_of-fail a.now key checked
        ∙ ap (λ b. record { count = b.count + 1; locked_until = lock_until a.now (b.count + 1) })
            (check-bucket a.now key w.buckets))

  login_all-count :
      (email : ℕ) (attempts : List Attempt) (w : World)
      → AllRefused email attempts w
      → (bucket_of (login_all email attempts w).buckets (lower_case email)).count
        ≡ (bucket_of w.buckets (lower_case email)).count + length attempts
  login_all-count email [] w h = omega arith
  login_all-count email (a ∷ rest) w (h, hs) = omega (
    arith,
    ap (λ b. b.count) (bucket_after email a w h),
    login_all-count email rest (login_at email a w).1 hs,
  )

  -- After logins with an address that were all answered with 401, five or more with the last of them,
  -- at `last.now`: another one within 30 seconds of the last is answered with 429 whatever its
  -- password is, and changes nothing.
  pub handle_login-locked :
      (email : ℕ) (attempts : List Attempt) (last next : Attempt) (w : World)
      → AllRefused email attempts w
      → Refused email last (login_all email attempts w)
      → max_attempts ≤ length attempts + 1
      → next.now < last.now + 30000
      → let after = (login_at email last (login_all email attempts w)).1 in
        login_at email next after ≡ (err (problem 429 login_rate_limited), after)
  handle_login-locked email attempts last next w h hl many soon =
      let before = login_all email attempts w in
      let key = lower_case email in
      let count = login_all-count email attempts w h in
      let until = ap (λ b. b.locked_until) (bucket_after email last before hl) in
      let bounds =
        lock_until_bounds last.now ((bucket_of before.buckets key).count + 1)
          (omega (arith, count, many)) in
      locked-login email next (login_at email last before).1
        (lt→ltb _ _ (omega (arith, until, bounds.0, soon)))
