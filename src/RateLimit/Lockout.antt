-- ===== src/RateLimit/Lockout.antt =====
-- When apps/server/src/lib/rate-limit.ts locks a key out, and for how long.
use native.Mathlib.Nat.{pow-suc}
use gaming_cafe_management.Prelude.{
  ℕ, zero, suc, ap, ◌∙◌, not, ◌+◌, ◌-◌, ◌^◌, ◌≤◌, ◌<◌, ◌≡◌, ◌↔◌, refl, true, false, List, [], ◌∷◌,
  arith, length, ltb, ==_refl,
}
use gaming_cafe_management.RateLimit.{
  Buckets, bucket_of, max_attempts, lock_until, check_rate_limit, fail_rate_limit, reset_rate_limit,
  retry_after_seconds,
}

-- Failed attempts at one key, at the given times.
pub fail_all : ℕ → List ℕ → Buckets → Buckets
fail_all key [] buckets = buckets
fail_all key (now ∷ times) buckets = fail_all key times (fail_rate_limit now key buckets)

pub bucket_of-fail :
    (now key : ℕ) (buckets : Buckets)
    → let count = (bucket_of buckets key).count + 1 in
      bucket_of (fail_rate_limit now key buckets) key
      ≡ record { count = count; locked_until = lock_until now count }
unfolding fail_rate_limit
bucket_of-fail now key buckets = rw (==_refl key, bucket_of) refl

fail_all-count :
    (key : ℕ) (times : List ℕ) (buckets : Buckets)
    → (bucket_of (fail_all key times buckets) key).count
      ≡ (bucket_of buckets key).count + length times
unfolding fail_all
fail_all-count key [] buckets = omega arith
fail_all-count key (now ∷ times) buckets = omega (
  arith,
  ap (λ b. b.count) (bucket_of-fail now key buckets),
  fail_all-count key times (fail_rate_limit now key buckets),
)

reset-count :
    (key : ℕ) (buckets : Buckets) → (bucket_of (reset_rate_limit key buckets) key).count ≡ 0
unfolding reset_rate_limit
reset-count key buckets = rw (==_refl key, bucket_of) refl

check_lem :
    (now key : ℕ) (buckets : Buckets)
    → (check_rate_limit now key buckets).0 ≡ not (ltb now (bucket_of buckets key).locked_until)
unfolding check_rate_limit
check_lem now key buckets = ground arith

lock_until-lt : (now count : ℕ) → count < max_attempts → lock_until now count ≡ 0
unfolding lock_until
lock_until-lt now count h = ground arith

pow-pos : (k : ℕ) → 0 < 2 ^ k
pow-pos zero = omega arith
pow-pos (suc k) = rw pow-suc (omega (arith, pow-pos k))

pub lock_until_bounds :
    (now count : ℕ)
    → max_attempts ≤ count
    → (now + 30000 ≤ lock_until now count) × (lock_until now count ≤ now + 900000)
unfolding lock_until
lock_until_bounds now count h = ground (arith, pow-pos (count - max_attempts))

lock_until_le : (now count : ℕ) → lock_until now count ≤ now + 900000
unfolding lock_until
lock_until_le now count = ground arith

-- A locked bucket lets no attempt through and says how long to wait: the check refuses exactly when
-- the seconds to wait are more than none.
pub check-retry_after :
    (now key : ℕ) (buckets : Buckets)
    → ((check_rate_limit now key buckets).0 ≡ false) ↔ (0 < retry_after_seconds now key buckets)
unfolding check_rate_limit retry_after_seconds
check-retry_after now key buckets = (λ h. ground arith, λ h. ground arith)

lockout :
    (key : ℕ) (times : List ℕ) (now later : ℕ) (buckets : Buckets)
    → let b = fail_rate_limit now key (fail_all key times (reset_rate_limit key buckets)) in
      (length times + 1 < max_attempts → (check_rate_limit later key b).0 ≡ true)
      × (max_attempts ≤ length times + 1
          → later < now + 30000
          → (check_rate_limit later key b).0 ≡ false)
      × (now + 900000 ≤ later → (check_rate_limit later key b).0 ≡ true)
lockout key times now later buckets =
    let before = fail_all key times (reset_rate_limit key buckets) in
    let count : (bucket_of before key).count + 1 ≡ length times + 1 =
      omega
        (arith, fail_all-count key times (reset_rate_limit key buckets), reset-count key buckets) in
    let until : (bucket_of (fail_rate_limit now key before) key).locked_until
        ≡ lock_until now (length times + 1) =
      ap (λ b. b.locked_until) (bucket_of-fail now key before) ∙ ap (lock_until now) count in
    (
      λ h. check_lem _ _ _ ∙ rw (until, lock_until-lt now (length times + 1) h) (ground arith),
      λ h lt.
          check_lem _ _ _
          ∙ rw until (let b = lock_until_bounds now (length times + 1) h in ground arith),
      λ ge.
          check_lem _ _ _ ∙ rw until (let b = lock_until_le now (length times + 1) in ground arith),
    )

-- After a success and then failures at the given times, the last of them at `now`, five or more in
-- all: an attempt with the key is refused for 30 seconds.
pub lockout_refused :
    (key : ℕ) (times : List ℕ) (now later : ℕ) (buckets : Buckets)
    → max_attempts ≤ length times + 1
    → later < now + 30000
    → let b = fail_rate_limit now key (fail_all key times (reset_rate_limit key buckets)) in
      (check_rate_limit later key b).0 ≡ false
lockout_refused key times now later buckets many soon =
    (lockout key times now later buckets).1 many soon

-- After a success and then failures at the given times, the last of them at `now`, however many: an
-- attempt with the key is let through after 15 minutes.
pub lockout_over :
    (key : ℕ) (times : List ℕ) (now later : ℕ) (buckets : Buckets)
    → now + 900000 ≤ later
    → let b = fail_rate_limit now key (fail_all key times (reset_rate_limit key buckets)) in
      (check_rate_limit later key b).0 ≡ true
lockout_over key times now later buckets late = (lockout key times now later buckets).2 late

-- After a success and then failures at the given times, fewer than five: an attempt with the key is
-- let through at any time.
pub lockout_free :
    (key : ℕ) (times : List ℕ) (now later : ℕ) (buckets : Buckets)
    → length times + 1 < max_attempts
    → let b = fail_rate_limit now key (fail_all key times (reset_rate_limit key buckets)) in
      (check_rate_limit later key b).0 ≡ true
lockout_free key times now later buckets few = (lockout key times now later buckets).0 few
