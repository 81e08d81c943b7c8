-- ===== src/RateLimit.antt =====
-- apps/server/src/lib/rate-limit.ts: the buckets of failed attempts, by key. The time in
-- milliseconds is an argument of each call.
pub mod Lockout
use gaming_cafe_management.Prelude.{
  ℕ, ◌+◌, ◌-◌, ◌*◌, ◌/◌, ◌^◌, Bool, true, false, Option, none, some, leb, ltb, ◌==◌, if◌then◌else◌,
  min,
}

pub record Bucket : Type 0 where
  pub count : ℕ
  pub locked_until : ℕ

abbrev pub Buckets : Type 0
Buckets = ℕ → Option Bucket

-- `buckets.get(key) ?? { count: 0, lockedUntil: 0 }`.
abbrev pub bucket_of : Buckets → ℕ → Bucket
bucket_of buckets key = elim (buckets key) [
  | none ↦ record { count = 0; locked_until = 0 }
  | some b ↦ b
]

abbrev set_bucket : Buckets → ℕ → Bucket → Buckets
set_bucket buckets key b other = if other == key then some b else buckets other

abbrev pub max_attempts : ℕ
max_attempts = 5

unfoldable pub check_rate_limit : ℕ → ℕ → Buckets → Bool × Buckets
check_rate_limit now key buckets =
    if ltb now (bucket_of buckets key).locked_until
    then (false, buckets)
    else (true, set_bucket buckets key (bucket_of buckets key))

-- The end of the lock that the `count`-th failure sets at the time `now`.
pub lock_until : ℕ → ℕ → ℕ
lock_until now count =
    if leb max_attempts count then now + min (30000 * 2 ^ (count - max_attempts)) 900000 else 0

-- `maxAttempts` has its default value in every call.
unfoldable pub fail_rate_limit : ℕ → ℕ → Buckets → Buckets
unfolding lock_until
fail_rate_limit now key buckets =
    let count = (bucket_of buckets key).count + 1 in
    set_bucket buckets key (record { count = count; locked_until = lock_until now count })

unfoldable pub reset_rate_limit : ℕ → Buckets → Buckets
reset_rate_limit key buckets other = if other == key then none else buckets other

-- `Math.ceil(n / 1000)`.
abbrev ceil_seconds : ℕ → ℕ
ceil_seconds n = (n + 999) / 1000

unfoldable pub retry_after_seconds : ℕ → ℕ → Buckets → ℕ
retry_after_seconds now key buckets = elim (buckets key) [
  | none ↦ 0
  | some b ↦ if leb b.locked_until now then 0 else ceil_seconds (b.locked_until - now)
]
