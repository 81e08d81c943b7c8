-- ===== src/Pcs/Superadmin.antt =====
-- The check of an owner's password in apps/server/src/modules/pcs/handlers.ts, with the attempts that
-- the process counts by machine. A request is one step: two at once may read the same count.
pub mod Lockout
use gaming_cafe_management.Prelude.{
  ℕ, ◌+◌, ◌-◌, ◌*◌, ◌/◌, ◌^◌, Bool, true, false, ◌&&◌, List, Option, none, some, ◌==◌, ltb, leb,
  min, filter, any, get_or, if◌then◌else◌, String,
}
use gaming_cafe_management.Auth.{DevicePrincipal}
use gaming_cafe_management.Auth.Services.{Services}
use gaming_cafe_management.RateLimit.{Bucket, Buckets, bucket_of}
use gaming_cafe_management.Shared.{StaffRole, ActorType, problem, not_your_pc}
use gaming_cafe_management.World.Devices.{UserRow}
use gaming_cafe_management.World.Audit.{plain_audit}
use gaming_cafe_management.World.Action.{pure, gets, modify, check, ◌>>=◌, ◌>>◌}
use gaming_cafe_management.World.{World, M, write_audit}

pub record VerifyResponse : Type 0 where
  pub ok : Bool
  pub retry_after_s : ℕ

-- `superadminAttempts.set(id, state)`.
abbrev pub set_attempts : ℕ → Bucket → Buckets → Buckets
set_attempts id state attempts other = if other == id then some state else attempts other

-- `superadminAttempts.delete(id)`.
abbrev pub delete_attempts : ℕ → Buckets → Buckets
delete_attempts id attempts other = if other == id then none else attempts other

-- The count of one more failure, and the lock that it sets.
unfoldable pub failed_attempt : (now : ℕ) → Bucket → Bucket
failed_attempt now state =
    let count = state.count + 1 in
    record {
      count = count;
      locked_until = if leb 5 count then now + min (30000 * 2 ^ (count - 5)) 900000 else 0;
    }

-- The attempts after a check of the password; `state` is the bucket that was read before it.
unfoldable pub count_attempt : (now id : ℕ) → Bucket → (ok : Bool) → Buckets → Buckets
unfolding failed_attempt
count_attempt now id state true attempts = delete_attempts id attempts
count_attempt now id state false attempts = set_attempts id (failed_attempt now state) attempts

abbrev is_owner : StaffRole → Bool
is_owner StaffRole.owner = true
is_owner _ = false

abbrev pub verify_actor : Bool → ActorType
verify_actor true = ActorType.superadmin_local
verify_actor false = ActorType.pc

abbrev pub verify_action : Bool → String
verify_action true = "SUPERADMIN_ENTERED"
verify_action false = "SUPERADMIN_LOGIN_FAILED"

module _ (s : Services) where
  open s use {verify_password}

  -- Whether the password is one of the café's owners'; a hash that argon2 cannot read is no match.
  abbrev pub is_owners : (cafe_id password : ℕ) → List UserRow → Bool
  is_owners cafe_id password users =
      any (λ u. get_or (verify_password u.password_hash password) false)
        (filter (λ u. u.cafe_id == cafe_id && is_owner u.role) users)

  unfoldable pub verify_attempt :
      (now : ℕ) → DevicePrincipal → (id password : ℕ) → Bucket → M VerifyResponse
  unfolding count_attempt write_audit plain_audit
  verify_attempt now device id password state = do
    users ← gets (λ w. w.users)
    let good = is_owners device.cafe_id password users
    modify (λ w. record w {
      superadmin_attempts = count_attempt now id state good w.superadmin_attempts;
    })
    modify (
        write_audit
          (plain_audit device.cafe_id (verify_actor good) id (verify_action good) (some id)))
    pure (record { ok = good; retry_after_s = 0 })

  unfoldable pub handle_superadmin_verify :
      (now : ℕ) → DevicePrincipal → (id password : ℕ) → M VerifyResponse
  unfolding verify_attempt
  handle_superadmin_verify now device id password = do
    check (id == device.pc_id) (problem 403 not_your_pc)
    attempts ← gets (λ w. w.superadmin_attempts)
    let state = bucket_of attempts id
    if ltb now state.locked_until
        then pure (record { ok = false; retry_after_s = (state.locked_until - now + 999) / 1000 })
        else verify_attempt now device id password state
