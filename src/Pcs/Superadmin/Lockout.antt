-- ===== src/Pcs/Superadmin/Lockout.antt =====
-- The lock of apps/server/src/modules/pcs/handlers.ts beside that of
-- apps/server/src/lib/rate-limit.ts.
use gaming_cafe_management.Prelude.{
  ℕ, ◌+◌, ◌-◌, ◌/◌, ◌≡◌, refl, inl, inr, true, false, ◌&&◌, Bool, arith, ==_refl, ltb,
  if◌then◌else◌, Bool-cases, some,
}
use gaming_cafe_management.Auth.{DevicePrincipal}
use gaming_cafe_management.Auth.Services.{Services}
use gaming_cafe_management.RateLimit.{
  Buckets, bucket_of, check_rate_limit, fail_rate_limit, reset_rate_limit, retry_after_seconds,
}
use gaming_cafe_management.Pcs.Superadmin.{
  handle_superadmin_verify, is_owners, count_attempt, verify_actor, verify_action,
}
use gaming_cafe_management.World.Tables.{AuditRow}
use gaming_cafe_management.World.Action.{ok}
use gaming_cafe_management.Shared.{ActorType}
use gaming_cafe_management.World.Audit.{plain_audit}
use gaming_cafe_management.World.{World, write_audit}

count_attempt-rate :
    (now id : ℕ) (good : Bool) (attempts : Buckets)
    → count_attempt now id (bucket_of attempts id) good attempts
      ≡ (if good then reset_rate_limit id attempts else fail_rate_limit now id attempts)
unfolding count_attempt fail_rate_limit reset_rate_limit
count_attempt-rate now id true attempts = refl
count_attempt-rate now id false attempts = refl

retry_after-free :
    (now id : ℕ) (attempts : Buckets)
    → ltb now (bucket_of attempts id).locked_until ≡ false
    → retry_after_seconds now id attempts ≡ 0
unfolding retry_after_seconds
retry_after-free now id attempts h = ground arith

retry_after-locked :
    (now id : ℕ) (attempts : Buckets)
    → ltb now (bucket_of attempts id).locked_until ≡ true
    → retry_after_seconds now id attempts
      ≡ ((bucket_of attempts id).locked_until - now + 999) / 1000
unfolding retry_after_seconds
retry_after-locked now id attempts h = ground arith

-- The audit row of an attempt that is let through.
abbrev pub attempt_audit : (cafe_id id : ℕ) → (good : Bool) → AuditRow
attempt_audit cafe_id id good =
    if good
    then plain_audit cafe_id ActorType.superadmin_local id "SUPERADMIN_ENTERED" (some id)
    else plain_audit cafe_id ActorType.pc id "SUPERADMIN_LOGIN_FAILED" (some id)

attempt_audit_lem :
    (cafe_id id : ℕ) (good : Bool)
    → plain_audit cafe_id (verify_actor good) id (verify_action good) (some id)
      ≡ attempt_audit cafe_id id good
attempt_audit_lem cafe_id id true = refl
attempt_audit_lem cafe_id id false = refl

-- The state after an attempt that is let through.
abbrev pub counted : (now id : ℕ) → (good : Bool) → DevicePrincipal → World → World
counted now id good device w = write_audit (attempt_audit device.cafe_id id good) (record w {
  superadmin_attempts =
      if good
      then reset_rate_limit id w.superadmin_attempts
      else fail_rate_limit now id w.superadmin_attempts;
})

module _ (s : Services) where
  -- The check of an owner's password at the machine itself keeps its attempts as the rate limit keeps
  -- its buckets: it answers yes exactly when the rate limit lets the attempt through and the password
  -- is an owner's, with the seconds that the rate limit makes one wait. An attempt that is let
  -- through counts as the rate limit's success or failure and is written to the audit log, and
  -- nothing else changes; an attempt that is not let through leaves the whole state as it was.
  pub handle_superadmin_verify-rate :
      (now : ℕ) (device : DevicePrincipal) (password : ℕ) (w : World)
      → let id = device.pc_id in
        let allowed = (check_rate_limit now id w.superadmin_attempts).0 in
        let good = is_owners s device.cafe_id password w.users in
        let r = handle_superadmin_verify s now device id password w in
        (r.0
          ≡ ok (record {
            ok = allowed && good;
            retry_after_s = retry_after_seconds now id w.superadmin_attempts;
          }))
        × (r.1 ≡ (if allowed then counted now id good device w else w))
  unfolding handle_superadmin_verify check_rate_limit write_audit
  handle_superadmin_verify-rate now device password w =
      elim (Bool-cases (ltb now (bucket_of w.superadmin_attempts device.pc_id).locked_until)) [
        | inl locked ↦ (
          rw
              (
                ==_refl device.pc_id,
                locked,
                retry_after-locked now device.pc_id w.superadmin_attempts locked,
              )
              refl,
          rw (==_refl device.pc_id, locked) refl,
        )
        | inr free ↦ (
          rw
              (
                ==_refl device.pc_id,
                free,
                retry_after-free now device.pc_id w.superadmin_attempts free,
              )
              refl,
          rw
              (
                ==_refl device.pc_id,
                free,
                count_attempt-rate now device.pc_id (is_owners s device.cafe_id password w.users)
                    w.superadmin_attempts,
                attempt_audit_lem device.cafe_id device.pc_id
                    (is_owners s device.cafe_id password w.users),
              )
              refl,
        )
      ]
