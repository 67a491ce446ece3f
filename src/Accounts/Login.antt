-- ===== src/Accounts/Login.antt =====
-- `login`, `recordFailedLogin` and `recordSuccessfulLogin` (src/auth/auth.service.ts), up to the
-- response that is built. The comparison of a password with a digest is bcrypt's; the tenant that a
-- login is resolved to, and whether its organization allows passwords, come from the tenant resolution.
pub mod Lockout
use content_intelligence_bac.Base.{
  ℕ, ◌+◌, suc, Bool, true, false, not, ◌&&◌, Option, none, some, List, [], ◌∷◌, String, leb, ltb,
  ◌==◌, if◌then◌else◌, holds, find, Result, ok, err, Action, ◌>>=◌, ◌>>◌, pure, throw, throw_if,
  modify, reads,
}
use text.Mathlib.Text.{◌==◌ as str_eq}
use content_intelligence_bac.Accounts.Model.{
  User, Accounts, AccountError, AuditLog, AuditAction, invalid_credentials, account_locked,
  password_disabled, login_failed, login_rejected, login_succeeded, is_user, add_audit,
}
use content_intelligence_bac.Accounts.Users.{write_user}

-- What a login needs of bcrypt and of the tenant resolution.
pub record Authority : Type 0 where
  pub compare : String → (hash : ℕ) → Bool
  -- The organization, none for a platform administrator without one.
  pub resolve : (user : ℕ) → Accounts → Result AccountError (Option ℕ)
  pub allows_password : (organization : ℕ) → Bool

abbrev pub max_attempts : ℕ
max_attempts = 5

-- 15 minutes
abbrev pub lock_time : ℕ
lock_time = 900000

abbrev pub has_email : String → User → Bool
has_email email u = str_eq u.email email

abbrev pub is_locked : (now : ℕ) → User → Bool
is_locked now u = holds (λ t. ltb now t) u.locked_until

-- The write of `recordFailedLogin`, with the number of attempts that `login` has read.
abbrev pub fail : (attempts now : ℕ) → User → User
fail attempts now u = record u {
  failed_login_attempts = attempts + 1;
  locked_until = if leb max_attempts (attempts + 1) then some (now + lock_time) else none;
}

abbrev pub auth_audit : Option ℕ → Option ℕ → AuditAction → Accounts → Accounts
auth_audit actor organization action =
    add_audit (record { actor_id = actor; organization_id = organization; action = action })

-- `recordFailedLogin`
pub record_failed_login : (user attempts now : ℕ) → Action Accounts AccountError (Unit {0})
record_failed_login user attempts now = do
  write_user user (fail attempts now)
  modify (
      auth_audit (some user) none
        (login_failed user (attempts + 1) (leb max_attempts (attempts + 1))))

abbrev pub succeed : (now : ℕ) → User → User
succeed now u = record u {
  failed_login_attempts = 0;
  locked_until = none;
  last_login_at = some now;
}

-- `recordSuccessfulLogin`
pub record_successful_login :
    (user : ℕ) → Option ℕ → (now : ℕ) → Action Accounts AccountError (Unit {0})
record_successful_login user organization now = do
  write_user user (succeed now)
  modify (auth_audit (some user) organization (login_succeeded user))

module _ (authority : Authority) (email password : String) (now : ℕ) where
  -- The part of `login` after the password was found right.
  pub admit : User → Action Accounts AccountError User
  admit u = do
    organization ← reads (authority.resolve u.id)
    throw_if (holds (λ o. not (authority.allows_password o)) organization) password_disabled
    record_successful_login u.id organization now
    pure u

  -- The part of `login` for a user who is there and active.
  pub authenticate : User → Action Accounts AccountError User
  authenticate u =
      if is_locked now u
      then throw account_locked
      else if not (authority.compare password u.password_hash)
      then record_failed_login u.id u.failed_login_attempts now >> throw invalid_credentials
      else admit u

  pub reject : Option ℕ → Action Accounts AccountError User
  reject user = modify (auth_audit user none (login_rejected user)) >> throw invalid_credentials

  -- `login`
  pub login : Action Accounts AccountError User
  login s = elim (find (has_email email) s.users) [
    | none ↦ reject none s
    | some u ↦ (if not u.is_active then reject (some u.id) else authenticate u) s
  ]
