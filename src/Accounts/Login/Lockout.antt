-- ===== src/Accounts/Login/Lockout.antt =====
-- How many passwords can be tried (src/auth/auth.service.ts).
use content_intelligence_bac.Base.{
  ℕ, ◌+◌, ◌≤◌, ◌<◌, ◌≡◌, refl, arith, ap, ◌∙◌, Bool, true, false, not, some, List, [], ◌∷◌, String,
  leb, ==_refl, if◌then◌else◌, any-found, find, find-update_where, inl, inr, Bool-cases, Result, ok,
  err, Action, modify, throw, >>=-ok, update_where, none,
}
use content_intelligence_bac.Accounts.Model.{
  User, Accounts, AccountError, invalid_credentials, account_locked, is_user, login_failed,
}
use content_intelligence_bac.Accounts.Login.{
  auth_audit, Authority, max_attempts, lock_time, has_email, is_locked, fail, record_failed_login,
  reject, authenticate, login,
}
use content_intelligence_bac.Accounts.Users.{write_user}

-- Whether a login was answered after the password was compared and found wrong.
abbrev pub is_wrong : Result AccountError User → Bool
is_wrong (err invalid_credentials) = true
is_wrong _ = false

if_not : {A : Type 0} (b : Bool) (x y : A) → b ≡ true → (if not b then x else y) ≡ y
if_not true x y h = refl
if_not false x y h = absurd (cc h)

module _ (authority : Authority) (email : String) where
  -- The wrong passwords that a sequence of logins gets compared.
  unfoldable pub guesses : List (String × ℕ) → Accounts → ℕ
  guesses [] s = 0
  guesses ((password, now) ∷ tries) s =
      let (r, s') = login authority email password now s in
      (if is_wrong r then 1 else 0) + guesses tries s'

  module _ (password : String) (now : ℕ) (s : Accounts) (u : User)
      (found : find (has_email email) s.users ≡ some u) (lively : u.is_active ≡ true)
      (wrong : authority.compare password u.password_hash ≡ false) where
    login-authenticate :
        login authority email password now s ≡ authenticate authority email password now u s
    unfolding login
    login-authenticate =
        rw (found, login)
          (ap (λ (m : Action Accounts AccountError User). m s)
            (if_not u.is_active (reject authority email password now (some u.id))
              (authenticate authority email password now u) lively))

    login-locked :
        is_locked now u ≡ true → login authority email password now s ≡ (err account_locked, s)
    unfolding authenticate
    login-locked locked = rw login-authenticate (rw locked refl)

    -- The accounts after the failure was recorded.
    abbrev after_failure : Accounts
    after_failure =
        auth_audit (some u.id) none
          (login_failed u.id (u.failed_login_attempts + 1)
            (leb max_attempts (u.failed_login_attempts + 1)))
          (record s {
            users = update_where (is_user u.id) (fail u.failed_login_attempts now) s.users;
          })

    refused :
        is_locked now u ≡ false
        → authenticate authority email password now u s ≡ (err invalid_credentials, after_failure)
    unfolding authenticate record_failed_login
    refused free =
        let attempts = u.failed_login_attempts in
        let note : Action Accounts AccountError (Unit {0}) = modify (
          auth_audit (some u.id) none
            (login_failed u.id (attempts + 1) (leb max_attempts (attempts + 1)))) in
        let recorded : record_failed_login u.id attempts now s ≡ (ok tt, after_failure) =
          >>=-ok (write_user u.id (fail attempts now)) s (λ _. note) tt _
            (rw (any-found (has_email email) (is_user u.id) s.users u found (==_refl u.id)) refl) in
        rw (free, wrong)
          (>>=-ok (record_failed_login u.id attempts now) s
            (λ _. throw {A = User} invalid_credentials) tt after_failure recorded)

    login-wrong :
        is_locked now u ≡ false
        → let (r, s') = login authority email password now s in
          (r ≡ err invalid_credentials)
          × (find (has_email email) s'.users ≡ some (fail u.failed_login_attempts now u))
    login-wrong free = rw (login-authenticate ∙ refused free) (
      refl,
      find-update_where (has_email email) (is_user u.id) (fail u.failed_login_attempts now)
            (λ x. refl) s.users
          ∙ rw found (rw (==_refl u.id) refl),
    )

  -- Logins with wrong passwords, from an instant on and before another one.
  abbrev pub AreWrong : (hash start end_at : ℕ) → List (String × ℕ) → Type 0
  AreWrong hash start end_at [] = Unit
  AreWrong hash start end_at ((password, now) ∷ tries) =
      (authority.compare password hash ≡ false)
      × (start ≤ now)
      × (now < end_at)
      × AreWrong hash start end_at tries

  module _ (hash start end_at : ℕ) where
    guesses-locked :
        (tries : List (String × ℕ)) (s : Accounts) (u : User) (until : ℕ)
        → find (has_email email) s.users ≡ some u
        → u.is_active ≡ true
        → u.password_hash ≡ hash
        → u.locked_until ≡ some until
        → end_at ≤ until
        → AreWrong hash start end_at tries
        → guesses tries s ≡ 0
    unfolding guesses
    guesses-locked [] s u until found lively h locked late w = refl
    guesses-locked ((password, now) ∷ tries) s u until found lively h locked late
          (wrong, after, before, w) =
        let shut : is_locked now u ≡ true = rw locked (ground (arith, before, late)) in
        rw (login-locked password now s u found lively (rw h wrong) shut)
          (omega (arith, guesses-locked tries s u until found lively h locked late w))

    -- Of any sequence of logins with wrong passwords within 15 minutes, for an active user with fewer
    -- than five failed attempts, no more passwords are compared than make five attempts in all.
    pub guesses-bounded :
        (tries : List (String × ℕ)) (s : Accounts) (u : User)
        → find (has_email email) s.users ≡ some u
        → u.is_active ≡ true
        → u.password_hash ≡ hash
        → u.failed_login_attempts < max_attempts
        → end_at ≤ start + lock_time
        → AreWrong hash start end_at tries
        → guesses tries s + u.failed_login_attempts ≤ max_attempts
    unfolding guesses
    guesses-bounded [] s u found lively h few window w = omega (arith, few)
    guesses-bounded ((password, now) ∷ tries) s u found lively h few window
          (wrong, after, before, w) =
        elim (Bool-cases (is_locked now u)) [
          | inl shut ↦
              rw (login-locked password now s u found lively (rw h wrong) shut)
                (omega (arith, guesses-bounded tries s u found lively h few window w))
          | inr free ↦
              let (answer, found') = login-wrong password now s u found lively (rw h wrong) free in
              let s' = (login authority email password now s).1 in
              let u' = fail u.failed_login_attempts now u in
              elim (Bool-cases (leb max_attempts (u.failed_login_attempts + 1))) [
                | inl last ↦
                    let none_left =
                      guesses-locked tries s' u' (now + lock_time) found' lively h (rw last refl)
                        (omega (arith, window, after)) w in
                    rw answer (omega (arith, none_left, few))
                | inr more ↦
                    let left =
                      guesses-bounded tries s' u' found' lively h (ground (arith, more)) window w in
                    rw answer (omega (arith, left))
              ]
        ]
