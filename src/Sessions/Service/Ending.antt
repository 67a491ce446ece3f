-- ===== src/Sessions/Service/Ending.antt =====
-- Theorems on the ends of sessions (src/auth/refresh-token.service.ts).
use content_intelligence_bac.Base.{
  ℕ, ◌≡◌, refl, arith, Bool, true, false, Option, some, String, ◌==◌, is_some, find, count_where,
  find-update_where, count_where-update_where, rewrite_found, err,
}
use content_intelligence_bac.Sessions.Token.{SessionContext, Codec}
use content_intelligence_bac.Sessions.Model.{
  RevokeReason, reuse_detected, User, RefreshSession, Sessions, AuthError, is_live_of, revoke,
}
use content_intelligence_bac.Sessions.Service.{
  Client, revoke_where, revoke_active, revoke_all_user_sessions, is_session, find_with_user,
  check_session, rotate_refresh_token,
}

-- The session of a number, before and after.
module _ (p : RefreshSession → Bool) (now : ℕ) (reason : RevokeReason) (s : Sessions) where
  find-revoke_where :
      (id : ℕ)
      → find (is_session id) (revoke_where p now reason s).rows
        ≡ rewrite_found p (revoke now reason) (find (is_session id) s.rows)
  unfolding revoke_where
  find-revoke_where id = find-update_where (is_session id) p (revoke now reason) (λ x. refl) s.rows

  pub revoke_where-others :
      (id : ℕ) (r : RefreshSession)
      → find (is_session id) s.rows ≡ some r
      → p r ≡ false
      → find (is_session id) (revoke_where p now reason s).rows ≡ some r
  revoke_where-others id r found apart = rw (find-revoke_where id) (rw found (rw apart))

-- No session of the user is live, and those of other users are as they were.
pub record IsSignedOut (user now : ℕ) (s s' : Sessions) : Type 0 where
  pub ended : count_where (is_live_of user now) s'.rows ≡ 0
  pub others :
      (id : ℕ) (r : RefreshSession)
      → find (is_session id) s.rows ≡ some r
      → (r.user_id == user) ≡ false
      → find (is_session id) s'.rows ≡ some r

revoke_live-IsSignedOut :
    (user now : ℕ) (reason : RevokeReason) (s : Sessions)
    → IsSignedOut user now s (revoke_where (is_live_of user now) now reason s)
unfolding revoke_where
revoke_live-IsSignedOut user now reason s = record {
  ended =
      count_where-update_where (is_live_of user now) (revoke now reason) (λ x. ground arith) s.rows;
  others = λ id r found other.
      revoke_where-others (is_live_of user now) now reason s id r found (rw other);
}

-- Signing a user out everywhere reports the number of live sessions, leaves none of them live, and
-- leaves the sessions of the other users as they were.
pub revoke_all_user_sessions_lem :
    (user now : ℕ) (reason : RevokeReason) (s : Sessions)
    → let (n, s') = revoke_all_user_sessions user now reason s in
      (n ≡ count_where (is_live_of user now) s.rows) × IsSignedOut user now s s'
unfolding revoke_all_user_sessions
revoke_all_user_sessions_lem user now reason s = (refl, revoke_live-IsSignedOut user now reason s)

module _ (codec : Codec) (hash : String → ℕ) (ttl : ℕ) where
  check_session-revoked :
      (r : RefreshSession) (u : User) (now : ℕ) (s : Sessions)
      → is_some r.revoked_at ≡ true
      → check_session codec hash ttl r u now s ≡ (
        some AuthError.token_revoked,
        revoke_where (is_live_of r.user_id now) now reuse_detected s,
      )
  unfolding check_session revoke_active
  check_session-revoked r u now s revoked = rw revoked refl

  rotate-revoked :
      (token : String) (client : Client) (next : Option SessionContext) (random : String) (now : ℕ)
      (s : Sessions) (r : RefreshSession) (u : User)
      → find_with_user codec hash ttl token s ≡ some (r, u)
      → is_some r.revoked_at ≡ true
      → rotate_refresh_token codec hash ttl token client next random now s ≡ (
        err AuthError.token_revoked,
        revoke_where (is_live_of r.user_id now) now reuse_detected s,
      )
  unfolding rotate_refresh_token
  rotate-revoked token client next random now s r u found revoked =
      let e = check_session-revoked r u now s revoked in
      rw (found, e, rotate_refresh_token) (rw e refl)

  -- Presenting a refresh token whose session is found revoked, for whatever reason, is refused,
  -- ends every live session of its owner, and touches no session of another user.
  pub rotate-reuse :
      (token : String) (client : Client) (next : Option SessionContext) (random : String) (now : ℕ)
      (s : Sessions) (r : RefreshSession) (u : User)
      → find_with_user codec hash ttl token s ≡ some (r, u)
      → is_some r.revoked_at ≡ true
      → let (out, s') = rotate_refresh_token codec hash ttl token client next random now s in
        (out ≡ err AuthError.token_revoked) × IsSignedOut r.user_id now s s'
  rotate-reuse token client next random now s r u found revoked =
      rw (rotate-revoked token client next random now s r u found revoked)
        (refl, revoke_live-IsSignedOut r.user_id now reuse_detected s)
