-- ===== src/Sessions/Service.antt =====
-- The operations of `RefreshTokenService` (src/auth/refresh-token.service.ts) on the session table.
-- `hash` is the digest of a token, Node's SHA-256.
pub mod Ending
pub mod Renewal
pub mod Rotation
use content_intelligence_bac.Base.{
  ℕ, ◌+◌, ◌*◌, suc, Bool, true, false, not, ◌&&◌, ◌||◌, Option, none, some, List, [], ◌∷◌, String,
  ltb, leb, ◌==◌, if◌then◌else◌, or_option, is_some, holds, find, select, update_where, count_where,
  snoc, Result, ok, err, Action, ◌>>=◌, pure, throw, rollback,
}
use content_intelligence_bac.Sessions.Token.{
  SessionContext, Codec, generate_refresh_token, parse_tenant_context,
}
use content_intelligence_bac.Sessions.Model.{
  RevokeReason, rotated, reuse_detected, token_expired, session_revoked, User, RefreshSession,
  Sessions, AuthError, invalid_token, token_revoked, expired_token, inactive_user, no_longer_valid,
  session_not_found, is_live, is_live_of, revoke,
}

-- `updateMany` with `revokedAt: now` and the reason, on the rows that fit.
pub revoke_where : (RefreshSession → Bool) → ℕ → RevokeReason → Sessions → Sessions
revoke_where p now reason s = record s { rows = update_where p (revoke now reason) s.rows }

-- `revokeActiveSessionsForUser`
pub revoke_active : (user now : ℕ) → RevokeReason → Sessions → Sessions
unfolding revoke_where
revoke_active user now reason s = revoke_where (is_live_of user now) now reason s

-- `revokeAllUserSessions`, with the number of rows.
pub revoke_all_user_sessions : (user now : ℕ) → RevokeReason → Sessions → ℕ × Sessions
unfolding revoke_where
revoke_all_user_sessions user now reason s =
    (count_where (is_live_of user now) s.rows, revoke_where (is_live_of user now) now reason s)

-- The request data that a session keeps.
pub record Client : Type 0 where
  pub user_agent : Option String
  pub ip_address : Option String

abbrev pub new_session : (id user hash now ttl : ℕ) → Client → RefreshSession
new_session id user hash now ttl client = record {
  id = id;
  user_id = user;
  refresh_token_hash = hash;
  user_agent = client.user_agent;
  ip_address = client.ip_address;
  created_at = now;
  last_used_at = now;
  expires_at = now + ttl;
  revoked_at = none;
  revoked_reason = none;
  replaced_by_session_id = none;
}

abbrev pub add_session : RefreshSession → Sessions → Sessions
add_session r s = record s { rows = snoc s.rows r; next_id = suc s.next_id }

pub record CreatedSession : Type 0 where
  pub refresh_token : String
  pub max_age : ℕ
  pub expires_at : ℕ
  pub session_id : ℕ
  pub context : Option SessionContext

pub record RotatedSession : Type 0 where
  pub user : User
  pub session : CreatedSession

pub record ActiveSession : Type 0 where
  pub user : User
  pub session_id : ℕ
  pub context : Option SessionContext

abbrev pub is_rotated : RefreshSession → Bool
is_rotated r = elim r.revoked_reason [
  | none ↦ false
  | some reason ↦ elim reason [ rotated ↦ is_some r.revoked_at | _ ↦ false ]
]

abbrev pub mark_rotated : ℕ → RefreshSession → RefreshSession
mark_rotated now r = record r {
  last_used_at = now;
  revoked_at = some now;
  revoked_reason = some rotated;
}

abbrev pub mark_replaced : ℕ → RefreshSession → RefreshSession
mark_replaced id r = record r { replaced_by_session_id = some id }

abbrev pub is_session : ℕ → RefreshSession → Bool
is_session id r = r.id == id

-- The row that the rotation may still take: not revoked and not expired.
abbrev pub is_rotatable : (id now : ℕ) → RefreshSession → Bool
is_rotatable id now r = is_session id r && is_live now r

module _ (codec : Codec) (hash : String → ℕ) (ttl : ℕ) where
  -- `findUnique` by the digest with the user, who is there by the foreign key.
  unfoldable pub find_with_user : String → Sessions → Option (RefreshSession × User)
  find_with_user token s = elim (find (λ r. r.refresh_token_hash == hash token) s.rows) [
    | none ↦ none
    | some r ↦ elim (find (λ u. u.id == r.user_id) s.users) [ none ↦ none | some u ↦ some (r, u) ]
  ]

  -- `createSession`
  pub create_session :
      (user : ℕ)
      → Client
      → Option SessionContext
      → (random : String) → (now : ℕ) → Sessions
      → CreatedSession × Sessions
  create_session user client context random now s =
      let token = generate_refresh_token codec context random in
      (
        record {
          refresh_token = token;
          max_age = ttl;
          expires_at = now + ttl;
          session_id = s.next_id;
          context = context;
        },
        add_session (new_session s.next_id user (hash token) now ttl client) s,
      )

  -- `getActiveSession`
  pub get_active_session : String → (now : ℕ) → Action Sessions AuthError ActiveSession
  get_active_session token now s = elim (find_with_user token s) [
    | none ↦ (err invalid_token, s)
    | some (r, u) ↦
        let s' = if is_rotated r then revoke_active r.user_id now reuse_detected s else s in
        if is_some r.revoked_at || leb r.expires_at now || not u.is_active
        then (err invalid_token, s')
        else (
          ok (record { user = u; session_id = r.id; context = parse_tenant_context codec token }),
          s',
        )
  ]

  -- The transaction of the rotation, on the row that was read before: another request may have
  -- rotated or revoked it since.
  unfoldable pub swap_session :
      RefreshSession → Client → (token : String) → (now : ℕ) → Action Sessions AuthError ℕ
  swap_session existing client token now s =
      if count_where (is_rotatable existing.id now) s.rows == 1
      then (let rows = update_where (is_rotatable existing.id now) (mark_rotated now) s.rows in
          let created = new_session s.next_id existing.user_id (hash token) now ttl client in
          (
            ok s.next_id,
            record s {
              rows =
                  update_where (is_session existing.id) (mark_replaced s.next_id)
                    (snoc rows created);
              next_id = suc s.next_id;
            },
          ))
      else (err no_longer_valid, s)

  -- The checks of the rotation before its transaction, in their order.
  unfoldable pub check_session :
      RefreshSession → User → (now : ℕ) → Sessions → Option AuthError × Sessions
  check_session r u now s =
      if is_some r.revoked_at
      then (some token_revoked, revoke_active r.user_id now reuse_detected s)
      else if leb r.expires_at now
      then (
        some expired_token,
        revoke_where (λ x. is_session r.id x && not (is_some x.revoked_at)) now token_expired s,
      )
      else if not u.is_active
      then (some inactive_user, s)
      else (none, s)

  -- What the transaction's answer becomes.
  unfoldable pub finish_rotation :
      User
      → String
      → Option SessionContext
      → (now : ℕ) → Result AuthError ℕ × Sessions
      → Result AuthError RotatedSession × Sessions
  finish_rotation u token context now (err e, s) = (err e, s)
  finish_rotation u token context now (ok id, s) = (
    ok (record {
      user = u;
      session = record {
        refresh_token = token;
        max_age = ttl;
        expires_at = now + ttl;
        session_id = id;
        context = context;
      };
    }),
    s,
  )

  -- `rotateRefreshToken`, with no other request between its checks and its transaction.
  unfoldable pub rotate_refresh_token :
      (token : String)
      → Client
      → (next : Option SessionContext) → (random : String) → (now : ℕ)
      → Action Sessions AuthError RotatedSession
  rotate_refresh_token token client next random now s = elim (find_with_user token s) [
    | none ↦ (err invalid_token, s)
    | some (r, u) ↦
        let (failed, s') = check_session r u now s in
        elim failed [
          | some e ↦ (err e, s')
          | none ↦
              let context = or_option next (parse_tenant_context codec token) in
              let fresh = generate_refresh_token codec context random in
              finish_rotation u fresh context now (swap_session r client fresh now s')
        ]
  ]

  -- `revokeByToken`
  pub revoke_by_token : String → RevokeReason → (now : ℕ) → Sessions → Sessions
  revoke_by_token token reason now s =
      revoke_where (λ r. r.refresh_token_hash == hash token && not (is_some r.revoked_at)) now
        reason s

  abbrev pub is_current : Option String → RefreshSession → Bool
  is_current current r = holds (λ token. r.refresh_token_hash == hash token) current

  -- `revokeUserSession`, with whether it was the current session.
  pub revoke_user_session :
      (user id : ℕ) → (current : Option String) → (now : ℕ) → Action Sessions AuthError Bool
  revoke_user_session user id current now s =
      elim (find (λ r. is_session id r && r.user_id == user) s.rows) [
        | none ↦ (err session_not_found, s)
        | some r ↦ (
          ok (is_current current r),
          revoke_where (λ x. is_session id x && x.user_id == user && not (is_some x.revoked_at)) now
              session_revoked s,
        )
      ]

  -- `revokeAllUserSessionsExceptToken`, with the number of rows.
  pub revoke_all_except : (user : ℕ) → String → RevokeReason → (now : ℕ) → Sessions → ℕ × Sessions
  revoke_all_except user token reason now s =
      let other =
        λ (r : RefreshSession). is_live_of user now r && not (r.refresh_token_hash == hash token) in
      (count_where other s.rows, revoke_where other now reason s)

  -- `orderBy: lastUsedAt desc, createdAt desc`, as an insertion of each row.
  pub insert_recent : RefreshSession → List RefreshSession → List RefreshSession
  insert_recent r [] = r ∷ []
  insert_recent r (x ∷ xs) =
      if ltb x.last_used_at r.last_used_at
        || (x.last_used_at == r.last_used_at && leb x.created_at r.created_at)
      then r ∷ x ∷ xs
      else x ∷ insert_recent r xs

  pub sort_recent : List RefreshSession → List RefreshSession
  sort_recent [] = []
  sort_recent (r ∷ rs) = insert_recent r (sort_recent rs)

  -- `listUserSessions`: the live sessions, each with whether it is the current one.
  pub mark_current : Option String → List RefreshSession → List (RefreshSession × Bool)
  mark_current current [] = []
  mark_current current (r ∷ rs) = (r, is_current current r) ∷ mark_current current rs

  pub list_user_sessions :
      (user : ℕ) → Option String → (now : ℕ) → Sessions → List (RefreshSession × Bool)
  list_user_sessions user current now s =
      mark_current current (sort_recent (select (is_live_of user now) s.rows))
