-- ===== src/Sessions/Model.antt =====
-- The table of refresh sessions and the users that own them (prisma/schema.prisma). Identifiers are
-- only compared, so they are numbers; an instant is a number of milliseconds since the epoch; the
-- digest of a token is a number.
use content_intelligence_bac.Base.{
  ℕ, Bool, Option, some, List, String, ltb, not, ◌&&◌, is_some, ◌==◌,
}

pub data RevokeReason : Type 0 where
  rotated reuse_detected token_expired logout logout_all session_revoked logout_other_sessions :
      RevokeReason
  other_reason : String → RevokeReason

pub record User : Type 0 where
  pub id : ℕ
  pub is_active : Bool

pub record RefreshSession : Type 0 where
  pub id : ℕ
  pub user_id : ℕ
  pub refresh_token_hash : ℕ
  pub user_agent : Option String
  pub ip_address : Option String
  pub created_at : ℕ
  pub last_used_at : ℕ
  pub expires_at : ℕ
  pub revoked_at : Option ℕ
  pub revoked_reason : Option RevokeReason
  pub replaced_by_session_id : Option ℕ

pub record Sessions : Type 0 where
  pub users : List User
  pub rows : List RefreshSession
  pub next_id : ℕ

pub data AuthError : Type 0 where
  invalid_token token_revoked expired_token inactive_user no_longer_valid session_not_found :
      AuthError

-- `revokedAt: null, expiresAt: { gt: now }`
abbrev pub is_live : ℕ → RefreshSession → Bool
is_live now r = not (is_some r.revoked_at) && ltb now r.expires_at

abbrev pub is_live_of : (user now : ℕ) → RefreshSession → Bool
is_live_of user now r = r.user_id == user && is_live now r

abbrev pub revoke : ℕ → RevokeReason → RefreshSession → RefreshSession
revoke now reason r = record r { revoked_at = some now; revoked_reason = some reason }
