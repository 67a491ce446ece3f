-- ===== src/Sessions/Service/Renewal.antt =====
-- A refresh token that is rotated successfully (`rotateRefreshToken`, src/auth/refresh-token.service.ts).
use content_intelligence_bac.Base.{
  ℕ, ◌<◌, ◌≡◌, refl, arith, ◌∙◌, true, Option, none, some, String, ◌==◌, inl, inr, Option-cases,
  or_option, find, count_where, ok, find-by_key,
}
use content_intelligence_bac.Sessions.Token.{
  SessionContext, Codec, generate_refresh_token, parse_tenant_context,
}
use content_intelligence_bac.Sessions.Model.{User, RefreshSession, Sessions, is_live, is_live_of}
use content_intelligence_bac.Sessions.Service.{
  Client, RotatedSession, new_session, is_session, mark_rotated, mark_replaced, find_with_user,
  check_session, finish_rotation, rotate_refresh_token,
}
use content_intelligence_bac.Sessions.Service.Rotation.{
  session_id, IsValid, swapped, swapped-IsSwapped, swap_session-swapped, swapped-live,
}

module _ (codec : Codec) (hash : String → ℕ) (ttl : ℕ) where
  -- The user's row of a token, and the session it belongs to.
  find_with_user-found :
      (token : String) (s : Sessions) (r : RefreshSession) (u : User)
      → IsValid s
      → find_with_user codec hash ttl token s ≡ some (r, u)
      → find (is_session r.id) s.rows ≡ some r
  unfolding find_with_user
  find_with_user-found token s r u v h =
      elim (Option-cases (find (λ x. x.refresh_token_hash == hash token) s.rows)) [
        | inl missing ↦ absurd (cc (rw (missing, find_with_user) at h))
        | inr (x, found) ↦ elim (Option-cases (find (λ y. y.id == x.user_id) s.users)) [
          | inl missing ↦ absurd (cc (rw (found, missing, find_with_user) at h))
          | inr (y, owner) ↦
              let same : x ≡ r = cc (rw (found, owner, find_with_user) at h) in
              rw (← same) (
                find-by_key session_id (λ z. z.refresh_token_hash == hash token) s.rows x v.distinct
                  found)
        ]
      ]

  -- What a rotation that succeeds has done.
  pub record IsRotated (r : RefreshSession) (client : Client) (now : ℕ) (s : Sessions)
      (out : RotatedSession) (s' : Sessions) : Type 0 where
    pub was_live : is_live now r ≡ true
    pub closed :
        find (is_session r.id) s'.rows
        ≡ some (mark_replaced out.session.session_id (mark_rotated now r))
    pub opened :
        find (is_session out.session.session_id) s'.rows
        ≡ some (
            new_session out.session.session_id r.user_id
              (hash out.session.refresh_token)
              now
              ttl
              client)
    pub as_many :
        count_where (is_live_of r.user_id now) s'.rows
        ≡ count_where (is_live_of r.user_id now) s.rows
    pub valid : IsValid s'

  -- The checks leave the table alone when they pass, and pass only on a live session.
  check_session-passed :
      (r : RefreshSession) (u : User) (now : ℕ) (s : Sessions)
      → (check_session codec hash ttl r u now s).0 ≡ none
      → (check_session codec hash ttl r u now s ≡ (none, s)) × (is_live now r ≡ true)
  unfolding check_session
  check_session-passed r u now s h = ground (arith, h)

  -- With well-formed tables, a positive duration and a token whose row is found, a rotation that
  -- succeeds was of a live session. It closes that session and records its successor there, opens
  -- the successor for the same user with the digest of the new token, leaves the user exactly as
  -- many live sessions as before, and keeps the tables well formed.
  pub rotate-IsRotated :
      (token : String) (client : Client) (next : Option SessionContext) (random : String) (now : ℕ)
      (s s' : Sessions) (r : RefreshSession) (u : User) (out : RotatedSession)
      → IsValid s
      → 0 < ttl
      → find_with_user codec hash ttl token s ≡ some (r, u)
      → rotate_refresh_token codec hash ttl token client next random now s ≡ (ok out, s')
      → IsRotated r client now s out s'
  unfolding rotate_refresh_token finish_rotation
  rotate-IsRotated token client next random now s s' r u out v lasting found h =
      elim (Option-cases (check_session codec hash ttl r u now s).0) [
        | inr (e, failed) ↦ absurd (cc (rw (found, failed, rotate_refresh_token) at h))
        | inl passed ↦
            let (same, live) = check_session-passed r u now s passed in
            let was = find_with_user-found token s r u v found in
            let fresh =
              generate_refresh_token codec (or_option next (parse_tenant_context codec token))
                random in
            let went = swap_session-swapped codec hash ttl r client fresh now s v r was live in
            let w = swapped-IsSwapped codec hash ttl r client fresh now s v r was live in
            let many = swapped-live codec hash ttl r client fresh now s v r was live refl lasting in
            let known : w.old ≡ r = cc (w.was, was) in
            let f = rw went at rw same at rw (found, same, rotate_refresh_token) at h in
            let state : swapped codec hash ttl r client fresh now s v ≡ s' = cc f in
            let id : s.next_id ≡ out.session.session_id = cc f in
            let token : fresh ≡ out.session.refresh_token = cc f in
            rw (← state, ← id, ← token)
              (record {
                was_live = live;
                closed = w.closed ∙ rw known refl;
                opened = w.opened;
                as_many = many;
                valid = w.valid;
              })
      ]
