-- ===== src/Sessions/Tests.antt =====
-- The session code on a small table, with a digest that numbers three tokens.
use content_intelligence_bac.Base.{
  ℕ, ◌≡◌, refl, arith, true, none, some, [], ◌∷◌, String, if◌then◌else◌, count_where, err,
}
use text.Mathlib.Text.{◌==◌ as str_eq}
use content_intelligence_bac.Sessions.Token.{
  tenant, Codec, payload_of, split_dot, generate_refresh_token, parse_parts, context_of,
  parse_tenant_context, parse_tenant_context-generate,
}
use content_intelligence_bac.Sessions.Model.{
  logout, logout_all, Sessions, AuthError, no_longer_valid, is_live_of, revoke,
}
use content_intelligence_bac.Sessions.Service.{
  Client, RotatedSession, new_session, find_with_user, swap_session, check_session, finish_rotation,
  rotate_refresh_token, revoke_all_user_sessions, mark_rotated, mark_replaced,
}
use content_intelligence_bac.Sessions.Service.Ending.{
  IsSignedOut, rotate-reuse, revoke_all_user_sessions_lem,
}
use content_intelligence_bac.Sessions.Service.Rotation.{IsValid, swap_session-once}
use content_intelligence_bac.Sessions.Service.Renewal.{IsRotated, rotate-IsRotated}

abbrev codec : Codec
codec = record {
  encode = λ p. "eyJ2IjoyfQ";
  decode = λ s. some (payload_of (tenant "org" "member"));
}

abbrev digest : String → ℕ
digest token = if str_eq token "old" then 1 else if str_eq token "stolen" then 2 else 3

abbrev browser : Client
browser = record { user_agent = some "browser"; ip_address = none }

-- A live session of the user 7, and one that was signed out.
abbrev table : Sessions
table = record {
  users = record { id = 7; is_active = true } ∷ [];
  rows =
      new_session 1 7 1 100 1000 browser
      ∷ revoke 150 logout (new_session 2 7 2 100 1000 browser)
      ∷ [];
  next_id = 3;
}

table-IsValid : IsValid table
table-IsValid = record {
  distinct = ((λ e. omega (arith, e), tt), (tt, tt));
  below = (omega arith, (omega arith, tt));
}

-- The table after the live session was rotated.
abbrev rotated_table : Sessions
rotated_table = record table {
  rows =
      mark_replaced 3 (mark_rotated 200 (new_session 1 7 1 100 1000 browser))
      ∷ revoke 150 logout (new_session 2 7 2 100 1000 browser)
      ∷ new_session 3 7 3 200 1000 browser
      ∷ [];
  next_id = 4;
}

abbrev renewed : RotatedSession
renewed = record {
  user = record { id = 7; is_active = true };
  session = record {
    refresh_token = "new";
    max_age = 1000;
    expires_at = 1200;
    session_id = 3;
    context = none;
  };
}

rotate-IsRotated_example :
    IsRotated codec digest 1000
      (new_session 1 7 1 100 1000 browser)
      browser
      200
      table
      renewed
      rotated_table
unfolding find_with_user rotate_refresh_token check_session swap_session finish_rotation
    parse_tenant_context parse_parts split_dot generate_refresh_token context_of
rotate-IsRotated_example =
    rotate-IsRotated codec digest 1000 "old" browser none "new" 200 table rotated_table
      (new_session 1 7 1 100 1000 browser) (record { id = 7; is_active = true }) renewed
      table-IsValid (omega arith) refl refl

rotate-reuse_example :
    let (out, s') = rotate_refresh_token codec digest 1000 "stolen" browser none "new" 200 table in
    (out ≡ err AuthError.token_revoked) × IsSignedOut 7 200 table s'
unfolding find_with_user
rotate-reuse_example =
    rotate-reuse codec digest 1000 "stolen" browser none "new" 200 table
      (revoke 150 logout (new_session 2 7 2 100 1000 browser)) (record { id = 7; is_active = true })
      refl refl

swap_session-once_example :
    swap_session codec digest 1000
      (new_session 1 7 1 100 1000 browser)
      browser
      "newer"
      201
      rotated_table
    ≡ (err no_longer_valid, rotated_table)
unfolding swap_session
swap_session-once_example =
    swap_session-once codec digest 1000 (new_session 1 7 1 100 1000 browser) browser "new" 200 table
      table-IsValid 3 rotated_table browser "newer" 201 refl

revoke_all_user_sessions_lem_example :
    let (n, s') = revoke_all_user_sessions 7 200 logout_all table in
    (n ≡ count_where (is_live_of 7 200) table.rows) × IsSignedOut 7 200 table s'
revoke_all_user_sessions_lem_example = revoke_all_user_sessions_lem 7 200 logout_all table

parse_tenant_context-generate_example :
    parse_tenant_context codec
      (generate_refresh_token codec (some (tenant "org" "member")) "r4nd0m")
    ≡ some (tenant "org" "member")
parse_tenant_context-generate_example =
    parse_tenant_context-generate codec (tenant "org" "member") "r4nd0m"
      (refl, (refl, (refl, (refl, (refl, (refl, tt)))))) (refl, refl)
      (record {
        undotted =
            (refl, (refl, (refl, (refl, (refl, (refl, (refl, (refl, (refl, (refl, tt))))))))));
        restored = refl;
      })
