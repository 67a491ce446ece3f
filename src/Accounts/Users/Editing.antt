-- ===== src/Accounts/Users/Editing.antt =====
-- `create`, `updateUserRole`, `resetPassword` and `resolveTeamAssignment`
-- (src/users/users.service.ts).
pub mod Laws
use content_intelligence_bac.Base.{
  ℕ, suc, Bool, true, false, not, ◌&&◌, ◌||◌, Option, none, some, List, [], ◌∷◌, String, ◌==◌,
  if◌then◌else◌, is_some, holds, find, select, any, update_where, count_where, snoc, Result, ok,
  err, Action, ◌>>=◌, ◌>>◌, pure, throw_if, modify, gets, reads, found_or, transaction, rethrow,
  trim, is_empty,
}
use Prim.Native.String
use text.Mathlib.Text.{◌==◌ as str_eq}
use content_intelligence_bac.Quota.Model.{active_users}
use content_intelligence_bac.Quota.Reserve.{reserve}
use content_intelligence_bac.Quota.Commit.{commit_reservation}
use content_intelligence_bac.Sessions.Model.{
  RevokeReason, other_reason, RefreshSession, Sessions, revoke,
}
use content_intelligence_bac.Accounts.Model.{
  UserRole, User, Role, RolePermission, Membership, Team, Accounts, AccountError, role_required,
  user_not_found, team_invalid, tenant_required, own_access, own_password, email_taken,
  user_created, user_role_changed, user_password_reset, is_user, is_membership_of, add_audit,
}
use content_intelligence_bac.Accounts.Roles.{resolve_membership_role}
use content_intelligence_bac.Accounts.Memberships.{
  create_initial_membership, sync_role_assignment, replace_teams,
}
use content_intelligence_bac.Accounts.Users.{
  Database, UserError, account_error, Actor, on_accounts, on_quota, release, raise_authorization,
  find_one, write_user, user_audit,
}

pub record TeamAssignment : Type 0 where
  pub team_id : Option ℕ
  pub team : Option String

-- `legacyTeam?.trim() || null`
abbrev pub legacy_name : Option String → Option String
legacy_name none = none
legacy_name (some t) = let name = trim t in if is_empty name then none else some name

-- `resolveTeamAssignment`: the request gives a team, gives none by `null`, or says nothing.
pub resolve_team_assignment :
    Option (Option ℕ)
    → Option String
    → (organization : ℕ) → Accounts
    → Result AccountError TeamAssignment
resolve_team_assignment (some none) legacy organization s =
    ok (record { team_id = none; team = legacy_name legacy })
resolve_team_assignment (some (some id)) legacy organization s =
    elim (find (λ t. t.id == id && t.is_active && t.organization_id == organization) s.teams) [
      | none ↦ err team_invalid
      | some t ↦ ok (record { team_id = some t.id; team = some t.code })
    ]
resolve_team_assignment none legacy organization s =
    ok (record { team_id = none; team = legacy_name legacy })

pub record CreateUserDto : Type 0 where
  pub full_name : String
  pub email : String
  pub role : Option UserRole
  pub role_id : Option ℕ
  pub team_id : Option (Option ℕ)
  pub team : Option String

-- `!dto.role && !dto.roleId`
abbrev pub no_role : Option UserRole → Option ℕ → Bool
no_role role role_id = not (is_some role) && not (is_some role_id)

-- The row of `create`; the database refuses an address that is taken.
pub insert_user : CreateUserDto → (hash organization now : ℕ) → Action Accounts AccountError User
insert_user dto hash organization now s =
    let u : User = record {
      id = s.next_id;
      full_name = dto.full_name;
      email = dto.email;
      organization_id = organization;
      password_hash = hash;
      is_active = true;
      password_changed_at = none;
      last_login_at = none;
      failed_login_attempts = 0;
      locked_until = none;
      created_at = now;
    } in
    if any (λ u. str_eq u.email dto.email) s.users
    then (err email_taken, s)
    else (ok u, record s { users = snoc s.users u; next_id = suc s.next_id })

-- The transaction of `create`.
pub create_body :
    CreateUserDto → (hash organization now : ℕ) → Option ℕ → Action Accounts AccountError User
create_body dto hash organization now team = do
  role ← reads (λ s. resolve_membership_role organization dto.role_id dto.role s.roles)
  created ← insert_user dto hash organization now
  membership ← create_initial_membership created role.id team
  pure created

-- The audit row of `create` names no organization.
abbrev pub created_audit : Actor → ℕ → Accounts → Accounts
created_audit actor user =
    add_audit
      (record { actor_id = some actor.user_id; organization_id = none; action = user_created user })

-- `create`, with the random part of the idempotency key.
pub create :
    CreateUserDto
    → (hash : ℕ) → Actor
    → (uuid : String) → (now : ℕ) → Action Database UserError User
create dto hash actor uuid now = do
  throw_if (no_role dto.role dto.role_id) (account_error role_required)
  assignment ←
      on_accounts (reads (resolve_team_assignment dto.team_id dto.team actor.organization_id))
  reservation ← on_quota (
      reserve actor.organization_id active_users 1 (String.◌++◌ "user:create:" uuid) now
        (some actor.user_id) actor.request_id)
  user ← (λ d. rethrow (release reservation.reservation_id now) (
      on_accounts (transaction (create_body dto hash actor.organization_id now assignment.team_id))
        d))
  result ← on_quota (commit_reservation reservation.reservation_id now)
  on_accounts (modify (created_audit actor user.id))
  pure user

pub record UpdateUserRoleDto : Type 0 where
  pub role : Option UserRole
  pub role_id : Option ℕ
  pub team_id : Option (Option ℕ)
  pub team : Option String

-- The team assignment that is replaced, where the request names one.
abbrev pub new_assignment :
    UpdateUserRoleDto → (organization : ℕ) → Accounts → Result AccountError (Option TeamAssignment)
new_assignment dto organization s =
    if is_some dto.team_id || is_some dto.team
    then elim (resolve_team_assignment dto.team_id dto.team organization s) [
      | ok a ↦ ok (some a)
      | err e ↦ err e
    ]
    else ok none

-- Whether the role's active grants have an action.
abbrev pub grants : ℕ → String → Accounts → Bool
grants role action s =
    any (λ p. p.role_id == role && p.is_active && str_eq p.action action) s.role_permissions

abbrev pub manages_access : ℕ → Accounts → Bool
manages_access role s = grants role "permission:manage" s && grants role "role:manage" s

abbrev pub team_list : Option ℕ → List ℕ
team_list none = []
team_list (some id) = id ∷ []

-- `replaceTeams`, where the request names a team.
pub assign_teams :
    (user organization : ℕ) → Option TeamAssignment → Action Accounts AccountError (Unit {0})
assign_teams user organization none = pure tt
assign_teams user organization (some a) = replace_teams user organization (team_list a.team_id)

module _ (id : ℕ) (dto : UpdateUserRoleDto) (actor : Actor) where
  -- The transaction of `updateUserRole`.
  pub update_role_body : Option TeamAssignment → Action Accounts AccountError Role
  update_role_body assignment = do
    role ← reads (λ s. resolve_membership_role actor.organization_id dto.role_id dto.role s.roles)
    keeps_access ← gets (manages_access role.id)
    throw_if (actor.user_id == id && not keeps_access) own_access
    sync_role_assignment id actor.organization_id role.id
    assign_teams id actor.organization_id assignment
    raise_authorization actor.organization_id
    pure role

  -- `updateUserRole`
  pub update_user_role : Action Accounts AccountError Role
  update_user_role = do
    throw_if (no_role dto.role dto.role_id) role_required
    membership ← reads (λ s.
        found_or (find (is_membership_of id actor.organization_id) s.memberships) user_not_found)
    assignment ← reads (new_assignment dto actor.organization_id)
    role ← transaction (update_role_body assignment)
    modify (user_audit actor (user_role_changed id))
    pure role

abbrev pub set_password : (hash now : ℕ) → User → User
set_password hash now u = record u {
  password_hash = hash;
  password_changed_at = some now;
  failed_login_attempts = 0;
  locked_until = none;
}

-- The sessions of the user that are not revoked yet.
abbrev pub is_unrevoked : ℕ → RefreshSession → Bool
is_unrevoked user r = r.user_id == user && not (is_some r.revoked_at)

-- The sessions of a user end; the answer is their number.
pub end_sessions : (user now : ℕ) → Action Database UserError ℕ
end_sessions user now d = (
  ok (count_where (is_unrevoked user) d.sessions.rows),
  record d {
    sessions = record d.sessions {
      rows =
          update_where (is_unrevoked user) (revoke now (other_reason "PASSWORD_RESET_BY_ADMIN"))
            d.sessions.rows;
    };
  },
)

-- The transaction of `resetPassword`, with the number of sessions.
pub reset_body : (id hash now : ℕ) → Action Database UserError ℕ
reset_body id hash now = do on_accounts (write_user id (set_password hash now)); end_sessions id now

-- `resetPassword`
pub reset_password : (id hash : ℕ) → Actor → (now : ℕ) → Action Database UserError ℕ
reset_password id hash actor now = do
  throw_if (id == actor.user_id) (account_error own_password)
  user ← on_accounts (find_one id actor.organization_id)
  revoked ← transaction (reset_body id hash now)
  on_accounts (modify (user_audit actor (user_password_reset id revoked)))
  pure revoked

-- What a run of these calls computes with: another module names this alone.
unfoldable pub editing_run : Unit {0}
unfolding resolve_team_assignment insert_user create_body create assign_teams update_role_body
    update_user_role reset_body end_sessions reset_password
editing_run = tt
