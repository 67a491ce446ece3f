-- ===== src/Accounts/Users.antt =====
-- `UsersService` (src/users/users.service.ts) over the tables of the accounts, the quotas and the
-- sessions. The digest of a password is an argument; one instant serves a whole call. The avatars and
-- the listing are left out.
pub mod Editing
pub mod Activation
use content_intelligence_bac.Base.{
  ℕ, suc, Bool, true, false, not, ◌&&◌, ◌||◌, Option, none, some, List, [], ◌∷◌, String, ◌==◌,
  if◌then◌else◌, is_some, holds, find, any, update_where, count_where, snoc, map, Result, ok, err,
  Action, ◌>>=◌, ◌>>◌, pure, throw, throw_if, modify, gets, reads, found_or, transaction, rethrow,
  trim, is_empty,
}
use Prim.Native.String
use text.Mathlib.Text.{◌==◌ as str_eq}
use content_intelligence_bac.Quota.Model.{active_users, Member, Store}
use content_intelligence_bac.Quota.Tables.{QuotaError}
use content_intelligence_bac.Quota.Reserve.{UsageReservationResult, reserve}
use content_intelligence_bac.Quota.Commit.{CommitResult, commit_reservation, release_reservation}
use content_intelligence_bac.Quota.Inventory.{synchronize_inventory}
use content_intelligence_bac.Sessions.Model.{
  RevokeReason, other_reason, RefreshSession, Sessions, revoke,
}
use content_intelligence_bac.Accounts.Model.{
  UserRole, User, Organization, Role, RolePermission, Membership, Accounts, AccountError,
  AuditAction, role_required, user_not_found, organization_not_found, team_invalid, already_active,
  tenant_required, own_access, own_password, email_taken, membership_not_found, user_created,
  user_activated, user_deactivated, user_role_changed, user_password_reset, is_active_membership,
  user_is_active, is_user, is_membership_of, add_audit,
}
use content_intelligence_bac.Accounts.Roles.{resolve_membership_role}
use content_intelligence_bac.Accounts.Memberships.{
  create_initial_membership, sync_role_assignment, replace_teams, suspend_for_user,
  activate_for_user,
}

pub record Database : Type 0 where
  pub accounts : Accounts
  pub quota : Store
  pub sessions : Sessions

pub data UserError : Type 0 where
  account_error : AccountError → UserError
  quota_error : QuotaError → UserError

-- The caller of a request, with the organization of its tenant context.
pub record Actor : Type 0 where
  pub user_id : ℕ
  pub organization_id : ℕ
  pub request_id : Option String

-- The memberships as the inventory of the quotas reads them.
abbrev pub members_of : Accounts → List Member
members_of s =
    map
      (λ m. record {
        organization_id = m.organization_id;
        is_active_membership = is_active_membership m.status;
        user_is_active = user_is_active m.user_id s;
      })
      s.memberships

-- The accounts are written, and the quota code reads the same tables.
abbrev pub write_accounts : Accounts → Database → Database
write_accounts s d = record d {
  accounts = s;
  quota = record d.quota { directory = record d.quota.directory { members = members_of s } };
}

abbrev pub of_accounts :
    {A : Type 0} → Database → Result AccountError A × Accounts → Result UserError A × Database
of_accounts d (ok a, s) = (ok a, write_accounts s d)
of_accounts d (err e, s) = (err (account_error e), write_accounts s d)

abbrev pub of_quota :
    {A : Type 0} → Database → Result QuotaError A × Store → Result UserError A × Database
of_quota d (ok a, s) = (ok a, record d { quota = s })
of_quota d (err e, s) = (err (quota_error e), record d { quota = s })

abbrev pub on_accounts : {A : Type 0} → Action Accounts AccountError A → Action Database UserError A
on_accounts m d = of_accounts d (m d.accounts)

abbrev pub on_quota : {A : Type 0} → Action Store QuotaError A → Action Database UserError A
on_quota m d = of_quota d (m d.quota)

-- `releaseReservation`, on the way out of a failed transaction.
abbrev pub release : Option ℕ → (now : ℕ) → UserError → Database → Database
release reservation now e d = record d { quota = (release_reservation reservation now d.quota).1 }

-- `authorizationVersion: { increment: 1 }`
abbrev pub raise_authorization : ℕ → Action Accounts AccountError (Unit {0})
raise_authorization id s =
    if any (λ o. o.id == id) s.organizations
    then (
      ok tt,
      record s {
        organizations =
            update_where (λ o. o.id == id)
              (λ o. record o { authorization_version = suc o.authorization_version })
              s.organizations;
      },
    )
    else (err organization_not_found, s)

abbrev pub is_user_of : (id organization : ℕ) → User → Bool
is_user_of id organization u = u.id == id && u.organization_id == organization

-- `findOne`
abbrev pub find_one : (id organization : ℕ) → Action Accounts AccountError User
find_one id organization =
    reads (λ s. found_or (find (is_user_of id organization) s.users) user_not_found)

abbrev pub set_active : Bool → User → User
set_active active u = record u { is_active = active }

-- An update of one row; it throws where the row is missing.
abbrev pub write_user : ℕ → (User → User) → Action Accounts AccountError (Unit {0})
write_user id change s =
    if any (is_user id) s.users
    then (ok tt, record s { users = update_where (is_user id) change s.users })
    else (err user_not_found, s)

abbrev pub user_audit : Actor → AuditAction → Accounts → Accounts
user_audit actor action = add_audit (record {
  actor_id = some actor.user_id;
  organization_id = some actor.organization_id;
  action = action;
})

module _ (id : ℕ) (actor : Actor) (now : ℕ) where
  -- The transaction of `deactivate`: the user first, then the membership.
  unfoldable pub deactivate_body : Action Accounts AccountError (Unit {0})
  deactivate_body = do
    write_user id (set_active false)
    suspended ← suspend_for_user id actor.organization_id now
    raise_authorization actor.organization_id

  -- `deactivate`
  pub deactivate : Action Database UserError (Unit {0})
  deactivate = do
    user ← on_accounts (find_one id actor.organization_id)
    on_accounts (transaction deactivate_body)
    counter ← on_quota (synchronize_inventory actor.organization_id active_users now)
    on_accounts (modify (user_audit actor (user_deactivated id)))

  -- The transaction of `activate`.
  pub activate_body : Action Accounts AccountError (Unit {0})
  activate_body = do
    write_user id (set_active true)
    activate_for_user id actor.organization_id now
    raise_authorization actor.organization_id

  -- `activate`, with the text of the user's identifier that the idempotency key holds.
  pub activate : (text : String) → Action Database UserError (Unit {0})
  activate text = do
    user ← on_accounts (find_one id actor.organization_id)
    throw_if user.is_active (account_error already_active)
    reservation ← on_quota (
        reserve actor.organization_id active_users 1 (String.◌++◌ "user:activate:" text) now
          (some actor.user_id) actor.request_id)
    (λ d.
        rethrow (release reservation.reservation_id now)
          (on_accounts (transaction activate_body) d))
    result ← on_quota (commit_reservation reservation.reservation_id now)
    on_accounts (modify (user_audit actor (user_activated id)))
