-- ===== src/Accounts/Memberships.antt =====
-- `OrganizationMembershipsService`
-- (src/organization-memberships/organization-memberships.service.ts). The callers run these in their
-- transactions; the advisory lock of the owners makes the count and the update one step.
pub mod Defaults
pub mod Owners
use content_intelligence_bac.Base.{
  ℕ, suc, Bool, true, false, not, ◌&&◌, ◌||◌, Option, none, some, List, [], ◌∷◌, leb, ◌==◌,
  if◌then◌else◌, is_some, holds, find, select, any, update_where, count_where, snoc, Result, ok,
  err, Action, ◌>>=◌, ◌>>◌, pure, throw, throw_if, modify, gets, or_throw,
}
use content_intelligence_bac.Accounts.Model.{
  User, Organization, OrganizationStatus, Role, Membership, MembershipStatus, Team, TeamLink,
  Accounts, AccountError, team_of_another_organization, membership_not_found, last_owner,
  user_inactive, ambiguous_memberships, role_inactive, role_missing, selection_required,
  no_membership, is_active_membership, user_is_active, is_membership_of, status_eq,
}

pub record EffectiveContext : Type 0 where
  pub membership_id : ℕ
  pub organization_id : ℕ
  pub role_id : ℕ

-- `organization: { status: 'ACTIVE' }`, of a row that refers to an organization.
unfoldable pub organization_is_active : ℕ → Accounts → Bool
organization_is_active id s =
    holds (λ o. status_eq o.status OrganizationStatus.active)
      (find (λ o. o.id == id) s.organizations)

-- The active memberships of a user in active organizations. The order of the query decides nothing:
-- a membership is taken only where it is the one default or the one row.
abbrev pub is_effective : ℕ → Accounts → Membership → Bool
is_effective user s m =
    m.user_id == user && is_active_membership m.status && organization_is_active m.organization_id s

abbrev pub find_role : Option ℕ → Accounts → Option Role
find_role none s = none
find_role (some id) s = find (λ r. r.id == id) s.roles

-- The role of the membership that was selected.
unfoldable pub effective_of : Membership → Accounts → Result AccountError EffectiveContext
effective_of m s = elim (find_role m.role_id s) [
  | none ↦ err role_missing
  | some r ↦
      if r.is_active
      then ok (record { membership_id = m.id; organization_id = m.organization_id; role_id = r.id })
      else err role_inactive
]

unfoldable pub select_effective :
    (defaults active : List Membership) → Accounts → Result AccountError EffectiveContext
select_effective (d ∷ e ∷ ds) active s = err ambiguous_memberships
select_effective (d ∷ []) active s = effective_of d s
select_effective [] (m ∷ []) s = effective_of m s
select_effective [] [] s = err no_membership
select_effective [] (m ∷ n ∷ ms) s = err selection_required

-- `resolveEffectiveContext`
unfoldable pub resolve_effective_context :
    (user : ℕ) → (is_active : Bool) → Accounts → Result AccountError EffectiveContext
resolve_effective_context user is_active s =
    let active = select (is_effective user s) s.memberships in
    if is_active
    then select_effective (select (λ m. m.is_default) active) active s
    else err user_inactive

-- `assertTeamOrganization`
abbrev pub team_fits : (organization : ℕ) → Accounts → Option ℕ → Bool
team_fits organization s none = true
team_fits organization s (some id) =
    any (λ t. t.id == id && t.organization_id == organization && t.is_active) s.teams

abbrev pub links_of : ℕ → Option ℕ → List TeamLink
links_of membership none = []
links_of membership (some team) = record { membership_id = membership; team_id = team } ∷ []

abbrev pub snoc_all : List TeamLink → List TeamLink → List TeamLink
snoc_all links [] = links
snoc_all links (l ∷ ls) = snoc_all (snoc links l) ls

abbrev pub initial_membership : ℕ → User → (role : ℕ) → Membership
initial_membership id u role = record {
  id = id;
  user_id = u.id;
  organization_id = u.organization_id;
  role_id = some role;
  team_id = none;
  status = MembershipStatus.active;
  is_default = true;
  is_tenant_owner = false;
  joined_at = some u.created_at;
  suspended_at = none;
  last_access_at = u.last_login_at;
  created_at = u.created_at;
}

-- `createInitialMembership`
unfoldable pub create_initial_membership :
    User → (role : ℕ) → Option ℕ → Action Accounts AccountError Membership
create_initial_membership u role team s =
    if team_fits u.organization_id s team
    then (let m = initial_membership s.next_id u role in
        (
          ok m,
          record s {
            memberships = snoc s.memberships m;
            team_links = snoc_all s.team_links (links_of m.id team);
            next_id = suc s.next_id;
          },
        ))
    else (err team_of_another_organization, s)

-- `syncRoleAssignment`
unfoldable pub sync_role_assignment :
    (user organization role : ℕ) → Action Accounts AccountError (Unit {0})
sync_role_assignment user organization role s =
    if any (is_membership_of user organization) s.memberships
    then (
      ok tt,
      record s {
        memberships =
            update_where (is_membership_of user organization)
              (λ m. record m { role_id = some role }) s.memberships;
      },
    )
    else (err membership_not_found, s)

-- `[...new Set(teamIds)]`
pub distinct_teams : List ℕ → List ℕ
distinct_teams [] = []
distinct_teams (t ∷ ts) = t ∷ select (λ x. not (x == t)) (distinct_teams ts)

abbrev pub all_fit : (organization : ℕ) → Accounts → List ℕ → Bool
all_fit organization s [] = true
all_fit organization s (t ∷ ts) = team_fits organization s (some t) && all_fit organization s ts

abbrev pub link_all : ℕ → List ℕ → List TeamLink
link_all membership [] = []
link_all membership (t ∷ ts) =
    record { membership_id = membership; team_id = t } ∷ link_all membership ts

-- `replaceTeams`
unfoldable pub replace_teams :
    (user organization : ℕ) → List ℕ → Action Accounts AccountError (Unit {0})
unfolding distinct_teams
replace_teams user organization teams s =
    let unique = distinct_teams teams in
    if all_fit organization s unique
    then elim (find (is_membership_of user organization) s.memberships) [
      | none ↦ (err membership_not_found, s)
      | some m ↦ (
        ok tt,
        record s {
          team_links =
              snoc_all (select (λ l. not (l.membership_id == m.id)) s.team_links)
                (link_all m.id unique);
        },
      )
    ]
    else (err team_of_another_organization, s)

-- An active membership of an owner who is an active user.
abbrev pub is_active_owner : (organization : ℕ) → Accounts → Membership → Bool
is_active_owner organization s m =
    m.organization_id == organization
    && is_active_membership m.status
    && m.is_tenant_owner
    && user_is_active m.user_id s

abbrev pub active_owners : (organization : ℕ) → Accounts → ℕ
active_owners organization s = count_where (is_active_owner organization s) s.memberships

-- `assertOwnerCanBeDeactivated`: whether it throws.
unfoldable pub is_last_owner : (user organization : ℕ) → Accounts → Bool
is_last_owner user organization s =
    any (λ m. m.user_id == user && is_active_owner organization s m) s.memberships
    && leb (active_owners organization s) 1

abbrev pub is_active_of : (user organization : ℕ) → Membership → Bool
is_active_of user organization m =
    is_membership_of user organization m && is_active_membership m.status

abbrev pub suspend : (now : ℕ) → Membership → Membership
suspend now m = record m {
  status = MembershipStatus.suspended;
  is_default = false;
  suspended_at = some now;
}

-- `suspendForUser`, with the number of rows.
unfoldable pub suspend_for_user : (user organization now : ℕ) → Action Accounts AccountError ℕ
unfolding is_last_owner
suspend_for_user user organization now s =
    if is_last_owner user organization s then (err last_owner, s) else (
      ok (count_where (is_active_of user organization) s.memberships),
      record s {
        memberships = update_where (is_active_of user organization) (suspend now) s.memberships;
      },
    )

abbrev pub reactivate : (now : ℕ) → Membership → Membership
reactivate now m = record m {
  status = MembershipStatus.active;
  is_default = true;
  joined_at = some now;
  suspended_at = none;
}

-- The user's default memberships are defaults no more.
abbrev pub clear_default : (user : ℕ) → List Membership → List Membership
clear_default user =
    update_where (λ m. m.user_id == user && m.is_default) (λ m. record m { is_default = false })

-- `activateForUser`
unfoldable pub activate_for_user :
    (user organization now : ℕ) → Action Accounts AccountError (Unit {0})
activate_for_user user organization now s =
    let rows = clear_default user s.memberships in
    if any (is_membership_of user organization) rows
    then (
      ok tt,
      record s {
        memberships = update_where (is_membership_of user organization) (reactivate now) rows;
      },
    )
    else (err membership_not_found, record s { memberships = rows })

-- `touchLastAccess`
pub touch_last_access : Option ℕ → (now : ℕ) → Action Accounts AccountError (Unit {0})
touch_last_access none now s = (ok tt, s)
touch_last_access (some id) now s =
    if any (λ m. m.id == id) s.memberships
    then (
      ok tt,
      record s {
        memberships =
            update_where (λ m. m.id == id) (λ m. record m { last_access_at = some now })
              s.memberships;
      },
    )
    else (err membership_not_found, s)
