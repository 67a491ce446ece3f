-- ===== src/Accounts/Tests.antt =====
-- The theorems on accounts at concrete tables, and runs of the service calls.
use content_intelligence_bac.Base.{
  ℕ, false, ◌+◌, ◌≤◌, ◌<◌, ◌≡◌, ◌↔◌, refl, arith, true, none, some, List, [], ◌∷◌, String, Memᴰ,
  trim, to_lower, find, count_where, ok,
}
use content_intelligence_bac.Quota.Model.{Store, OrganizationStatus as Standing}
use content_intelligence_bac.Accounts.Model.{
  admin, system, OrganizationStatus, pending_setup, OnboardingStatus, MembershipStatus, User,
  Organization, Role, RolePermission, Membership, Accounts, tenant_activated, tenant_archived,
  TeamLink,
}
use content_intelligence_bac.Accounts.Roles.{resolve_membership_role}
use content_intelligence_bac.Accounts.Memberships.{
  organization_is_active, resolve_effective_context, effective_of, active_owners, is_last_owner,
  sync_role_assignment, replace_teams, suspend_for_user, activate_for_user,
}
use content_intelligence_bac.Accounts.Memberships.Owners.{owns, suspend_for_user-keeps_owner}
use content_intelligence_bac.Accounts.Memberships.Defaults.{activate_for_user-resolves}
use content_intelligence_bac.Accounts.Organizations.{
  is_organization, transition, organizations_run, check_target, assert_activation_ready,
}
use content_intelligence_bac.Accounts.Organizations.Provisioning.{
  ProvisionOrganizationDto, provision, provision_body, set_up, upsert_team, upsert_owner,
}
use content_intelligence_bac.Accounts.Organizations.Lifecycle.{IsSetUp, ◌⟶*◌, is_set_up}
use content_intelligence_bac.Accounts.Organizations.Histories.{
  Call, creates, provisions, moves, run, run_all, run_all-Evolves, run_all-IsSetUp,
}
use content_intelligence_bac.Accounts.Organizations.Founding.Ready.{provision-transition}
use content_intelligence_bac.Accounts.Users.{Database, Actor, deactivate_body}
use content_intelligence_bac.Accounts.Users.Activation.{deactivate_body-owners}
use content_intelligence_bac.Accounts.Users.Editing.{
  UpdateUserRoleDto, editing_run, update_user_role,
}
use content_intelligence_bac.Accounts.Users.Editing.Laws.{IsChanged, update_user_role-IsChanged}
use content_intelligence_bac.Accounts.Teams.{users_share_tenant_team}
use content_intelligence_bac.Accounts.Teams.Sharing.{IsLinkOf, users_share_tenant_team_iff}
use content_intelligence_bac.Accounts.Login.{Authority}
use content_intelligence_bac.Accounts.Login.Lockout.{guesses, guesses-bounded}

abbrev user : ℕ → String → User
user id email = record {
  id = id;
  full_name = email;
  email = email;
  organization_id = 1;
  password_hash = id;
  is_active = true;
  password_changed_at = none;
  last_login_at = none;
  failed_login_attempts = 0;
  locked_until = none;
  created_at = 0;
}

abbrev organization : ℕ → String → OrganizationStatus → OnboardingStatus → Organization
organization id code status onboarding = record {
  id = id;
  code = code;
  name = code;
  status = status;
  onboarding_status = onboarding;
  onboarding_started_at = none;
  onboarding_completed_at = none;
  onboarding_last_attempt_at = none;
  onboarding_failure = none;
  timezone = "UTC";
  locale = "en";
  authorization_version = 1;
}

abbrev membership : (id user organization : ℕ) → Membership
membership id user organization = record {
  id = id;
  user_id = user;
  organization_id = organization;
  role_id = some 10;
  team_id = none;
  status = MembershipStatus.active;
  is_default = true;
  is_tenant_owner = true;
  joined_at = none;
  suspended_at = none;
  last_access_at = none;
  created_at = 0;
}

abbrev admin_role : Role
admin_role = record {
  id = 10;
  base_role = admin;
  scope = system;
  organization_id = none;
  is_active = true;
}

abbrev grant : String → RolePermission
grant action = record { role_id = 10; action = action; is_active = true }

-- Two users who own the first organization; the second is suspended and has an owner, too; the third
-- is in its set-up.
abbrev tables : Accounts
tables = record {
  users = user 1 "ann" ∷ user 2 "bob" ∷ [];
  organizations =
      organization 1 "acme" OrganizationStatus.active OnboardingStatus.ready
      ∷ organization 2 "beta" OrganizationStatus.suspended OnboardingStatus.ready
      ∷ organization 3 "gamma" pending_setup OnboardingStatus.not_started
      ∷ [];
  memberships = membership 20 1 1 ∷ membership 21 2 1 ∷ membership 22 1 2 ∷ [];
  roles = admin_role ∷ [];
  role_permissions = grant "permission:manage" ∷ grant "role:manage" ∷ [];
  teams = [];
  team_links = [];
  audit_logs = [];
  next_id = 100;
}

abbrev quotas : Store
quotas = record {
  directory = record {
    organizations = record { id = 1; status = Standing.active; entitlement_version = 1 } ∷ [];
    plans = [];
    subscriptions = [];
    plan_quotas = [];
    overrides = [];
    members = [];
    files = [];
  };
  counters = [];
  reservations = [];
  events = [];
  threshold_events = [];
  snapshots = [];
  audit_logs = [];
  next_id = 200;
}

abbrev database : Database
database = record {
  accounts = tables;
  quota = quotas;
  sessions = record { users = []; rows = []; next_id = 1 };
}

abbrev ann : Actor
ann = record { user_id = 1; organization_id = 1; request_id = none }

suspend_for_user-keeps_owner_example : 0 < active_owners 1 (suspend_for_user 2 1 50 tables).1
suspend_for_user-keeps_owner_example =
    suspend_for_user-keeps_owner 2 1 50 tables (omega arith) (omega arith)

activate_for_user-resolves_example :
    resolve_effective_context 1 true (activate_for_user 1 1 50 tables).1
    ≡ effective_of (membership 20 1 1) tables
unfolding organization_is_active
activate_for_user-resolves_example =
    activate_for_user-resolves 1 1 50 tables (membership 20 1 1) refl (omega arith) refl

abbrev calls : List (ℕ × Call)
calls =
    (7, creates (record { code = "new"; name = "New"; timezone = none; locale = none }))
    ∷ (
      7,
      provisions 100 (record { owner_user_id = 1; default_team_code = ""; default_team_name = "" })
          60 61,
    )
    ∷ (7, moves 100 OrganizationStatus.active (tenant_activated 100))
    ∷ (7, moves 1 OrganizationStatus.archived (tenant_archived 1))
    ∷ []

tables-IsSetUp : IsSetUp tables.organizations
tables-IsSetUp id o found = ground (arith)

abbrev acme : Organization
acme = organization 1 "acme" OrganizationStatus.active OnboardingStatus.ready

run_all-Evolves_example :
    (o' : Organization) × (find (is_organization 1) (run_all calls tables).organizations ≡ some o')
    × (acme.status ⟶* o'.status)
run_all-Evolves_example = run_all-Evolves calls tables 1 acme refl

-- The organization that the calls create, provision and activate.
abbrev founded : Organization
founded = record {
  id = 100;
  code = "new";
  name = "New";
  status = OrganizationStatus.active;
  onboarding_status = OnboardingStatus.ready;
  onboarding_started_at = some 60;
  onboarding_completed_at = some 61;
  onboarding_last_attempt_at = some 60;
  onboarding_failure = none;
  timezone = "Asia/Tehran";
  locale = "fa-IR";
  authorization_version = 1;
}

run_all-IsSetUp_example : is_set_up founded ≡ true
unfolding run_all run organizations_run provision provision_body set_up upsert_team upsert_owner
    resolve_membership_role check_target assert_activation_ready trim to_lower
run_all-IsSetUp_example = run_all-IsSetUp calls tables tables-IsSetUp 100 founded refl

deactivate_body-owners_example :
    let (r, s') = deactivate_body 2 ann 50 tables in
    (r ≡ ok tt)
    × (active_owners 1 s' + count_where (owns 2 1 50 tables) tables.memberships
        ≡ active_owners 1 tables)
deactivate_body-owners_example = deactivate_body-owners 2 ann 50 tables refl refl

abbrev authority : Authority
authority = record {
  compare = λ p h. false;
  resolve = λ u s. ok (some 1);
  allows_password = λ o. true;
}

guesses-bounded_example :
    guesses authority "bob"
        (("a", 10) ∷ ("b", 20) ∷ ("c", 30) ∷ ("d", 40) ∷ ("e", 50) ∷ ("f", 60) ∷ [])
        tables
      + 0
    ≤ 5
guesses-bounded_example =
    guesses-bounded authority "bob" 2 0 900000
      (("a", 10) ∷ ("b", 20) ∷ ("c", 30) ∷ ("d", 40) ∷ ("e", 50) ∷ ("f", 60) ∷ []) tables
      (user 2 "bob") refl refl refl (omega arith) (omega arith)
      (
        refl,
        omega arith,
        omega arith,
        (
          refl,
          omega arith,
          omega arith,
          (
            refl,
            omega arith,
            omega arith,
            (
              refl,
              omega arith,
              omega arith,
              (refl, omega arith, omega arith, (refl, omega arith, omega arith, tt)),
            ),
          ),
        ),
      )

abbrev by_identifier : UpdateUserRoleDto
by_identifier = record { role = none; role_id = some 10; team_id = none; team = none }

update_user_role-IsChanged_example :
    IsChanged 1 by_identifier ann admin_role (update_user_role 1 by_identifier ann tables).1
unfolding editing_run resolve_membership_role sync_role_assignment replace_teams
update_user_role-IsChanged_example =
    update_user_role-IsChanged 1 by_identifier ann tables admin_role
      (update_user_role 1 by_identifier ann tables).1 refl

-- The only active owner of the second organization is deactivated there.
last_owner_deactivated :
    active_owners 2
      (deactivate_body 1
        (record { user_id = 2; organization_id = 2; request_id = none })
        50
        tables).1
    ≡ 0
unfolding deactivate_body suspend_for_user is_last_owner
last_owner_deactivated = refl

abbrev request : ProvisionOrganizationDto
request = record { owner_user_id = 2; default_team_code = ""; default_team_name = "" }

provision-transition_example :
    (transition 3 OrganizationStatus.active
      (tenant_activated 3)
      7
      (provision 3 request 7 60 61 tables).1).0
    ≡ ok tt
unfolding provision provision_body set_up upsert_team upsert_owner organizations_run
    resolve_membership_role trim to_lower
provision-transition_example =
    provision-transition 3 request 7 60 61 tables
      (record { owner_membership_id = 101; default_team_id = 100 })
      (provision 3 request 7 60 61 tables).1 (tt, tt) refl (tenant_activated 3) 7

abbrev shared : Accounts
shared = record tables {
  team_links =
      record { membership_id = 20; team_id = 5 } ∷ record { membership_id = 21; team_id = 5 } ∷ [];
}

users_share_tenant_team_iff_example : (users_share_tenant_team 1 2 1 shared ≡ true) ↔ (
    (l : TeamLink) × (k : TeamLink) × Memᴰ l shared.team_links
    × Memᴰ k shared.team_links
    × (k.team_id ≡ l.team_id)
    × IsLinkOf 1 1 shared l
    × IsLinkOf 2 1 shared k)
users_share_tenant_team_iff_example = users_share_tenant_team_iff 1 2 1 shared
