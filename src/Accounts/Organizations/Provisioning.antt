-- ===== src/Accounts/Organizations/Provisioning.antt =====
-- `provision` and `recordProvisioningFailure` (src/organizations/organizations.service.ts): a pending
-- organization gets its default team and its owner, or a note of what went wrong.
use content_intelligence_bac.Base.{
  ℕ, suc, Bool, true, false, not, ◌&&◌, none, some, String, ◌==◌, if◌then◌else◌, or_option, holds,
  find, update_where, snoc, ok, Action, ◌>>=◌, ◌>>◌, pure, throw_if, modify, gets, reads,
  transaction, rethrow, is_empty,
}
use text.Mathlib.Text.{◌==◌ as str_eq}
use content_intelligence_bac.Accounts.Model.{
  admin, pending_setup, OnboardingStatus, Organization, Role, Membership, MembershipStatus, Team,
  Accounts, AccountError, not_pending, owner_inactive, tenant_provisioning_started,
  tenant_provisioning_completed, tenant_provisioning_failed, tenant_owner_assigned, status_eq,
  user_is_active, is_membership_of,
}
use content_intelligence_bac.Accounts.Roles.{resolve_membership_role}
use content_intelligence_bac.Accounts.Organizations.{
  is_organization, required_text, normalize_code, required_organization, write_organization,
  organization_audit,
}

pub record ProvisionOrganizationDto : Type 0 where
  pub owner_user_id : ℕ
  pub default_team_code : String
  pub default_team_name : String

-- `text || fallback`
abbrev pub text_or : String → String → String
text_or fallback text = if is_empty text then fallback else text

abbrev pub start_onboarding : (attempt : ℕ) → Organization → Organization
start_onboarding attempt o = record o {
  onboarding_status = OnboardingStatus.in_progress;
  onboarding_started_at = or_option o.onboarding_started_at (some attempt);
  onboarding_last_attempt_at = some attempt;
  onboarding_failure = none;
}

abbrev pub finish_onboarding : (now : ℕ) → Organization → Organization
finish_onboarding now o = record o {
  onboarding_status = OnboardingStatus.ready;
  onboarding_completed_at = some now;
  onboarding_failure = none;
}

abbrev pub fail_onboarding : (attempt : ℕ) → AccountError → Organization → Organization
fail_onboarding attempt e o = record o {
  onboarding_status = OnboardingStatus.failed;
  onboarding_last_attempt_at = some attempt;
  onboarding_failure = some e;
}

-- The unique key of a team.
abbrev pub is_team_of : (organization : ℕ) → String → Team → Bool
is_team_of organization code t = t.organization_id == organization && str_eq t.code code

abbrev pub default_team : (id organization : ℕ) → (code name : String) → (owner : ℕ) → Team
default_team id organization code name owner = record {
  id = id;
  organization_id = organization;
  code = code;
  name = name;
  description = none;
  manager_id = some owner;
  is_active = true;
}

-- The upsert of the default team, with the team's identifier. The name is checked where it is not
-- used, too.
unfoldable pub upsert_team :
    (organization : ℕ) → (code name : String) → (owner : ℕ) → Action Accounts AccountError ℕ
upsert_team organization code name owner s = elim (find (is_team_of organization code) s.teams) [
  | some t ↦ (ok t.id, s)
  | none ↦ (
    ok s.next_id,
    record s {
      teams = snoc s.teams (default_team s.next_id organization code name owner);
      next_id = suc s.next_id;
    },
  )
]

abbrev pub owner_membership : (id owner organization role team attempt now : ℕ) → Membership
owner_membership id owner organization role team attempt now = record {
  id = id;
  user_id = owner;
  organization_id = organization;
  role_id = some role;
  team_id = some team;
  status = MembershipStatus.active;
  is_default = false;
  is_tenant_owner = true;
  joined_at = some attempt;
  suspended_at = none;
  last_access_at = none;
  created_at = now;
}

abbrev pub make_owner : (role team attempt : ℕ) → Membership → Membership
make_owner role team attempt m = record m {
  role_id = some role;
  team_id = some team;
  status = MembershipStatus.active;
  is_tenant_owner = true;
  joined_at = some attempt;
  suspended_at = none;
}

-- The upsert of the owner's membership, with its identifier.
unfoldable pub upsert_owner :
    (owner organization role team attempt now : ℕ) → Action Accounts AccountError ℕ
upsert_owner owner organization role team attempt now s =
    let fits = is_membership_of owner organization in
    elim (find fits s.memberships) [
      | some m ↦ (
        ok m.id,
        record s { memberships = update_where fits (make_owner role team attempt) s.memberships },
      )
      | none ↦ (
        ok s.next_id,
        record s {
          memberships =
              snoc s.memberships
                (owner_membership s.next_id owner organization role team attempt now);
          next_id = suc s.next_id;
        },
      )
    ]

pub record Provisioned : Type 0 where
  pub owner_membership_id : ℕ
  pub default_team_id : ℕ

module _ (id : ℕ) (dto : ProvisionOrganizationDto) (platform attempt now : ℕ) where
  -- The writes, once the organization, the owner and the owner's role were read.
  unfoldable pub set_up : Role → Action Accounts AccountError Provisioned
  set_up role = do
    write_organization id (start_onboarding attempt)
    modify (organization_audit platform id (tenant_provisioning_started id))
    code ← normalize_code (text_or "default" dto.default_team_code)
    name ← required_text (text_or "Default Team" dto.default_team_name)
    team ← upsert_team id code name dto.owner_user_id
    membership ← upsert_owner dto.owner_user_id id role.id team attempt now
    write_organization id (finish_onboarding now)
    modify (organization_audit platform id (tenant_owner_assigned id membership dto.owner_user_id))
    modify (organization_audit platform id (tenant_provisioning_completed id))
    pure (record { owner_membership_id = membership; default_team_id = team })

  -- The legacy role ADMIN, as the organization may assign it.
  abbrev pub owner_role : Action Accounts AccountError Role
  owner_role = reads (λ s. resolve_membership_role id none (some admin) s.roles)

  -- The transaction of `provision`.
  unfoldable pub provision_body : Action Accounts AccountError Provisioned
  provision_body = do
    organization ← required_organization id
    throw_if (not (status_eq organization.status pending_setup)) not_pending
    active ← gets (user_is_active dto.owner_user_id)
    throw_if (not active) owner_inactive
    role ← owner_role
    set_up role

  -- `recordProvisioningFailure`
  unfoldable pub record_failure : AccountError → Accounts → Accounts
  record_failure e s =
      if holds (λ o. status_eq o.status pending_setup) (find (is_organization id) s.organizations)
      then organization_audit platform id (tenant_provisioning_failed id) (record s {
        organizations =
            update_where (is_organization id) (fail_onboarding attempt e) s.organizations;
      })
      else s

  -- `provision`
  unfoldable pub provision : Action Accounts AccountError Provisioned
  provision s = rethrow record_failure (transaction provision_body s)
