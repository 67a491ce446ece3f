-- ===== src/Accounts/Organizations.antt =====
-- `OrganizationsService` (src/organizations/organizations.service.ts): the life cycle of an
-- organization, from its creation over the provisioning to the archive. `settings`, a JSON value that
-- is only passed on, is left out; the advisory lock makes each transaction one step.
pub mod Provisioning
pub mod Lifecycle
pub mod Keeping
pub mod Histories
pub mod Activation
pub mod Founding
use content_intelligence_bac.Base.{
  ℕ, ◌<◌, suc, Bool, true, false, not, ◌&&◌, ◌||◌, Option, none, some, List, [], ◌∷◌, String, ltb,
  leb, ◌==◌, if◌then◌else◌, or_else, or_option, is_some, holds, find, any, update_where,
  count_where, snoc, Result, ok, err, Action, ◌>>=◌, ◌>>◌, pure, throw, throw_if, modify, gets,
  or_throw, reads, found_or, transaction, rethrow, trim, to_lower, is_empty,
}
use text.Mathlib.Text.{◌==◌ as str_eq}
use content_intelligence_bac.Accounts.Model.{
  UserRole, OrganizationStatus, pending_setup, archived, OnboardingStatus, User, Organization, Role,
  Membership, MembershipStatus, Team, Accounts, AccountError, AuditAction, user_not_found,
  organization_not_found, code_required, code_taken, text_required, not_pending, owner_inactive,
  invalid_transition, not_ready, no_owner, tenant_created, tenant_updated, tenant_activated,
  tenant_suspended, tenant_resumed, tenant_archived, tenant_provisioning_started,
  tenant_provisioning_completed, tenant_provisioning_failed, tenant_owner_assigned,
  is_active_membership, status_eq, is_ready, user_is_active, is_membership_of, add_audit,
}
use content_intelligence_bac.Accounts.Roles.{is_assignable, resolve_membership_role}
use content_intelligence_bac.Accounts.Memberships.{find_role, is_active_owner, active_owners}

abbrev pub is_organization : ℕ → Organization → Bool
is_organization id o = o.id == id

abbrev pub has_code : String → Organization → Bool
has_code code o = str_eq o.code code

-- `LIFECYCLE_TRANSITIONS[current].includes(target)`
abbrev pub is_transition : (current target : OrganizationStatus) → Bool
is_transition pending_setup target =
    status_eq target OrganizationStatus.active || status_eq target archived
is_transition OrganizationStatus.active target =
    status_eq target OrganizationStatus.suspended || status_eq target archived
is_transition OrganizationStatus.suspended target =
    status_eq target OrganizationStatus.active || status_eq target archived
is_transition archived target = false

-- `requiredText`
pub required_text : String → Action Accounts AccountError String
required_text value s =
    let normalized = trim value in
    if is_empty normalized then (err text_required, s) else (ok normalized, s)

-- `normalizeCode`; the request's pattern admits no letters but those of ASCII.
pub normalize_code : String → Action Accounts AccountError String
normalize_code code s =
    let normalized = to_lower (trim code) in
    if is_empty normalized then (err code_required, s) else (ok normalized, s)

-- `value?.trim() || fallback`
pub trimmed_or : String → Option String → String
trimmed_or fallback none = fallback
trimmed_or fallback (some value) =
    let normalized = trim value in if is_empty normalized then fallback else normalized

abbrev pub organization_audit : (platform organization : ℕ) → AuditAction → Accounts → Accounts
organization_audit platform organization action =
    add_audit (record { actor_id = some platform; organization_id = none; action = action })

pub record CreateOrganizationDto : Type 0 where
  pub code : String
  pub name : String
  pub timezone : Option String
  pub locale : Option String

abbrev pub new_organization : ℕ → (code name timezone locale : String) → Organization
new_organization id code name timezone locale = record {
  id = id;
  code = code;
  name = name;
  status = pending_setup;
  onboarding_status = OnboardingStatus.not_started;
  onboarding_started_at = none;
  onboarding_completed_at = none;
  onboarding_last_attempt_at = none;
  onboarding_failure = none;
  timezone = timezone;
  locale = locale;
  authorization_version = 1;
}

-- The row of `create`; the database refuses a code that is taken.
pub insert_organization :
    (code name timezone locale : String) → Action Accounts AccountError Organization
insert_organization code name timezone locale s =
    let o = new_organization s.next_id code name timezone locale in
    if any (has_code code) s.organizations
    then (err code_taken, s)
    else (ok o, record s { organizations = snoc s.organizations o; next_id = suc s.next_id })

-- `create`
pub create : CreateOrganizationDto → (platform : ℕ) → Action Accounts AccountError Organization
create dto platform = do
  code ← normalize_code dto.code
  transaction (do
    name ← required_text dto.name
    organization ←
        insert_organization code name (trimmed_or "Asia/Tehran" dto.timezone)
          (trimmed_or "fa-IR" dto.locale)
    modify (organization_audit platform organization.id (tenant_created organization.id))
    pure organization)

-- An update of one row; it throws where the row is missing.
abbrev pub write_organization :
    ℕ → (Organization → Organization) → Action Accounts AccountError (Unit {0})
write_organization id change s =
    if any (is_organization id) s.organizations
    then (
      ok tt,
      record s { organizations = update_where (is_organization id) change s.organizations },
    )
    else (err organization_not_found, s)

-- `findOne`, `requiredOrganization`
abbrev pub required_organization : ℕ → Action Accounts AccountError Organization
required_organization id =
    reads (λ s. found_or (find (is_organization id) s.organizations) organization_not_found)

pub record UpdateOrganizationDto : Type 0 where
  pub code : Option String
  pub name : Option String
  pub timezone : Option String
  pub locale : Option String

-- A field that the request gives is checked; one that it leaves out stays.
abbrev pub checked :
    (String → Action Accounts AccountError String)
    → Option String
    → Action Accounts AccountError (Option String)
checked check none s = (ok none, s)
checked check (some value) s = (check value >>= λ text. pure (some text)) s

abbrev pub trimmed : String → Option String → Option String
trimmed fallback none = none
trimmed fallback (some value) = some (trimmed_or fallback (some value))

abbrev pub edit : (code name timezone locale : Option String) → Organization → Organization
edit code name timezone locale o = record o {
  code = or_else code o.code;
  name = or_else name o.name;
  timezone = or_else timezone o.timezone;
  locale = or_else locale o.locale;
}

-- Whether another organization has the code.
abbrev pub is_code_taken : ℕ → Option String → List Organization → Bool
is_code_taken id none os = false
is_code_taken id (some code) os = any (λ o. has_code code o && not (is_organization id o)) os

-- `update`
pub update : ℕ → UpdateOrganizationDto → (platform : ℕ) → Action Accounts AccountError (Unit {0})
update id dto platform = do
  current ← required_organization id
  code ← checked normalize_code dto.code
  name ← checked required_text dto.name
  transaction (do
    taken ← gets (λ s. is_code_taken id code s.organizations)
    throw_if taken code_taken
    write_organization id
        (edit code name (trimmed "Asia/Tehran" dto.timezone) (trimmed "fa-IR" dto.locale))
    modify (organization_audit platform id (tenant_updated id)))

-- An active membership of an owner who is active, with a role that the organization may assign.
abbrev pub is_ready_owner : (organization : ℕ) → Accounts → Membership → Bool
is_ready_owner organization s m =
    is_active_owner organization s m
    && holds (λ r. is_assignable organization r) (find_role m.role_id s)

abbrev pub ready_owners : (organization : ℕ) → Accounts → ℕ
ready_owners organization s = count_where (is_ready_owner organization s) s.memberships

-- `assertActivationReady`
unfoldable pub assert_activation_ready : Organization → Accounts → Result AccountError (Unit {0})
assert_activation_ready o s =
    if not (is_ready o.onboarding_status)
    then err not_ready
    else if ready_owners o.id s == 0
    then err no_owner
    else ok tt

-- Only the way to `ACTIVE` is checked.
unfoldable pub check_target :
    OrganizationStatus → Organization → Action Accounts AccountError (Unit {0})
unfolding assert_activation_ready
check_target target o =
    reads (λ s.
      if status_eq target OrganizationStatus.active then assert_activation_ready o s else ok tt)

abbrev pub set_status : OrganizationStatus → Organization → Organization
set_status target o = record o { status = target }

-- What `transition` does once the row was read.
pub transition_from :
    (target : OrganizationStatus)
    → AuditAction
    → (platform : ℕ) → Organization
    → Action Accounts AccountError (Unit {0})
transition_from target action platform o s =
    if status_eq o.status target
    then (ok tt, s)
    else if not (is_transition o.status target)
    then (err invalid_transition, s)
    else (do
      check_target target o
      write_organization o.id (set_status target)
      modify (organization_audit platform o.id action))
        s

-- `transition`
pub transition :
    ℕ
    → (target : OrganizationStatus) → AuditAction
    → (platform : ℕ) → Action Accounts AccountError (Unit {0})
transition id target action platform =
    transaction
      (do current ← required_organization id; transition_from target action platform current)

pub activate : ℕ → (platform : ℕ) → Action Accounts AccountError (Unit {0})
activate id platform = transition id OrganizationStatus.active (tenant_activated id) platform

pub suspend : ℕ → (platform : ℕ) → Action Accounts AccountError (Unit {0})
suspend id platform = transition id OrganizationStatus.suspended (tenant_suspended id) platform

pub resume : ℕ → (platform : ℕ) → Action Accounts AccountError (Unit {0})
resume id platform = transition id OrganizationStatus.active (tenant_resumed id) platform

pub archive : ℕ → (platform : ℕ) → Action Accounts AccountError (Unit {0})
archive id platform = transition id archived (tenant_archived id) platform

pub record Onboarding : Type 0 where
  pub organization : Organization
  pub active_tenant_owners : ℕ
  pub active_teams : ℕ
  pub ready : Bool

-- `onboarding`
pub onboarding : ℕ → Action Accounts AccountError Onboarding
onboarding id = do
  organization ← required_organization id
  owners ← gets (active_owners id)
  teams ← gets (λ s. count_where (λ t. t.organization_id == id && t.is_active) s.teams)
  pure (record {
    organization = organization;
    active_tenant_owners = owners;
    active_teams = teams;
    ready = is_ready organization.onboarding_status && ltb 0 owners && ltb 0 teams;
  })

-- What a run of these calls computes with: another module names this alone.
unfoldable pub organizations_run : Unit {0}
unfolding create insert_organization normalize_code required_text trimmed_or update transition
    transition_from activate suspend resume archive onboarding
organizations_run = tt
