-- ===== src/Accounts/Model.antt =====
-- The tables of organizations, users, memberships, roles and teams (prisma/schema.prisma).
-- Identifiers and digests are only compared, so they are numbers; an instant is a number of
-- milliseconds since the epoch; `next_id` is the identifier that the database gives next.
use content_intelligence_bac.Base.{
  ℕ, Bool, true, false, ◌&&◌, Option, List, String, ◌==◌, holds, find, snoc,
}

pub data UserRole : Type 0 where
  admin manager rep boards : UserRole

pub data RoleScope : Type 0 where
  system tenant : RoleScope

pub data OrganizationStatus : Type 0 where
  pending_setup active suspended archived : OrganizationStatus

pub data OnboardingStatus : Type 0 where
  not_started in_progress ready failed : OnboardingStatus

pub data MembershipStatus : Type 0 where
  invited active suspended : MembershipStatus

-- Why an operation fails.
pub data AccountError : Type 0 where
  role_required role_not_assignable ambiguous_role user_not_found organization_not_found
        team_not_found team_invalid team_of_another_organization membership_not_found last_owner
        already_active tenant_required own_access own_password code_required code_taken email_taken
        text_required not_pending owner_inactive invalid_transition not_ready no_owner inactive_team
        manager_invalid not_a_member user_inactive ambiguous_memberships role_inactive role_missing
        selection_required no_membership invalid_credentials account_locked password_disabled :
      AccountError

pub record User : Type 0 where
  pub id : ℕ
  pub full_name : String
  pub email : String
  pub organization_id : ℕ
  pub password_hash : ℕ
  pub is_active : Bool
  pub password_changed_at : Option ℕ
  pub last_login_at : Option ℕ
  pub failed_login_attempts : ℕ
  pub locked_until : Option ℕ
  pub created_at : ℕ

pub record Organization : Type 0 where
  pub id : ℕ
  pub code : String
  pub name : String
  pub status : OrganizationStatus
  pub onboarding_status : OnboardingStatus
  pub onboarding_started_at : Option ℕ
  pub onboarding_completed_at : Option ℕ
  pub onboarding_last_attempt_at : Option ℕ
  pub onboarding_failure : Option AccountError
  pub timezone : String
  pub locale : String
  pub authorization_version : ℕ

pub record Role : Type 0 where
  pub id : ℕ
  pub base_role : UserRole
  pub scope : RoleScope
  pub organization_id : Option ℕ
  pub is_active : Bool

-- A row of `rolePermission` with the action and the `isActive` of its permission.
pub record RolePermission : Type 0 where
  pub role_id : ℕ
  pub action : String
  pub is_active : Bool

pub record Membership : Type 0 where
  pub id : ℕ
  pub user_id : ℕ
  pub organization_id : ℕ
  pub role_id : Option ℕ
  pub team_id : Option ℕ
  pub status : MembershipStatus
  pub is_default : Bool
  pub is_tenant_owner : Bool
  pub joined_at : Option ℕ
  pub suspended_at : Option ℕ
  pub last_access_at : Option ℕ
  pub created_at : ℕ

pub record Team : Type 0 where
  pub id : ℕ
  pub organization_id : ℕ
  pub code : String
  pub name : String
  pub description : Option String
  pub manager_id : Option ℕ
  pub is_active : Bool

pub record TeamLink : Type 0 where
  pub membership_id : ℕ
  pub team_id : ℕ

-- What an audit row says, by its `action`.
pub data AuditAction : Type 0 where
  user_created user_activated user_deactivated user_role_changed : (user : ℕ) → AuditAction
  user_password_reset : (user sessions_revoked : ℕ) → AuditAction
  team_created team_updated : (team : ℕ) → AuditAction
  team_member_added team_member_removed : (team membership : ℕ) → AuditAction
  tenant_created tenant_updated tenant_activated tenant_suspended tenant_resumed tenant_archived :
      (organization : ℕ) → AuditAction
  tenant_provisioning_started tenant_provisioning_completed tenant_provisioning_failed :
      (organization : ℕ) → AuditAction
  tenant_owner_assigned : (organization membership owner : ℕ) → AuditAction
  login_failed : (user : ℕ) → (attempts : ℕ) → (locks : Bool) → AuditAction
  login_rejected : (user : Option ℕ) → AuditAction
  login_succeeded : (user : ℕ) → AuditAction

pub record AuditLog : Type 0 where
  pub actor_id : Option ℕ
  pub organization_id : Option ℕ
  pub action : AuditAction

pub record Accounts : Type 0 where
  pub users : List User
  pub organizations : List Organization
  pub memberships : List Membership
  pub roles : List Role
  pub role_permissions : List RolePermission
  pub teams : List Team
  pub team_links : List TeamLink
  pub audit_logs : List AuditLog
  pub next_id : ℕ

abbrev pub is_active_membership : MembershipStatus → Bool
is_active_membership MembershipStatus.active = true
is_active_membership _ = false

abbrev pub status_code : OrganizationStatus → ℕ
status_code pending_setup = 0
status_code active = 1
status_code suspended = 2
status_code archived = 3

abbrev pub status_eq : OrganizationStatus → OrganizationStatus → Bool
status_eq a b = status_code a == status_code b

abbrev pub is_ready : OnboardingStatus → Bool
is_ready ready = true
is_ready _ = false

abbrev pub user_role_code : UserRole → ℕ
user_role_code admin = 0
user_role_code manager = 1
user_role_code rep = 2
user_role_code boards = 3

abbrev pub user_role_eq : UserRole → UserRole → Bool
user_role_eq a b = user_role_code a == user_role_code b

abbrev pub is_user : ℕ → User → Bool
is_user id u = u.id == id

-- `user: { isActive: true }`, of a row that refers to a user.
abbrev pub user_is_active : ℕ → Accounts → Bool
user_is_active id s = holds (λ u. u.is_active) (find (is_user id) s.users)

-- The unique key of a membership.
abbrev pub is_membership_of : (user organization : ℕ) → Membership → Bool
is_membership_of user organization m = m.user_id == user && m.organization_id == organization

abbrev pub add_audit : AuditLog → Accounts → Accounts
add_audit row s = record s { audit_logs = snoc s.audit_logs row }
