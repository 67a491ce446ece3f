-- ===== src/Accounts/Organizations/Activation.antt =====
-- When an organization can be made active (src/organizations/organizations.service.ts): the checks of
-- `transition` and `assertActivationReady` against the rows of the tables.
use content_intelligence_bac.Base.{ℕ, ◌≡◌, ◌⊎◌, true, none, some, ◌==◌, find}
use content_intelligence_bac.Accounts.Model.{
  active, MembershipStatus, system, tenant, User, Role, Membership, Accounts,
}

-- A role that memberships of the organization may have.
pub record IsUsable (organization : ℕ) (r : Role) : Type 0 where
  pub lively : r.is_active ≡ true
  pub reach :
      ((r.scope ≡ system) × (r.organization_id ≡ none))
      ⊎ ((r.scope ≡ tenant) × (r.organization_id ≡ some organization))

-- A membership of an owner of the organization: the membership, its user and its role are active.
pub record IsOwning (organization : ℕ) (s : Accounts) (m : Membership) : Type 0 where
  pub user : User
  pub role_id : ℕ
  pub role : Role
  pub place : m.organization_id ≡ organization
  pub lively : m.status ≡ MembershipStatus.active
  pub owner : m.is_tenant_owner ≡ true
  pub user_found : find (λ u. u.id == m.user_id) s.users ≡ some user
  pub user_lively : user.is_active ≡ true
  pub named : m.role_id ≡ some role_id
  pub role_found : find (λ r. r.id == role_id) s.roles ≡ some role
  pub usable : IsUsable organization role
