-- ===== src/Tenant/Model.antt =====
-- The tables that tenant resolution reads (prisma/schema.prisma), and the context that it returns
-- (src/common/tenant/tenant-context.types.ts). Identifiers are only compared, so they are numbers.
use content_intelligence_bac.Base.{ℕ, ◌≡◌, ◌⊎◌, Bool, true, false, Option, some, List, String}

pub record User : Type 0 where
  pub id : ℕ
  pub is_active : Bool

pub data MembershipStatus : Type 0 where
  invited active suspended : MembershipStatus

pub data RoleScope : Type 0 where
  system tenant : RoleScope

pub record Organization : Type 0 where
  pub id : ℕ
  pub is_active : Bool
  pub authorization_version : ℕ

pub record Role : Type 0 where
  pub id : ℕ
  pub code : String
  pub name : String
  pub is_active : Bool
  pub scope : RoleScope
  pub organization_id : Option ℕ

pub record Membership : Type 0 where
  pub id : ℕ
  pub user_id : ℕ
  pub organization_id : ℕ
  pub status : MembershipStatus
  pub is_default : Bool
  pub created_at : ℕ
  pub role_id : Option ℕ

-- A row of `rolePermission` with the action and the `isActive` of its permission.
pub record RolePermission : Type 0 where
  pub role_id : ℕ
  pub action : String
  pub is_active : Bool

pub data ResolutionSource : Type 0 where
  token_session explicit_selection migration_compatibility : ResolutionSource

pub record TenantContext : Type 0 where
  pub organization_id : ℕ
  pub user_id : ℕ
  pub membership_id : ℕ
  pub permissions : List String
  pub authorization_version : ℕ
  pub platform_admin : Bool
  pub resolution_source : ResolutionSource
  pub request_id : Option String
  pub role_id : ℕ
  pub role_code : String
  pub role_name : String

pub data Rejection : Type 0 where
  inactive_or_missing_user partial_tenant_claims ambiguous_active_memberships no_active_membership
        switch_inactive_user switch_not_eligible invalid_tenant_membership inactive_membership_role
        missing_membership_role cross_tenant_membership_role :
      Rejection

-- The audit rows that the resolver writes.
pub data AuditRow : Type 0 where
  resolution_rejected : Rejection → (actor : ℕ) → (request : Option String) → AuditRow
  compatibility_resolved :
      (actor organization membership : ℕ) → (request : Option String) → AuditRow

pub data TenantError : Type 0 where
  invalid_session invalid_context selection_required no_membership selection_not_permitted :
      TenantError

abbrev pub is_active_membership : MembershipStatus → Bool
is_active_membership active = true
is_active_membership _ = false

-- The key of the permission cache, whose parts the code joins by colons.
pub record CacheKey : Type 0 where
  pub organization : ℕ
  pub user : ℕ
  pub membership : ℕ
  pub version : ℕ

-- What the code relies on of `node-cache`: an answer for a key is what was set for it last, or what
-- the cache had for it before. An entry may be gone at any time.
pub record PermissionCache : Type 1 where
  pub State : Type 0
  pub get : (now : ℕ) → CacheKey → State → Option (List String)
  pub set : (now : ℕ) → CacheKey → List String → State → State
  pub get-set :
      (now later : ℕ) (k k' : CacheKey) (v x : List String) (c : State)
      → get later k' (set now k v c) ≡ some x
      → ((k ≡ k') × (v ≡ x)) ⊎ (get later k' c ≡ some x)
