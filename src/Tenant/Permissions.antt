-- ===== src/Tenant/Permissions.antt =====
-- `PermissionsGuard` (src/common/guards/permissions.guard.ts): whether a request may go on.
pub mod Laws
use text.Mathlib.Text.{◌==◌ as str_eq}
use content_intelligence_bac.Base.{
  ℕ, Bool, true, false, not, ◌&&◌, ◌||◌, Option, none, some, List, [], ◌∷◌, String, ◌==◌,
  if◌then◌else◌, or_else, holds, find, select, any, all, Result, ok, err,
}
use content_intelligence_bac.Tenant.Model.{User, TenantContext}

pub data PolicyMode : Type 0 where
  any_action all_actions : PolicyMode

-- The metadata of a handler: a list of actions, or actions with a mode, either of which may be left
-- out.
pub data Policy : Type 0 where
  listed : List String → Policy
  described : (actions : Option (List String)) → (mode : Option PolicyMode) → Policy

pub record PolicyMetadata : Type 0 where
  pub actions : List String
  pub mode : PolicyMode

-- `normalizePolicy`
unfoldable pub normalize_policy : Option Policy → Option PolicyMetadata
normalize_policy none = none
normalize_policy (some (listed actions)) = some (record { actions = actions; mode = all_actions })
normalize_policy (some (described actions mode)) =
    some (record { actions = or_else actions []; mode = or_else mode all_actions })

pub data GuardError : Type 0 where
  not_authenticated context_required inactive_user : GuardError
  missing_permissions : List String → GuardError

pub record RequestUser : Type 0 where
  pub user_id : Option ℕ
  pub tenant_context : Option TenantContext

-- `userPermissions.has`
abbrev pub has : List String → String → Bool
has permissions action = any (λ p. str_eq p action) permissions

unfoldable pub is_allowed : PolicyMetadata → List String → Bool
is_allowed policy permissions = elim policy.mode [
  | any_action ↦ any (has permissions) policy.actions
  | all_actions ↦ all (has permissions) policy.actions
]

-- The checks of the request, once the policy asks for an action.
unfoldable pub authorize : PolicyMetadata → Option RequestUser → List User → Result GuardError Bool
authorize policy request users = elim request [
  | none ↦ err not_authenticated
  | some r ↦ elim r.user_id [
    | none ↦ err not_authenticated
    | some id ↦ elim r.tenant_context [
      | none ↦ err context_required
      | some context ↦
          if not (holds (λ u. u.is_active) (find (λ u. u.id == id) users))
          then err inactive_user
          else if is_allowed policy context.permissions
          then ok true
          else err
              (missing_permissions (select (λ a. not (has context.permissions a)) policy.actions))
    ]
  ]
]

-- `canActivate`
unfoldable pub can_activate :
    Option Policy → Option RequestUser → List User → Result GuardError Bool
can_activate policy request users = elim (normalize_policy policy) [
  | none ↦ ok true
  | some p ↦ elim p.actions [ [] ↦ ok true | a ∷ rest ↦ authorize p request users ]
]
