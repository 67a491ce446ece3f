-- ===== src/Tenant/Tests.antt =====
-- The tenant of a user with one membership, under a cache that keeps every entry.
use content_intelligence_bac.Base.{
  ◌≡◌, ◌≢◌, ◌↔◌, inl, inr, refl, arith, Bool, true, false, not, ◌&&◌, Option, none, some, List, [],
  ◌∷◌, String, ◌==◌, Bool-cases, if◌then◌else◌, all, ok,
}
use content_intelligence_bac.Tenant.Model.{
  MembershipStatus, RoleScope, TenantContext, token_session, CacheKey, PermissionCache,
}
use content_intelligence_bac.Tenant.Resolver.{Directory, World}
use content_intelligence_bac.Tenant.Permissions.{
  normalize_policy, authorize, is_allowed, all_actions, any_action, listed, PolicyMetadata,
  RequestUser, has, can_activate,
}
use content_intelligence_bac.Tenant.Permissions.Laws.{
  IsGranted, can_activate_iff, can_activate-missing,
}

abbrev Entries : Type 0
Entries = List (CacheKey × List String)

abbrev same_key : CacheKey → CacheKey → Bool
same_key k l =
    (k.organization == l.organization && k.user == l.user)
    && (k.membership == l.membership && k.version == l.version)

same_key-equal : (k l : CacheKey) → same_key k l ≡ true → k ≡ l
same_key-equal k l h =
    let e₁ : k.organization ≡ l.organization = ground (arith, h) in
    let e₂ : k.user ≡ l.user = ground (arith, h) in
    let e₃ : k.membership ≡ l.membership = ground (arith, h) in
    let e₄ : k.version ≡ l.version = ground (arith, h) in
    λ i. record { organization = e₁ i; user = e₂ i; membership = e₃ i; version = e₄ i }

abbrev lookup : CacheKey → Entries → Option (List String)
lookup k [] = none
lookup k ((l, v) ∷ entries) = let rest = lookup k entries in if same_key l k then some v else rest

abbrev lasting : PermissionCache
lasting = record {
  State = Entries;
  get = λ now k c. lookup k c;
  set = λ now k v c. (k, v) ∷ c;
  get-set = λ now later k k' v x c h. elim (Bool-cases (same_key k k')) [
    | inl same ↦ inl (same_key-equal k k' same, cc (rw same at h))
    | inr other ↦ inr (rw other at h)
  ];
}

abbrev directory : Directory
directory = record {
  users = record { id = 7; is_active = true } ∷ [];
  organizations = record { id = 1; is_active = true; authorization_version = 4 } ∷ [];
  roles =
      record {
        id = 3;
        code = "editor";
        name = "Editor";
        is_active = true;
        scope = RoleScope.tenant;
        organization_id = some 1;
      }
      ∷ [];
  memberships =
      record {
        id = 9;
        user_id = 7;
        organization_id = 1;
        status = MembershipStatus.active;
        is_default = true;
        created_at = 0;
        role_id = some 3;
      }
      ∷ [];
  role_permissions = record { role_id = 3; action = "companies.read"; is_active = true } ∷ [];
}

abbrev world : World lasting
world = record { directory = directory; cached = []; audit = [] }

abbrev context : TenantContext
context = record {
  organization_id = 1;
  user_id = 7;
  membership_id = 9;
  permissions = "companies.read" ∷ [];
  authorization_version = 4;
  platform_admin = false;
  resolution_source = token_session;
  request_id = none;
  role_id = 3;
  role_code = "editor";
  role_name = "Editor";
}

abbrev requester : RequestUser
requester = record { user_id = some 7; tenant_context = some context }

abbrev reading : PolicyMetadata
reading = record { actions = "companies.read" ∷ []; mode = all_actions }

abbrev editing : PolicyMetadata
editing = record { actions = "companies.read" ∷ "companies.update" ∷ []; mode = all_actions }

abbrev update : List String
update = "companies.update" ∷ []

can_activate_iff_example :
    (can_activate (some (listed ("companies.read" ∷ []))) (some requester) directory.users
      ≡ ok true)
    ↔ IsGranted reading (some requester) directory.users
unfolding normalize_policy
can_activate_iff_example =
    can_activate_iff (some (listed ("companies.read" ∷ []))) (some requester) directory.users
      reading refl (λ e. cc)

can_activate-missing_example :
    (update ≢ [])
    × (all (λ a. not (has context.permissions a)) update ≡ true)
    × (editing.mode ≡ any_action → update ≡ editing.actions)
unfolding normalize_policy can_activate authorize is_allowed
can_activate-missing_example =
    can_activate-missing (some (listed ("companies.read" ∷ "companies.update" ∷ []))) requester
      directory.users editing context update refl (λ e. cc) refl refl
