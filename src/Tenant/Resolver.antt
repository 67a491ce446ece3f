-- ===== src/Tenant/Resolver.antt =====
-- `TenantResolverService` (src/organization-memberships/tenant-resolver.service.ts): which membership
-- a session acts for, and the checks that it stands. An identifier that is the empty string is none,
-- as the code reads both alike; the log is left out.
pub mod Answers
pub mod Laws
use text.Mathlib.Text.{◌==◌ as str_eq}
use content_intelligence_bac.Base.{
  ℕ, Bool, true, false, not, ◌&&◌, ◌||◌, Option, none, some, List, [], ◌∷◌, String, ltb, leb, ◌==◌,
  if◌then◌else◌, is_some, holds, find, select, any, snoc, length, Result, ok, err, Action,
}
use content_intelligence_bac.Tenant.Model.{
  User, Organization, Role, RoleScope, tenant, system, Membership, RolePermission, ResolutionSource,
  token_session, explicit_selection, migration_compatibility, TenantContext, Rejection,
  inactive_or_missing_user, partial_tenant_claims, ambiguous_active_memberships,
  no_active_membership, switch_inactive_user, switch_not_eligible, invalid_tenant_membership,
  inactive_membership_role, missing_membership_role, cross_tenant_membership_role, AuditRow,
  resolution_rejected, compatibility_resolved, TenantError, invalid_session, invalid_context,
  selection_required, no_membership, selection_not_permitted, is_active_membership, CacheKey,
  PermissionCache,
}

pub record Directory : Type 0 where
  pub users : List User
  pub organizations : List Organization
  pub roles : List Role
  pub memberships : List Membership
  pub role_permissions : List RolePermission

-- `[...new Set(actions)]`: each action once, in the order of its first row.
abbrev pub without : String → List String → List String
without a actions = select (λ b. not (str_eq b a)) actions

pub distinct_actions : List String → List String
distinct_actions [] = []
distinct_actions (a ∷ actions) = a ∷ without a (distinct_actions actions)

abbrev pub actions_of : ℕ → List RolePermission → List String
actions_of role [] = []
actions_of role (p ∷ ps) =
    let rest = actions_of role ps in
    if p.role_id == role && p.is_active then p.action ∷ rest else rest

-- The permissions of a role, as the tables have them.
pub permissions_of : ℕ → Directory → List String
permissions_of role d = distinct_actions (actions_of role d.role_permissions)

-- `orderBy: isDefault desc, createdAt asc, id asc`, as an insertion of each row.
abbrev pub comes_first : Membership → Membership → Bool
comes_first m n =
    if m.is_default
    then not n.is_default
      || ltb m.created_at n.created_at
      || (m.created_at == n.created_at && leb m.id n.id)
    else not n.is_default
      && (ltb m.created_at n.created_at || (m.created_at == n.created_at && leb m.id n.id))

pub insert_membership : Membership → List Membership → List Membership
insert_membership m [] = m ∷ []
insert_membership m (n ∷ ns) =
    let rest = insert_membership m ns in if comes_first m n then m ∷ n ∷ ns else n ∷ rest

pub sort_memberships : List Membership → List Membership
sort_memberships [] = []
sort_memberships (m ∷ ms) = insert_membership m (sort_memberships ms)

abbrev pub find_user : ℕ → Directory → Option User
find_user id d = find (λ u. u.id == id) d.users

abbrev pub find_membership : ℕ → Directory → Option Membership
find_membership id d = find (λ m. m.id == id) d.memberships

abbrev pub find_organization : ℕ → Directory → Option Organization
find_organization id d = find (λ o. o.id == id) d.organizations

abbrev pub find_role : Option ℕ → Directory → Option Role
find_role none d = none
find_role (some id) d = find (λ r. r.id == id) d.roles

abbrev pub is_usable_by : (user organization : ℕ) → Membership → Bool
is_usable_by user organization m =
    m.user_id == user && m.organization_id == organization && is_active_membership m.status

-- A role of another tenant, or a system role that has a tenant.
abbrev pub is_foreign : ℕ → Role → Bool
is_foreign organization r = elim r.scope [
  | tenant ↦ not (holds (λ o. o == organization) r.organization_id)
  | system ↦ is_some r.organization_id
]

-- The rows of `findMany`: active memberships of the user in active organizations.
pub active_memberships : ℕ → Directory → List Membership
active_memberships user d = sort_memberships (
    select
      (λ m.
        m.user_id == user
        && is_active_membership m.status
        && holds (λ o. o.is_active) (find_organization m.organization_id d))
      d.memberships)

pub data Choice : Type 0 where
  ambiguous absent : Choice
  chosen : Membership → Choice

abbrev pub choose_only : List Membership → Choice
choose_only [] = absent
choose_only (m ∷ []) = chosen m
choose_only (m ∷ n ∷ ms) = ambiguous

-- The default membership, or the only one.
abbrev pub choose : (defaults memberships : List Membership) → Choice
choose [] memberships = choose_only memberships
choose (m ∷ []) memberships = chosen m
choose (m ∷ n ∷ ms) memberships = ambiguous

module _ (cache : PermissionCache) where
  open cache use {State, get, set}

  pub record World : Type 0 where
    pub directory : Directory
    pub cached : State
    pub audit : List AuditRow

  -- `recordRejection`, whose own failure is caught.
  abbrev pub record_rejection : Rejection → ℕ → Option String → World → World
  record_rejection reason user request w = record w {
    audit = snoc w.audit (resolution_rejected reason user request);
  }

  abbrev pub reject :
      {A : Type 0} → Rejection → TenantError → ℕ → Option String → Action World TenantError A
  reject reason e user request w = (err e, record_rejection reason user request w)

  abbrev pub cache_key : Membership → Organization → CacheKey
  cache_key m o = record {
    organization = m.organization_id;
    user = m.user_id;
    membership = m.id;
    version = o.authorization_version;
  }

  -- The permissions by the cache, which is filled where it has none.
  pub cached_permissions : (now : ℕ) → CacheKey → (role : ℕ) → World → List String × World
  cached_permissions now key role w = elim (get now key w.cached) [
    | some permissions ↦ (permissions, w)
    | none ↦
        let permissions = permissions_of role w.directory in
        (permissions, record w { cached = set now key permissions w.cached })
  ]

  abbrev pub context_of :
      Membership
      → Organization
      → Role
      → List String
      → ResolutionSource
      → Option String
      → TenantContext
  context_of m o r permissions source request = record {
    organization_id = m.organization_id;
    user_id = m.user_id;
    membership_id = m.id;
    permissions = permissions;
    authorization_version = o.authorization_version;
    platform_admin = false;
    resolution_source = source;
    request_id = request;
    role_id = r.id;
    role_code = r.code;
    role_name = r.name;
  }

  -- The checks of the role, and the context.
  pub build_with_role :
      (now user : ℕ)
      → Membership
      → Organization
      → ResolutionSource
      → Option String
      → Action World TenantError TenantContext
  build_with_role now user m o source request w = elim (find_role m.role_id w.directory) [
    | none ↦ reject missing_membership_role invalid_context user request w
    | some r ↦
        if not r.is_active
        then reject inactive_membership_role invalid_context user request w
        else if is_foreign m.organization_id r
        then reject cross_tenant_membership_role invalid_context user request w
        else (let (permissions, w') = cached_permissions now (cache_key m o) r.id w in
            (ok (context_of m o r permissions source request), w'))
  ]

  -- `buildContext`
  pub build_context :
      (now user : ℕ)
      → Option Membership
      → (organization : ℕ) → ResolutionSource
      → Option String
      → Action World TenantError TenantContext
  build_context now user none organization source request w =
      reject invalid_tenant_membership invalid_context user request w
  build_context now user (some m) organization source request w =
      elim (find_organization m.organization_id w.directory) [
        | none ↦ reject invalid_tenant_membership invalid_context user request w
        | some o ↦
            if is_usable_by user organization m && o.is_active
            then build_with_role now user m o source request w
            else reject invalid_tenant_membership invalid_context user request w
      ]

  -- Where the session names no tenant.
  pub resolve_default : (now user : ℕ) → Option String → Action World TenantError TenantContext
  resolve_default now user request w =
      let memberships = active_memberships user w.directory in
      elim (choose (select (λ m. m.is_default) memberships) memberships) [
        | ambiguous ↦ reject ambiguous_active_memberships selection_required user request w
        | absent ↦ reject no_active_membership no_membership user request w
        | chosen m ↦
            build_context now user (some m) m.organization_id migration_compatibility request
              (record w {
                audit = snoc w.audit (compatibility_resolved user m.organization_id m.id request);
              })
      ]

  -- What the session's claims say, once the user is known to be active.
  pub resolve_claims :
      (now user : ℕ)
      → (organization membership : Option ℕ) → Option String
      → Action World TenantError TenantContext
  resolve_claims now user none none request w = resolve_default now user request w
  resolve_claims now user (some organization) (some membership) request w =
      build_context now user (find_membership membership w.directory) organization token_session
        request w
  resolve_claims now user none (some membership) request w =
      reject partial_tenant_claims invalid_context user request w
  resolve_claims now user (some organization) none request w =
      reject partial_tenant_claims invalid_context user request w

  -- `resolveAuthenticatedTenant`
  pub resolve_authenticated_tenant :
      (now user : ℕ)
      → (organization membership : Option ℕ) → Option String
      → Action World TenantError TenantContext
  resolve_authenticated_tenant now user organization membership request w =
      if holds (λ u. u.is_active) (find_user user w.directory)
      then resolve_claims now user organization membership request w
      else reject inactive_or_missing_user invalid_session user request w

  -- An exception of the selection is replaced, and recorded once more.
  abbrev pub mask :
      ℕ
      → Option String
      → Result TenantError TenantContext × World
      → Result TenantError TenantContext × World
  mask user request (ok context, w) = (ok context, w)
  mask user request (err e, w) = reject switch_not_eligible selection_not_permitted user request w

  -- `selectTenant`
  pub select_tenant :
      (now user organization : ℕ) → Option String → Action World TenantError TenantContext
  select_tenant now user organization request w =
      if holds (λ u. u.is_active) (find_user user w.directory)
      then mask user request (
          build_context now user
            (find (λ m. m.user_id == user && m.organization_id == organization)
              w.directory.memberships)
            organization explicit_selection request w)
      else reject switch_inactive_user selection_not_permitted user request w
