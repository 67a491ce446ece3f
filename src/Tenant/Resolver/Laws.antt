-- ===== src/Tenant/Resolver/Laws.antt =====
-- What a resolved tenant context stands on, and the permissions that it carries.
use content_intelligence_bac.Base.{
  ℕ, ◌≡◌, inl, inr, refl, arith, ap, sym, ◌∙◌, true, false, Option, some, List, String, Bool-cases,
  Option-cases, Result, ok, err,
}
use content_intelligence_bac.Tenant.Model.{
  Organization, Role, Membership, ResolutionSource, TenantContext, Rejection, TenantError,
  PermissionCache,
}
use content_intelligence_bac.Tenant.Resolver.{
  Directory, permissions_of, find_membership, find_organization, find_role, is_usable_by,
  is_foreign, World, record_rejection, cache_key, cached_permissions, context_of, build_with_role,
  build_context,
}

abbrev pub membership_id : Membership → ℕ
membership_id m = m.id

module _ (cache : PermissionCache) where
  open cache use {State, get, set, get-set}

  -- What the cache answers for a membership is what the tables say of its role.
  unfoldable pub IsCoherent : Directory → State → Type 0
  IsCoherent d c =
      (now : ℕ) (m : Membership) (o : Organization) (r : Role) (permissions : List String)
      → find_membership m.id d ≡ some m
      → find_organization m.organization_id d ≡ some o
      → find_role m.role_id d ≡ some r
      → get now (cache_key cache m o) c ≡ some permissions
      → permissions ≡ permissions_of r.id d

  -- The membership, the organization and the role behind a context, all of them active, and the
  -- role's own permissions.
  pub record IsResolved (d : Directory) (user : ℕ) (context : TenantContext) : Type 0 where
    pub membership : Membership
    pub organization : Organization
    pub role : Role
    pub listed : find_membership context.membership_id d ≡ some membership
    pub usable : is_usable_by user context.organization_id membership ≡ true
    pub placed : find_organization context.organization_id d ≡ some organization
    pub working : organization.is_active ≡ true
    pub assigned : find_role membership.role_id d ≡ some role
    pub in_force : role.is_active ≡ true
    pub own : is_foreign context.organization_id role ≡ false
    pub permitted : context.permissions ≡ permissions_of role.id d
    pub same_user : context.user_id ≡ user
    pub no_platform : context.platform_admin ≡ false

  -- The cache stays coherent, the tables stay.
  pub record IsKept (w w' : World cache) : Type 0 where
    pub same : w'.directory ≡ w.directory
    pub coherent : IsCoherent w.directory w'.cached

  module _ (now : ℕ) (m : Membership) (o : Organization) (r : Role) (w : World cache)
      (coherent : IsCoherent w.directory w.cached)
      (listed : find_membership m.id w.directory ≡ some m)
      (placed : find_organization m.organization_id w.directory ≡ some o)
      (assigned : find_role m.role_id w.directory ≡ some r) where
    filled-IsCoherent :
        IsCoherent w.directory
          (set now (cache_key cache m o) (permissions_of r.id w.directory) w.cached)
    unfolding IsCoherent
    filled-IsCoherent later m' o' r' x listed' placed' assigned' got =
        elim (get-set now later (cache_key cache m o) (cache_key cache m' o')
          (permissions_of r.id w.directory) x w.cached got) [
            | inr old ↦ coherent later m' o' r' x listed' placed' assigned' old
            | inl (key, value) ↦
                let id : m.id ≡ m'.id = ap (λ k. k.membership) key in
                let row : m ≡ m' = cc (listed, listed', id) in
                let role : r ≡ r' = cc (assigned, rw (← row) at assigned') in
                sym value ∙ ap (λ z. permissions_of z.id w.directory) role
          ]

    cached_permissions_lem :
        let (permissions, w') = cached_permissions cache now (cache_key cache m o) r.id w in
        (permissions ≡ permissions_of r.id w.directory) × IsKept w w'
    unfolding cached_permissions IsCoherent
    cached_permissions_lem = elim (Option-cases (get now (cache_key cache m o) w.cached)) [
      | inl missing ↦
          rw (missing, cached_permissions)
            (refl, record { same = refl; coherent = filled-IsCoherent })
      | inr (x, got) ↦
          rw (got, cached_permissions)
            (
              coherent now m o r x listed placed assigned got,
              record { same = refl; coherent = coherent },
            )
    ]

  -- What any call of the resolver gives: the tables stay, the cache stays coherent, and an answer is a
  -- resolved context of the organization and the source.
  pub record IsAnswer (user : ℕ) (organization : Option ℕ) (w : World cache)
      (out : Result TenantError TenantContext × World cache) : Type 0 where
    pub kept : IsKept w out.1
    pub resolved :
        (context : TenantContext) → out.0 ≡ ok context → IsResolved w.directory user context
    pub asked :
        (id : ℕ) (context : TenantContext)
        → organization ≡ some id
        → out.0 ≡ ok context
        → context.organization_id ≡ id

  pub rejected-IsAnswer :
      (reason : Rejection) (e : TenantError) (user actor : ℕ) (organization : Option ℕ)
      (request : Option String) (w : World cache)
      → IsCoherent w.directory w.cached
      → IsAnswer user organization w (err e, record_rejection cache reason actor request w)
  rejected-IsAnswer reason e user actor organization request w coherent = record {
    kept = record { same = refl; coherent = coherent };
    resolved = λ context h. absurd (cc);
    asked = λ id context k h. absurd (cc);
  }

  module _ (now user : ℕ) (m : Membership) (organization : ℕ) (source : ResolutionSource)
      (request : Option String) (w : World cache) (coherent : IsCoherent w.directory w.cached)
      (listed : find_membership m.id w.directory ≡ some m) where
    build_with_role-IsAnswer :
        (o : Organization)
        → find_organization m.organization_id w.directory ≡ some o
        → is_usable_by user organization m ≡ true
        → o.is_active ≡ true
        → IsAnswer user (some organization) w (build_with_role cache now user m o source request w)
    unfolding build_with_role
    build_with_role-IsAnswer o placed usable working =
        elim (Option-cases (find_role m.role_id w.directory)) [
          | inl missing ↦ rw (missing, build_with_role) (rejected-IsAnswer _ _ _ _ _ _ w coherent)
          | inr (r, assigned) ↦ elim (Bool-cases r.is_active) [
            | inr idle ↦
                rw (assigned, build_with_role) (rw idle (rejected-IsAnswer _ _ _ _ _ _ w coherent))
            | inl in_force ↦ elim (Bool-cases (is_foreign m.organization_id r)) [
              | inl foreign ↦
                  rw (assigned, build_with_role)
                    (rw (in_force, foreign) (rejected-IsAnswer _ _ _ _ _ _ w coherent))
              | inr own ↦
                  let (permitted, kept) =
                    cached_permissions_lem now m o r w coherent listed placed assigned in
                  let mine : m.user_id ≡ user = ground (arith, usable) in
                  let there : m.organization_id ≡ organization = ground (arith, usable) in
                  rw (assigned, build_with_role)
                    (rw (in_force, own)
                      (record {
                        kept = kept;
                        resolved = λ context h.
                            let c : context_of cache m o r
                                  (cached_permissions cache now (cache_key cache m o) r.id w).0
                                  source request
                                ≡ context =
                              cc h in
                            rw (← c) (record {
                              membership = m;
                              organization = o;
                              role = r;
                              listed = listed;
                              usable = rw (← there) at usable;
                              placed = placed;
                              working = working;
                              assigned = assigned;
                              in_force = in_force;
                              own = own;
                              permitted = permitted;
                              same_user = mine;
                              no_platform = refl;
                            });
                        asked = λ id context k h.
                            let c : context_of cache m o r
                                  (cached_permissions cache now (cache_key cache m o) r.id w).0
                                  source request
                                ≡ context =
                              cc h in
                            rw (← c) (cc (k, there));
                      }))
            ]
          ]
        ]

    pub build_context-IsAnswer :
        IsAnswer user
          (some organization)
          w
          (build_context cache now user (some m) organization source request w)
    unfolding build_context build_with_role
    build_context-IsAnswer = elim (Option-cases (find_organization m.organization_id w.directory)) [
      | inl missing ↦ rw (missing, build_context) (rejected-IsAnswer _ _ _ _ _ _ w coherent)
      | inr (o, placed) ↦ elim (Bool-cases (is_usable_by user organization m)) [
        | inr other ↦
            rw (placed, build_context) (rw other (rejected-IsAnswer _ _ _ _ _ _ w coherent))
        | inl usable ↦ elim (Bool-cases o.is_active) [
          | inr idle ↦
              rw (placed, build_context)
                (rw (usable, idle) (rejected-IsAnswer _ _ _ _ _ _ w coherent))
          | inl working ↦
              rw (placed, build_context)
                (rw (usable, working) (build_with_role-IsAnswer o placed usable working))
        ]
      ]
    ]
