-- ===== src/Accounts/Roles.antt =====
-- `resolveMembershipRole` (src/organization-memberships/membership-role-assignment.ts): the role that
-- a request assigns, by its identifier or by the legacy name of a system role.
use content_intelligence_bac.Base.{
  ℕ, ◌≡◌, arith, Bool, true, false, not, ◌&&◌, Option, none, some, List, [], ◌∷◌, ◌==◌, is_some,
  holds, find, find_holds, select, select-All, All, inl, inr, Option-cases, Result, ok, err,
}
use content_intelligence_bac.Accounts.Model.{
  UserRole, system, tenant, Role, AccountError, role_required, role_not_assignable, ambiguous_role,
  user_role_eq,
}

-- A system role without an organization, or a role of the organization.
abbrev pub is_of : ℕ → Role → Bool
is_of organization r = elim r.scope [
  | system ↦ not (is_some r.organization_id)
  | tenant ↦ holds (λ o. o == organization) r.organization_id
]

abbrev pub is_assignable : ℕ → Role → Bool
is_assignable organization r = r.is_active && is_of organization r

abbrev pub is_legacy : UserRole → Role → Bool
is_legacy legacy r =
    user_role_eq r.base_role legacy
    && elim r.scope [ system ↦ not (is_some r.organization_id) | tenant ↦ false ]
    && r.is_active

-- `roles.length !== 1`
abbrev pub only_one : List Role → Result AccountError Role
only_one [] = err ambiguous_role
only_one (r ∷ []) = ok r
only_one (r ∷ x ∷ rs) = err ambiguous_role

unfoldable pub resolve_membership_role :
    (organization : ℕ)
    → (role : Option ℕ) → (legacy : Option UserRole) → List Role
    → Result AccountError Role
resolve_membership_role organization (some id) legacy roles =
    elim (find (λ r. r.id == id && is_assignable organization r) roles) [
      | none ↦ err role_not_assignable
      | some r ↦ ok r
    ]
resolve_membership_role organization none none roles = err role_required
resolve_membership_role organization none (some legacy) roles =
    only_one (select (is_legacy legacy) roles)

only_one-All :
    (P : Role → Type 0) (roles : List Role) (r : Role) → only_one roles ≡ ok r → All P roles → P r
only_one-All P [] r h a = absurd (cc h)
only_one-All P (x ∷ []) r h a = let same : x ≡ r = cc h in rw (← same) a.0
only_one-All P (x ∷ y ∷ roles) r h a = absurd (cc h)

pub resolve_membership_role-assignable :
    (organization : ℕ) (role : Option ℕ) (legacy : Option UserRole) (roles : List Role) (r : Role)
    → resolve_membership_role organization role legacy roles ≡ ok r
    → is_assignable organization r ≡ true
unfolding resolve_membership_role
resolve_membership_role-assignable organization (some id) legacy roles r h =
    elim (Option-cases (find (λ r. r.id == id && is_assignable organization r) roles)) [
      | inl missing ↦ absurd (cc (rw (missing, resolve_membership_role) at h))
      | inr (x, found) ↦
          let same : x ≡ r = cc (rw (found, resolve_membership_role) at h) in
          let fits = find_holds (λ r. r.id == id && is_assignable organization r) roles x found in
          rw (← same) (ground (arith, fits))
    ]
resolve_membership_role-assignable organization none none roles r h = absurd (cc h)
resolve_membership_role-assignable organization none (some legacy) roles r h =
    let fits =
      only_one-All (λ x. is_legacy legacy x ≡ true) (select (is_legacy legacy) roles) r h
        (select-All (is_legacy legacy) roles) in
    ground (arith, fits)
