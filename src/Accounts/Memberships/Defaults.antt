-- ===== src/Accounts/Memberships/Defaults.antt =====
-- Theorems on the default membership
-- (src/organization-memberships/organization-memberships.service.ts).
use content_intelligence_bac.Base.{
  ℕ, ◌≡◌, refl, arith, true, some, List, [], ◌∷◌, find, select, any, update_where, count_where, inl,
  inr, Option-cases,
}
use content_intelligence_bac.Accounts.Model.{Membership, Accounts, is_membership_of}
use content_intelligence_bac.Accounts.Memberships.{
  effective_of, select_effective, resolve_effective_context, is_effective, organization_is_active,
  reactivate, clear_default, activate_for_user,
}
use content_intelligence_bac.Accounts.Memberships.Owners.{IsUnique}

module _ (user organization now : ℕ) (s : Accounts)
    (active : organization_is_active organization s ≡ true) where
  abbrev rewritten : List Membership → List Membership
  rewritten ms =
      update_where (is_membership_of user organization) (reactivate now) (clear_default user ms)

  abbrev defaults : List Membership → List Membership
  defaults ms = select (λ m. m.is_default) (select (is_effective user s) (rewritten ms))

  defaults-absent :
      (ms : List Membership)
      → count_where (is_membership_of user organization) ms ≡ 0
      → defaults ms ≡ []
  defaults-absent [] h = refl
  defaults-absent (m ∷ ms) h = ground (arith, defaults-absent ms)

  defaults-found :
      (ms : List Membership) (m : Membership)
      → IsUnique user organization ms
      → find (is_membership_of user organization) ms ≡ some m
      → defaults ms ≡ reactivate now m ∷ []
  defaults-found [] m u f = absurd (ground arith)
  defaults-found (x ∷ ms) m u f = ground (arith, defaults-absent ms, defaults-found ms m)

  any-cleared :
      (ms : List Membership) (m : Membership)
      → find (is_membership_of user organization) ms ≡ some m
      → any (is_membership_of user organization) (clear_default user ms) ≡ true
  any-cleared [] m f = absurd (ground arith)
  any-cleared (x ∷ ms) m f = ground (arith, any-cleared ms m)

-- What the tables of roles and the membership's columns determine.
effective_of-same :
    (m : Membership) (now : ℕ) (s s' : Accounts)
    → s'.roles ≡ s.roles
    → effective_of (reactivate now m) s' ≡ effective_of m s
unfolding effective_of
effective_of-same m now s s' h = elim (Option-cases m.role_id) [
  | inl e ↦ rw (e) (refl)
  | inr (id, e) ↦ rw (e, h) refl
]

-- Once `activateForUser` has run for an active organization in which the user has one membership, the
-- user's effective context is that membership's, whatever the user's defaults were before.
pub activate_for_user-resolves :
    (user organization now : ℕ) (s : Accounts) (m : Membership)
    → organization_is_active organization s ≡ true
    → IsUnique user organization s.memberships
    → find (is_membership_of user organization) s.memberships ≡ some m
    → resolve_effective_context user true (activate_for_user user organization now s).1
      ≡ effective_of m s
unfolding activate_for_user resolve_effective_context organization_is_active select_effective
activate_for_user-resolves user organization now s m active unique found =
    rw (any-cleared user organization now s active s.memberships m found) (
      rw (defaults-found user organization now s active s.memberships m unique found) (
        effective_of-same m now s
          (record s { memberships = rewritten user organization now s active s.memberships }) refl))
