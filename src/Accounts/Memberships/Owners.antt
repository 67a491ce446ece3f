-- ===== src/Accounts/Memberships/Owners.antt =====
-- Theorems on the owners and the default memberships
-- (src/organization-memberships/organization-memberships.service.ts).
use content_intelligence_bac.Base.{
  ℕ, ◌+◌, ◌≤◌, ◌<◌, ◌≡◌, refl, arith, Bool, false, ◌&&◌, List, [], ◌∷◌, leb, ltb, ◌==◌, any,
  update_where, count_where, inl, inr, Bool-cases,
}
use content_intelligence_bac.Accounts.Model.{Membership, Accounts, is_membership_of}
use content_intelligence_bac.Accounts.Memberships.{
  is_active_owner, active_owners, is_last_owner, is_active_of, suspend, suspend_for_user,
}

-- Each user has one membership of the organization at most.
abbrev pub IsUnique : (user organization : ℕ) → List Membership → Type 0
IsUnique user organization ms = count_where (is_membership_of user organization) ms ≤ 1

module _ (user organization now : ℕ) (s : Accounts) where
  abbrev pub owns : Membership → Bool
  owns m = m.user_id == user && is_active_owner organization s m

  -- Suspending takes the owners of that user away, and no other.
  owners-suspend :
      (ms : List Membership)
      → count_where
            (is_active_owner organization s)
            (update_where (is_active_of user organization) (suspend now) ms)
          + count_where owns ms
        ≡ count_where (is_active_owner organization s) ms
  owners-suspend [] = refl
  owners-suspend (m ∷ ms) = ground (arith, owners-suspend ms)

  owns_unique :
      (ms : List Membership)
      → count_where owns ms ≤ count_where (is_membership_of user organization) ms
  owns_unique [] = omega arith
  owns_unique (m ∷ ms) = ground (arith, owns_unique ms)

  any-count : (ms : List Membership) → any owns ms ≡ ltb 0 (count_where owns ms)
  any-count [] = refl
  any-count (m ∷ ms) = ground (arith, any-count ms)

  keeps_owner :
      (ms : List Membership)
      → count_where (is_membership_of user organization) ms ≤ 1
      → 0 < count_where (is_active_owner organization s) ms
      → any owns ms && leb (count_where (is_active_owner organization s) ms) 1 ≡ false
      → 0
        < count_where
            (is_active_owner organization s)
            (update_where (is_active_of user organization) (suspend now) ms)
  keeps_owner ms unique owned fine = ground (arith, owners-suspend ms, owns_unique ms, any-count ms)

  -- With at most one membership of the user in the organization, an organization that has an active
  -- owner has one after `suspendForUser`, whether or not it throws.
  pub suspend_for_user-keeps_owner :
      IsUnique user organization s.memberships
      → 0 < active_owners organization s
      → 0 < active_owners organization (suspend_for_user user organization now s).1
  unfolding suspend_for_user is_last_owner
  suspend_for_user-keeps_owner unique owned =
      elim (Bool-cases (is_last_owner user organization s)) [
        | inl refused ↦ rw refused owned
        | inr fine ↦ rw fine (keeps_owner s.memberships unique owned fine)
      ]
