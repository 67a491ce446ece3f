-- ===== src/Accounts/Teams/Sharing.antt =====
-- When two users share a team (src/common/tenant/team-scope.util.ts).
use content_intelligence_bac.Base.{
  ℕ, ◌≡◌, ◌↔◌, refl, arith, Bool, true, ◌&&◌, some, ◌==◌, ==_iff, holds, find, any, any_iff, Memᴰ,
  Option-cases, inl, inr,
}
use content_intelligence_bac.Accounts.Model.{
  TeamLink, Membership, MembershipStatus, Accounts, is_active_membership,
}
use content_intelligence_bac.Accounts.Teams.{membership_of_link, users_share_tenant_team}

-- A link of an active membership of the user in the organization.
pub record IsLinkOf (user organization : ℕ) (s : Accounts) (l : TeamLink) : Type 0 where
  pub membership : Membership
  pub found : find (λ m. m.id == l.membership_id) s.memberships ≡ some membership
  pub owner : membership.user_id ≡ user
  pub place : membership.organization_id ≡ organization
  pub lively : membership.status ≡ MembershipStatus.active

abbrev is_linked : (user organization : ℕ) → Membership → Bool
is_linked user organization m =
    m.user_id == user && m.organization_id == organization && is_active_membership m.status

active_status :
    (status : MembershipStatus)
    → is_active_membership status ≡ true
    → status ≡ MembershipStatus.active
active_status MembershipStatus.invited h = absurd (cc h)
active_status MembershipStatus.active h = refl
active_status MembershipStatus.suspended h = absurd (cc h)

module _ (user organization : ℕ) (s : Accounts) (l : TeamLink) where
  test_IsLinkOf :
      holds (is_linked user organization) (membership_of_link s l) ≡ true
      → IsLinkOf user organization s l
  test_IsLinkOf h = elim (Option-cases (membership_of_link s l)) [
    | inl missing ↦ absurd (cc (rw missing at h))
    | inr (m, found) ↦
        let fits : is_linked user organization m ≡ true = rw found at h in
        record {
          membership = m;
          found = found;
          owner = ground (arith, fits);
          place = ground (arith, fits);
          lively = active_status m.status (ground (arith, fits));
        }
  ]

  IsLinkOf-test :
      IsLinkOf user organization s l
      → holds (is_linked user organization) (membership_of_link s l) ≡ true
  IsLinkOf-test w =
      let lively : is_active_membership w.membership.status ≡ true = rw w.lively refl in
      let owner = (==_iff w.membership.user_id user).1 w.owner in
      let place = (==_iff w.membership.organization_id organization).1 w.place in
      rw w.found (ground (arith, lively, owner, place))

both_true : {a b : Bool} → a ≡ true → b ≡ true → (a && b) ≡ true
both_true h k = ground (arith, h, k)

-- Two users share a team of an organization exactly when there are two links to one team, the one of an
-- active membership of the first user in the organization, the other of one of the second user.
pub users_share_tenant_team_iff :
    (first second organization : ℕ) (s : Accounts)
    → (users_share_tenant_team first second organization s ≡ true) ↔ (
        (l : TeamLink) × (k : TeamLink) × Memᴰ l s.team_links
        × Memᴰ k s.team_links
        × (k.team_id ≡ l.team_id)
        × IsLinkOf first organization s l
        × IsLinkOf second organization s k)
unfolding users_share_tenant_team
users_share_tenant_team_iff first second organization s = (
  λ h.
      let (l, there, both) = (any_iff _ s.team_links).0 h in
      let one : holds (is_linked first organization) (membership_of_link s l) ≡ true =
        ground arith in
      let rest : any (other l) s.team_links ≡ true = ground arith in
      let (k, here, match) = (any_iff (other l) s.team_links).0 rest in
      (
        l,
        k,
        there,
        here,
        ground (arith, match),
        test_IsLinkOf first organization s l one,
        test_IsLinkOf second organization s k (ground (arith, match)),
      ),
  λ w.
      let (l, k, there, here, together, one, two) = w in
      let same : (k.team_id == l.team_id) ≡ true = (==_iff k.team_id l.team_id).1 together in
      let second_fits = IsLinkOf-test second organization s k two in
      let first_fits = IsLinkOf-test first organization s l one in
      let rest = (any_iff (other l) s.team_links).1 (k, here, both_true same second_fits) in
      (any_iff _ s.team_links).1 (l, there, both_true first_fits rest),
)
  where
    other : TeamLink → TeamLink → Bool
    other l k =
        k.team_id == l.team_id && holds (is_linked second organization) (membership_of_link s k)
