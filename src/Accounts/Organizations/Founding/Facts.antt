-- ===== src/Accounts/Organizations/Founding/Facts.antt =====
-- Facts on single rows that a provisioning stands on (src/organizations/organizations.service.ts).
use content_intelligence_bac.Base.{
  ℕ, ◌≡◌, ◌∙◌, ◌<◌, refl, arith, ap, Bool, true, ◌&&◌, Option, some, List, [], ◌∷◌, ◌==◌, ==_iff,
  holds, find, any, update_where, count_where, select, find_holds, find-update_where, inl, inr,
  Bool-cases, ok,
}
use content_intelligence_bac.Accounts.Model.{
  OrganizationStatus, pending_setup, Organization, Membership, Role, Accounts, status_eq,
  user_is_active, is_membership_of, is_active_membership,
}
use content_intelligence_bac.Accounts.Roles.{is_assignable, only_one}
use content_intelligence_bac.Accounts.Memberships.{find_role}
use content_intelligence_bac.Accounts.Organizations.{
  is_organization, is_transition, write_organization, ready_owners, is_ready_owner,
}
use content_intelligence_bac.Accounts.Organizations.Founding.{IsOwner}

pub pending_opens :
    (status : OrganizationStatus)
    → status_eq status pending_setup ≡ true
    → is_transition status OrganizationStatus.active ≡ true
pending_opens status h = ground (arith)

pub count-found :
    (p q : Membership → Bool) (ms : List Membership) (m : Membership)
    → find p ms ≡ some m
    → q m ≡ true
    → 0 < count_where q ms
count-found p q [] m found h = absurd (ground arith)
count-found p q (x ∷ ms) m found h = ground (arith, count-found p q ms m)

pub only_one-head : (x : Role) (rs : List Role) (r : Role) → only_one (x ∷ rs) ≡ ok r → x ≡ r
only_one-head x [] r h = cc h
only_one-head x (y ∷ rs) r h = absurd (cc h)

pub find-selected :
    (p : Role → Bool) (rs : List Role) (r : Role)
    → only_one (select p rs) ≡ ok r
    → find p rs ≡ some r
find-selected p [] r h = absurd (cc h)
find-selected p (x ∷ rs) r h = elim (Bool-cases (p x)) [
  | inl fits ↦ rw fits (ap some (only_one-head x (select p rs) r (rw fits at h)))
  | inr fails ↦ rw fails (find-selected p rs r (rw fails at h))
]

-- What a write of one row that succeeds leaves.
pub record IsWritten (id : ℕ) (row : Organization) (s s' : Accounts) : Type 0 where
  pub found : find (is_organization id) s'.organizations ≡ some row
  pub memberships : s'.memberships ≡ s.memberships
  pub users : s'.users ≡ s.users
  pub roles : s'.roles ≡ s.roles

pub write-IsWritten :
    (id : ℕ) (f : Organization → Organization) (s s' : Accounts) (o : Organization)
    → ((x : Organization) → (f x).id ≡ x.id)
    → find (is_organization id) s.organizations ≡ some o
    → write_organization id f s ≡ (ok tt, s')
    → IsWritten id (f o) s s'
write-IsWritten id f s s' o kept found h =
    elim (Bool-cases (any (is_organization id) s.organizations)) [
      | inr missing ↦ absurd (cc (rw missing at h))
      | inl there ↦
          let own = find_holds (is_organization id) s.organizations o found in
          let state : record s {
            organizations = update_where (is_organization id) f s.organizations;
          }
              ≡ s' =
            cc (rw there at h) in
          rw (← state) (record {
            found =
                find-update_where (is_organization id) (is_organization id) f
                  (λ x. ground (arith, kept x)) s.organizations
                ∙ rw found (rw own refl);
            memberships = refl;
            users = refl;
            roles = refl;
          })
    ]

pub both_true : (a b : Bool) → (a && b) ≡ true → (a ≡ true) × (b ≡ true)
both_true a b h = ground (arith)

pub all_true :
    (a b c d e : Bool)
    → a ≡ true
    → b ≡ true
    → c ≡ true
    → d ≡ true
    → e ≡ true
    → ((a && b && c && d) && e) ≡ true
all_true a b c d e ha hb hc hd he = rw (ha, hb, hc, hd, he) refl

-- The facts that make an organization ready, of any tables.
pub ready_after :
    (id owner : ℕ) (role : Role) (s : Accounts)
    → IsOwner owner id role.id s.memberships
    → user_is_active owner s ≡ true
    → find (λ r. r.id == role.id) s.roles ≡ some role
    → is_assignable id role ≡ true
    → 0 < ready_owners id s
ready_after id owner role s own lively found fits =
    let m = own.membership in
    let hit = find_holds (is_membership_of owner id) s.memberships m own.found in
    let (user_same, here) = both_true (m.user_id == owner) (m.organization_id == id) hit in
    let user_equal : m.user_id ≡ owner = (==_iff m.user_id owner).0 user_same in
    count-found (is_membership_of owner id) (is_ready_owner id s) s.memberships m own.found (
      all_true (m.organization_id == id) (is_active_membership m.status) m.is_tenant_owner
        (user_is_active m.user_id s) (holds (is_assignable id) (find_role m.role_id s)) here
        own.lively own.owns (ap (λ (k : ℕ). user_is_active k s) user_equal ∙ lively)
        (ap (λ (r : Option ℕ). holds (is_assignable id) (find_role r s)) own.role_given
          ∙ rw found fits))
