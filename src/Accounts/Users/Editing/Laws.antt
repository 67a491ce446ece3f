-- ===== src/Accounts/Users/Editing/Laws.antt =====
-- Theorems on `updateUserRole` and `resetPassword` (src/users/users.service.ts).
use content_intelligence_bac.Base.{
  ℕ, ◌≡◌, refl, arith, ap, sym, ◌∙◌, Bool, true, false, not, ◌&&◌, Option, none, some, List, [],
  ◌∷◌, ◌==◌, find, any, update_where, inl, inr, Bool-cases, Option-cases, ok, Action, ◌>>=◌, ◌>>◌,
  modify, gets, reads, transaction, throw_if, throw_if-passed, throw_if-same, >>=-inv,
  transaction-ok, found_or, pure, find-update_where, find_holds,
}
use text.Mathlib.Text.{◌==◌ as str_eq}
use content_intelligence_bac.Accounts.Model.{
  Role, Membership, Accounts, AccountError, user_role_changed, role_required, user_not_found,
  own_access, is_membership_of,
}
use content_intelligence_bac.Accounts.Roles.{
  is_assignable, resolve_membership_role, resolve_membership_role-assignable,
}
use content_intelligence_bac.Accounts.Memberships.{
  sync_role_assignment, replace_teams, all_fit, distinct_teams,
}
use content_intelligence_bac.Accounts.Users.{Actor, raise_authorization, user_audit}
use content_intelligence_bac.Accounts.Users.Editing.{
  UpdateUserRoleDto, TeamAssignment, no_role, grants, new_assignment, manages_access, assign_teams,
  team_list, update_role_body, update_user_role,
}

-- What a change of a role leaves: the user's membership in the organization has the role.
record IsGiven (id organization role : ℕ) (s : Accounts) : Type 0 where
  membership : Membership
  found : find (is_membership_of id organization) s.memberships ≡ some membership
  given : membership.role_id ≡ some role

-- Neither the memberships nor the grants are written.
record IsKept (s s' : Accounts) : Type 0 where
  memberships : s'.memberships ≡ s.memberships
  grants : s'.role_permissions ≡ s.role_permissions

any-find :
    (p : Membership → Bool) (ms : List Membership)
    → any p ms ≡ true
    → (m : Membership) × (find p ms ≡ some m)
any-find p [] h = absurd (cc)
any-find p (m ∷ ms) h = elim (Bool-cases (p m)) [
  | inl hit ↦ (m, rw hit refl)
  | inr miss ↦ let (x, found) = any-find p ms (rw miss at h) in (x, rw miss found)
]

sync-IsGiven :
    (id organization role : ℕ) (s s' : Accounts)
    → sync_role_assignment id organization role s ≡ (ok tt, s')
    → IsGiven id organization role s' × (s'.role_permissions ≡ s.role_permissions)
unfolding sync_role_assignment
sync-IsGiven id organization role s s' h =
    elim (Bool-cases (any (is_membership_of id organization) s.memberships)) [
      | inr missing ↦ absurd (cc (rw missing at h))
      | inl there ↦
          let written = rw there at h in
          let (m, found) = any-find (is_membership_of id organization) s.memberships there in
          let hit = find_holds (is_membership_of id organization) s.memberships m found in
          let state : record s {
            memberships =
                update_where (is_membership_of id organization)
                  (λ m. record m { role_id = some role }) s.memberships;
          }
              ≡ s' =
            cc in
          rw (← state) (
            record {
              membership = record m { role_id = some role };
              found =
                  find-update_where (is_membership_of id organization)
                    (is_membership_of id organization) (λ m. record m { role_id = some role })
                    (λ x. refl) s.memberships
                  ∙ rw found (rw hit refl);
              given = refl;
            },
            refl,
          )
    ]

raise-IsKept :
    (organization : ℕ) (s s' : Accounts)
    → raise_authorization organization s ≡ (ok tt, s')
    → IsKept s s'
raise-IsKept organization s s' h =
    elim (Bool-cases (any (λ o. o.id == organization) s.organizations)) [
      | inr missing ↦ absurd (cc (rw missing at h))
      | inl there ↦ let written = rw there at h in record { memberships = cc; grants = cc }
    ]

replace-IsKept :
    (id organization : ℕ) (teams : List ℕ) (s : Accounts)
    → IsKept s (replace_teams id organization teams s).1
unfolding replace_teams
replace-IsKept id organization teams s =
    elim (Bool-cases (all_fit organization s (distinct_teams teams))) [
      | inr foreign ↦ rw foreign (record { memberships = refl; grants = refl })
      | inl fits ↦ elim (Option-cases (find (is_membership_of id organization) s.memberships)) [
        | inl missing ↦ rw (fits, missing) (record { memberships = refl; grants = refl })
        | inr (m, found) ↦ rw (fits, found) (record { memberships = refl; grants = refl })
      ]
    ]

assign-IsKept :
    (id organization : ℕ) (a : Option TeamAssignment) (s : Accounts)
    → IsKept s (assign_teams id organization a s).1
unfolding assign_teams
assign-IsKept id organization none s = record { memberships = refl; grants = refl }
assign-IsKept id organization (some a) s = replace-IsKept id organization (team_list a.team_id) s

module _ (id : ℕ) (dto : UpdateUserRoleDto) (actor : Actor) where
  -- What a successful change of a role leaves.
  pub record IsChanged (role : Role) (s' : Accounts) : Type 0 where
    pub membership : Membership
    pub found : find (is_membership_of id actor.organization_id) s'.memberships ≡ some membership
    pub given : membership.role_id ≡ some role.id
    pub assignable : is_assignable actor.organization_id role ≡ true
    pub keeps_access :
        id ≡ actor.user_id
        → (grants role.id "permission:manage" s' ≡ true) × (grants role.id "role:manage" s' ≡ true)

  manages_access-same :
      (k : ℕ) (t t' : Accounts)
      → t'.role_permissions ≡ t.role_permissions
      → manages_access k t' ≡ manages_access k t
  manages_access-same k t t' h =
      ap
        (λ ps.
          any (λ p. p.role_id == k && p.is_active && str_eq p.action "permission:manage") ps
          && any (λ p. p.role_id == k && p.is_active && str_eq p.action "role:manage") ps)
        h

  abbrev org : ℕ
  org = actor.organization_id

  -- The parts of the transaction, from the last write to the first query.
  abbrev raised : Role → Action Accounts AccountError Role
  raised r = raise_authorization org >> pure r

  abbrev assigned : Option TeamAssignment → Role → Action Accounts AccountError Role
  assigned a r = assign_teams id org a >> raised r

  abbrev synced : Option TeamAssignment → Role → Action Accounts AccountError Role
  synced a r = sync_role_assignment id org r.id >> assigned a r

  abbrev guard : Bool → Action Accounts AccountError (Unit {0})
  guard k = throw_if (actor.user_id == id && not k) own_access

  abbrev asked : Option TeamAssignment → Role → Action Accounts AccountError Role
  asked a r = gets (manages_access r.id) >>= λ k. guard k >> synced a r

  abbrev note : Action Accounts AccountError (Unit {0})
  note = modify (user_audit actor (user_role_changed id))

  abbrev chosen : Action Accounts AccountError Role
  chosen = reads (λ s. resolve_membership_role org dto.role_id dto.role s.roles)

  both_granted :
      (k : ℕ) (t : Accounts)
      → manages_access k t ≡ true
      → (grants k "permission:manage" t ≡ true) × (grants k "role:manage" t ≡ true)
  both_granted k t h = ground (arith, h)

  move : (r role : Role) (t s' : Accounts) → r ≡ role → t ≡ s' → IsChanged r t → IsChanged role s'
  move r role t s' e f x = rw (← e, ← f) x

  -- The facts of the single steps together.
  conclude :
      (r : Role) (k : Bool) (s1 s4 s5 s6 : Accounts)
      → is_assignable org r ≡ true
      → IsGiven id org r.id s4
      → s4.role_permissions ≡ s1.role_permissions
      → IsKept s4 s5
      → IsKept s5 s6
      → manages_access r.id s1 ≡ k
      → (actor.user_id == id && not k) ≡ false
      → IsChanged r s6
  conclude r k s1 s4 s5 s6 fits is_given granted links bump answered guarded = record {
    membership = is_given.membership;
    found =
        ap (λ (ms : List Membership). find (is_membership_of id org) ms)
          (bump.memberships ∙ links.memberships)
        ∙ is_given.found;
    given = is_given.given;
    assignable = fits;
    keeps_access = λ own. both_granted r.id s6 (
        manages_access-same r.id s1 s6 (bump.grants ∙ links.grants ∙ granted)
        ∙ answered
        ∙ ground (arith, guarded, own));
  }

  body-IsChanged :
      (a : Option TeamAssignment) (s : Accounts) (role : Role) (s' : Accounts)
      → update_role_body id dto actor a s ≡ (ok role, s')
      → IsChanged role s'
  unfolding update_role_body
  body-IsChanged a s role s' h =
      let (r, s1, read, h1) = >>=-inv chosen (asked a) s role s' h in
      let (k, s2, access, h2) =
        >>=-inv (gets (manages_access r.id)) (λ k. guard k >> synced a r) s1 role s' h1 in
      let (u, s3, passed, h3) = >>=-inv (guard k) (λ _. synced a r) s2 role s' h2 in
      let (u4, s4, given, h4) =
        >>=-inv (sync_role_assignment id org r.id) (λ _. assigned a r) s3 role s' h3 in
      let (u5, s5, linked, h5) = >>=-inv (assign_teams id org a) (λ _. raised r) s4 role s' h4 in
      let (u6, s6, bumped, h6) = >>=-inv (raise_authorization org) (λ _. pure r) s5 role s' h5 in
      let first : s ≡ s1 = cc read in
      let second : s1 ≡ s2 = cc access in
      let third : s2 ≡ s3 =
        sym (throw_if-same (actor.user_id == id && not k) own_access s2) ∙ cc passed in
      let same_role : r ≡ role = cc h6 in
      let last : s6 ≡ s' = cc h6 in
      let answered : manages_access r.id s1 ≡ k = cc access in
      let open_guard : (actor.user_id == id && not k) ≡ false =
        throw_if-passed (actor.user_id == id && not k) own_access s2 (cc passed) in
      let (is_given, grants_4) = sync-IsGiven id org r.id s3 s4 given in
      move r role s6 s' same_role last (
        conclude r k s1 s4 s5 s6
          (resolve_membership_role-assignable org dto.role_id dto.role s.roles r (cc read)) is_given
          (grants_4 ∙ sym (ap (λ (t : Accounts). t.role_permissions) (second ∙ third)))
          (rw linked at (assign-IsKept id org a s4)) (raise-IsKept org s5 s6 bumped) answered
          open_guard)

  -- A change of a role that succeeds gives the user's membership in the organization a role that the
  -- organization may assign; and who changes his own role gets one that still manages roles and
  -- permissions.
  pub update_user_role-IsChanged :
      (s : Accounts) (role : Role) (s' : Accounts)
      → update_user_role id dto actor s ≡ (ok role, s')
      → IsChanged role s'
  unfolding update_user_role
  update_user_role-IsChanged s role s' h =
      let found : Action Accounts AccountError Membership =
        reads (λ s. found_or (find (is_membership_of id org) s.memberships) user_not_found) in
      let tail = λ (r : Role). note >> pure r in
      let change =
        λ (a : Option TeamAssignment). transaction (update_role_body id dto actor a) >>= tail in
      let (u1, s1, given, h1) =
        >>=-inv (throw_if (no_role dto.role dto.role_id) role_required)
          (λ _. found >>= λ _. reads (new_assignment dto org) >>= change) s role s' h in
      let (m, s2, member, h2) =
        >>=-inv found (λ _. reads (new_assignment dto org) >>= change) s1 role s' h1 in
      let (a, s3, team, h3) = >>=-inv (reads (new_assignment dto org)) change s2 role s' h2 in
      let (r, s4, body, h4) =
        >>=-inv (transaction (update_role_body id dto actor a)) tail s3 role s' h3 in
      let changed =
        body-IsChanged a s3 r s4 (transaction-ok (update_role_body id dto actor a) s3 r s4 body) in
      let noted = user_audit actor (user_role_changed id) s4 in
      move r role noted s' (cc h4) (cc h4) (record {
        membership = changed.membership;
        found = changed.found;
        given = changed.given;
        assignable = changed.assignable;
        keeps_access = changed.keeps_access;
      })
