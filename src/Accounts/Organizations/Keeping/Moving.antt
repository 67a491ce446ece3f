-- ===== src/Accounts/Organizations/Keeping/Moving.antt =====
-- What a transition does to the table of organizations (src/organizations/organizations.service.ts).
use content_intelligence_bac.Base.{
  ℕ, ◌≡◌, refl, arith, true, some, find, find_holds, inl, inr, Bool-cases, ok, ◌>>=◌, ◌>>◌, modify,
  transaction-keeps, KeepsAt, at_bind, at_read,
}
use content_intelligence_bac.Accounts.Model.{
  OrganizationStatus, pending_setup, active, suspended, archived, Organization, Accounts,
  AuditAction, status_eq, is_ready,
}
use content_intelligence_bac.Accounts.Organizations.{
  is_organization, is_transition, required_organization, write_organization,
  assert_activation_ready, check_target, transition_from, transition, set_status,
  organization_audit,
}
use content_intelligence_bac.Accounts.Organizations.Lifecycle.{
  here, next, is_transition-⟶, is_set_up,
}
use content_intelligence_bac.Accounts.Organizations.Keeping.{
  Changed, found_ok, write-Changed, audit-Keeps,
}

-- A valid transition leads to a status that asks no more of the onboarding than the check has shown.
set_up_after :
    (target : OrganizationStatus) (o : Organization)
    → is_transition o.status target ≡ true
    → (status_eq target active ≡ true → is_ready o.onboarding_status ≡ true)
    → is_set_up o ≡ true
    → is_set_up (set_status target o) ≡ true
set_up_after pending_setup o valid ready h = ground (arith)
set_up_after active o valid ready h = rw (ready refl) refl
set_up_after suspended o valid ready h = ground (arith)
set_up_after archived o valid ready h = ground (arith)

module _ (start : Accounts) where
  -- A transition to `ACTIVE` has an onboarding that is ready.
  check_target-passed :
      (target : OrganizationStatus) (o : Organization) (s : Accounts)
      → (check_target target o s).0 ≡ ok tt
      → status_eq target active ≡ true
      → is_ready o.onboarding_status ≡ true
  unfolding check_target assert_activation_ready
  check_target-passed target o s h t = ground (arith)

  set_status-Keeps :
      (target : OrganizationStatus) (o : Organization) (s : Accounts)
      → find (is_organization o.id) s.organizations ≡ some o
      → is_transition o.status target ≡ true
      → (status_eq target active ≡ true → is_ready o.onboarding_status ≡ true)
      → KeepsAt (Changed start) (write_organization o.id (set_status target)) s
  set_status-Keeps target o s found valid ready = record {
    kept_at =
        write-Changed start o.id (set_status target) s (λ x. refl)
          (λ x at_x.
            let e : o ≡ x = cc (rw found at at_x) in
            rw (← e) (
              next (is_transition-⟶ o.status target valid) here,
              λ h. set_up_after target o valid ready h,
            ));
  }

  transition_from-Keeps :
      (target : OrganizationStatus) (action : AuditAction) (platform : ℕ) (o : Organization)
      (s : Accounts)
      → find (is_organization o.id) s.organizations ≡ some o
      → KeepsAt (Changed start) (transition_from target action platform o) s
  unfolding transition_from check_target
  transition_from-Keeps target action platform o s found =
      elim (Bool-cases (status_eq o.status target)) [
        | inl there ↦ record { kept_at = λ c. rw there c }
        | inr away ↦ elim (Bool-cases (is_transition o.status target)) [
          | inr invalid ↦ record { kept_at = λ c. rw (away, invalid) c }
          | inl valid ↦
              let moved : KeepsAt (Changed start)
                  (do
                    check_target target o
                    write_organization o.id (set_status target)
                    modify (organization_audit platform o.id action))
                  s =
                at_read (check_target target o) refl (λ u ready.
                  at_bind
                    (set_status-Keeps target o s found valid (check_target-passed target o s ready))
                    (λ u. audit-Keeps start platform o.id action)) in
              record { kept_at = λ c. rw (away, valid) (moved.kept_at c) }
        ]
      ]

  pub transition-Changed :
      (id : ℕ) (target : OrganizationStatus) (action : AuditAction) (platform : ℕ) (s : Accounts)
      → (Changed start) s
      → (Changed start) (transition id target action platform s).1
  unfolding transition
  transition-Changed id target action platform s c =
      transaction-keeps (Changed start)
        (required_organization id >>= transition_from target action platform) s c
        ((at_read {P = (Changed start)} {s = s} (required_organization id)
            {f = transition_from target action platform} refl
            (λ o found.
              let row = found_ok id o s found in
              let own = find_holds (is_organization id) s.organizations o row in
              let same_id : id ≡ o.id = ground (arith, own) in
              transition_from-Keeps target action platform o s (simp (← same_id) row))).kept_at
          c)
