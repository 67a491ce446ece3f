-- ===== src/Accounts/Organizations/Keeping/Setup.antt =====
-- What `provision` does to the table of organizations (src/organizations/organizations.service.ts).
use content_intelligence_bac.Base.{
  ℕ, ◌≡◌, refl, arith, true, not, some, String, find, inl, inr, Option-cases, Bool-cases, throw_if,
  gets, transaction, transaction-keeps, rethrow-keeps, Keeps, KeepsAt, at_bind, at_read,
  throw_if-same, throw_if-passed, Keeps-bind, Keeps-pure,
}
use content_intelligence_bac.Accounts.Model.{
  pending_setup, Organization, user_is_active, Accounts, AccountError, not_pending, owner_inactive,
  is_membership_of, tenant_provisioning_started, tenant_provisioning_completed,
  tenant_owner_assigned, Role, status_eq,
}
use content_intelligence_bac.Accounts.Organizations.{
  is_organization, required_organization, write_organization,
}
use content_intelligence_bac.Accounts.Organizations.Provisioning.{
  ProvisionOrganizationDto, set_up, provision_body, record_failure, provision, is_team_of,
  Provisioned, owner_role, text_or, start_onboarding, finish_onboarding, fail_onboarding,
  upsert_team, upsert_owner,
}
use content_intelligence_bac.Accounts.Organizations.Lifecycle.{here, rewritten, both}
use content_intelligence_bac.Accounts.Organizations.Keeping.{
  Changed, found_ok, write-Changed, audit-Keeps, normalize_code-Keeps, required_text-Keeps,
}

module _ (start : Accounts) where
  upsert_team-Keeps :
      (id : ℕ) (code name : String) (owner : ℕ)
      → Keeps (Changed start) (upsert_team id code name owner)
  unfolding upsert_team Changed
  upsert_team-Keeps id code name owner = record {
    kept = λ s c. elim (Option-cases (find (is_team_of id code) s.teams)) [
      | inl e ↦ rw (e, upsert_team) c
      | inr (t, e) ↦ rw (e, upsert_team) c
    ];
  }

  upsert_owner-Keeps :
      (owner id role team attempt now : ℕ)
      → Keeps (Changed start) (upsert_owner owner id role team attempt now)
  unfolding upsert_owner Changed
  upsert_owner-Keeps owner id role team attempt now = record {
    kept = λ s c. elim (Option-cases (find (is_membership_of owner id) s.memberships)) [
      | inl e ↦ rw (e, upsert_owner) c
      | inr (t, e) ↦ rw (e, upsert_owner) c
    ];
  }

  finish-Keeps :
      (id now : ℕ) → Keeps (Changed start) (write_organization id (finish_onboarding now))
  unfolding Changed
  finish-Keeps id now = record {
    kept = λ s c.
        write-Changed start id (finish_onboarding now) s (λ x. refl) (λ o found. (here, λ h. refl))
          c;
  }

  module _ (id : ℕ) (dto : ProvisionOrganizationDto) (platform attempt now : ℕ) where
    start-Keeps :
        (s : Accounts) (o : Organization)
        → find (is_organization id) s.organizations ≡ some o
        → status_eq o.status pending_setup ≡ true
        → KeepsAt (Changed start) (write_organization id (start_onboarding attempt)) s
    start-Keeps s o found pending = record {
      kept_at =
          write-Changed start id (start_onboarding attempt) s (λ x. refl)
            (λ x at_x.
              let e : o ≡ x = cc (rw found at at_x) in
              (here, λ h. rw (← e) (ground (arith, pending))));
    }

    set_up-Keeps :
        (role : Role) (s : Accounts) (o : Organization)
        → find (is_organization id) s.organizations ≡ some o
        → status_eq o.status pending_setup ≡ true
        → KeepsAt (Changed start) (set_up id dto platform attempt now role) s
    unfolding set_up
    set_up-Keeps role s o found pending = at_bind (start-Keeps s o found pending) (λ u.
        Keeps-bind (audit-Keeps start platform id (tenant_provisioning_started id)) (λ u.
          Keeps-bind (normalize_code-Keeps start (text_or "default" dto.default_team_code)) (λ code.
            Keeps-bind (required_text-Keeps start (text_or "Default Team" dto.default_team_name))
              (λ name. Keeps-bind (upsert_team-Keeps id code name dto.owner_user_id) (λ team.
                Keeps-bind (upsert_owner-Keeps dto.owner_user_id id role.id team attempt now)
                  (λ membership. Keeps-bind (finish-Keeps id now) (λ u.
                    Keeps-bind
                      (audit-Keeps start platform id
                        (tenant_owner_assigned id membership dto.owner_user_id))
                      (λ u.
                        Keeps-bind
                          (audit-Keeps start platform id (tenant_provisioning_completed id))
                          (λ u. Keeps-pure {A = Provisioned} (record {
                            owner_membership_id = membership;
                            default_team_id = team;
                          }))))))))))

    provision_body-Keeps :
        (s : Accounts) → KeepsAt (Changed start) (provision_body id dto platform attempt now) s
    unfolding provision_body
    provision_body-Keeps s = at_read (required_organization id) refl (λ o found.
        at_read (throw_if (not (status_eq o.status pending_setup)) not_pending)
          (throw_if-same (not (status_eq o.status pending_setup)) not_pending s)
          (λ u pending. at_read (gets (user_is_active dto.owner_user_id)) refl (λ lively _.
            at_read (throw_if (not lively) owner_inactive)
              (throw_if-same (not lively) owner_inactive s)
              (λ u _. at_read (owner_role id dto platform attempt now) refl (λ role _.
                set_up-Keeps role s o (found_ok id o s found) (
                  ground (
                    arith,
                    throw_if-passed (not (status_eq o.status pending_setup)) not_pending s pending,
                  )))))))

    record_failure-Changed :
        (e : AccountError) (s : Accounts)
        → (Changed start) s
        → (Changed start) (record_failure id dto platform attempt now e s)
    unfolding record_failure Changed
    record_failure-Changed e s c = elim (Option-cases (find (is_organization id) s.organizations)) [
      | inl missing ↦ rw missing c
      | inr (o, found) ↦ elim (Bool-cases (status_eq o.status pending_setup)) [
        | inr other ↦ rw (found, other) c
        | inl pending ↦
            rw (found, pending)
              (both c (
                rewritten id (fail_onboarding attempt e) o found (λ x. refl) here
                  (λ h. ground (arith, pending))))
      ]
    ]

    pub provision-Changed :
        (s : Accounts)
        → (Changed start) s
        → (Changed start) (provision id dto platform attempt now s).1
    unfolding provision
    provision-Changed s c =
        rethrow-keeps (Changed start) (record_failure id dto platform attempt now)
          (transaction (provision_body id dto platform attempt now) s)
          (λ e s c. record_failure-Changed e s c)
          (transaction-keeps (Changed start) (provision_body id dto platform attempt now) s c
            ((provision_body-Keeps s).kept_at c))
