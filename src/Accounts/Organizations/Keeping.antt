-- ===== src/Accounts/Organizations/Keeping.antt =====
-- What each call of the service does to the table of organizations
-- (src/organizations/organizations.service.ts).
pub mod Setup
pub mod Moving
use content_intelligence_bac.Base.{
  ℕ, ◌≡◌, refl, arith, true, not, Option, none, some, List, [], ◌∷◌, String, find, any, find_holds,
  inl, inr, Option-cases, Bool-cases, ok, ◌>>=◌, ◌>>◌, throw_if, modify, gets, found_or,
  transaction, trim, to_lower, is_empty, transaction-keeps, rethrow-keeps, Keeps, KeepsAt, at_bind,
  at_read, throw_if-same, throw_if-passed, Keeps-bind, Keeps-transaction, Keeps-pure, Keeps-gets,
  Keeps-throw_if, Keeps-modify,
}
use content_intelligence_bac.Accounts.Model.{
  OrganizationStatus, pending_setup, active, suspended, archived, Organization, user_is_active,
  Accounts, AccountError, organization_not_found, not_pending, owner_inactive, code_taken,
  AuditAction, is_membership_of, tenant_created, tenant_updated, tenant_provisioning_started,
  tenant_provisioning_completed, tenant_owner_assigned, Role, status_eq, is_ready,
}
use content_intelligence_bac.Accounts.Organizations.{
  is_organization, is_transition, required_text, normalize_code, has_code, new_organization,
  CreateOrganizationDto, insert_organization, checked, is_code_taken, required_organization, create,
  write_organization, UpdateOrganizationDto, edit, update, trimmed, assert_activation_ready,
  check_target, transition_from, transition, set_status, organization_audit,
}
use content_intelligence_bac.Accounts.Organizations.Provisioning.{
  ProvisionOrganizationDto, set_up, provision_body, record_failure, provision, is_team_of,
  Provisioned, owner_role, text_or, start_onboarding, finish_onboarding, fail_onboarding,
  upsert_team, upsert_owner,
}
use content_intelligence_bac.Accounts.Organizations.Lifecycle.{
  ◌⟶*◌, here, next, is_transition-⟶, is_set_up, Change, added, rewritten, both,
}

pub found_ok :
    (id : ℕ) (o : Organization) (s : Accounts)
    → found_or (find (is_organization id) s.organizations) organization_not_found ≡ ok o
    → find (is_organization id) s.organizations ≡ some o
found_ok id o s h = elim (Option-cases (find (is_organization id) s.organizations)) [
  | inl missing ↦ absurd (cc (rw missing at h))
  | inr (x, found) ↦ cc (rw found at h)
]

module _ (start : Accounts) where
  unfoldable pub Changed : Accounts → Type 0
  Changed s = Change start.organizations s.organizations

  any-found :
      (id : ℕ) (os : List Organization)
      → any (is_organization id) os ≡ true
      → (o : Organization) × (find (is_organization id) os ≡ some o)
  any-found id [] h = absurd (cc)
  any-found id (o ∷ os) h = elim (Bool-cases (is_organization id o)) [
    | inl hit ↦ (o, rw hit refl)
    | inr miss ↦ let (x, found) = any-found id os (rw miss at h) in (x, rw miss found)
  ]

  -- An update of one row that, of the row that is there, keeps the diagram and the set-up.
  write-Changed :
      (id : ℕ) (f : Organization → Organization) (s : Accounts)
      → ((x : Organization) → (f x).id ≡ x.id)
      → ((o : Organization)
          → find (is_organization id) s.organizations ≡ some o
          → (o.status ⟶* (f o).status) × (is_set_up o ≡ true → is_set_up (f o) ≡ true))
      → Changed s
      → Changed (write_organization id f s).1
  unfolding Changed
  write-Changed id f s same_id fits c =
      elim (Bool-cases (any (is_organization id) s.organizations)) [
        | inr missing ↦ rw missing c
        | inl there ↦
            let (o, found) = any-found id s.organizations there in
            rw there (both c (rewritten id f o found same_id (fits o found).0 (fits o found).1))
      ]

  insert-Keeps :
      (code name timezone locale : String)
      → Keeps Changed (insert_organization code name timezone locale)
  unfolding insert_organization Changed
  insert-Keeps code name timezone locale = record {
    kept = λ s c. elim (Bool-cases (any (has_code code) s.organizations)) [
      | inl taken ↦ rw taken c
      | inr fresh ↦
          rw fresh (both c (added (new_organization s.next_id code name timezone locale) refl))
    ];
  }

  required_text-Keeps : (t : String) → Keeps Changed (required_text t)
  unfolding required_text Changed
  required_text-Keeps t = record {
    kept = λ s c. elim (Bool-cases (is_empty (trim t))) [ inl e ↦ rw e c | inr e ↦ rw e c ];
  }

  normalize_code-Keeps : (t : String) → Keeps Changed (normalize_code t)
  unfolding normalize_code Changed
  normalize_code-Keeps t = record {
    kept =
        λ s c. elim (Bool-cases (is_empty (to_lower (trim t)))) [ inl e ↦ rw e c | inr e ↦ rw e c ];
  }

  audit-Keeps :
      (platform id : ℕ) (action : AuditAction)
      → Keeps {E = AccountError} Changed (modify (organization_audit platform id action))
  unfolding Changed
  audit-Keeps platform id action = Keeps-modify (organization_audit platform id action) (λ s c. c)

  pub create-Keeps :
      (dto : CreateOrganizationDto) (platform : ℕ) → Keeps Changed (create dto platform)
  unfolding create
  create-Keeps dto platform = Keeps-bind (normalize_code-Keeps dto.code) (λ code.
      Keeps-transaction (
        Keeps-bind (required_text-Keeps dto.name) (λ name.
          Keeps-bind (insert-Keeps code name _ _) (λ o.
            Keeps-bind (audit-Keeps platform o.id (tenant_created o.id)) (λ u. Keeps-pure o)))))

  checked_code-Keeps : (o : Option String) → Keeps Changed (checked normalize_code o)
  unfolding Changed
  checked_code-Keeps none = record { kept = λ s c. c }
  checked_code-Keeps (some t) = record {
    kept = λ s c. (Keeps-bind (normalize_code-Keeps t) (λ a. Keeps-pure (some a))).kept s c;
  }

  checked_text-Keeps : (o : Option String) → Keeps Changed (checked required_text o)
  unfolding Changed
  checked_text-Keeps none = record { kept = λ s c. c }
  checked_text-Keeps (some t) = record {
    kept = λ s c. (Keeps-bind (required_text-Keeps t) (λ a. Keeps-pure (some a))).kept s c;
  }

  -- A write that keeps the status and the onboarding of the row.
  edit-Keeps :
      (id : ℕ) (code name timezone locale : Option String)
      → Keeps Changed (write_organization id (edit code name timezone locale))
  unfolding Changed
  edit-Keeps id code name timezone locale = record {
    kept = λ s c.
        write-Changed id (edit code name timezone locale) s (λ x. refl) (λ o found. (here, λ h. h))
          c;
  }

  required-Keeps : (id : ℕ) → Keeps Changed (required_organization id)
  unfolding Changed
  required-Keeps id = record { kept = λ s c. c }

  pub update-Keeps :
      (id : ℕ) (dto : UpdateOrganizationDto) (platform : ℕ) → Keeps Changed (update id dto platform)
  unfolding update
  update-Keeps id dto platform = Keeps-bind (required-Keeps id) (λ current.
      Keeps-bind (checked_code-Keeps dto.code) (λ code.
        Keeps-bind (checked_text-Keeps dto.name) (λ name. Keeps-transaction (
          Keeps-bind (Keeps-gets (λ s. is_code_taken id code s.organizations)) (λ taken.
            Keeps-bind (Keeps-throw_if taken code_taken) (λ u.
              Keeps-bind
                (edit-Keeps id code name (trimmed "Asia/Tehran" dto.timezone)
                  (trimmed "fa-IR" dto.locale))
                (λ u. audit-Keeps platform id (tenant_updated id))))))))
