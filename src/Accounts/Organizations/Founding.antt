-- ===== src/Accounts/Organizations/Founding.antt =====
-- What a successful provisioning leaves (src/organizations/organizations.service.ts).
pub mod Facts
pub mod Ready
use content_intelligence_bac.Base.{
  ℕ, ◌≡◌, ◌∙◌, ◌<◌, refl, arith, sym, ap, Bool, true, false, not, ◌&&◌, Option, none, some, List,
  [], ◌∷◌, String, ◌==◌, ==_refl, ==_iff, holds, find, any, update_where, count_where, select,
  find_holds, find-update_where, find-snoc, find-by_key, Distinct, inl, inr, Option-cases,
  Bool-cases, Result, ok, Action, ◌>>=◌, ◌>>◌, pure, throw_if, modify, gets, transaction,
  transaction-ok, rethrow-ok, >>=-inv, throw_if-passed, throw_if-same, Keeps, after_Keeps,
  Keeps-modify, trim, to_lower, is_empty,
}
use mathlib.Core.Path.{subst}
use content_intelligence_bac.Accounts.Model.{
  admin, OrganizationStatus, pending_setup, Organization, Membership, Role, User, Accounts,
  AccountError, AuditAction, not_pending, owner_inactive, tenant_provisioning_started,
  tenant_provisioning_completed, tenant_owner_assigned, status_eq, is_ready, user_is_active,
  is_user, is_membership_of, is_active_membership,
}
use content_intelligence_bac.Accounts.Roles.{
  is_assignable, is_legacy, only_one, resolve_membership_role, resolve_membership_role-assignable,
}
use content_intelligence_bac.Accounts.Memberships.{find_role}
use content_intelligence_bac.Accounts.Organizations.{
  is_organization, is_transition, required_text, normalize_code, write_organization,
  required_organization, organization_audit, transition, ready_owners, is_ready_owner,
}
use content_intelligence_bac.Accounts.Organizations.Provisioning.{
  ProvisionOrganizationDto, Provisioned, text_or, start_onboarding, finish_onboarding, upsert_team,
  upsert_owner, make_owner, owner_membership, is_team_of, set_up, owner_role, provision_body,
  record_failure, provision,
}
use content_intelligence_bac.Accounts.Organizations.Keeping.{found_ok}
use content_intelligence_bac.Accounts.Organizations.Histories.{transition-decided}

module _ (id : ℕ) (start : Accounts) where
  -- The users and the roles are as they were, and the organization is pending.
  unfoldable pub Framed : Accounts → Type 0
  Framed s =
      (s.users ≡ start.users)
      × (s.roles ≡ start.roles)
      × ((o : Organization) × (find (is_organization id) s.organizations ≡ some o)
          × (status_eq o.status pending_setup ≡ true))

  write-Keeps :
      (f : Organization → Organization)
      → ((x : Organization) → ((f x).id ≡ x.id) × ((f x).status ≡ x.status))
      → Keeps {E = AccountError} Framed (write_organization id f)
  unfolding Framed
  write-Keeps f kept = record {
    kept = λ s p. elim (Bool-cases (any (is_organization id) s.organizations)) [
      | inr missing ↦ rw missing p
      | inl there ↦
          let (users, roles, there_is) = p in
          let (o, found, pending) = there_is in
          let own = find_holds (is_organization id) s.organizations o found in
          rw there (
            users,
            roles,
            (
              f o,
              find-update_where (is_organization id) (is_organization id) f
                    (λ x. ground (arith, kept x)) s.organizations
                  ∙ rw found (rw own refl),
              ap (λ (t : OrganizationStatus). status_eq t pending_setup) (kept o).1 ∙ pending,
            ),
          )
    ];
  }

  audit-Keeps :
      (platform : ℕ) (action : AuditAction)
      → Keeps {E = AccountError} Framed (modify (organization_audit platform id action))
  unfolding Framed
  audit-Keeps platform action = Keeps-modify (organization_audit platform id action) (λ s p. p)

  code-Keeps : (t : String) → Keeps Framed (normalize_code t)
  unfolding normalize_code
  code-Keeps t = record {
    kept =
        λ s p. elim (Bool-cases (is_empty (to_lower (trim t)))) [ inl e ↦ rw e p | inr e ↦ rw e p ];
  }

  text-Keeps : (t : String) → Keeps Framed (required_text t)
  unfolding required_text
  text-Keeps t = record {
    kept = λ s p. elim (Bool-cases (is_empty (trim t))) [ inl e ↦ rw e p | inr e ↦ rw e p ];
  }

  team-Keeps : (code name : String) (owner : ℕ) → Keeps Framed (upsert_team id code name owner)
  unfolding upsert_team Framed
  team-Keeps code name owner = record {
    kept = λ s p. elim (Option-cases (find (is_team_of id code) s.teams)) [
      | inl e ↦ rw (e, upsert_team) p
      | inr (t, e) ↦ rw (e, upsert_team) p
    ];
  }

  owner-Keeps :
      (owner role team attempt now : ℕ) → Keeps Framed (upsert_owner owner id role team attempt now)
  unfolding upsert_owner Framed
  owner-Keeps owner role team attempt now = record {
    kept = λ s p. elim (Option-cases (find (is_membership_of owner id) s.memberships)) [
      | inl e ↦ rw (e, upsert_owner) p
      | inr (m, e) ↦ rw (e, upsert_owner) p
    ];
  }

-- The owner's membership after the upsert.
pub record IsOwner (owner organization role : ℕ) (ms : List Membership) : Type 0 where
  pub membership : Membership
  pub found : find (is_membership_of owner organization) ms ≡ some membership
  pub lively : is_active_membership membership.status ≡ true
  pub owns : membership.is_tenant_owner ≡ true
  pub role_given : membership.role_id ≡ some role

upsert_owner-IsOwner :
    (owner organization role team attempt now : ℕ) (s : Accounts)
    → IsOwner owner organization role
        (upsert_owner owner organization role team attempt now s).1.memberships
unfolding upsert_owner
upsert_owner-IsOwner owner organization role team attempt now s =
    elim (Option-cases (find (is_membership_of owner organization) s.memberships)) [
      | inl fresh ↦
          rw (fresh, upsert_owner)
            (record {
              membership = owner_membership s.next_id owner organization role team attempt now;
              found =
                  find-snoc (is_membership_of owner organization) s.memberships _ fresh
                  ∙ rw (==_refl owner, ==_refl organization) refl;
              lively = refl;
              owns = refl;
              role_given = refl;
            })
      | inr (m, found) ↦
          let own = find_holds (is_membership_of owner organization) s.memberships m found in
          rw (found, upsert_owner)
            (record {
              membership = make_owner role team attempt m;
              found =
                  find-update_where (is_membership_of owner organization)
                    (is_membership_of owner organization) (make_owner role team attempt) (λ x. refl)
                    s.memberships
                  ∙ rw found (rw own refl);
              lively = refl;
              owns = refl;
              role_given = refl;
            })
    ]
