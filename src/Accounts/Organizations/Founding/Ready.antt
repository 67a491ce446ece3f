-- ===== src/Accounts/Organizations/Founding/Ready.antt =====
-- A provisioned organization can be activated (src/organizations/organizations.service.ts).
use content_intelligence_bac.Base.{
  ℕ, ◌≡◌, ◌∙◌, ◌<◌, refl, arith, sym, ap, Bool, true, false, not, none, some, List, String, ◌==◌,
  ==_iff, holds, find, find_holds, find-by_key, Distinct, Result, ok, Action, ◌>>=◌, ◌>>◌, pure,
  throw_if, modify, gets, transaction, transaction-ok, rethrow-ok, >>=-inv, throw_if-passed,
  throw_if-same, after_Keeps,
}
use mathlib.Core.Path.{subst}
use content_intelligence_bac.Accounts.Model.{
  admin, OrganizationStatus, pending_setup, Organization, Membership, Role, User, Accounts,
  AccountError, AuditAction, not_pending, owner_inactive, tenant_provisioning_started,
  tenant_provisioning_completed, tenant_owner_assigned, status_eq, is_ready, user_is_active,
  is_user,
}
use content_intelligence_bac.Accounts.Roles.{
  is_assignable, is_legacy, resolve_membership_role, resolve_membership_role-assignable,
}
use content_intelligence_bac.Accounts.Organizations.{
  is_organization, required_text, normalize_code, write_organization, required_organization,
  organization_audit, transition, ready_owners,
}
use content_intelligence_bac.Accounts.Organizations.Provisioning.{
  ProvisionOrganizationDto, Provisioned, text_or, start_onboarding, finish_onboarding, upsert_team,
  upsert_owner, set_up, owner_role, provision_body, record_failure, provision,
}
use content_intelligence_bac.Accounts.Organizations.Keeping.{found_ok}
use content_intelligence_bac.Accounts.Organizations.Histories.{transition-decided}
use content_intelligence_bac.Accounts.Organizations.Founding.{
  Framed, write-Keeps, audit-Keeps, code-Keeps, text-Keeps, team-Keeps, owner-Keeps, IsOwner,
  upsert_owner-IsOwner,
}
use content_intelligence_bac.Accounts.Organizations.Founding.Facts.{
  pending_opens, find-selected, write-IsWritten, ready_after,
}

module _ (id : ℕ) (dto : ProvisionOrganizationDto) (platform attempt now : ℕ) where
  abbrev note : AuditAction → Action Accounts AccountError (Unit {0})
  note action = modify (organization_audit platform id action)

  module _ (role : Role) where
    abbrev step8 : ℕ → ℕ → Action Accounts AccountError Provisioned
    step8 team membership =
        note (tenant_provisioning_completed id)
        >> pure (record { owner_membership_id = membership; default_team_id = team })

    abbrev step7 : ℕ → ℕ → Action Accounts AccountError Provisioned
    step7 team membership =
        note (tenant_owner_assigned id membership dto.owner_user_id) >> step8 team membership

    abbrev step6 : ℕ → ℕ → Action Accounts AccountError Provisioned
    step6 team membership = write_organization id (finish_onboarding now) >> step7 team membership

    abbrev step5 : ℕ → Action Accounts AccountError Provisioned
    step5 team = upsert_owner dto.owner_user_id id role.id team attempt now >>= step6 team

    abbrev step4 : String → String → Action Accounts AccountError Provisioned
    step4 code name = upsert_team id code name dto.owner_user_id >>= step5

    abbrev step3 : String → Action Accounts AccountError Provisioned
    step3 code = required_text (text_or "Default Team" dto.default_team_name) >>= step4 code

    abbrev step2 : Action Accounts AccountError Provisioned
    step2 = normalize_code (text_or "default" dto.default_team_code) >>= step3

    abbrev step1 : Action Accounts AccountError Provisioned
    step1 = note (tenant_provisioning_started id) >> step2

    noted :
        (team membership : ℕ) (t : Accounts) (p : Provisioned) (s' : Accounts)
        → step7 team membership t ≡ (ok p, s')
        → record t { audit_logs = s'.audit_logs } ≡ s'
    noted team membership t p s' h =
        let written : organization_audit platform id (tenant_provisioning_completed id) (
              organization_audit platform id (tenant_owner_assigned id membership dto.owner_user_id)
                t)
            ≡ s' =
          cc h in
        subst (λ (x : Accounts). record t { audit_logs = x.audit_logs } ≡ x) written refl

    -- What the last writes leave, from the tables before them.
    finished :
        (s s6 s7 s' : Accounts)
        → Framed id s s6
        → IsOwner dto.owner_user_id id role.id s6.memberships
        → write_organization id (finish_onboarding now) s6 ≡ (ok tt, s7)
        → record s7 { audit_logs = s'.audit_logs } ≡ s'
        → user_is_active dto.owner_user_id s ≡ true
        → find (λ r. r.id == role.id) s.roles ≡ some role
        → is_assignable id role ≡ true
        → (o : Organization) × (find (is_organization id) s'.organizations ≡ some o)
          × (status_eq o.status pending_setup ≡ true)
          × (is_ready o.onboarding_status ≡ true)
          × (0 < ready_owners id s')
    unfolding Framed
    finished s s6 s7 s' frame own wrote last lively found fits =
        let (users, roles, there) = frame in
        let (o, at_id, pending) = there in
        let w = write-IsWritten id (finish_onboarding now) s6 s7 o (λ x. refl) at_id wrote in
        let users_7 : s7.users ≡ s.users = w.users ∙ users in
        let roles_7 : s7.roles ≡ s.roles = w.roles ∙ roles in
        let own_7 : IsOwner dto.owner_user_id id role.id s7.memberships =
          subst (λ (ms : List Membership). IsOwner dto.owner_user_id id role.id ms)
            (sym w.memberships) own in
        let t = record s7 { audit_logs = s'.audit_logs } in
        let ready : 0 < ready_owners id t =
          ready_after id dto.owner_user_id role t own_7
            (ap (λ (us : List User). holds (λ u. u.is_active) (find (is_user dto.owner_user_id) us))
                users_7
              ∙ lively)
            (ap (λ (rs : List Role). find (λ r. r.id == role.id) rs) roles_7 ∙ found) fits in
        subst
          (λ (t : Accounts).
            (o : Organization) × (find (is_organization id) t.organizations ≡ some o)
            × (status_eq o.status pending_setup ≡ true)
            × (is_ready o.onboarding_status ≡ true)
            × (0 < ready_owners id t))
          last (finish_onboarding now o, w.found, pending, refl, ready)

    set_up-ready :
        (s : Accounts) (p : Provisioned) (s' : Accounts)
        → Framed id s s
        → user_is_active dto.owner_user_id s ≡ true
        → find (λ r. r.id == role.id) s.roles ≡ some role
        → is_assignable id role ≡ true
        → set_up id dto platform attempt now role s ≡ (ok p, s')
        → (o : Organization) × (find (is_organization id) s'.organizations ≡ some o)
          × (status_eq o.status pending_setup ≡ true)
          × (is_ready o.onboarding_status ≡ true)
          × (0 < ready_owners id s')
    unfolding set_up Framed
    set_up-ready s p s' frame lively found fits h =
        let (u, s1, e1, h1) =
          >>=-inv (write_organization id (start_onboarding attempt)) (λ _. step1) s p s' h in
        let (u, s2, e2, h2) =
          >>=-inv (note (tenant_provisioning_started id)) (λ _. step2) s1 p s' h1 in
        let (code, s3, e3, h3) =
          >>=-inv (normalize_code (text_or "default" dto.default_team_code)) step3 s2 p s' h2 in
        let (name, s4, e4, h4) =
          >>=-inv (required_text (text_or "Default Team" dto.default_team_name)) (step4 code) s3 p
            s' h3 in
        let (team, s5, e5, h5) =
          >>=-inv (upsert_team id code name dto.owner_user_id) step5 s4 p s' h4 in
        let (membership, s6, e6, h6) =
          >>=-inv (upsert_owner dto.owner_user_id id role.id team attempt now) (step6 team) s5 p s'
            h5 in
        let (u7, s7, e7, h7) =
          >>=-inv (write_organization id (finish_onboarding now)) (λ _. step7 team membership) s6 p
            s' h6 in
        let f1 =
          after_Keeps {P = Framed id s} s _ s1
            (write-Keeps id s (start_onboarding attempt) (λ x. (refl, refl))) e1 frame in
        let f2 =
          after_Keeps {P = Framed id s} s1 _ s2
            (audit-Keeps id s platform (tenant_provisioning_started id)) e2 f1 in
        let f3 =
          after_Keeps {P = Framed id s} s2 _ s3
            (code-Keeps id s (text_or "default" dto.default_team_code)) e3 f2 in
        let f4 =
          after_Keeps {P = Framed id s} s3 _ s4
            (text-Keeps id s (text_or "Default Team" dto.default_team_name)) e4 f3 in
        let f5 =
          after_Keeps {P = Framed id s} s4 _ s5 (team-Keeps id s code name dto.owner_user_id) e5
            f4 in
        let f6 =
          after_Keeps {P = Framed id s} s5 _ s6
            (owner-Keeps id s dto.owner_user_id role.id team attempt now) e6 f5 in
        let own : IsOwner dto.owner_user_id id role.id s6.memberships =
          subst (λ (t : Accounts). IsOwner dto.owner_user_id id role.id t.memberships)
            (ap (λ (out : Result AccountError ℕ × Accounts). out.1) e6)
            (upsert_owner-IsOwner dto.owner_user_id id role.id team attempt now s5) in
        finished s s6 s7 s' f6 own e7 (noted team membership s7 p s' h7) lively found fits

  -- The role that the set-up is given is the active system role of the administrators, and is found by
  -- its identifier where no two roles have one.
  owner_role-found :
      (s : Accounts) (role : Role)
      → Distinct (λ (r : Role). r.id) s.roles
      → resolve_membership_role id none (some admin) s.roles ≡ ok role
      → find (λ r. r.id == role.id) s.roles ≡ some role
  unfolding resolve_membership_role
  owner_role-found s role distinct h =
      find-by_key (λ (r : Role). r.id) (is_legacy admin) s.roles role distinct
        (find-selected (is_legacy admin) s.roles role h)

  abbrev asked_role : Organization → Action Accounts AccountError Provisioned
  asked_role o = owner_role id dto platform attempt now >>= set_up id dto platform attempt now

  abbrev active_asked : Organization → Bool → Action Accounts AccountError Provisioned
  active_asked o active = throw_if (not active) owner_inactive >> asked_role o

  abbrev owner_asked : Organization → Action Accounts AccountError Provisioned
  owner_asked o = gets (user_is_active dto.owner_user_id) >>= active_asked o

  abbrev state_asked : Organization → Action Accounts AccountError Provisioned
  state_asked o = throw_if (not (status_eq o.status pending_setup)) not_pending >> owner_asked o

  -- The answers of the queries, from tables that they leave alone.
  read-ready :
      (s s1 s2 s3 s4 s5 : Accounts) (o : Organization) (a : Bool) (role : Role) (p : Provisioned)
      (s' : Accounts)
      → Distinct (λ (r : Role). r.id) s.roles
      → required_organization id s ≡ (ok o, s1)
      → throw_if (not (status_eq o.status pending_setup)) not_pending s1 ≡ (ok tt, s2)
      → gets {E = AccountError} (user_is_active dto.owner_user_id) s2 ≡ (ok a, s3)
      → throw_if (not a) owner_inactive s3 ≡ (ok tt, s4)
      → owner_role id dto platform attempt now s4 ≡ (ok role, s5)
      → set_up id dto platform attempt now role s5 ≡ (ok p, s')
      → (o : Organization) × (find (is_organization id) s'.organizations ≡ some o)
        × (status_eq o.status pending_setup ≡ true)
        × (is_ready o.onboarding_status ≡ true)
        × (0 < ready_owners id s')
  unfolding Framed
  read-ready s s1 s2 s3 s4 s5 o a role p s' distinct e1 e2 e3 e4 e5 h =
      let test : Bool = not (status_eq o.status pending_setup) in
      let one : s ≡ s1 = cc e1 in
      let two : s1 ≡ s2 =
        sym (throw_if-same test not_pending s1)
        ∙ ap (λ (out : Result AccountError (Unit {0}) × Accounts). out.1) e2 in
      let three : s2 ≡ s3 = cc e3 in
      let four : s3 ≡ s4 =
        sym (throw_if-same (not a) owner_inactive s3)
        ∙ ap (λ (out : Result AccountError (Unit {0}) × Accounts). out.1) e4 in
      let five : s4 ≡ s5 = cc e5 in
      let closed : (not a) ≡ false =
        throw_if-passed (not a) owner_inactive s3
          (ap (λ (out : Result AccountError (Unit {0}) × Accounts). out.0) e4) in
      let pending : test ≡ false =
        throw_if-passed test not_pending s1
          (ap (λ (out : Result AccountError (Unit {0}) × Accounts). out.0) e2) in
      let answered : user_is_active dto.owner_user_id s2 ≡ a = cc e3 in
      let chosen : resolve_membership_role id none (some admin) s4.roles ≡ ok role = cc e5 in
      let found_1 : find (is_organization id) s.organizations ≡ some o = found_ok id o s (cc e1) in
      let before : s ≡ s4 = one ∙ two ∙ three ∙ four in
      let distinct_4 : Distinct (λ (r : Role). r.id) s4.roles =
        subst (λ (t : Accounts). Distinct (λ (r : Role). r.id) t.roles) before distinct in
      let frame : Framed id s s = (refl, refl, (o, found_1, ground (arith, pending))) in
      set_up-ready role s5 p s' (subst (λ (t : Accounts). Framed id t t) (before ∙ five) frame)
        (subst (λ (t : Accounts). user_is_active dto.owner_user_id t ≡ true) (three ∙ four ∙ five)
          (answered ∙ ground (arith, closed)))
        (subst (λ (t : Accounts). find (λ r. r.id == role.id) t.roles ≡ some role) five
          (owner_role-found s4 role distinct_4 chosen))
        (resolve_membership_role-assignable id none (some admin) s4.roles role chosen) h

  body-ready :
      (s : Accounts) (p : Provisioned) (s' : Accounts)
      → Distinct (λ (r : Role). r.id) s.roles
      → provision_body id dto platform attempt now s ≡ (ok p, s')
      → (o : Organization) × (find (is_organization id) s'.organizations ≡ some o)
        × (status_eq o.status pending_setup ≡ true)
        × (is_ready o.onboarding_status ≡ true)
        × (0 < ready_owners id s')
  unfolding provision_body
  body-ready s p s' distinct h =
      let (o, s1, e1, h1) = >>=-inv (required_organization id) state_asked s p s' h in
      let (u, s2, e2, h2) =
        >>=-inv (throw_if (not (status_eq o.status pending_setup)) not_pending) (λ _. owner_asked o)
          s1 p s' h1 in
      let (a, s3, e3, h3) =
        >>=-inv (gets (user_is_active dto.owner_user_id)) (active_asked o) s2 p s' h2 in
      let (u, s4, e4, h4) =
        >>=-inv (throw_if (not a) owner_inactive) (λ _. asked_role o) s3 p s' h3 in
      let (role, s5, e5, h5) =
        >>=-inv (owner_role id dto platform attempt now) (set_up id dto platform attempt now) s4 p
          s' h4 in
      read-ready s s1 s2 s3 s4 s5 o a role p s' distinct e1 e2 e3 e4 e5 h5

-- Where no two roles have one identifier, an organization that was provisioned can be activated: the
-- transition to `ACTIVE` from the tables that the provisioning left succeeds.
pub provision-transition :
    (id : ℕ) (dto : ProvisionOrganizationDto) (platform attempt now : ℕ) (s : Accounts)
    (p : Provisioned) (s' : Accounts)
    → Distinct (λ (r : Role). r.id) s.roles
    → provision id dto platform attempt now s ≡ (ok p, s')
    → (action : AuditAction) (platform' : ℕ)
    → (transition id OrganizationStatus.active action platform' s').0 ≡ ok tt
unfolding provision
provision-transition id dto platform attempt now s p s' distinct h action platform' =
    let body = provision_body id dto platform attempt now in
    let done =
      rethrow-ok (record_failure id dto platform attempt now) (transaction body s) p s' h in
    let (o, found, pending, ready, owned) =
      body-ready id dto platform attempt now s p s' distinct (transaction-ok body s p s' done) in
    let own = find_holds (is_organization id) s'.organizations o found in
    let same_id : o.id ≡ id = (==_iff o.id id).0 own in
    (transition-decided id action platform' s' o found (pending_opens o.status pending)).1
      (ready, subst (λ (k : ℕ). 0 < ready_owners k s') (sym same_id) owned)
