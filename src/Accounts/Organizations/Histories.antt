-- ===== src/Accounts/Organizations/Histories.antt =====
-- Histories of organizations (src/organizations/organizations.service.ts): what any sequence of the
-- service's calls, by whom ever and whether or not they throw, makes of the table of organizations.
use content_intelligence_bac.Base.{
  ℕ, ◌≡◌, ◌∙◌, ◌<◌, refl, arith, sym, true, false, some, List, [], ◌∷◌, find, any, update_where,
  find_holds, inl, inr, Result-cases, ◌↔◌, ap, transaction-answer, >>=-ok, >>=-err, Result, ok,
  Action, ◌>>=◌, ◌>>◌, modify,
}
use content_intelligence_bac.Accounts.Model.{
  OrganizationStatus, active, archived, Organization, Accounts, AccountError, AuditAction, is_ready,
  status_eq,
}
use content_intelligence_bac.Accounts.Organizations.{
  is_organization, required_organization, organization_audit, CreateOrganizationDto, create,
  UpdateOrganizationDto, update, transition, is_transition, transition_from, check_target,
  assert_activation_ready, ready_owners, write_organization, set_status,
}
use content_intelligence_bac.Accounts.Organizations.Provisioning.{
  ProvisionOrganizationDto, provision,
}
use content_intelligence_bac.Accounts.Organizations.Lifecycle.{
  Change, same, Evolves, IsSetUp, Change-Evolves, Change-IsSetUp, archived_is_final, append,
}
use content_intelligence_bac.Accounts.Organizations.Keeping.{Changed, create-Keeps, update-Keeps}
use content_intelligence_bac.Accounts.Organizations.Keeping.Setup.{provision-Changed}
use content_intelligence_bac.Accounts.Organizations.Keeping.Moving.{transition-Changed}

-- A call of the service.
pub data Call : Type 0 where
  creates : CreateOrganizationDto → Call
  updates : ℕ → UpdateOrganizationDto → Call
  provisions : ℕ → ProvisionOrganizationDto → (attempt now : ℕ) → Call
  moves : ℕ → (target : OrganizationStatus) → AuditAction → Call

-- The tables after a call, whether or not it threw.
unfoldable pub run : (platform : ℕ) → Call → Accounts → Accounts
run platform (creates dto) s = (create dto platform s).1
run platform (updates id dto) s = (update id dto platform s).1
run platform (provisions id dto attempt now) s = (provision id dto platform attempt now s).1
run platform (moves id target action) s = (transition id target action platform s).1

unfoldable pub run_all : List (ℕ × Call) → Accounts → Accounts
run_all [] s = s
run_all ((platform, c) ∷ cs) s = run_all cs (run platform c s)

run-Change :
    (platform : ℕ) (c : Call) (s : Accounts)
    → Change s.organizations (run platform c s).organizations
unfolding run Changed
run-Change platform (creates dto) s = (create-Keeps s dto platform).kept s same
run-Change platform (updates id dto) s = (update-Keeps s id dto platform).kept s same
run-Change platform (provisions id dto attempt now) s =
    provision-Changed s id dto platform attempt now s same
run-Change platform (moves id target action) s =
    transition-Changed s id target action platform s same

-- After any sequence of calls an organization of the table is still there, and its status has
-- followed the diagram of the life cycle.
pub run_all-Evolves :
    (cs : List (ℕ × Call)) (s : Accounts) → Evolves s.organizations (run_all cs s).organizations
unfolding run_all
run_all-Evolves [] s id o found = Change-Evolves same id o found
run_all-Evolves ((platform, c) ∷ cs) s id o found =
    let (o', found', moved) = Change-Evolves (run-Change platform c s) id o found in
    let (o'', found'', moved') = run_all-Evolves cs (run platform c s) id o' found' in
    (o'', found'', append moved moved')

-- An archived organization stays archived, whatever calls follow.
pub run_all-archived :
    (cs : List (ℕ × Call)) (s : Accounts) (id : ℕ) (o : Organization)
    → find (is_organization id) s.organizations ≡ some o
    → o.status ≡ archived
    → (o' : Organization) × (find (is_organization id) (run_all cs s).organizations ≡ some o')
      × (o'.status ≡ archived)
run_all-archived cs s id o found h =
    let (o', found', moved) = run_all-Evolves cs s id o found in
    (o', found', archived_is_final moved h)

-- If in a table every organization that is active or suspended has an onboarding that is ready, so it
-- is after any sequence of calls.
pub run_all-IsSetUp :
    (cs : List (ℕ × Call)) (s : Accounts)
    → IsSetUp s.organizations
    → IsSetUp (run_all cs s).organizations
unfolding run_all
run_all-IsSetUp [] s v id o found = v id o found
run_all-IsSetUp ((platform, c) ∷ cs) s v id o found =
    run_all-IsSetUp cs (run platform c s) (Change-IsSetUp (run-Change platform c s) v) id o found

any-some :
    (id : ℕ) (os : List Organization) (o : Organization)
    → find (is_organization id) os ≡ some o
    → any (is_organization id) os ≡ true
any-some id [] o found = absurd (ground arith)
any-some id (x ∷ os) o found = ground (arith, any-some id os o)

abbrev answer_of : Result AccountError (Unit {0}) × Accounts → Result AccountError (Unit {0})
answer_of out = out.0

-- What `transition` answers once its row was found.
transition-answer :
    (id : ℕ) (action : AuditAction) (platform : ℕ) (s : Accounts) (o : Organization)
    → find (is_organization id) s.organizations ≡ some o
    → is_transition o.status active ≡ true
    → (transition id active action platform s).0 ≡ assert_activation_ready o s
unfolding transition transition_from check_target
transition-answer id action platform s o found way =
    let away : status_eq o.status active ≡ false = ground (arith, way) in
    let own = find_holds (is_organization id) s.organizations o found in
    let same_id : id ≡ o.id = ground (arith, own) in
    let there : any (is_organization o.id) s.organizations ≡ true =
      any-some o.id s.organizations o (simp (← same_id) found) in
    let rest : Action Accounts AccountError (Unit {0}) = (do
      write_organization o.id (set_status active)
      modify (organization_audit platform o.id action)) in
    let written : (rest s).0 ≡ ok tt = ap answer_of (
      >>=-ok (write_organization o.id (set_status active)) s
        (λ _. modify (organization_audit platform o.id action)) tt
        (record s {
          organizations = update_where (is_organization o.id) (set_status active) s.organizations;
        })
        (rw there refl)) in
    let read : required_organization id s ≡ (ok o, s) = rw found refl in
    transaction-answer (required_organization id >>= transition_from active action platform) s
    ∙ ap answer_of
        (>>=-ok (required_organization id) s (transition_from active action platform) o s read)
    ∙ rw (away, way)
        (elim (Result-cases (assert_activation_ready o s)) [
          | inl (e, refused) ↦
              ap answer_of (>>=-err (check_target active o) s (λ _. rest) e s (rw refused refl))
              ∙ sym refused
          | inr (u, passed) ↦
              ap answer_of (>>=-ok (check_target active o) s (λ _. rest) u s (rw passed refl))
              ∙ written
              ∙ sym passed
        ])

-- The transition to `ACTIVE` of an organization whose status allows it, by its two tests.
pub transition-decided :
    (id : ℕ) (action : AuditAction) (platform : ℕ) (s : Accounts) (o : Organization)
    → find (is_organization id) s.organizations ≡ some o
    → is_transition o.status active ≡ true
    → ((transition id active action platform s).0 ≡ ok tt)
      ↔ ((is_ready o.onboarding_status ≡ true) × (0 < ready_owners o.id s))
unfolding assert_activation_ready
transition-decided id action platform s o found way =
    rw (transition-answer id action platform s o found way) (λ h. ground arith, λ h. ground arith)
