-- ===== src/Accounts/Organizations/Lifecycle.antt =====
-- The life cycle of an organization as a relation, and what each operation does to the table of
-- organizations (src/organizations/organizations.service.ts).
use content_intelligence_bac.Base.{
  ℕ, ◌≡◌, ◌⊎◌, ◌∙◌, refl, arith, Bool, true, ◌||◌, some, List, find, update_where, snoc, find_holds,
  find-snoc, find-snoc-some, find-update_where, rewrite_found, inl, inr, Option-cases, Bool-cases,
}
use content_intelligence_bac.Accounts.Model.{
  OrganizationStatus, pending_setup, active, suspended, archived, Organization, status_eq, is_ready,
}
use content_intelligence_bac.Accounts.Organizations.{is_organization, is_transition}

infix 40 ◌⟶◌ ◌⟶*◌
pub data ◌⟶◌ : OrganizationStatus → OrganizationStatus → Type 0 where
  open_up : pending_setup ⟶ active
  give_up : pending_setup ⟶ archived
  pause : active ⟶ suspended
  go_on : suspended ⟶ active
  close : active ⟶ archived
  retire : suspended ⟶ archived

pub data ◌⟶*◌ : OrganizationStatus → OrganizationStatus → Type 0 where
  here : {a : OrganizationStatus} → a ⟶* a
  next : {a b c : OrganizationStatus} → a ⟶ b → b ⟶* c → a ⟶* c

ruleset edges = (open_up, give_up, pause, go_on, close, retire)

-- The table of the code and the diagram are the same.
pub is_transition-⟶ : (a b : OrganizationStatus) → is_transition a b ≡ true → a ⟶ b
is_transition-⟶ a b h = grind (arith, edges)

pub append : {a b c : OrganizationStatus} → a ⟶* b → b ⟶* c → a ⟶* c
append here q = q
append (next e p) q = next e (append p q)

-- Nothing leaves the archive, and nothing comes back to the set-up.
pub archived_is_final : {a b : OrganizationStatus} → a ⟶* b → a ≡ archived → b ≡ archived
archived_is_final here h = h
archived_is_final (next open_up p) h = absurd (cc)
archived_is_final (next give_up p) h = absurd (cc)
archived_is_final (next pause p) h = absurd (cc)
archived_is_final (next go_on p) h = absurd (cc)
archived_is_final (next close p) h = absurd (cc)
archived_is_final (next retire p) h = absurd (cc)

-- An organization that is past its set-up, and not archived, is provisioned.
abbrev pub is_set_up : Organization → Bool
is_set_up o =
    is_ready o.onboarding_status || status_eq o.status pending_setup || status_eq o.status archived

-- What an operation may do to the table.
pub data Change : List Organization → List Organization → Type 0 where
  same : {os : List Organization} → Change os os
  added :
      {os : List Organization} (o : Organization) → o.status ≡ pending_setup → Change os (snoc os o)
  rewritten :
      {os : List Organization} (id : ℕ) (f : Organization → Organization) (o : Organization)
      → find (is_organization id) os ≡ some o
      → ((x : Organization) → (f x).id ≡ x.id)
      → o.status ⟶* (f o).status
      → (is_set_up o ≡ true → is_set_up (f o) ≡ true)
      → Change os (update_where (is_organization id) f os)
  both : {os os' os'' : List Organization} → Change os os' → Change os' os'' → Change os os''

-- An organization is there for good, and its status follows the diagram.
abbrev pub Evolves : List Organization → List Organization → Type 0
Evolves os os' =
    (id : ℕ) (o : Organization)
    → find (is_organization id) os ≡ some o
    → (o' : Organization) × (find (is_organization id) os' ≡ some o') × (o.status ⟶* o'.status)

abbrev pub IsSetUp : List Organization → Type 0
IsSetUp os =
    (id : ℕ) (o : Organization) → find (is_organization id) os ≡ some o → is_set_up o ≡ true

module _ (os : List Organization) (k : ℕ) (f : Organization → Organization)
    (same_id : (x : Organization) → (f x).id ≡ x.id) where
  found_after :
      (id : ℕ)
      → find (is_organization id) (update_where (is_organization k) f os)
        ≡ rewrite_found (is_organization k) f (find (is_organization id) os)
  found_after id =
      find-update_where (is_organization id) (is_organization k) f (λ x. ground (arith, same_id x))
        os

  -- An organization of the table stays, and is the rewritten one or as it was.
  row_after :
      (x : Organization)
      → find (is_organization k) os ≡ some x
      → (id : ℕ) (o : Organization) → find (is_organization id) os ≡ some o
      → (find (is_organization id) (update_where (is_organization k) f os) ≡ some o)
        ⊎ ((find (is_organization id) (update_where (is_organization k) f os) ≡ some (f x))
            × (x ≡ o))
  row_after x at_k id o found = elim (Bool-cases (is_organization k o)) [
    | inr other ↦ inl (found_after id ∙ rw found (rw other refl))
    | inl hit ↦
        let own = find_holds (is_organization id) os o found in
        let equal : id ≡ k = ground (arith, hit, own) in
        let row : x ≡ o = cc (rw equal at found) in
        inr (found_after id ∙ rw found (rw (hit, row) refl), row)
  ]

pub Change-Evolves : {os os' : List Organization} → Change os os' → Evolves os os'
Change-Evolves same id o found = (o, found, here)
Change-Evolves (added {os} n p) id o found =
    (o, find-snoc-some (is_organization id) os n o found, here)
Change-Evolves (rewritten {os} k f x at_k same_id moves set_up) id o found =
    elim (row_after os k f same_id x at_k id o found) [
      | inl kept ↦ (o, kept, here)
      | inr (moved, row) ↦ (f x, moved, rw (← row) moves)
    ]
Change-Evolves (both p q) id o found =
    let (o', found', moves) = Change-Evolves p id o found in
    let (o'', found'', moves') = Change-Evolves q id o' found' in
    (o'', found'', append moves moves')

added_row :
    (os : List Organization) (n : Organization) (id : ℕ) (o : Organization)
    → find (is_organization id) (snoc os n) ≡ some o
    → (find (is_organization id) os ≡ some o) ⊎ (n ≡ o)
added_row os n id o found = elim (Option-cases (find (is_organization id) os)) [
  | inl fresh ↦ elim (Bool-cases (is_organization id n)) [
    | inl hit ↦ inr (cc (rw hit at (find-snoc (is_organization id) os n fresh)))
    | inr miss ↦ absurd (ground (arith, find-snoc (is_organization id) os n fresh))
  ]
  | inr (x, old) ↦ inl (rw old (cc (find-snoc-some (is_organization id) os n x old)))
]

pub Change-IsSetUp : {os os' : List Organization} → Change os os' → IsSetUp os → IsSetUp os'
Change-IsSetUp same v id o found = v id o found
Change-IsSetUp (added {os} n p) v id o found = elim (added_row os n id o found) [
  | inl old ↦ v id o old
  | inr new ↦ rw (← new) (ground (arith, p))
]
Change-IsSetUp (rewritten {os} k f x at_k same_id moves set_up) v id o found =
    elim (Option-cases (find (is_organization id) os)) [
      | inl missing ↦ absurd (ground (arith, found_after os k f same_id id))
      | inr (y, old) ↦ elim (row_after os k f same_id x at_k id y old) [
        | inl kept ↦ let e : y ≡ o = cc in rw (← e) (v id y old)
        | inr (moved, row) ↦ let e : f x ≡ o = cc in rw (← e) (set_up (v k x at_k))
      ]
    ]
Change-IsSetUp (both p q) v id o found = Change-IsSetUp q (Change-IsSetUp p v) id o found
