-- ===== src/Quota/Platform/Laws.antt =====
-- Theorems on the writes of a platform administrator (src/quota/platform-quota.service.ts).
use content_intelligence_bac.Base.{
  ℕ, ◌≤◌, ◌≡◌, ◌⊎◌, refl, arith, ap, ◌∙◌, Bool, true, false, not, Option, none, some, List, [], ◌∷◌,
  String, ◌==◌, if◌then◌else◌, is_some, find, select, update_where, find-snoc, find_holds,
  find-update_where, inl, inr, Bool-cases, Option-cases, ==_refl, Result, ok, err,
}
use content_intelligence_bac.Quota.Model.{
  QuotaMetric, metric_code, Organization, QuotaOverride, Store,
}
use content_intelligence_bac.Quota.Tables.{add_audit}
use content_intelligence_bac.Quota.Resolver.{find_override}
use content_intelligence_bac.Quota.Platform.{
  PlatformError, audit_row, raise_organization, override_action, is_storable, Field, is_given,
  OverrideDto, override_not_found, limits, raise_version, is_override_of, rewrite_override,
  upsert_override, set_override, remove_override,
}

-- The rules that a stored quota obeys: the soft limit is at most the hard one, an unlimited quota has
-- no limit, and an enabled finite one has a hard limit.
pub record IsConsistent (enabled is_unlimited : Field Bool) (soft hard : Option ℕ) : Type 0 where
  pub ordered : (l h : ℕ) → soft ≡ some l → hard ≡ some h → l ≤ h
  pub unbounded : is_given true is_unlimited ≡ true → (soft ≡ none) × (hard ≡ none)
  pub bounded :
      is_given true enabled ≡ true → is_given false is_unlimited ≡ true → is_some hard ≡ true

limits-IsConsistent :
    (enabled is_unlimited : Field Bool) (soft hard : Option ℕ)
    → limits enabled is_unlimited soft hard ≡ none
    → IsConsistent enabled is_unlimited soft hard
unfolding limits
limits-IsConsistent enabled is_unlimited none none h = record {
  ordered = λ l k soft_is hard_is. absurd (cc soft_is);
  unbounded = λ u. (refl, refl);
  bounded = λ e f. absurd (ground (arith, h, e, f));
}
limits-IsConsistent enabled is_unlimited none (some y) h = record {
  ordered = λ l k soft_is hard_is. absurd (cc soft_is);
  unbounded = λ u. absurd (ground (arith, h, u));
  bounded = λ e f. refl;
}
limits-IsConsistent enabled is_unlimited (some x) none h = record {
  ordered = λ l k soft_is hard_is. absurd (cc hard_is);
  unbounded = λ u. absurd (ground (arith, h, u));
  bounded = λ e f. absurd (ground (arith, h, e, f));
}
limits-IsConsistent enabled is_unlimited (some x) (some y) h = record {
  ordered = λ l k soft_is hard_is.
      (let e₁ : x ≡ l = cc soft_is in
        let e₂ : y ≡ k = cc hard_is in let le : x ≤ y = ground (arith, h) in rw (← e₁, ← e₂) le);
  unbounded = λ u. absurd (ground (arith, h, u));
  bounded = λ e f. refl;
}

module _ (actor : ℕ) (request : Option String) (organization : ℕ) (metric : QuotaMetric)
    (dto : OverrideDto) (s : Store) where
  upsert_override_lem :
      let (o, s') = upsert_override actor request organization metric dto s in
      (find_override s'.directory organization metric ≡ some o)
      × (o.soft_limit ≡ dto.soft_limit)
      × (o.hard_limit ≡ dto.hard_limit)
      × (s'.directory.organizations ≡ s.directory.organizations)
  unfolding upsert_override find_override
  upsert_override_lem = elim (Option-cases (find_override s.directory organization metric)) [
    | inl missing ↦
        rw (missing, upsert_override)
          (
            find-snoc (is_override_of organization metric) s.directory.overrides _ missing
                ∙ rw (==_refl organization, ==_refl (metric_code metric)) refl,
            refl,
            refl,
            refl,
          )
    | inr (o, found) ↦
        rw (found, upsert_override)
          (
            find-update_where (is_override_of organization metric)
                  (is_override_of organization metric) (rewrite_override dto actor) (λ x. refl)
                  s.directory.overrides
                ∙ rw found (
                    rw (
                      find_holds (is_override_of organization metric) s.directory.overrides o
                        found)),
            refl,
            refl,
            refl,
          )
  ]

  -- What a successful write of an override leaves: consistent limits, which the row found for the
  -- organization and the metric has, and the organization's version raised by one, no other's.
  pub record IsOverridden (item : QuotaOverride) (s' : Store) : Type 0 where
    pub owner : Organization
    pub consistent : IsConsistent dto.enabled dto.is_unlimited dto.soft_limit dto.hard_limit
    pub found : find_override s'.directory organization metric ≡ some item
    pub soft : item.soft_limit ≡ dto.soft_limit
    pub hard : item.hard_limit ≡ dto.hard_limit
    pub known : find (λ o. o.id == organization) s.directory.organizations ≡ some owner
    pub raised :
        find (λ o. o.id == organization) s'.directory.organizations ≡ some (raise_version owner)
    pub others :
        (id : ℕ) (o : Organization)
        → (o.id == organization) ≡ false
        → find (λ x. x.id == id) s.directory.organizations ≡ some o
        → find (λ x. x.id == id) s'.directory.organizations ≡ some o

  organization-raised :
      (id : ℕ) (o : Organization) (os : List Organization)
      → find (λ x. x.id == id) os ≡ some o
      → find (λ x. x.id == id) (update_where (λ x. x.id == organization) raise_version os)
        ≡ some (if o.id == organization then raise_version o else o)
  organization-raised id o os found =
      find-update_where (λ x. x.id == id) (λ x. x.id == organization) raise_version (λ x. refl) os
      ∙ rw found refl

  -- The answer once the row was written.
  abbrev written : Result PlatformError QuotaOverride × Store
  written =
      let before = find_override s.directory organization metric in
      let (o, s₁) = upsert_override actor request organization metric dto s in
      (
        ok o,
        add_audit
            (audit_row actor o.id (some organization) metric
              (override_action actor request before o) request)
            (record s₁ { directory = raise_organization actor request organization s₁.directory }),
      )

  -- The write of an override whose row the database takes.
  overridden :
      limits dto.enabled dto.is_unlimited dto.soft_limit dto.hard_limit ≡ none
      → (owner : Organization)
      → find (λ o. o.id == organization) s.directory.organizations ≡ some owner
      → (item : QuotaOverride) (s' : Store) → written ≡ (ok item, s')
      → IsOverridden item s'
  unfolding find_override
  overridden fine owner known item s' f =
      let (there, soft, hard, same) = upsert_override_lem in
      let (o, s₁) = upsert_override actor request organization metric dto s in
      let row : o ≡ item = cc f in
      let overrides : s₁.directory.overrides ≡ s'.directory.overrides =
        ap (λ x. x.1.directory.overrides) f in
      let organizations : update_where (λ x. x.id == organization) raise_version
            s.directory.organizations
          ≡ s'.directory.organizations =
        (rw same refl) ∙ ap (λ x. x.1.directory.organizations) f in
      let search = λ (x : Organization). x.id == organization in
      record {
        owner = owner;
        consistent =
            limits-IsConsistent dto.enabled dto.is_unlimited dto.soft_limit dto.hard_limit fine;
        found = (rw (← overrides, ← row) there);
        soft = rw (← row) soft;
        hard = rw (← row) hard;
        known = known;
        raised = rw (← organizations) (
            organization-raised organization owner s.directory.organizations known
            ∙ rw (find_holds search s.directory.organizations owner known) refl);
        others = λ id x apart found.
            rw (← organizations)
              (organization-raised id x s.directory.organizations found ∙ rw apart refl);
      }

  -- A write of an override that succeeds has consistent limits, leaves the row that it answers with and
  -- raises the version of that organization and of no other.
  pub set_override-IsOverridden :
      (item : QuotaOverride) (s' : Store)
      → set_override actor request organization metric dto s ≡ (ok item, s')
      → IsOverridden item s'
  unfolding set_override find_override
  set_override-IsOverridden item s' h =
      elim (Option-cases (limits dto.enabled dto.is_unlimited dto.soft_limit dto.hard_limit)) [
        | inr (e, broken) ↦ absurd (cc (rw (broken, set_override) at h))
        | inl fine ↦
            elim (Option-cases (find (λ o. o.id == organization) s.directory.organizations)) [
              | inl missing ↦ absurd (cc (rw missing at rw (fine, set_override) at h))
              | inr (owner, known) ↦
                  let f = rw known at rw (fine, set_override) at h in
                  let (o, s₁) = upsert_override actor request organization metric dto s in
                  elim (Bool-cases (is_storable actor request o)) [
                    | inr broken ↦ absurd (cc (rw broken at f))
                    | inl storable ↦ overridden fine owner known item s' (rw storable at f)
                  ]
            ]
      ]

module _ {ℓ} {A : Type ℓ} where
  find-select-not : (p : A → Bool) (xs : List A) → find p (select (λ x. not (p x)) xs) ≡ none
  find-select-not p [] = refl
  find-select-not p (x ∷ xs) = elim (Bool-cases (p x)) [
    | inl fits ↦ rw fits (find-select-not p xs)
    | inr fails ↦ rw fails (rw fails (find-select-not p xs))
  ]

-- Removing an override either finds none and writes nothing, or leaves none behind, with the version of
-- the organization raised by one where the organization is in the table.
pub remove_override_lem :
    (actor : ℕ) (request : Option String) (organization : ℕ) (metric : QuotaMetric) (s : Store)
    → let (out, s') = remove_override actor request organization metric s in
      ((out ≡ err override_not_found)
        × (find_override s.directory organization metric ≡ none)
        × (s' ≡ s))
      ⊎ ((out ≡ ok tt)
          × (find_override s'.directory organization metric ≡ none)
          × ((owner : Organization)
              → find (λ o. o.id == organization) s.directory.organizations ≡ some owner
              → find (λ o. o.id == organization) s'.directory.organizations
                ≡ some (raise_version owner)))
unfolding remove_override find_override
remove_override_lem actor request organization metric s =
    elim (Option-cases (find_override s.directory organization metric)) [
      | inl missing ↦ rw (missing, remove_override) (inl (refl, refl, refl))
      | inr (o, found) ↦
          rw (found, remove_override)
            (inr (
              refl,
              find-select-not (is_override_of organization metric) s.directory.overrides,
              λ owner known.
                  find-update_where (λ x. x.id == organization) (λ x. x.id == organization)
                    raise_version (λ x. refl) s.directory.organizations
                  ∙ rw known (
                      rw
                        (find_holds (λ x. x.id == organization) s.directory.organizations owner
                          known)
                        refl),
            ))
    ]
