-- ===== src/Quota/Inventory/Laws.antt =====
-- Theorems on the summary, the synchronization and the reconciliation of counters
-- (src/quota/quota.service.ts, src/quota/usage-reconciliation.service.ts).
use content_intelligence_bac.Base.{
  ℕ, ◌*◌, ◌/◌, ◌≤◌, ◌≡◌, ◌≢◌, ◌⊎◌, refl, arith, sym, ◌∙◌, Bool, true, false, none, some, List, [],
  ◌∷◌, leb, ◌==◌, if◌then◌else◌, ==_refl, find, find-snoc, find_holds, find-update_where, inl, inr,
  Option-cases, Bool-cases, ok, err, ◌>>=◌, pure, >>=-keeps, transaction,
}
use native.Mathlib.Nat.{le-div_iff_mul-le}
use content_intelligence_bac.Quota.Model.{QuotaMetric, metric_code, UsageCounter, Store}
use content_intelligence_bac.Quota.Resolver.{EffectiveQuota, resolve}
use content_intelligence_bac.Quota.Tables.{
  constraint_violated, authoritative_inventory, is_counter_of, can_create,
}
use content_intelligence_bac.Quota.Inventory.{
  basis_of, threshold_of, set_value, is_settable, store_value, upsert_value, synchronize_inventory,
  reconcile_one, reconcile_all, reconcile,
}

-- Whether a usage has reached a share of a limit in percent, as the threshold events test it.
abbrev pub has_reached : (limit threshold current : ℕ) → Bool
has_reached limit threshold current = leb (limit * threshold) (current * 100)

leb_div : (a b c : ℕ) → (b == 0) ≡ false → leb c (a / b) ≡ leb (c * b) a
leb_div a b c positive =
    let law = le-div_iff_mul-le {k = b} {x = c} {y = a} (ground (arith, positive)) in
    elim (Bool-cases (leb c (a / b))) [
      | inl yes_le ↦ yes_le ∙ sym (leb_of_le (law.0 (le_of_leb yes_le)))
      | inr above ↦ elim (Bool-cases (leb (c * b) a)) [
        | inr also ↦ above ∙ sym also
        | inl below ↦ absurd (cc (above, leb_of_le (law.1 (le_of_leb below))))
      ]
    ]
  where
    leb_of_le : {m n : ℕ} → m ≤ n → leb m n ≡ true
    leb_of_le h = ground (arith, h)

    le_of_leb : {m n : ℕ} → leb m n ≡ true → m ≤ n
    le_of_leb h = ground (arith, h)

-- With a positive limit the threshold that the summary shows, though computed from a truncated
-- share, is 90 or 80 exactly when the test of the threshold events says that it is reached.
pub threshold-has_reached :
    (limit current : ℕ)
    → (limit == 0) ≡ false
    → threshold_of (basis_of (some limit) current) ≡ (
        if has_reached limit 90 current
        then some 90
        else if has_reached limit 80 current
        then some 80
        else none)
unfolding threshold_of basis_of
threshold-has_reached limit current positive =
    let at_90 : leb 9000 (current * 10000 / limit) ≡ has_reached limit 90 current =
      leb_div (current * 10000) limit 9000 positive ∙ ground arith in
    let at_80 : leb 8000 (current * 10000 / limit) ≡ has_reached limit 80 current =
      leb_div (current * 10000) limit 8000 positive ∙ ground arith in
    rw positive (rw (at_90, at_80) refl)

module _ (q : EffectiveQuota) (value : ℕ) (s : Store) where
  abbrev fits : UsageCounter → Bool
  fits = is_counter_of q.organization_id q.metric q.period_start

  -- The counter after the upsert, and every counter of another key as before.
  pub store_value_lem :
      let (c, s') = store_value q value s in
      (find fits s'.counters ≡ some c) × (c.current_value ≡ value) × (s'.directory ≡ s.directory)
  unfolding store_value
  store_value_lem = elim (Option-cases (find fits s.counters)) [
    | inl missing ↦
        rw (missing, store_value)
          (
            find-snoc fits s.counters _ missing
                ∙ rw
                    (
                      ==_refl q.organization_id,
                      ==_refl (metric_code q.metric),
                      ==_refl q.period_start,
                    )
                    refl,
            refl,
            refl,
          )
    | inr (c, found) ↦
        rw (found, store_value)
          (
            find-update_where fits fits (set_value value) (λ x. refl) s.counters
                ∙ rw found (rw (find_holds fits s.counters c found)),
            refl,
            refl,
          )
  ]

  unsettable : is_settable q s ≡ false → (find fits s.counters ≡ none) × (can_create q s ≡ false)
  unfolding is_settable
  unsettable h = elim (Option-cases (find fits s.counters)) [
    | inl missing ↦ (missing, rw missing at h)
    | inr (c, found) ↦ absurd (cc (rw found at h))
  ]

  -- The upsert of a value goes through, or the row is missing and the database refuses a new one.
  pub upsert_value-cases :
      ((is_settable q s ≡ false)
        × (find fits s.counters ≡ none)
        × (can_create q s ≡ false)
        × (transaction (upsert_value q value) s ≡ (err constraint_violated, s)))
      ⊎ ((is_settable q s ≡ true)
          × (transaction (upsert_value q value) s
              ≡ (ok (store_value q value s).0, (store_value q value s).1)))
  unfolding upsert_value
  upsert_value-cases = elim (Bool-cases (is_settable q s)) [
    | inl taken ↦ inr (taken, rw taken refl)
    | inr not_taken ↦
        let (missing, refused) = unsettable not_taken in
        inl (not_taken, missing, refused, rw not_taken refl)
  ]

-- Where the database takes the upsert, it is not refused.
pub taken_answers :
    (organization : ℕ) (metric : QuotaMetric) (now : ℕ) (s : Store)
    → is_settable (resolve s.directory organization metric now) s ≡ true
    → (synchronize_inventory organization metric now s).0 ≢ err constraint_violated
unfolding synchronize_inventory
taken_answers organization metric now s taken e =
    elim (Option-cases (authoritative_inventory s.directory organization metric)) [
      | inl event ↦ cc (rw (event, synchronize_inventory) at e)
      | inr (value, counted) ↦
          elim (upsert_value-cases (resolve s.directory organization metric now) value s) [
            | inl (not_taken, _, _, _) ↦ cc (taken, not_taken)
            | inr (_, wrote) ↦ cc (rw wrote at rw (counted, synchronize_inventory) at e)
          ]
    ]

-- A synchronization leaves what the quota code reads of other tables alone.
pub synchronize_inventory-directory :
    (organization : ℕ) (metric : QuotaMetric) (now : ℕ) (s : Store)
    → (synchronize_inventory organization metric now s).1.directory ≡ s.directory
unfolding synchronize_inventory
synchronize_inventory-directory organization metric now s =
    elim (Option-cases (authoritative_inventory s.directory organization metric)) [
      | inl event ↦ rw (event, synchronize_inventory) refl
      | inr (value, counted) ↦
          let q = resolve s.directory organization metric now in
          let (found, set, same) = store_value_lem q value s in
          elim (upsert_value-cases q value s) [
            | inl (_, missing, not_taken, refused) ↦
                rw (counted, synchronize_inventory) (rw refused refl)
            | inr (_, wrote) ↦ rw (counted, synchronize_inventory) (rw wrote same)
          ]
    ]

module _ (organization now : ℕ) (s : Store) where
  dry_one :
      (metric : QuotaMetric) (s' : Store)
      → s' ≡ s
      → (reconcile_one organization false now metric s').1 ≡ s
  unfolding reconcile_one
  dry_one metric s' same =
      elim (Option-cases (authoritative_inventory s'.directory organization metric)) [
        | inl event ↦ rw (event, reconcile_one) same
        | inr (value, counted) ↦ rw (counted, reconcile_one) same
      ]

  dry_all :
      (metrics : List QuotaMetric) (s' : Store)
      → s' ≡ s
      → (reconcile_all organization false now metrics s').1 ≡ s
  unfolding reconcile_all
  dry_all [] s' same = same
  dry_all (metric ∷ metrics) s' same =
      >>=-keeps (λ x. x ≡ s) (reconcile_one organization false now metric)
        (λ result.
          reconcile_all organization false now metrics >>= λ results. pure (result ∷ results))
        s' (dry_one metric s' same)
        (λ result s₁ k.
          >>=-keeps (λ x. x ≡ s) (reconcile_all organization false now metrics)
            (λ results. pure (result ∷ results)) s₁ (dry_all metrics s₁ k) (λ results s₂ k₂. k₂))

  -- A reconciliation without `apply` writes nothing.
  pub reconcile-dry_run : (reconcile organization false now s).1 ≡ s
  unfolding reconcile
  reconcile-dry_run = dry_all _ s refl
