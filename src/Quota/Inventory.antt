-- ===== src/Quota/Inventory.antt =====
-- What a tenant is shown of its quotas, and the counters that are set to the inventory
-- (src/quota/quota.service.ts, src/quota/usage-reconciliation.service.ts).
pub mod Laws
use content_intelligence_bac.Base.{
  ℕ, ◌+◌, ◌-◌, ◌*◌, ◌/◌, suc, Bool, true, false, not, ◌&&◌, ◌||◌, Option, none, some, List, [], ◌∷◌,
  leb, ◌==◌, if◌then◌else◌, or_else, find, update_where, snoc, Result, ok, err, Action, ◌>>=◌, ◌>>◌,
  pure, is_some, modify, transaction,
}
use content_intelligence_bac.Quota.Model.{
  QuotaMetric, active_users, files, storage_bytes, api_calls, workflow_runs, webhook_deliveries,
  email_sends, ai_requests, QuotaResetPeriod, QuotaConfigurationState, UsageCounter, AuditAction,
  AuditLog, reconciliation_adjusted, baseline_created, Store,
}
use content_intelligence_bac.Quota.Resolver.{EffectiveQuota, resolve}
use content_intelligence_bac.Quota.Tables.{
  QuotaError, not_inventory, constraint_violated, can_create, authoritative_inventory,
  is_counter_of, new_counter, add_audit,
}

pub record MetricSummary : Type 0 where
  pub metric : QuotaMetric
  pub state : QuotaConfigurationState
  pub current : ℕ
  pub soft_limit : Option ℕ
  pub hard_limit : Option ℕ
  pub reset_period : QuotaResetPeriod
  pub reset_at : Option ℕ
  pub threshold : Option ℕ

-- The share of the limit in hundredths of a percent, with no positive limit none.
pub basis_of : Option ℕ → ℕ → Option ℕ
basis_of none current = none
basis_of (some limit) current = if limit == 0 then none else some (current * 10000 / limit)

pub threshold_of : Option ℕ → Option ℕ
threshold_of none = none
threshold_of (some basis) =
    if leb 9000 basis then some 90 else if leb 8000 basis then some 80 else none

-- The number that is shown: the counter's, or where there is none the inventory's.
pub current_of : (organization : ℕ) → QuotaMetric → EffectiveQuota → Store → ℕ
current_of organization metric q s =
    elim (find (is_counter_of organization metric q.period_start) s.counters) [
      | some c ↦ c.current_value
      | none ↦ or_else (authoritative_inventory s.directory organization metric) 0
    ]

pub summary_of : (organization now : ℕ) → Store → QuotaMetric → MetricSummary
summary_of organization now s metric =
    let q = resolve s.directory organization metric now in
    let current = current_of organization metric q s in
    record {
      metric = metric;
      state = q.state;
      current = current;
      soft_limit = q.soft_limit;
      hard_limit = q.hard_limit;
      reset_period = q.reset_period;
      reset_at = q.period_end;
      threshold = threshold_of (basis_of q.hard_limit current);
    }

abbrev pub all_metrics : List QuotaMetric
all_metrics =
    active_users ∷ files ∷ storage_bytes ∷ api_calls ∷ workflow_runs ∷ webhook_deliveries
    ∷ email_sends ∷ ai_requests ∷ []

pub summaries : (organization now : ℕ) → Store → List QuotaMetric → List MetricSummary
summaries organization now s [] = []
summaries organization now s (metric ∷ metrics) =
    summary_of organization now s metric ∷ summaries organization now s metrics

-- `summaryForTenant`, for the context's organization.
pub summary_for_tenant : (organization now : ℕ) → Store → List MetricSummary
summary_for_tenant organization now s = summaries organization now s all_metrics

-- What the upsert writes to a counter that is there.
abbrev pub set_value : ℕ → UsageCounter → UsageCounter
set_value value c = record c { current_value = value; version = c.version + 1 }

-- Whether the database takes this upsert: it writes no limits and no period to a counter that is there,
-- which keeps the constraints that the counter satisfies.
pub is_settable : EffectiveQuota → Store → Bool
is_settable q s =
    is_some (find (is_counter_of q.organization_id q.metric q.period_start) s.counters)
    || can_create q s

-- What the upsert writes.
pub store_value : EffectiveQuota → ℕ → Store → UsageCounter × Store
store_value q value s =
    let fits = is_counter_of q.organization_id q.metric q.period_start in
    elim (find fits s.counters) [
      | none ↦
          let c = new_counter s.next_id q value in
          (c, record s { counters = snoc s.counters c; next_id = suc s.next_id })
      | some c ↦ (
        set_value value c,
        record s { counters = update_where fits (set_value value) s.counters },
      )
    ]

-- The upsert that sets a counter to a value; it throws where the database refuses the row.
pub upsert_value : EffectiveQuota → ℕ → Action Store QuotaError UsageCounter
upsert_value q value s =
    if is_settable q s
    then (let (c, s') = store_value q value s in (ok c, s'))
    else (err constraint_violated, s)

-- What a run of the upsert computes with: another module names this alone.
unfoldable pub inventory_run : Unit {0}
unfolding is_settable store_value upsert_value
inventory_run = tt

-- `synchronizeInventory`
pub synchronize_inventory :
    (organization : ℕ) → QuotaMetric → (now : ℕ) → Action Store QuotaError UsageCounter
synchronize_inventory organization metric now s =
    elim (authoritative_inventory s.directory organization metric) [
      | none ↦ (err not_inventory, s)
      | some value ↦
          transaction (upsert_value (resolve s.directory organization metric now) value) s
    ]

-- A difference of two amounts.
pub data ℤ : Type 0 where
  pos negsuc : ℕ → ℤ

infixl 30 ◌-ℕ◌
abbrev pub ◌-ℕ◌ : ℕ → ℕ → ℤ
m -ℕ n = if leb n m then pos (m - n) else negsuc (n - m - 1)

pub record Reconciliation : Type 0 where
  pub metric : QuotaMetric
  pub stored : ℕ
  pub authoritative : ℕ
  pub delta : ℤ
  pub changed : Bool

abbrev pub stored_of : Option UsageCounter → ℕ
stored_of none = 0
stored_of (some c) = c.current_value

abbrev pub differs : Option UsageCounter → ℕ → Bool
differs none value = true
differs (some c) value = not (c.current_value == value)

-- The transaction of the reconciliation: the upsert, and its audit row.
pub adjust : EffectiveQuota → Option UsageCounter → (value : ℕ) → Action Store QuotaError (Unit {0})
adjust q current value =
    let action : AuditAction = elim current [
      | none ↦ baseline_created 0 value q.period_start
      | some before ↦ reconciliation_adjusted before.current_value value q.period_start
    ] in
    transaction (do
      c ← upsert_value q value
      modify (
          add_audit (record {
            organization_id = some q.organization_id;
            actor_id = none;
            entity_id = some c.id;
            metric = q.metric;
            action = action;
            request_id = none;
          })))

-- One round of the loop of `reconcile`.
pub reconcile_one :
    (organization : ℕ) → Bool → (now : ℕ) → QuotaMetric → Action Store QuotaError Reconciliation
reconcile_one organization apply now metric s =
    elim (authoritative_inventory s.directory organization metric) [
      | none ↦ (err not_inventory, s)
      | some value ↦
          let q = resolve s.directory organization metric now in
          let current = find (is_counter_of organization metric q.period_start) s.counters in
          ((if apply && differs current value then adjust q current value else pure tt) >>= λ _.
          pure (record {
            metric = metric;
            stored = stored_of current;
            authoritative = value;
            delta = value -ℕ stored_of current;
            changed = differs current value;
          }))
            s
    ]

pub reconcile_all :
    (organization : ℕ)
    → Bool
    → (now : ℕ) → List QuotaMetric
    → Action Store QuotaError (List Reconciliation)
reconcile_all organization apply now [] = pure []
reconcile_all organization apply now (metric ∷ metrics) = do
  result ← reconcile_one organization apply now metric
  results ← reconcile_all organization apply now metrics
  pure (result ∷ results)

-- `reconcile`, over INVENTORY_METRICS.
pub reconcile :
    (organization : ℕ) → Bool → (now : ℕ) → Action Store QuotaError (List Reconciliation)
reconcile organization apply now =
    reconcile_all organization apply now (active_users ∷ files ∷ storage_bytes ∷ [])
