-- ===== src/Quota/Platform.antt =====
-- `PlatformQuotaService` (src/quota/platform-quota.service.ts): a platform administrator sets the
-- quotas of a plan and the overrides of an organization. Each write runs in a transaction, and
-- raises the version by which the organizations' caches know that their entitlements changed.
pub mod Laws
use content_intelligence_bac.Base.{
  ℕ, ◌+◌, suc, Bool, true, false, not, ◌&&◌, ◌||◌, Option, none, some, List, String, ltb, ◌==◌,
  if◌then◌else◌, is_some, holds, find, select, any, update_where, snoc, Result, ok, err, Action,
  transaction,
}
use content_intelligence_bac.Quota.Model.{
  QuotaMetric, QuotaResetPeriod, Organization, Plan, Subscription, PlanQuota, QuotaOverride,
  AuditAction, AuditLog, plan_changed, override_changed, override_created, override_removed,
  Directory, Store, metric_eq, is_current,
}
use content_intelligence_bac.Quota.Resolver.{find_override, find_plan_quota}
use content_intelligence_bac.Quota.Tables.{add_audit}

-- A field of a request that may be left out, or be null.
pub data Field (A : Type 0) : Type 0 where
  absent null : Field A
  given : A → Field A

-- What an update leaves of a nullable column: a field that is left out changes nothing.
abbrev pub write_field : {A : Type 0} → Field A → Option A → Option A
write_field absent before = before
write_field null before = none
write_field (given a) before = some a

abbrev pub is_given : Bool → Field Bool → Bool
is_given b absent = false
is_given b null = false
is_given true (given a) = a
is_given false (given a) = not a

pub record PlanQuotaDto : Type 0 where
  pub enabled : Bool
  pub is_unlimited : Bool
  pub soft_limit : Option ℕ
  pub hard_limit : Option ℕ
  pub reset_period : QuotaResetPeriod

pub record OverrideDto : Type 0 where
  pub enabled : Field Bool
  pub is_unlimited : Field Bool
  pub soft_limit : Option ℕ
  pub hard_limit : Option ℕ
  pub reset_period : Field QuotaResetPeriod
  pub reason : Field String

pub data PlatformError : Type 0 where
  soft_above_hard unlimited_with_limits hard_limit_required plan_not_found organization_not_found
        override_not_found constraint_violated :
      PlatformError

-- `limits`: the first rule that the request breaks.
unfoldable pub limits :
    (enabled is_unlimited : Field Bool) → (soft hard : Option ℕ) → Option PlatformError
limits enabled is_unlimited soft hard =
    if holds (λ l. holds (λ h. ltb h l) hard) soft
    then some soft_above_hard
    else if is_given true is_unlimited && (is_some soft || is_some hard)
    then some unlimited_with_limits
    else if is_given true enabled && is_given false is_unlimited && not (is_some hard)
    then some hard_limit_required
    else none

abbrev pub raise_version : Organization → Organization
raise_version o = record o { entitlement_version = o.entitlement_version + 1 }

-- The organizations with a current subscription to a plan.
abbrev pub subscribes : ℕ → List Subscription → Organization → Bool
subscribes plan ss o =
    any (λ s. s.plan_id == plan && is_current s.status && s.organization_id == o.id) ss

abbrev pub audit_row :
    (actor : ℕ) → (entity : ℕ) → Option ℕ → QuotaMetric → AuditAction → Option String → AuditLog
audit_row actor entity organization metric action request = record {
  organization_id = organization;
  actor_id = some actor;
  entity_id = some entity;
  metric = metric;
  action = action;
  request_id = request;
}

abbrev pub is_plan_quota_of : ℕ → QuotaMetric → PlanQuota → Bool
is_plan_quota_of plan metric q = q.plan_id == plan && metric_eq q.metric metric

abbrev pub is_override_of : ℕ → QuotaMetric → QuotaOverride → Bool
is_override_of organization metric o =
    o.organization_id == organization && metric_eq o.metric metric

-- The row of a plan's quota by the request, with its identifier.
abbrev pub plan_quota_of : ℕ → ℕ → QuotaMetric → PlanQuotaDto → PlanQuota
plan_quota_of id plan metric dto = record {
  id = id;
  plan_id = plan;
  metric = metric;
  enabled = dto.enabled;
  is_unlimited = dto.is_unlimited;
  soft_limit = dto.soft_limit;
  hard_limit = dto.hard_limit;
  reset_period = dto.reset_period;
}

abbrev pub override_of : ℕ → ℕ → QuotaMetric → OverrideDto → (actor : ℕ) → QuotaOverride
override_of id organization metric dto actor = record {
  id = id;
  organization_id = organization;
  metric = metric;
  enabled = write_field dto.enabled none;
  is_unlimited = write_field dto.is_unlimited none;
  soft_limit = dto.soft_limit;
  hard_limit = dto.hard_limit;
  reset_period = write_field dto.reset_period none;
  reason = write_field dto.reason none;
  created_by_id = some actor;
}

abbrev pub rewrite_override : OverrideDto → (actor : ℕ) → QuotaOverride → QuotaOverride
rewrite_override dto actor o = record o {
  enabled = write_field dto.enabled o.enabled;
  is_unlimited = write_field dto.is_unlimited o.is_unlimited;
  soft_limit = dto.soft_limit;
  hard_limit = dto.hard_limit;
  reset_period = write_field dto.reset_period o.reset_period;
  reason = write_field dto.reason o.reason;
  created_by_id = some actor;
}

module _ (actor : ℕ) (request : Option String) where
  -- The upsert of a plan's quota.
  pub upsert_plan_quota : (plan : ℕ) → QuotaMetric → PlanQuotaDto → Store → PlanQuota × Store
  upsert_plan_quota plan metric dto s = elim (find_plan_quota s.directory plan metric) [
    | none ↦
        let q = plan_quota_of s.next_id plan metric dto in
        (
          q,
          record s {
            directory = record s.directory { plan_quotas = snoc s.directory.plan_quotas q };
            next_id = suc s.next_id;
          },
        )
    | some q ↦ (
      plan_quota_of q.id plan metric dto,
      record s {
        directory = record s.directory {
          plan_quotas =
              update_where (is_plan_quota_of plan metric) (λ x. plan_quota_of x.id plan metric dto)
                s.directory.plan_quotas;
        };
      },
    )
  ]

  abbrev pub raise_plan : ℕ → Directory → Directory
  raise_plan plan d = record d {
    plans = update_where (λ p. p.id == plan) (λ p. record p { revision = p.revision + 1 }) d.plans;
    organizations = update_where (subscribes plan d.subscriptions) raise_version d.organizations;
  }

  -- `setPlanQuota`
  pub set_plan_quota :
      (plan : ℕ) → QuotaMetric → PlanQuotaDto → Action Store PlatformError PlanQuota
  set_plan_quota plan metric dto s =
      elim (limits (given dto.enabled) (given dto.is_unlimited) dto.soft_limit dto.hard_limit) [
        | some e ↦ (err e, s)
        | none ↦ elim (find (λ p. p.id == plan) s.directory.plans) [
          | none ↦ (err plan_not_found, s)
          | some p ↦
              let before = find_plan_quota s.directory plan metric in
              let (q, s') = upsert_plan_quota plan metric dto s in
              (
                ok q,
                add_audit (audit_row actor q.id none metric (plan_changed plan before q) request)
                    (record s' { directory = raise_plan plan s'.directory }),
              )
        ]
      ]

  -- The upsert of an override, with the row there was.
  unfoldable pub upsert_override :
      (organization : ℕ) → QuotaMetric → OverrideDto → Store → QuotaOverride × Store
  upsert_override organization metric dto s = elim (find_override s.directory organization metric) [
    | none ↦
        let o = override_of s.next_id organization metric dto actor in
        (
          o,
          record s {
            directory = record s.directory { overrides = snoc s.directory.overrides o };
            next_id = suc s.next_id;
          },
        )
    | some o ↦ (
      rewrite_override dto actor o,
      record s {
        directory = record s.directory {
          overrides =
              update_where (is_override_of organization metric) (rewrite_override dto actor)
                s.directory.overrides;
        };
      },
    )
  ]

  abbrev pub raise_organization : ℕ → Directory → Directory
  raise_organization organization d = record d {
    organizations = update_where (λ o. o.id == organization) raise_version d.organizations;
  }

  abbrev pub override_action : Option QuotaOverride → QuotaOverride → AuditAction
  override_action none after = override_created after
  override_action (some before) after = override_changed before after

  -- The constraint `organization_quota_overrides_unlimited_check`: an update that leaves the flag out may
  -- give limits to a row that is unlimited. Limits in the wrong order are refused before.
  abbrev pub is_storable : QuotaOverride → Bool
  is_storable o =
      not (holds (λ b. b) o.is_unlimited && (is_some o.soft_limit || is_some o.hard_limit))

  -- `setOverride`
  unfoldable pub set_override :
      (organization : ℕ) → QuotaMetric → OverrideDto → Action Store PlatformError QuotaOverride
  set_override organization metric dto s =
      elim (limits dto.enabled dto.is_unlimited dto.soft_limit dto.hard_limit) [
        | some e ↦ (err e, s)
        | none ↦ elim (find (λ o. o.id == organization) s.directory.organizations) [
          | none ↦ (err organization_not_found, s)
          | some _ ↦
              let before = find_override s.directory organization metric in
              let (o, s') = upsert_override organization metric dto s in
              if not (is_storable o) then (err constraint_violated, s) else (
                ok o,
                add_audit
                    (audit_row actor o.id (some organization) metric (override_action before o)
                      request)
                    (record s' { directory = raise_organization organization s'.directory }),
              )
        ]
      ]

  -- `removeOverride`
  pub remove_override : (organization : ℕ) → QuotaMetric → Action Store PlatformError (Unit {0})
  remove_override organization metric s = elim (find_override s.directory organization metric) [
    | none ↦ (err override_not_found, s)
    | some o ↦
        let d = record s.directory {
          overrides =
              select (λ x. not (is_override_of organization metric x)) s.directory.overrides;
        } in
        (
          ok tt,
          add_audit (audit_row actor o.id (some organization) metric (override_removed o) request)
              (record s { directory = raise_organization organization d }),
        )
  ]
