-- ===== src/Quota/Resolver.antt =====
-- The effective quota of an organization for a metric at an instant
-- (src/quota/quota-resolver.service.ts).
pub mod Laws
use content_intelligence_bac.Base.{
  ℕ, ◌+◌, ◌*◌, ◌<◌, Bool, true, false, not, ◌&&◌, ◌||◌, Option, none, some, List, [], ◌∷◌, String,
  ltb, leb, ◌==◌, if◌then◌else◌, or_else, or_option, is_some, holds, find, select, any,
}
use content_intelligence_bac.Calendar.{
  ms_per_day, date_utc, get_utc_full_year, get_utc_month, get_utc_date,
}
use content_intelligence_bac.Quota.Model.{
  QuotaMetric, QuotaResetPeriod, no_reset, daily, monthly, subscription_term,
  QuotaConfigurationState, enforced, unlimited, disabled, unconfigured, legacy_compatibility,
  inactive_organization, inactive_subscription, Organization, Plan, Subscription, PlanQuota,
  QuotaOverride, Directory, metric_eq, is_active_organization, is_active_subscription, is_current,
}

pub record EffectiveQuota : Type 0 where
  pub organization_id : ℕ
  pub metric : QuotaMetric
  pub state : QuotaConfigurationState
  pub enabled : Bool
  pub is_unlimited : Bool
  pub soft_limit : Option ℕ
  pub hard_limit : Option ℕ
  pub reset_period : QuotaResetPeriod
  pub period_start : ℕ
  pub period_end : Option ℕ
  pub plan_code : Option String
  pub subscription_id : Option ℕ
  pub entitlement_version : Option ℕ

-- `period`, with the start and the end of the period.
unfoldable pub period : QuotaResetPeriod → ℕ → Option ℕ → Option ℕ → ℕ × Option ℕ
period daily now start end =
    let day = date_utc (get_utc_full_year now) (get_utc_month now) (get_utc_date now) in
    (day, some (day + 86400000))
period monthly now start end = (
  date_utc (get_utc_full_year now) (get_utc_month now) 1,
  some (date_utc (get_utc_full_year now) (get_utc_month now + 1) 1),
)
period subscription_term now (some start) end = (start, end)
period subscription_term now none end = (0, none)
period no_reset now start end = (0, none)

pub compatibility :
    ℕ → QuotaMetric → QuotaConfigurationState → Option ℕ → Option ℕ → Option String → EffectiveQuota
compatibility organization metric state version subscription plan = record {
  organization_id = organization;
  metric = metric;
  state = state;
  enabled = false;
  is_unlimited = true;
  soft_limit = none;
  hard_limit = none;
  reset_period = no_reset;
  period_start = 0;
  period_end = none;
  plan_code = plan;
  subscription_id = subscription;
  entitlement_version = version;
}

-- `startAt desc, id desc`: whether `s` comes before `t`.
pub is_later : Subscription → Subscription → Bool
is_later s t = ltb t.start_at s.start_at || (t.start_at == s.start_at && leb t.id s.id)

pub latest : List Subscription → Option Subscription
unfolding is_later
latest [] = none
latest (s ∷ ss) = elim (latest ss) [ none ↦ some s | some t ↦ some (if is_later s t then s else t) ]

-- The subscription with its plan: the foreign key keeps every subscription's plan in the table.
pub find_subscription : Directory → ℕ → Option (Subscription × Plan)
unfolding latest
find_subscription d organization =
    elim (latest
      (select (λ s. s.organization_id == organization && is_current s.status) d.subscriptions)) [
        | none ↦ none
        | some s ↦ elim (find (λ p. p.id == s.plan_id) d.plans) [
          | none ↦ none
          | some p ↦ some (s, p)
        ]
      ]

unfoldable pub find_override : Directory → ℕ → QuotaMetric → Option QuotaOverride
find_override d organization metric =
    find (λ o. o.organization_id == organization && metric_eq o.metric metric) d.overrides

unfoldable pub find_plan_quota : Directory → ℕ → QuotaMetric → Option PlanQuota
find_plan_quota d plan metric =
    find (λ q. q.plan_id == plan && metric_eq q.metric metric) d.plan_quotas

pub in_term : Subscription → ℕ → Bool
in_term s now =
    is_active_subscription s.status
    && leb s.start_at now
    && (not (is_some s.end_at) || holds (ltb now) s.end_at || holds (ltb now) s.grace_period_end_at)

-- The values that an override leaves null are the plan's.
pub record Settings : Type 0 where
  pub enabled : Bool
  pub is_unlimited : Bool
  pub soft_limit : Option ℕ
  pub hard_limit : Option ℕ
  pub reset_period : QuotaResetPeriod

pub merge : Option QuotaOverride → Option PlanQuota → Settings
merge none none = record {
  enabled = false;
  is_unlimited = false;
  soft_limit = none;
  hard_limit = none;
  reset_period = no_reset;
}
merge none (some b) = record {
  enabled = b.enabled;
  is_unlimited = b.is_unlimited;
  soft_limit = b.soft_limit;
  hard_limit = b.hard_limit;
  reset_period = b.reset_period;
}
merge (some o) none = record {
  enabled = or_else o.enabled false;
  is_unlimited = or_else o.is_unlimited false;
  soft_limit = o.soft_limit;
  hard_limit = o.hard_limit;
  reset_period = or_else o.reset_period no_reset;
}
merge (some o) (some b) = record {
  enabled = or_else o.enabled b.enabled;
  is_unlimited = or_else o.is_unlimited b.is_unlimited;
  soft_limit = or_option o.soft_limit b.soft_limit;
  hard_limit = or_option o.hard_limit b.hard_limit;
  reset_period = or_else o.reset_period b.reset_period;
}

pub state_of : Settings → QuotaConfigurationState
state_of v =
    if not v.enabled
    then disabled
    else if v.is_unlimited
    then unlimited
    else if is_some v.hard_limit
    then enforced
    else unconfigured

abbrev pub is_enforced : QuotaConfigurationState → Bool
is_enforced enforced = true
is_enforced _ = false

abbrev pub is_unlimited_state : QuotaConfigurationState → Bool
is_unlimited_state unlimited = true
is_unlimited_state _ = false

pub configured :
    ℕ → QuotaMetric → ℕ → Organization → Subscription → Plan → Settings → EffectiveQuota
unfolding state_of
configured organization metric now org s plan v =
    let (start, end) = period v.reset_period now (some s.start_at) s.end_at in
    record {
      organization_id = organization;
      metric = metric;
      state = state_of v;
      enabled = is_enforced (state_of v) || is_unlimited_state (state_of v);
      is_unlimited = is_unlimited_state (state_of v);
      soft_limit = v.soft_limit;
      hard_limit = v.hard_limit;
      reset_period = v.reset_period;
      period_start = start;
      period_end = end;
      plan_code = some plan.code;
      subscription_id = some s.id;
      entitlement_version = some org.entitlement_version;
    }

-- The part of `resolveWithDb` after the subscription and its plan were found.
pub resolve_subscribed :
    Directory → ℕ → QuotaMetric → ℕ → Organization → Subscription → Plan → EffectiveQuota
resolve_subscribed d organization metric now org s plan =
    let override = find_override d organization metric in
    let baseline = find_plan_quota d plan.id metric in
    let inactive = λ (state : QuotaConfigurationState).
      compatibility organization metric state (some org.entitlement_version) (some s.id)
        (some plan.code) in
    if not (in_term s now) || not plan.is_active
    then inactive inactive_subscription
    else if not (is_some baseline) && not (is_some override)
    then inactive unconfigured
    else configured organization metric now org s plan (merge override baseline)

-- The part after the organization was found active.
pub resolve_active : Directory → ℕ → QuotaMetric → ℕ → Organization → EffectiveQuota
resolve_active d organization metric now org = elim (find_subscription d organization) [
  | none ↦
      compatibility organization metric
        (if any (λ s. s.organization_id == organization) d.subscriptions
          then inactive_subscription
          else legacy_compatibility)
        (some org.entitlement_version) none none
  | some (s, plan) ↦ resolve_subscribed d organization metric now org s plan
]

-- `resolve`
unfoldable pub resolve : Directory → ℕ → QuotaMetric → ℕ → EffectiveQuota
resolve d organization metric now = elim (find (λ o. o.id == organization) d.organizations) [
  | none ↦ compatibility organization metric inactive_organization none none none
  | some org ↦
      if is_active_organization org.status
      then resolve_active d organization metric now org
      else compatibility organization metric inactive_organization (some org.entitlement_version)
          none none
]

-- What a run of `resolve` computes with: a test names this alone.
unfoldable pub resolver_run : Unit {0}
unfolding resolve resolve_active resolve_subscribed find_subscription latest is_later find_override
    find_plan_quota in_term merge configured state_of compatibility
resolver_run = tt
