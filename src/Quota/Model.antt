-- ===== src/Quota/Model.antt =====
-- The tables of the quota subsystem and of what it reads (prisma/schema.prisma). Identifiers are
-- only compared, so they are numbers; `next_id` is the one that the database gives to a new row.
-- An instant is a number of milliseconds since the epoch, and an amount or a limit (`bigint`) is a
-- natural number.
use content_intelligence_bac.Base.{
  ℕ, ◌≡◌, ap, refl, Bool, true, false, Option, List, String, ◌↔◌, ◌==◌, arith, ==_iff,
}

pub data QuotaMetric : Type 0 where
  active_users files storage_bytes api_calls workflow_runs webhook_deliveries email_sends
        ai_requests :
      QuotaMetric

pub data QuotaResetPeriod : Type 0 where
  no_reset daily monthly subscription_term : QuotaResetPeriod

pub data OrganizationStatus : Type 0 where
  pending_setup active suspended archived : OrganizationStatus

pub data SubscriptionStatus : Type 0 where
  pending active suspended cancelled expired : SubscriptionStatus

pub data ReservationStatus : Type 0 where
  reserved committed released expired : ReservationStatus

pub data QuotaConfigurationState : Type 0 where
  enforced unlimited disabled unconfigured legacy_compatibility : QuotaConfigurationState
  inactive_organization inactive_subscription : QuotaConfigurationState

pub record Organization : Type 0 where
  pub id : ℕ
  pub status : OrganizationStatus
  pub entitlement_version : ℕ

pub record Plan : Type 0 where
  pub id : ℕ
  pub code : String
  pub revision : ℕ
  pub is_active : Bool

pub record Subscription : Type 0 where
  pub id : ℕ
  pub organization_id : ℕ
  pub plan_id : ℕ
  pub status : SubscriptionStatus
  pub start_at : ℕ
  pub end_at : Option ℕ
  pub grace_period_end_at : Option ℕ

pub record PlanQuota : Type 0 where
  pub id : ℕ
  pub plan_id : ℕ
  pub metric : QuotaMetric
  pub enabled : Bool
  pub is_unlimited : Bool
  pub soft_limit : Option ℕ
  pub hard_limit : Option ℕ
  pub reset_period : QuotaResetPeriod

pub record QuotaOverride : Type 0 where
  pub id : ℕ
  pub organization_id : ℕ
  pub metric : QuotaMetric
  pub enabled : Option Bool
  pub is_unlimited : Option Bool
  pub soft_limit : Option ℕ
  pub hard_limit : Option ℕ
  pub reset_period : Option QuotaResetPeriod
  pub reason : Option String
  pub created_by_id : Option ℕ

-- A membership with its user's `isActive`, and an attachment, as the inventory counts them.
pub record Member : Type 0 where
  pub organization_id : ℕ
  pub is_active_membership : Bool
  pub user_is_active : Bool

pub record FileAttachment : Type 0 where
  pub organization_id : ℕ
  pub deleted_at : Option ℕ
  pub size_bytes : Option ℕ

pub record UsageCounter : Type 0 where
  pub id : ℕ
  pub organization_id : ℕ
  pub metric : QuotaMetric
  pub period_start : ℕ
  pub period_end : Option ℕ
  pub current_value : ℕ
  pub effective_soft_limit : Option ℕ
  pub effective_hard_limit : Option ℕ
  pub reset_period : QuotaResetPeriod
  pub configuration_state : QuotaConfigurationState
  pub version : ℕ

pub record UsageReservation : Type 0 where
  pub id : ℕ
  pub organization_id : ℕ
  pub counter_id : ℕ
  pub metric : QuotaMetric
  pub idempotency_key : String
  pub amount : ℕ
  pub status : ReservationStatus
  pub expires_at : Option ℕ
  pub committed_at : Option ℕ
  pub released_at : Option ℕ

pub record UsageEvent : Type 0 where
  pub organization_id : ℕ
  pub metric : QuotaMetric
  pub idempotency_key : String
  pub amount : ℕ
  pub period_start : ℕ

pub record ThresholdEvent : Type 0 where
  pub organization_id : ℕ
  pub metric : QuotaMetric
  pub period_start : ℕ
  pub threshold : ℕ
  pub usage_value : ℕ
  pub limit_value : ℕ
  pub created_at : ℕ

pub record UsageSnapshot : Type 0 where
  pub organization_id : ℕ
  pub metric : QuotaMetric
  pub period_start : ℕ
  pub period_end : Option ℕ
  pub final_usage : ℕ
  pub soft_limit : Option ℕ
  pub hard_limit : Option ℕ
  pub percentage_basis_pts : Option ℕ
  pub exceeded : Bool
  pub captured_at : ℕ

-- What an audit row says, by its `action`.
pub data AuditAction : Type 0 where
  hard_limit_exceeded : (current requested limit : ℕ) → (period_end : Option ℕ) → AuditAction
  threshold_reached : (threshold usage limit period_start : ℕ) → AuditAction
  period_snapshotted :
      (period_start : ℕ) → (period_end : Option ℕ) → (final_usage : ℕ) → AuditAction
  reconciliation_adjusted baseline_created : (before after period_start : ℕ) → AuditAction
  plan_changed : (plan_id : ℕ) → (before : Option PlanQuota) → (after : PlanQuota) → AuditAction
  override_changed : (before after : QuotaOverride) → AuditAction
  override_created : (after : QuotaOverride) → AuditAction
  override_removed : (before : QuotaOverride) → AuditAction

pub record AuditLog : Type 0 where
  pub organization_id : Option ℕ
  pub actor_id : Option ℕ
  pub entity_id : Option ℕ
  pub metric : QuotaMetric
  pub action : AuditAction
  pub request_id : Option String

-- What the quota code reads of the other subsystems, and the configuration that it writes.
pub record Directory : Type 0 where
  pub organizations : List Organization
  pub plans : List Plan
  pub subscriptions : List Subscription
  pub plan_quotas : List PlanQuota
  pub overrides : List QuotaOverride
  pub members : List Member
  pub files : List FileAttachment

pub record Store : Type 0 where
  pub directory : Directory
  pub counters : List UsageCounter
  pub reservations : List UsageReservation
  pub events : List UsageEvent
  pub threshold_events : List ThresholdEvent
  pub snapshots : List UsageSnapshot
  pub audit_logs : List AuditLog
  pub next_id : ℕ

-- Equality tests of the enumerations.
abbrev pub metric_code : QuotaMetric → ℕ
metric_code active_users = 0
metric_code files = 1
metric_code storage_bytes = 2
metric_code api_calls = 3
metric_code workflow_runs = 4
metric_code webhook_deliveries = 5
metric_code email_sends = 6
metric_code ai_requests = 7

abbrev pub metric_eq : QuotaMetric → QuotaMetric → Bool
metric_eq a b = metric_code a == metric_code b

metric_code-injective : (a b : QuotaMetric) → metric_code a ≡ metric_code b → a ≡ b
metric_code-injective a b h = ground arith

pub metric_eq_iff : (a b : QuotaMetric) → (metric_eq a b ≡ true) ↔ (a ≡ b)
metric_eq_iff a b =
    (λ h. metric_code-injective a b ((==_iff _ _).0 h), λ e. (==_iff _ _).1 (ap metric_code e))

pub metric_eq_refl : (a : QuotaMetric) → metric_eq a a ≡ true
metric_eq_refl a = (metric_eq_iff a a).1 refl

abbrev pub is_reserved : ReservationStatus → Bool
is_reserved reserved = true
is_reserved _ = false

abbrev pub is_committed : ReservationStatus → Bool
is_committed committed = true
is_committed _ = false

abbrev pub is_active_organization : OrganizationStatus → Bool
is_active_organization OrganizationStatus.active = true
is_active_organization _ = false

abbrev pub is_active_subscription : SubscriptionStatus → Bool
is_active_subscription SubscriptionStatus.active = true
is_active_subscription _ = false

-- `status in (PENDING, ACTIVE, SUSPENDED)`
abbrev pub is_current : SubscriptionStatus → Bool
is_current SubscriptionStatus.cancelled = false
is_current SubscriptionStatus.expired = false
is_current _ = true
