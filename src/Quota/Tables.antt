-- ===== src/Quota/Tables.antt =====
-- Queries and writes of the quota tables that several services share: the authoritative inventory,
-- the counter of a period and its reservations (src/quota/quota.service.ts).
pub mod Laws
use content_intelligence_bac.Base.{
  ℕ, ◌+◌, suc, Bool, true, false, not, ◌&&◌, Option, none, some, List, String, leb, ◌==◌,
  if◌then◌else◌, or_else, is_some, holds, find, update_where, count_where, sum_where, snoc, Action,
  ok, err, any, ltb,
}
use text.Mathlib.Text.{◌==◌ as str_eq}
use content_intelligence_bac.Quota.Model.{
  QuotaMetric, active_users, files, storage_bytes, ReservationStatus, UsageCounter,
  UsageReservation, AuditLog, Directory, Store, metric_eq, is_reserved,
}
use content_intelligence_bac.Quota.Resolver.{EffectiveQuota}

-- Why a quota operation fails.
pub data QuotaError : Type 0 where
  amount_not_positive idempotency_key_required amount_mismatch not_inventory record_missing
        constraint_violated :
      QuotaError
  quota_exceeded : QuotaMetric → (current requested limit : ℕ) → (reset_at : Option ℕ) → QuotaError

-- `authoritativeInventory`: null where the metric counts events.
unfoldable pub authoritative_inventory : Directory → ℕ → QuotaMetric → Option ℕ
authoritative_inventory d organization active_users = some (
    count_where
      (λ m. m.organization_id == organization && m.is_active_membership && m.user_is_active)
      d.members)
authoritative_inventory d organization files =
    some
      (count_where (λ f. f.organization_id == organization && not (is_some f.deleted_at)) d.files)
authoritative_inventory d organization storage_bytes = some (
    sum_where (λ f. f.organization_id == organization && not (is_some f.deleted_at))
      (λ f. or_else f.size_bytes 0) d.files)
authoritative_inventory d organization _ = none

-- The unique key of a counter.
abbrev pub is_counter_of : ℕ → QuotaMetric → ℕ → UsageCounter → Bool
is_counter_of organization metric start c =
    c.organization_id == organization && metric_eq c.metric metric && c.period_start == start

abbrev pub new_counter : ℕ → EffectiveQuota → ℕ → UsageCounter
new_counter id q value = record {
  id = id;
  organization_id = q.organization_id;
  metric = q.metric;
  period_start = q.period_start;
  period_end = q.period_end;
  current_value = value;
  effective_soft_limit = q.soft_limit;
  effective_hard_limit = q.hard_limit;
  reset_period = q.reset_period;
  configuration_state = q.state;
  version = 1;
}

-- What the upsert writes to a counter that is there.
abbrev pub configure : EffectiveQuota → UsageCounter → UsageCounter
configure q c = record c {
  period_end = q.period_end;
  effective_soft_limit = q.soft_limit;
  effective_hard_limit = q.hard_limit;
  reset_period = q.reset_period;
  configuration_state = q.state;
}

-- The constraints `usage_counters_limit_order_check` and `usage_counters_period_check`.
abbrev pub in_order : (soft hard : Option ℕ) → Bool
in_order (some soft) (some hard) = leb soft hard
in_order _ _ = true

abbrev pub ends_after : ℕ → Option ℕ → Bool
ends_after start none = true
ends_after start (some end) = ltb start end

-- Whether a counter with the limits and the period of a quota satisfies the constraints.
unfoldable pub passes_checks : EffectiveQuota → Bool
passes_checks q = in_order q.soft_limit q.hard_limit && ends_after q.period_start q.period_end

-- Whether the database takes a new counter, whose organization has to be there.
unfoldable pub can_create : EffectiveQuota → Store → Bool
can_create q s = passes_checks q && any (λ o. o.id == q.organization_id) s.directory.organizations

-- Whether the database takes the upsert of `counter`, which writes the limits and the period also to a
-- counter that is there.
unfoldable pub is_accepted : EffectiveQuota → Store → Bool
is_accepted q s = elim (find (is_counter_of q.organization_id q.metric q.period_start) s.counters) [
  | none ↦ can_create q s
  | some c ↦ passes_checks q
]

-- What the upsert of `counter` writes: a new counter starts at the inventory.
unfoldable pub store_counter : EffectiveQuota → Store → UsageCounter × Store
store_counter q s =
    let fits = is_counter_of q.organization_id q.metric q.period_start in
    elim (find fits s.counters) [
      | none ↦
          let baseline = authoritative_inventory s.directory q.organization_id q.metric in
          let c = new_counter s.next_id q (or_else baseline 0) in
          (c, record s { counters = snoc s.counters c; next_id = suc s.next_id })
      | some c ↦ (configure q c, record s { counters = update_where fits (configure q) s.counters })
    ]

-- `counter`: the upsert of the period's counter, which throws where the database refuses the row.
unfoldable pub upsert_counter : EffectiveQuota → Action Store QuotaError UsageCounter
upsert_counter q s =
    if is_accepted q s
    then (let (c, s') = store_counter q s in (ok c, s'))
    else (err constraint_violated, s)

-- What a run of the upsert computes with: another module names this alone.
unfoldable pub counter_run : Unit {0}
unfolding passes_checks can_create is_accepted store_counter upsert_counter
counter_run = tt

-- Reservations of a counter that are still open, and those of them that are past their time.
abbrev pub is_open : ℕ → UsageReservation → Bool
is_open counter r = r.counter_id == counter && is_reserved r.status

abbrev pub is_overdue : ℕ → UsageReservation → Bool
is_overdue now r = is_reserved r.status && holds (λ t. leb t now) r.expires_at

abbrev pub expire : ℕ → UsageReservation → UsageReservation
expire now r = record r { status = ReservationStatus.expired; released_at = some now }

-- The sum of a counter's open reservations.
abbrev pub held : ℕ → List UsageReservation → ℕ
held counter rs = sum_where (is_open counter) (λ r. r.amount) rs

-- The unique key of a reservation.
abbrev pub is_keyed : ℕ → QuotaMetric → String → UsageReservation → Bool
is_keyed organization metric key r =
    r.organization_id == organization && metric_eq r.metric metric && str_eq r.idempotency_key key

abbrev pub add_audit : AuditLog → Store → Store
add_audit row s = record s { audit_logs = snoc s.audit_logs row }
