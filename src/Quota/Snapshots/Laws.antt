-- ===== src/Quota/Snapshots/Laws.antt =====
-- Theorems on the hourly job (src/quota/quota-scheduler.service.ts).
use content_intelligence_bac.Base.{ℕ, ◌+◌, ◌≤◌, ◌≡◌, Bool, ◌&&◌, ◌==◌, length, count_where}
use content_intelligence_bac.Quota.Model.{UsageCounter, Store, metric_eq}
use content_intelligence_bac.Quota.Snapshots.{is_snapshot_of}

-- The snapshots of a counter's period.
abbrev pub captured : UsageCounter → Store → ℕ
captured c s = count_where (is_snapshot_of c) s.snapshots

-- Two counters of one period are looked up alike.
abbrev same_period : UsageCounter → UsageCounter → Bool
same_period c d =
    c.organization_id == d.organization_id
    && metric_eq c.metric d.metric
    && c.period_start == d.period_start

-- The table of the snapshots grows by the number that is answered, and no key is there twice.
pub record IsCaptured (now : ℕ) (s : Store) (out : ℕ × Store) : Type 0 where
  pub grown : length out.1.snapshots ≡ length s.snapshots + out.0
  pub audited : length out.1.audit_logs ≡ length s.audit_logs + out.0
  pub once : (c : UsageCounter) → captured c s ≤ 1 → captured c out.1 ≤ 1
  pub kept : (c : UsageCounter) → captured c s ≤ captured c out.1
  pub untouched : out.1.reservations ≡ s.reservations
