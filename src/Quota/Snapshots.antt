-- ===== src/Quota/Snapshots.antt =====
-- `QuotaSchedulerService` (src/quota/quota-scheduler.service.ts): the hourly job that expires overdue
-- reservations and keeps a snapshot of each closed period.
pub mod Laws
use content_intelligence_bac.Base.{
  ℕ, zero, ◌+◌, ◌*◌, ◌/◌, suc, Bool, true, false, not, ◌&&◌, Option, none, some, List, [], ◌∷◌, ltb,
  leb, ◌==◌, if◌then◌else◌, or_else, holds, select, any, update_where, snoc,
}
use content_intelligence_bac.Quota.Model.{
  UsageCounter, UsageSnapshot, period_snapshotted, Store, metric_eq,
}
use content_intelligence_bac.Quota.Tables.{is_overdue, expire, add_audit}

-- The unique key of a snapshot.
abbrev pub is_snapshot_of : UsageCounter → UsageSnapshot → Bool
is_snapshot_of c x =
    x.organization_id == c.organization_id
    && metric_eq x.metric c.metric
    && x.period_start == c.period_start

-- The percentage has 32 bits in the database, which are taken to be enough.
abbrev pub snapshot_of : ℕ → UsageCounter → UsageSnapshot
snapshot_of now c = record {
  organization_id = c.organization_id;
  metric = c.metric;
  period_start = c.period_start;
  period_end = c.period_end;
  final_usage = c.current_value;
  soft_limit = c.effective_soft_limit;
  hard_limit = c.effective_hard_limit;
  percentage_basis_pts = elim c.effective_hard_limit [
    | none ↦ none
    | some limit ↦ if limit == 0 then none else some (c.current_value * 10000 / limit)
  ];
  exceeded = holds (λ limit. ltb limit c.current_value) c.effective_hard_limit;
  captured_at = now;
}

-- A closed period that has no snapshot.
abbrev pub is_pending : ℕ → List UsageSnapshot → UsageCounter → Bool
is_pending now snapshots c =
    holds (λ t. leb t now) c.period_end && not (any (is_snapshot_of c) snapshots)

-- `ORDER BY "periodEnd" ASC`, as an insertion of each row.
pub insert_by_end : UsageCounter → List UsageCounter → List UsageCounter
insert_by_end c [] = c ∷ []
insert_by_end c (x ∷ xs) =
    let rest = insert_by_end c xs in
    if leb (or_else c.period_end 0) (or_else x.period_end 0) then c ∷ x ∷ xs else x ∷ rest

pub sort_by_end : List UsageCounter → List UsageCounter
sort_by_end [] = []
sort_by_end (c ∷ cs) = insert_by_end c (sort_by_end cs)

pub take : ℕ → List UsageCounter → List UsageCounter
take zero cs = []
take (suc n) [] = []
take (suc n) (c ∷ cs) = c ∷ take n cs

-- The rows of the job: the identifiers of the first 500, and the counters that have them.
pub closed_counters : ℕ → Store → List UsageCounter
closed_counters now s =
    let pending = take 500 (sort_by_end (select (is_pending now s.snapshots) s.counters)) in
    select (λ c. any (λ p. p.id == c.id) pending) s.counters

-- One round of the loop: a snapshot and its audit row, unless there is one by now.
pub capture : ℕ → UsageCounter → Store → ℕ × Store
capture now c s = if any (is_snapshot_of c) s.snapshots then (0, s) else (
  1,
  add_audit
      (record {
        organization_id = some c.organization_id;
        actor_id = none;
        entity_id = some c.id;
        metric = c.metric;
        action = period_snapshotted c.period_start c.period_end c.current_value;
        request_id = none;
      })
      (record s { snapshots = snoc s.snapshots (snapshot_of now c) }),
)

pub capture_all : ℕ → List UsageCounter → Store → ℕ × Store
capture_all now [] s = (0, s)
capture_all now (c ∷ cs) s =
    let (n, s₁) = capture now c s in let (m, s₂) = capture_all now cs s₁ in (n + m, s₂)

abbrev pub expire_overdue : ℕ → Store → Store
expire_overdue now s = record s {
  reservations = update_where (is_overdue now) (expire now) s.reservations;
}

-- `finalizeClosedPeriods`
pub finalize_closed_periods : ℕ → Store → ℕ × Store
finalize_closed_periods now s =
    let s' = expire_overdue now s in capture_all now (closed_counters now s') s'
