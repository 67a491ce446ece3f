-- ===== src/Quota/Commit.antt =====
-- `commitReservations` and `releaseReservation` (src/quota/quota.service.ts): an open reservation
-- becomes usage of its counter, or is given up.
pub mod Laws
pub mod Once
use content_intelligence_bac.Base.{
  ℕ, ◌+◌, ◌*◌, suc, Bool, true, false, not, ◌&&◌, Option, none, some, List, [], ◌∷◌, ltb, leb, ◌==◌,
  if◌then◌else◌, find, select, any, update_where, count_where, snoc, Result, ok, err, Action, ◌>>=◌,
  pure, throw, gets, modify, transaction, or_throw,
}
use content_intelligence_bac.Quota.Model.{
  QuotaMetric, ReservationStatus, UsageCounter, UsageReservation, ThresholdEvent, AuditLog,
  threshold_reached, Store, metric_eq, is_reserved, is_committed,
}
use content_intelligence_bac.Quota.Tables.{QuotaError, record_missing, add_audit}

pub record CommitResult : Type 0 where
  pub committed : Bool
  pub missing : Bool
  pub idempotent : Bool
  pub bypassed : Bool
  pub current_value : Option ℕ

-- The unique key of a threshold event.
abbrev pub is_threshold_of : UsageCounter → ℕ → ThresholdEvent → Bool
is_threshold_of c threshold e =
    e.organization_id == c.organization_id
    && metric_eq e.metric c.metric
    && e.period_start == c.period_start
    && e.threshold == threshold

-- One round of the loop of `thresholds`: an event and its audit row, unless the event is there.
pub record_threshold : UsageCounter → ℕ → (now threshold : ℕ) → Store → Store
record_threshold c limit now threshold s =
    if leb (limit * threshold) (c.current_value * 100)
      && not (any (is_threshold_of c threshold) s.threshold_events)
    then (let event : ThresholdEvent = record {
      organization_id = c.organization_id;
      metric = c.metric;
      period_start = c.period_start;
      threshold = threshold;
      usage_value = c.current_value;
      limit_value = limit;
      created_at = now;
    } in
        let row : AuditLog = record {
          organization_id = some c.organization_id;
          actor_id = none;
          entity_id = none;
          metric = c.metric;
          action = threshold_reached threshold c.current_value limit c.period_start;
          request_id = none;
        } in
        add_audit row (record s { threshold_events = snoc s.threshold_events event }))
    else s

-- `thresholds`, over QUOTA_THRESHOLDS = [80, 90].
pub thresholds : UsageCounter → Option ℕ → ℕ → Store → Store
thresholds c none now s = s
thresholds c (some limit) now s =
    if limit == 0 then s else record_threshold c limit now 90 (record_threshold c limit now 80 s)

abbrev pub increment : ℕ → UsageCounter → UsageCounter
increment amount c = record c { current_value = c.current_value + amount; version = c.version + 1 }

abbrev pub mark_committed : ℕ → UsageReservation → UsageReservation
mark_committed now r = record r { status = ReservationStatus.committed; committed_at = some now }

-- The writes of one commit, before the thresholds.
pub move_to_usage : ℕ → UsageReservation → Store → Store
move_to_usage now r s = record s {
  counters = update_where (λ c. c.id == r.counter_id) (increment r.amount) s.counters;
  reservations = update_where (λ x. x.id == r.id) (mark_committed now) s.reservations;
}

-- A reservation whose row was read; an update of a counter that is not there throws.
pub commit_row : ℕ → UsageReservation → Action Store QuotaError CommitResult
commit_row now r s =
    if is_reserved r.status
    then elim (find (λ c. c.id == r.counter_id) s.counters) [
      | none ↦ (err record_missing, s)
      | some c ↦
          let c' = increment r.amount c in
          (
            ok (record {
              committed = true;
              missing = false;
              idempotent = false;
              bypassed = false;
              current_value = some c'.current_value;
            }),
            thresholds c' c'.effective_hard_limit now (move_to_usage now r s),
          )
    ]
    else (
      ok (record {
        committed = is_committed r.status;
        missing = false;
        idempotent = true;
        bypassed = false;
        current_value = none;
      }),
      s,
    )

-- One round of the loop of `commitReservations`.
pub commit_one : ℕ → ℕ → Action Store QuotaError CommitResult
commit_one now id s = elim (find (λ r. r.id == id) s.reservations) [
  | none ↦ (
    ok (record {
      committed = false;
      missing = true;
      idempotent = false;
      bypassed = false;
      current_value = none;
    }),
    s,
  )
  | some r ↦ commit_row now r s
]

pub commit_all : ℕ → List ℕ → Action Store QuotaError (List CommitResult)
commit_all now [] = pure []
commit_all now (id ∷ ids) = do
  result ← commit_one now id
  results ← commit_all now ids
  pure (result ∷ results)

-- `[...new Set(ids.filter(Boolean))]`
pub distinct_ids : List (Option ℕ) → List ℕ
distinct_ids [] = []
distinct_ids (none ∷ ids) = distinct_ids ids
distinct_ids (some id ∷ ids) = id ∷ select (λ x. not (x == id)) (distinct_ids ids)

pub commit_reservations : List (Option ℕ) → ℕ → Action Store QuotaError (List CommitResult)
commit_reservations ids now = transaction (commit_all now (distinct_ids ids))

-- `result[0] ?? { committed: false, missing: true }`
abbrev pub first_result : List CommitResult → CommitResult
first_result (r ∷ rs) = r
first_result [] = record {
  committed = false;
  missing = true;
  idempotent = false;
  bypassed = false;
  current_value = none;
}

pub commit_reservation : Option ℕ → ℕ → Action Store QuotaError CommitResult
commit_reservation none now = pure (record {
  committed = false;
  missing = false;
  idempotent = false;
  bypassed = true;
  current_value = none;
})
commit_reservation (some id) now = do
  results ← commit_reservations (some id ∷ []) now
  pure (first_result results)

pub record ReleaseResult : Type 0 where
  pub released : Bool
  pub bypassed : Bool

abbrev pub is_releasable : ℕ → UsageReservation → Bool
is_releasable id r = r.id == id && is_reserved r.status

abbrev pub mark_released : ℕ → UsageReservation → UsageReservation
mark_released now r = record r { status = ReservationStatus.released; released_at = some now }

pub release_reservation : Option ℕ → ℕ → Store → ReleaseResult × Store
release_reservation none now s = (record { released = false; bypassed = true }, s)
release_reservation (some id) now s = (
  record { released = count_where (is_releasable id) s.reservations == 1; bypassed = false },
  record s { reservations = update_where (is_releasable id) (mark_released now) s.reservations },
)

-- What a run of a commit computes with: another module names this alone.
unfoldable pub commit_run : Unit {0}
unfolding commit_reservation commit_reservations commit_all commit_one commit_row move_to_usage
    thresholds record_threshold release_reservation distinct_ids
commit_run = tt
