-- ===== src/Quota/Reserve.antt =====
-- `reserve` (src/quota/quota.service.ts): an amount is set aside under an idempotency key, if the
-- usage, the open reservations and the amount stay within the hard limit.
pub mod Laws
pub mod Safety
pub mod Repeat
pub mod Decided
use content_intelligence_bac.Base.{
  ℕ, ◌+◌, suc, Bool, true, false, not, ◌&&◌, ◌||◌, Option, none, some, String, ltb, ◌==◌,
  if◌then◌else◌, holds, find, update_where, snoc, Result, ok, err, Action, ◌>>=◌, ◌>>◌, pure, throw,
  gets, modify, throw_if, transaction, is_blank,
}
use content_intelligence_bac.Quota.Model.{
  QuotaMetric, ReservationStatus, UsageCounter, UsageReservation, AuditLog, hard_limit_exceeded,
  Store, is_reserved, is_committed,
}
use content_intelligence_bac.Quota.Resolver.{EffectiveQuota, resolve}
use content_intelligence_bac.Quota.Tables.{
  QuotaError, amount_not_positive, idempotency_key_required, amount_mismatch, quota_exceeded,
  upsert_counter, is_overdue, expire, held, is_keyed, add_audit,
}

-- `QUOTA_RESERVATION_TTL_MS`
abbrev pub reservation_ttl : ℕ
reservation_ttl = 900000

pub data ReserveStatus : Type 0 where
  reserved already_reserved bypassed : ReserveStatus

pub record UsageReservationResult : Type 0 where
  pub reservation_id : Option ℕ
  pub status : ReserveStatus
  pub quota : EffectiveQuota

-- The variable `violation` that the transaction sets.
pub record Violation : Type 0 where
  pub current : ℕ
  pub limit : ℕ
  pub reset_at : Option ℕ

pub assert_amount : ℕ → String → Action Store QuotaError (Unit {0})
assert_amount amount key = do
  throw_if (amount == 0) amount_not_positive
  throw_if (is_blank key) idempotency_key_required

-- The test of the hard limit, which says by how much the limit is missed.
pub exceeds : EffectiveQuota → (current amount : ℕ) → Option Violation
exceeds q current amount =
    if q.enabled && not q.is_unlimited
    then elim q.hard_limit [
      | none ↦ none
      | some limit ↦
          if ltb limit (current + amount)
          then some (record { current = current; limit = limit; reset_at = q.period_end })
          else none
    ]
    else none

abbrev pub reopen : (counter amount now : ℕ) → UsageReservation → UsageReservation
reopen counter amount now r = record r {
  counter_id = counter;
  amount = amount;
  status = ReservationStatus.reserved;
  expires_at = some (now + reservation_ttl);
  committed_at = none;
  released_at = none;
}

abbrev pub new_reservation :
    (id organization counter : ℕ) → QuotaMetric → String → (amount now : ℕ) → UsageReservation
new_reservation id organization counter metric key amount now = record {
  id = id;
  organization_id = organization;
  counter_id = counter;
  metric = metric;
  idempotency_key = key;
  amount = amount;
  status = ReservationStatus.reserved;
  expires_at = some (now + reservation_ttl);
  committed_at = none;
  released_at = none;
}

-- The overdue reservations of a counter are expired.
pub expire_due : UsageCounter → (now : ℕ) → Store → Store
expire_due c now s =
    let due = λ (r : UsageReservation). r.counter_id == c.id && is_overdue now r in
    record s { reservations = update_where due (expire now) s.reservations }

module _ (organization : ℕ) (metric : QuotaMetric) (amount : ℕ) (key : String) (now : ℕ) where
  -- The reservation is written: an old row of the key is used again.
  pub write_reservation : UsageCounter → Option UsageReservation → Store → ℕ × Store
  write_reservation c (some r) s = (
    r.id,
    record s {
      reservations = update_where (λ x. x.id == r.id) (reopen c.id amount now) s.reservations;
    },
  )
  write_reservation c none s = (
    s.next_id,
    record s {
      reservations =
          snoc s.reservations (new_reservation s.next_id organization c.id metric key amount now);
      next_id = suc s.next_id;
    },
  )

  -- The part of the transaction after a live reservation of the key was ruled out.
  pub place_reservation :
      EffectiveQuota
      → UsageCounter
      → Option UsageReservation
      → Action Store QuotaError (UsageReservationResult × Option Violation)
  place_reservation q c existing s =
      elim (exceeds q (c.current_value + held c.id s.reservations) amount) [
        | some v ↦ (ok (record { reservation_id = none; status = bypassed; quota = q }, some v), s)
        | none ↦
            let (id, s') = write_reservation c existing s in
            (ok (record { reservation_id = some id; status = reserved; quota = q }, none), s')
      ]

  pub is_live : UsageReservation → Bool
  is_live r = is_reserved r.status || is_committed r.status

  -- The part of the transaction after the row of the key was read.
  pub answer_existing :
      EffectiveQuota
      → UsageCounter
      → Option UsageReservation
      → Action Store QuotaError (UsageReservationResult × Option Violation)
  answer_existing q c none s = place_reservation q c none s
  answer_existing q c (some r) s =
      if not (r.amount == amount)
      then (err amount_mismatch, s)
      else if is_live r
      then (
        ok (record { reservation_id = some r.id; status = already_reserved; quota = q }, none),
        s,
      )
      else place_reservation q c (some r) s

  -- The part of the transaction after the counter was written.
  pub reserve_at :
      EffectiveQuota
      → UsageCounter
      → Action Store QuotaError (UsageReservationResult × Option Violation)
  reserve_at q c s =
      let s' = expire_due c now s in
      answer_existing q c (find (is_keyed organization metric key) s'.reservations) s'

  -- The body of the transaction.
  pub reserve_body : Action Store QuotaError (UsageReservationResult × Option Violation)
  reserve_body s =
      let q = resolve s.directory organization metric now in (upsert_counter q >>= reserve_at q) s

  -- After the transaction: a violation is audited and thrown.
  pub report :
      Option ℕ
      → Option String
      → UsageReservationResult × Option Violation
      → Action Store QuotaError UsageReservationResult
  report actor request (result, none) = pure result
  report actor request (result, some v) = do
    modify (
        add_audit (record {
          organization_id = some organization;
          actor_id = actor;
          entity_id = none;
          metric = metric;
          action = hard_limit_exceeded v.current amount v.limit v.reset_at;
          request_id = request;
        }))
    throw (quota_exceeded metric v.current amount v.limit v.reset_at)

  pub reserve : Option ℕ → Option String → Action Store QuotaError UsageReservationResult
  reserve actor request = do
    assert_amount amount key
    outcome ← transaction reserve_body
    report actor request outcome

-- What a run of `reserve` computes with: a test names this alone.
unfoldable pub reserve_run : Unit {0}
unfolding reserve assert_amount reserve_body reserve_at expire_due write_reservation
    place_reservation answer_existing is_live report exceeds
reserve_run = tt
