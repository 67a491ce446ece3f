-- ===== src/Quota/Reserve/Safety.antt =====
-- Theorems on a whole call of `reserve` (src/quota/quota.service.ts).
use content_intelligence_bac.Base.{
  ℕ, ◌+◌, ◌≤◌, ◌<◌, ◌≡◌, ◌≢◌, refl, arith, false, true, Option, none, some, ◌==◌, ◌⊎◌, inl, inr,
  Bool-cases, String, find, update_where, snoc, Result, ok, err, rollback, ◌>>=◌, is_blank,
}
use content_intelligence_bac.Quota.Model.{
  QuotaMetric, ReservationStatus, UsageCounter, UsageReservation, Store, AuditLog,
  hard_limit_exceeded,
}
use content_intelligence_bac.Quota.Resolver.{EffectiveQuota, resolve}
use content_intelligence_bac.Quota.Tables.{
  QuotaError, quota_exceeded, constraint_violated, is_accepted, expire, held, add_audit,
}
use content_intelligence_bac.Quota.Tables.Laws.{IsValid, usage, load}
use content_intelligence_bac.Quota.Reserve.{
  UsageReservationResult, reserved, already_reserved, bypassed, Violation, exceeds, reserve_body,
  report, assert_amount, reserve,
}
use content_intelligence_bac.Quota.Reserve.Laws.{
  IsLimited, exceeds-none, exceeds-some, is_due, prepare-reservations, prepare-audit_logs, prepare,
  prepare-usage, Answer, mismatched, repeated, refused, written, reserve_body-Answer,
  reserve_body-accepted, reserve_body-refused,
}
use content_intelligence_bac.Quota.Reserve.Laws.Written.{IsWritten}

module _ (organization : ℕ) (metric : QuotaMetric) (amount : ℕ) (key : String) (now : ℕ)
    (actor : Option ℕ) (request : Option String) (s : Store) where
  abbrev pub call : Result QuotaError UsageReservationResult × Store
  call = reserve organization metric amount key now actor request s

  -- What follows the transaction's body.
  abbrev pub conclude :
      Result QuotaError (UsageReservationResult × Option Violation) × Store
      → Result QuotaError UsageReservationResult × Store
  conclude out =
      ((λ s. rollback s out) >>= report organization metric amount key now actor request) s

  -- The call, once the arguments have passed the assertion.
  pub reserve-asserted :
      (amount == 0) ≡ false
      → is_blank key ≡ false
      → call ≡ conclude (reserve_body organization metric amount key now s)
  unfolding reserve assert_amount
  reserve-asserted positive given = rw (positive, given)

  -- The arguments of a call that went through, and what its transaction has answered.
  pub record IsReserved (r : UsageReservationResult) (s' : Store) : Type 0 where
    pub positive : (amount == 0) ≡ false
    pub given : is_blank key ≡ false
    pub body : reserve_body organization metric amount key now s ≡ (ok (r, none), s')

  reported :
      (out : Result QuotaError (UsageReservationResult × Option Violation) × Store)
      (r : UsageReservationResult) (s' : Store)
      → conclude out ≡ (ok r, s')
      → out ≡ (ok (r, none), s')
  unfolding report
  reported (err e, s₁) r s' h = cc
  reported (ok (r₁, none), s₁) r s' h = cc
  reported (ok (r₁, some v), s₁) r s' h = cc

  pub reserve-IsReserved :
      (r : UsageReservationResult) (s' : Store) → call ≡ (ok r, s') → IsReserved r s'
  unfolding reserve assert_amount
  reserve-IsReserved r s' h = elim (Bool-cases (amount == 0)) [
    | inl zero ↦ absurd (cc (rw zero at h))
    | inr positive ↦ elim (Bool-cases (is_blank key)) [
      | inl blank ↦ absurd (cc (rw (positive, blank) at h))
      | inr given ↦ record {
        positive = positive;
        given = given;
        body =
            reported (reserve_body organization metric amount key now s) r s'
              (rw (positive, given) at h);
      }
    ]
  ]

  -- The reservation that a call has made: its row is open, and the load of its counter is within the
  -- limit.
  pub record IsPlacedWithin (limit : ℕ) (r : UsageReservationResult) (s' : Store) : Type 0 where
    pub id : ℕ
    pub row : UsageReservation
    pub named : r.reservation_id ≡ some id
    pub stored : find (λ x. x.id == id) s'.reservations ≡ some row
    pub amounts : row.amount ≡ amount
    pub opened : row.status ≡ ReservationStatus.reserved
    pub within : load row.counter_id s' ≤ limit

  abbrev pub quota_now : EffectiveQuota
  quota_now = resolve s.directory organization metric now

  abbrev pub counter_now : UsageCounter
  counter_now = (prepare quota_now now s).0

  abbrev pub prepared : Store
  prepared = (prepare quota_now now s).1

  placed_within :
      (limit id : ℕ) (s' : Store)
      → usage counter_now.id prepared.counters ≡ counter_now.current_value
      → IsLimited quota_now limit
      → exceeds quota_now
          (counter_now.current_value + held counter_now.id prepared.reservations)
          amount
        ≡ none
      → IsWritten organization metric amount key now counter_now prepared id s'
      → IsPlacedWithin limit
          (record { reservation_id = some id; status = reserved; quota = quota_now })
          s'
  placed_within limit id s' used l fits w = record {
    row = w.row;
    id = id;
    named = refl;
    stored = w.by_id;
    amounts = w.amounts;
    opened = w.opened;
    within =
        rw (w.counted, w.same_counters, w.raised, used)
          (omega (arith, exceeds-none quota_now limit _ amount l fits));
  }

  -- In well-formed tables, a call that answers `RESERVED` under an enforced limit has stored an
  -- open reservation of the amount, and the counter's usage with all its open reservations is
  -- within the limit.
  pub reserve-within_limit :
      (r : UsageReservationResult) (s' : Store) (limit : ℕ)
      → IsValid s
      → call ≡ (ok r, s')
      → r.status ≡ reserved
      → IsLimited r.quota limit
      → IsPlacedWithin limit r s'
  reserve-within_limit r s' limit v h fresh l =
      let body = (reserve-IsReserved r s' h).body in
      go
        (reserve_body-Answer organization metric amount key now s v
          (reserve_body-accepted organization metric amount key now s s' (r, none) body))
        body
    where
      go :
          Answer organization metric amount key now quota_now counter_now prepared
            (reserve_body organization metric amount key now s)
          → reserve_body organization metric amount key now s ≡ (ok (r, none), s')
          → IsPlacedWithin limit r s'
      go (mismatched x f a e) b = absurd (cc)
      go (repeated x f a live e) b = absurd (cc)
      go (refused x vacant f e) b = absurd (cc)
      go (written id s'' vacant fits w e) b =
          let result : record { reservation_id = some id; status = reserved; quota = quota_now }
              ≡ r =
            cc in
          let state : s'' ≡ s' = cc in
          let limited : IsLimited quota_now limit = rw (← result) at l in
          rw (← result, ← state)
            (placed_within limit id s'' (prepare-usage quota_now now s v) limited fits w)

  -- In well-formed tables, a call that does not throw answers with the identifier of a reservation,
  -- and never `BYPASSED`.
  pub reserve-ne-bypassed :
      (r : UsageReservationResult) (s' : Store)
      → IsValid s
      → call ≡ (ok r, s')
      → (r.status ≢ bypassed) × (r.reservation_id ≢ none)
  reserve-ne-bypassed r s' v h =
      let body = (reserve-IsReserved r s' h).body in
      go
        (reserve_body-Answer organization metric amount key now s v
          (reserve_body-accepted organization metric amount key now s s' (r, none) body))
        body
    where
      go :
          Answer organization metric amount key now quota_now counter_now prepared
            (reserve_body organization metric amount key now s)
          → reserve_body organization metric amount key now s ≡ (ok (r, none), s')
          → (r.status ≢ bypassed) × (r.reservation_id ≢ none)
      go (mismatched x f a e) b = absurd (cc)
      go (repeated x f a live e) b =
          let result : record {
            reservation_id = some x.id;
            status = already_reserved;
            quota = quota_now;
          }
              ≡ r =
            cc in
          rw (← result) (λ p. cc, λ p. cc)
      go (refused x vacant f e) b = absurd (cc)
      go (written id s'' vacant fits w e) b =
          let result : record { reservation_id = some id; status = reserved; quota = quota_now }
              ≡ r =
            cc in
          rw (← result) (λ p. cc, λ p. cc)

  abbrev pub refusal : (current limit : ℕ) → Option ℕ → AuditLog
  refusal current limit reset_at = record {
    organization_id = some organization;
    actor_id = actor;
    entity_id = none;
    metric = metric;
    action = hard_limit_exceeded current amount limit reset_at;
    request_id = request;
  }

  -- What a call refused at the limit leaves: the amount would have passed the limit, no reservation
  -- is added, and one audit row says so.
  pub record IsRefused (current limit : ℕ) (reset_at : Option ℕ) (s' : Store) : Type 0 where
    pub counter : UsageCounter
    pub limited : IsLimited quota_now limit
    pub over : limit < current + amount
    pub measured : current ≡ usage counter.id s'.counters + held counter.id s'.reservations
    pub reservations_kept :
        s'.reservations ≡ update_where (is_due counter now) (expire now) s.reservations
    pub audited : s'.audit_logs ≡ snoc s.audit_logs (refusal current limit reset_at)

  report-IsRefused :
      (out : Result QuotaError (UsageReservationResult × Option Violation) × Store)
      (m : QuotaMetric) (current requested limit : ℕ) (reset_at : Option ℕ) (s' : Store)
      → Answer organization metric amount key now quota_now counter_now prepared out
      → conclude out ≡ (err (quota_exceeded m current requested limit reset_at), s')
      → IsValid s
      → IsRefused current limit reset_at s'
  unfolding report
  report-IsRefused out m current requested limit reset_at s' (mismatched x f a e) h v = absurd (cc)
  report-IsRefused out m current requested limit reset_at s' (repeated x f a live e) h v =
      absurd (cc)
  report-IsRefused out m current requested limit reset_at s' (written id s'' vacant fits w e) h v =
      absurd (cc)
  report-IsRefused out m current requested limit reset_at s' (refused x vacant f e) h v =
      let (limited, measured, over) = exceeds-some quota_now _ amount x f in
      let left = rw e at h in
      let c : x.current ≡ current = cc in
      let l : x.limit ≡ limit = cc in
      let z : x.reset_at ≡ reset_at = cc in
      let state : add_audit (refusal x.current x.limit x.reset_at) prepared ≡ s' = cc in
      rw (← c, ← l, ← z, ← state)
        (record {
          counter = counter_now;
          limited = limited;
          over = omega (arith, measured);
          measured = omega (arith, measured, prepare-usage quota_now now s v);
          reservations_kept = prepare-reservations quota_now now s;
          audited = rw (prepare-audit_logs quota_now now s);
        })

  unaccepted :
      (m : QuotaMetric) (current requested limit : ℕ) (reset_at : Option ℕ) (s' : Store)
      → conclude (err constraint_violated, s)
        ≢ (err (quota_exceeded m current requested limit reset_at), s')
  unaccepted m current requested limit reset_at s' h = cc

  -- In well-formed tables, a call that is refused at the limit throws only where the usage and the
  -- open reservations with the amount pass it; it adds no reservation, and writes one audit row.
  pub reserve-IsRefused :
      (m : QuotaMetric) (current requested limit : ℕ) (reset_at : Option ℕ) (s' : Store)
      → IsValid s
      → call ≡ (err (quota_exceeded m current requested limit reset_at), s')
      → IsRefused current limit reset_at s'
  unfolding reserve assert_amount
  reserve-IsRefused m current requested limit reset_at s' v h = elim (Bool-cases (amount == 0)) [
    | inl zero ↦ absurd (cc (rw zero at h))
    | inr positive ↦ elim (Bool-cases (is_blank key)) [
      | inl blank ↦ absurd (cc (rw (positive, blank) at h))
      | inr given ↦ refused_at (Bool-cases (is_accepted quota_now s)) (rw (positive, given) at h)
    ]
  ]
    where
      refused_at :
          ((is_accepted quota_now s ≡ true) ⊎ (is_accepted quota_now s ≡ false))
          → conclude (reserve_body organization metric amount key now s)
            ≡ (err (quota_exceeded m current requested limit reset_at), s')
          → IsRefused current limit reset_at s'
      refused_at (inl accepted) h =
          report-IsRefused (reserve_body organization metric amount key now s) m current requested
            limit reset_at s' (reserve_body-Answer organization metric amount key now s v accepted)
            h v
      refused_at (inr not_taken) h = absurd (
          unaccepted m current requested limit reset_at s'
            (rw (reserve_body-refused organization metric amount key now s not_taken) at h))
