-- ===== src/Quota/Reserve/Decided.antt =====
-- How a call of `reserve` with a new key is decided (src/quota/quota.service.ts).
use content_intelligence_bac.Base.{
  ℕ, ◌+◌, ◌≤◌, ◌<◌, ◌≡◌, refl, arith, true, false, Option, none, some, ◌∙◌, ◌⊎◌, ◌==◌, inl, inr,
  String, find, update_where, find-update_where, Result, ok, err, is_blank,
}
use content_intelligence_bac.Quota.Model.{QuotaMetric, UsageReservation, Store}
use content_intelligence_bac.Quota.Tables.{
  QuotaError, quota_exceeded, is_accepted, is_keyed, expire,
}
use content_intelligence_bac.Quota.Tables.Laws.{IsValid, usage, load}
use content_intelligence_bac.Quota.Reserve.{
  UsageReservationResult, reserved, Violation, reserve_body, report, reserve,
}
use content_intelligence_bac.Quota.Reserve.Laws.{
  IsLimited, exceeds-none, exceeds-some, is_due, prepare, prepare-usage, prepare-reservations,
  Answer, mismatched, repeated, refused, written, reserve_body-Answer,
}
use content_intelligence_bac.Quota.Reserve.Safety.{
  conclude, quota_now, counter_now, prepared, reserve-asserted,
}

module _ (organization : ℕ) (metric : QuotaMetric) (amount : ℕ) (key : String) (now : ℕ)
    (actor : Option ℕ) (request : Option String) (s : Store) where
  -- The usage and the open reservations of the counter, once the overdue ones are expired.
  abbrev pub load_now : ℕ
  load_now =
      load (counter_now organization metric amount key now actor request s).id
        (prepared organization metric amount key now actor request s)

  -- The limit that a quota enforces, if any, is not passed.
  abbrev pub IsWithin : Type 0
  IsWithin =
      (limit : ℕ)
      → IsLimited (quota_now organization metric amount key now actor request s) limit
      → load_now + amount ≤ limit

  -- A limit that the amount would pass.
  pub record IsPassed (limit : ℕ) : Type 0 where
    pub limited : IsLimited (quota_now organization metric amount key now actor request s) limit
    pub over : limit < load_now + amount

  abbrev pub IsDecided : Result QuotaError UsageReservationResult → Type 0
  IsDecided out =
      ((r : UsageReservationResult) × (out ≡ ok r) × (r.status ≡ reserved) × IsWithin)
      ⊎ ((limit : ℕ) × (reset_at : Option ℕ) × IsPassed limit
          × (out ≡ err (quota_exceeded metric load_now amount limit reset_at)))

-- In well-formed tables, where the database takes the write of the counter, a call with a positive
-- amount and a key that is not blank and that no row has reserves exactly when the amount, on top of the
-- counter's usage and open reservations, stays within the limit that is enforced, if any; else it throws
-- with these numbers and that limit.
pub reserve-decides :
    (organization : ℕ) (metric : QuotaMetric) (amount : ℕ) (key : String) (now : ℕ)
    (actor : Option ℕ) (request : Option String) (s : Store)
    → IsValid s
    → (amount == 0) ≡ false
    → is_blank key ≡ false
    → find (is_keyed organization metric key) s.reservations ≡ none
    → is_accepted (quota_now organization metric amount key now actor request s) s ≡ true
    → IsDecided organization metric amount key now actor request s
        (reserve organization metric amount key now actor request s).0
unfolding report
reserve-decides organization metric amount key now actor request s v positive given new accepted =
    rw (reserve-asserted organization metric amount key now actor request s positive given)
      (go (reserve_body-Answer organization metric amount key now s v accepted))
  where
    body : Result QuotaError (UsageReservationResult × Option Violation) × Store
    body = reserve_body organization metric amount key now s

    unseen :
        (x : UsageReservation)
        → find
            (is_keyed organization metric key)
            (prepared organization metric amount key now actor request s).reservations
          ≡ some x
        → ⊥
    unseen x f =
        let q = quota_now organization metric amount key now actor request s in
        let due = is_due (prepare q now s).0 now in
        let search : find (is_keyed organization metric key)
              (update_where due (expire now) s.reservations)
            ≡ none =
          find-update_where (is_keyed organization metric key) due (expire now) (λ x. refl)
            s.reservations
          ∙ rw new in
        cc (rw (prepare-reservations q now s) at f)

    counted :
        usage
          (counter_now organization metric amount key now actor request s).id
          (prepared organization metric amount key now actor request s).counters
        ≡ (counter_now organization metric amount key now actor request s).current_value
    counted = prepare-usage (quota_now organization metric amount key now actor request s) now s v

    go :
        Answer organization metric amount key now
          (quota_now organization metric amount key now actor request s)
          (counter_now organization metric amount key now actor request s)
          (prepared organization metric amount key now actor request s)
          body
        → IsDecided organization metric amount key now actor request s
            (conclude organization metric amount key now actor request s body).0
    go (mismatched x f a e) = absurd (unseen x f)
    go (repeated x f a live e) = absurd (unseen x f)
    go (refused x vacant f e) =
        let (limited, measured, over) =
          exceeds-some (quota_now organization metric amount key now actor request s) _ amount x
            f in
        let same : x.current ≡ load_now organization metric amount key now actor request s =
          rw counted measured in
        inr (
          x.limit,
          x.reset_at,
          record { limited = limited; over = omega (arith, over, measured, counted) },
          rw e (rw same refl),
        )
    go (written id s'' vacant fits w e) = inl (
      record {
        reservation_id = some id;
        status = reserved;
        quota = quota_now organization metric amount key now actor request s;
      },
      rw e,
      refl,
      λ limit l. omega (
        arith,
        counted,
        exceeds-none (quota_now organization metric amount key now actor request s) limit _ amount l
            fits,
      ),
    )
