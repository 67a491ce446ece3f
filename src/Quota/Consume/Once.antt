-- ===== src/Quota/Consume/Once.antt =====
-- Theorems on `consumeEvent` (src/quota/quota.service.ts).
use content_intelligence_bac.Base.{
  ℕ, ◌≡◌, ◌≢◌, refl, arith, ap, ◌∙◌, Bool, true, false, not, Option, none, some, List, [], ◌∷◌,
  String, ==_refl, ltb, if◌then◌else◌, any, snoc, count_where, count_where-snoc, inl, inr,
  Option-cases, Bool-cases, Result, ok, err, ◌>>=◌, pure, >>=-keeps,
}
use text.Mathlib.TextEquality.{eq_iff}
use Prim.Native.String
use content_intelligence_bac.Quota.Model.{QuotaMetric, metric_code, UsageEvent, Store}
use content_intelligence_bac.Quota.Tables.{QuotaError}
use content_intelligence_bac.Quota.Tables.Laws.{IsValid}
use content_intelligence_bac.Quota.Reserve.{UsageReservationResult, ReserveStatus, reserve}
use content_intelligence_bac.Quota.Reserve.Safety.{reserve-ne-bypassed}
use content_intelligence_bac.Quota.Commit.{commit_reservation}
use content_intelligence_bac.Quota.Consume.{
  ConsumeResult, is_event_of, record_event, was_reserved, settle, record_and_settle, consume_event,
}
use content_intelligence_bac.Quota.Consume.Frame.{
  Events, reserve-Events, commit_reservation-Events, release_reservation-Events,
}

any-count_where :
    (p : UsageEvent → Bool) (xs : List UsageEvent) → any p xs ≡ ltb 0 (count_where p xs)
any-count_where p [] = refl
any-count_where p (x ∷ xs) = ground (arith, any-count_where p xs)

-- A call that ends with a given value has run the rest.
module _ {S E A B : Type 0} where
  then_pure :
      (out : Result E A) (s₁ s' : S) (b r : B)
      → ((λ (_ : S). (out, s₁)) >>= λ _. pure b) s₁ ≡ (ok r, s')
      → (b ≡ r) × (s₁ ≡ s')
  then_pure (ok a) s₁ s' b r h = (cc h, cc h)
  then_pure (err e) s₁ s' b r h = absurd (cc h)

module _ (organization : ℕ) (metric : QuotaMetric) (amount : ℕ) (key : String) (now : ℕ) where
  abbrev events_of : List UsageEvent → ℕ
  events_of es = count_where (is_event_of organization metric key) es

  -- What a call answers, by the events before it and after it.
  pub record IsConsumed (before : List UsageEvent) (r : ConsumeResult) (s' : Store) : Type 0 where
    pub first : r.consumed ≡ not (any (is_event_of organization metric key) before)
    pub repeated : r.idempotent ≡ not r.consumed
    pub counted : r.compatibility ≡ false
    pub recorded : events_of s'.events ≡ (if r.consumed then 1 else events_of before)

  settle-Events :
      (es : List UsageEvent) (b : Bool) (status : ReserveStatus) (id : ℕ) (s : Store)
      → Events es s
      → Events es (settle b status id now s).1
  unfolding settle
  settle-Events es true status id s k =
      >>=-keeps (Events es) (commit_reservation (some id) now) (λ _. pure tt) s
        (commit_reservation-Events es (some id) now s k) (λ _ s₁ k₁. k₁)
  settle-Events es false status id s k = elim (Bool-cases (was_reserved status)) [
    | inl made ↦ rw made (release_reservation-Events es (some id) now s k)
    | inr old ↦ rw old k
  ]

  record_and_settle-IsConsumed :
      (reservation : UsageReservationResult) (s s' : Store) (r : ConsumeResult)
      → reservation.reservation_id ≢ none
      → record_and_settle organization metric amount key now reservation s ≡ (ok r, s')
      → IsConsumed s.events r s'
  unfolding record_and_settle record_event
  record_and_settle-IsConsumed reservation s s' r named h =
      elim (Option-cases reservation.reservation_id) [
        | inl missing ↦ absurd (named missing)
        | inr (id, found) ↦ elim (Bool-cases (any (is_event_of organization metric key) s.events)) [
          | inl old ↦
              let (value, state) = then_pure _ _ s' _ r (rw (found, old, record_and_settle) at h) in
              let kept = settle-Events s.events false reservation.status id s refl in
              rw (← value, ← state)
                (record {
                  first = rw old refl;
                  repeated = refl;
                  counted = refl;
                  recorded = ap events_of kept;
                })
          | inr new ↦
              let event : UsageEvent = record {
                organization_id = organization;
                metric = metric;
                idempotency_key = key;
                amount = amount;
                period_start = reservation.quota.period_start;
              } in
              let (value, state) = then_pure _ _ s' _ r (rw (found, new, record_and_settle) at h) in
              let written = record s { events = snoc s.events event } in
              let kept =
                settle-Events (snoc s.events event) true reservation.status id written refl in
              let none_yet : events_of s.events ≡ 0 =
                ground
                  (arith, new, any-count_where (is_event_of organization metric key) s.events) in
              rw (← value, ← state)
                (record {
                  first = rw new refl;
                  repeated = refl;
                  counted = refl;
                  recorded =
                      ap events_of kept
                      ∙ count_where-snoc (is_event_of organization metric key) s.events event
                      ∙ rw
                          (
                            none_yet,
                            ==_refl organization,
                            ==_refl (metric_code metric),
                            (eq_iff key key).1 refl,
                          )
                          refl;
                })
        ]
      ]

  result_cases :
      (out : Result QuotaError UsageReservationResult) (s₁ s' : Store) (r : ConsumeResult)
      → ((λ (_ : Store). (out, s₁)) >>= record_and_settle organization metric amount key now) s₁
        ≡ (ok r, s')
      → (reservation : UsageReservationResult) × (out ≡ ok reservation)
        × (record_and_settle organization metric amount key now reservation s₁ ≡ (ok r, s'))
  result_cases (ok reservation) s₁ s' r h = (reservation, refl, h)
  result_cases (err e) s₁ s' r h = absurd (cc h)

  -- In well-formed tables, a call that does not throw has consumed the event exactly when the table
  -- had none of its key, and is idempotent exactly otherwise; it is never of the compatibility
  -- kind. After a consumption the table has one event of the key, after a repeated call as many as
  -- before.
  pub consume_event-IsConsumed :
      (actor : Option ℕ) (request : Option String) (s s' : Store) (r : ConsumeResult)
      → IsValid s
      → consume_event organization metric amount key now actor request s ≡ (ok r, s')
      → IsConsumed s.events r s'
  unfolding consume_event
  consume_event-IsConsumed actor request s s' r v h =
      let event_key = String.◌++◌ "event:" key in
      let out = reserve organization metric amount event_key now actor request s in
      let (reservation, made, rest) = result_cases out.0 out.1 s' r h in
      let named =
        (reserve-ne-bypassed organization metric amount event_key now actor request s reservation
          out.1 v (λ i. (made i, out.1))).1 in
      let same : out.1.events ≡ s.events =
        reserve-Events s.events organization metric amount event_key now actor request s refl in
      rw same at (record_and_settle-IsConsumed reservation out.1 s' r named rest)
