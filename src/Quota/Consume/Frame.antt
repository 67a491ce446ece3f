-- ===== src/Quota/Consume/Frame.antt =====
-- Lemmas on the table of the events across reservations, commits and releases
-- (src/quota/quota.service.ts).
use content_intelligence_bac.Base.{
  ℕ, ◌+◌, ◌*◌, ◌≡◌, not, ◌&&◌, Option, none, some, List, [], ◌∷◌, String, ◌==◌, leb, if_both, any,
  find, is_blank, inl, inr, Option-cases, Bool-cases, Result, ◌>>=◌, pure, transaction, >>=-keeps,
  transaction-keeps,
}
use content_intelligence_bac.Quota.Model.{
  QuotaMetric, UsageCounter, UsageReservation, UsageEvent, Store, is_reserved,
}
use content_intelligence_bac.Quota.Resolver.{EffectiveQuota, resolve}
use content_intelligence_bac.Quota.Tables.{
  QuotaError, is_accepted, upsert_counter, store_counter, is_counter_of, held, is_keyed,
}
use content_intelligence_bac.Quota.Reserve.{
  UsageReservationResult, Violation, reserve_run, assert_amount, exceeds, is_live, reserve_at,
  expire_due, write_reservation, place_reservation, answer_existing, reserve_body, report, reserve,
}
use content_intelligence_bac.Quota.Commit.{
  commit_run, is_threshold_of, record_threshold, thresholds, commit_row, commit_one, commit_all,
  commit_reservations, commit_reservation, first_result, move_to_usage, increment,
  release_reservation,
}

module _ (es : List UsageEvent) where
  -- The events are these.
  abbrev pub Events : Store → Type 0
  Events s = s.events ≡ es

  store_counter-Events : (q : EffectiveQuota) (s : Store) → Events s → Events (store_counter q s).1
  unfolding store_counter
  store_counter-Events q s k =
      elim (Option-cases
        (find (is_counter_of q.organization_id q.metric q.period_start) s.counters)) [
          | inl missing ↦ rw (missing, store_counter) k
          | inr (c, found) ↦ rw (found, store_counter) k
        ]

  upsert_counter-Events :
      (q : EffectiveQuota) (s : Store) → Events s → Events (upsert_counter q s).1
  unfolding upsert_counter
  upsert_counter-Events q s k = elim (Bool-cases (is_accepted q s)) [
    | inl accepted ↦ rw accepted (store_counter-Events q s k)
    | inr not_taken ↦ rw not_taken k
  ]

  module _ (organization : ℕ) (metric : QuotaMetric) (amount : ℕ) (key : String) (now : ℕ) where
    write_reservation-Events :
        (c : UsageCounter) (r : Option UsageReservation) (s : Store)
        → Events s
        → Events (write_reservation organization metric amount key now c r s).1
    unfolding reserve_run
    write_reservation-Events c none s k = k
    write_reservation-Events c (some r) s k = k

    place_reservation-Events :
        (q : EffectiveQuota) (c : UsageCounter) (r : Option UsageReservation) (s : Store)
        → Events s
        → Events (place_reservation organization metric amount key now q c r s).1
    unfolding reserve_run
    place_reservation-Events q c r s k =
        elim (Option-cases (exceeds q (c.current_value + held c.id s.reservations) amount)) [
          | inl fits ↦ rw (fits, place_reservation) (write_reservation-Events c r s k)
          | inr (v, over) ↦ rw (over, place_reservation) k
        ]

    abbrev Kept : Result QuotaError (UsageReservationResult × Option Violation) × Store → Type 0
    Kept out = Events out.1

    answer_existing-Events :
        (q : EffectiveQuota) (c : UsageCounter) (r : Option UsageReservation) (s : Store)
        → Events s
        → Events (answer_existing organization metric amount key now q c r s).1
    unfolding reserve_run
    answer_existing-Events q c none s k = place_reservation-Events q c none s k
    answer_existing-Events q c (some r) s k = if_both Kept (not (r.amount == amount)) k (
        if_both Kept (is_live organization metric amount key now r) k
          (place_reservation-Events q c (some r) s k))

    reserve_body-Events :
        (s : Store) → Events s → Events (reserve_body organization metric amount key now s).1
    unfolding reserve_run
    reserve_body-Events s k =
        let q = resolve s.directory organization metric now in
        >>=-keeps Events (upsert_counter q) (reserve_at organization metric amount key now q) s
          (upsert_counter-Events q s k)
          (λ c s₁ k₁.
            answer_existing-Events q c
              (find (is_keyed organization metric key) (expire_due c now s₁).reservations)
              (expire_due c now s₁) k₁)

    report-Events :
        (actor : Option ℕ) (request : Option String)
        (out : UsageReservationResult × Option Violation) (s : Store)
        → Events s
        → Events (report organization metric amount key now actor request out s).1
    unfolding reserve_run
    report-Events actor request (r, none) s k = k
    report-Events actor request (r, some v) s k = k

    assert_amount-Events : (s : Store) → Events s → Events (assert_amount amount key s).1
    unfolding reserve_run
    assert_amount-Events s k = elim (Bool-cases (amount == 0)) [
      | inl zero ↦ rw zero k
      | inr positive ↦ elim (Bool-cases (is_blank key)) [
        | inl blank ↦ rw (positive, blank) k
        | inr named ↦ rw (positive, named) k
      ]
    ]

    pub reserve-Events :
        (actor : Option ℕ) (request : Option String) (s : Store)
        → Events s
        → Events (reserve organization metric amount key now actor request s).1
    unfolding reserve_run
    reserve-Events actor request s k =
        >>=-keeps Events (assert_amount amount key)
          (λ _.
            transaction (reserve_body organization metric amount key now)
            >>= report organization metric amount key now actor request)
          s (assert_amount-Events s k)
          (λ _ s₁ k₁.
            >>=-keeps Events (transaction (reserve_body organization metric amount key now))
              (report organization metric amount key now actor request) s₁
              (transaction-keeps Events (reserve_body organization metric amount key now) s₁ k₁
                (reserve_body-Events s₁ k₁))
              (report-Events actor request))

  record_threshold-Events :
      (c : UsageCounter) (limit now threshold : ℕ) (s : Store)
      → Events s
      → Events (record_threshold c limit now threshold s)
  unfolding commit_run
  record_threshold-Events c limit now threshold s k =
      if_both Events
        (leb (limit * threshold) (c.current_value * 100)
          && not (any (is_threshold_of c threshold) s.threshold_events))
        k k

  thresholds-Events :
      (c : UsageCounter) (limit : Option ℕ) (now : ℕ) (s : Store)
      → Events s
      → Events (thresholds c limit now s)
  unfolding commit_run
  thresholds-Events c none now s k = k
  thresholds-Events c (some limit) now s k = if_both Events (limit == 0) k (
      record_threshold-Events c limit now 90 (record_threshold c limit now 80 s)
        (record_threshold-Events c limit now 80 s k))

  commit_row-Events :
      (now : ℕ) (r : UsageReservation) (s : Store) → Events s → Events (commit_row now r s).1
  unfolding commit_run
  commit_row-Events now r s k = elim (Bool-cases (is_reserved r.status)) [
    | inr shut ↦ rw shut k
    | inl opened ↦ elim (Option-cases (find (λ c. c.id == r.counter_id) s.counters)) [
      | inl missing ↦ rw (opened, missing) k
      | inr (c, owner) ↦
          rw (opened, owner)
            (thresholds-Events (increment r.amount c) c.effective_hard_limit now
              (move_to_usage now r s) k)
    ]
  ]

  commit_one-Events : (now id : ℕ) (s : Store) → Events s → Events (commit_one now id s).1
  unfolding commit_run
  commit_one-Events now id s k = elim (Option-cases (find (λ r. r.id == id) s.reservations)) [
    | inl missing ↦ rw (missing, commit_one) k
    | inr (r, found) ↦ rw (found, commit_one) (commit_row-Events now r s k)
  ]

  commit_all-Events :
      (now : ℕ) (ids : List ℕ) (s : Store) → Events s → Events (commit_all now ids s).1
  unfolding commit_run
  commit_all-Events now [] s k = k
  commit_all-Events now (id ∷ ids) s k =
      >>=-keeps Events (commit_one now id)
        (λ result. commit_all now ids >>= λ results. pure (result ∷ results)) s
        (commit_one-Events now id s k)
        (λ result s₁ k₁.
          >>=-keeps Events (commit_all now ids) (λ results. pure (result ∷ results)) s₁
            (commit_all-Events now ids s₁ k₁) (λ results s₂ k₂. k₂))

  pub commit_reservation-Events :
      (id : Option ℕ) (now : ℕ) (s : Store) → Events s → Events (commit_reservation id now s).1
  unfolding commit_run
  commit_reservation-Events none now s k = k
  commit_reservation-Events (some id) now s k =
      >>=-keeps Events (commit_reservations (some id ∷ []) now)
        (λ results. pure (first_result results)) s
        (transaction-keeps Events (commit_all now (id ∷ [])) s k
          (commit_all-Events now (id ∷ []) s k))
        (λ results s₁ k₁. k₁)

  pub release_reservation-Events :
      (id : Option ℕ) (now : ℕ) (s : Store) → Events s → Events (release_reservation id now s).1
  unfolding commit_run
  release_reservation-Events none now s k = k
  release_reservation-Events (some id) now s k = k
