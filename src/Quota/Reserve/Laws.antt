-- ===== src/Quota/Reserve/Laws.antt =====
-- Lemmas on the path that the transaction of `reserve` takes (src/quota/quota.service.ts), by cases.
pub mod Written
use content_intelligence_bac.Base.{
  ℕ, ◌+◌, suc, ◌≤◌, ◌<◌, ◌≡◌, ◌≢◌, refl, arith, ap, Bool, true, false, not, ◌&&◌, ◌||◌, Option,
  none, some, List, [], ◌∷◌, ◌∙◌, ◌==◌, if◌then◌else◌, inl, inr, Option-cases, Bool-cases, String,
  find, update_where, snoc, Distinct-update_where, Below-update_where, Result, ok, err, is_blank,
  ltb, ◌>>=◌, >>=-ok, >>=-err,
}
use content_intelligence_bac.Quota.Model.{
  QuotaMetric, ReservationStatus, UsageCounter, UsageReservation, Store, is_reserved, is_committed,
}
use content_intelligence_bac.Quota.Resolver.{EffectiveQuota, resolve}
use content_intelligence_bac.Quota.Tables.{
  QuotaError, amount_mismatch, constraint_violated, is_accepted, upsert_counter, store_counter,
  is_keyed, is_open, is_overdue, expire, held,
}
use content_intelligence_bac.Quota.Tables.Laws.{
  counter_id, reservation_id, IsValid, usage, load, store_counter-IsValid, store_counter-usage,
  store_counter-reservations, store_counter-audit_logs,
}
use content_intelligence_bac.Quota.Reserve.{
  UsageReservationResult, ReserveStatus, reserved, already_reserved, bypassed, Violation, exceeds,
  write_reservation, place_reservation, is_live, expire_due, reserve_at, answer_existing,
  reserve_body, report, assert_amount, reserve, reservation_ttl,
}
use content_intelligence_bac.Quota.Reserve.Laws.Written.{IsWritten, write_new, write_again}

-- A quota that is enforced at some limit.
pub record IsLimited (q : EffectiveQuota) (limit : ℕ) : Type 0 where
  pub enabled : q.enabled ≡ true
  pub finite : q.is_unlimited ≡ false
  pub hard_limit : q.hard_limit ≡ some limit

pub exceeds-none :
    (q : EffectiveQuota) (limit current amount : ℕ)
    → IsLimited q limit
    → exceeds q current amount ≡ none
    → current + amount ≤ limit
unfolding exceeds
exceeds-none q limit current amount l h = ground arith

pub exceeds-some :
    (q : EffectiveQuota) (current amount : ℕ) (v : Violation)
    → exceeds q current amount ≡ some v
    → IsLimited q v.limit × (v.current ≡ current) × (v.limit < current + amount)
unfolding exceeds
exceeds-some q current amount v h = (
  record { enabled = ground arith; finite = ground arith; hard_limit = ground arith },
  ground arith,
  ground arith,
)

abbrev pub is_due : UsageCounter → ℕ → UsageReservation → Bool
is_due c now r = r.counter_id == c.id && is_overdue now r

-- The counter and the tables once the counter is written and its overdue reservations are expired.
unfoldable pub prepare : EffectiveQuota → (now : ℕ) → Store → UsageCounter × Store
prepare q now s = let (c, s') = store_counter q s in (c, expire_due c now s')

module _ (q : EffectiveQuota) (now : ℕ) (s : Store) where
  pub prepare-reservations :
      (prepare q now s).1.reservations
      ≡ update_where (is_due (prepare q now s).0 now) (expire now) s.reservations
  unfolding prepare expire_due
  prepare-reservations = rw (store_counter-reservations q s)

  pub prepare-audit_logs : (prepare q now s).1.audit_logs ≡ s.audit_logs
  unfolding prepare expire_due
  prepare-audit_logs = store_counter-audit_logs q s

  module _ (v : IsValid s) where
    pub prepare-usage :
        usage (prepare q now s).0.id (prepare q now s).1.counters
        ≡ (prepare q now s).0.current_value
    unfolding prepare expire_due
    prepare-usage = store_counter-usage q s v

    pub prepare-IsValid : IsValid (prepare q now s).1
    unfolding prepare expire_due
    prepare-IsValid =
        let w = store_counter-IsValid q s v in
        let (c, s') = store_counter q s in
        record {
          counters_distinct = w.counters_distinct;
          counters_below = w.counters_below;
          reservations_distinct =
              Distinct-update_where reservation_id (is_due c now) (expire now) (λ x. refl)
                s'.reservations w.reservations_distinct;
          reservations_below =
              Below-update_where reservation_id (is_due c now) (expire now) (λ x. refl) s'.next_id
                s'.reservations w.reservations_below;
        }

-- No row of the key is reserved or committed.
abbrev pub IsVacant : ℕ → QuotaMetric → String → Store → Type 0
IsVacant organization metric key s =
    (r : UsageReservation)
    → find (is_keyed organization metric key) s.reservations ≡ some r
    → (is_reserved r.status || is_committed r.status) ≡ false

abbrev Outcome : Type 0
Outcome = Result QuotaError (UsageReservationResult × Option Violation) × Store

-- The four ways in which the transaction answers, from the prepared state `s`.
pub data Answer (organization : ℕ) (metric : QuotaMetric) (amount : ℕ) (key : String) (now : ℕ)
    (q : EffectiveQuota) (c : UsageCounter) (s : Store) (out : Outcome) : Type 0 where
  mismatched :
      (r : UsageReservation)
      → find (is_keyed organization metric key) s.reservations ≡ some r
      → r.amount ≢ amount
      → out ≡ (err amount_mismatch, s)
      → Answer organization metric amount key now q c s out
  repeated :
      (r : UsageReservation)
      → find (is_keyed organization metric key) s.reservations ≡ some r
      → r.amount ≡ amount
      → (is_reserved r.status || is_committed r.status) ≡ true
      → out ≡ (
        ok (record { reservation_id = some r.id; status = already_reserved; quota = q }, none),
        s,
      )
      → Answer organization metric amount key now q c s out
  refused :
      (v : Violation)
      → IsVacant organization metric key s
      → exceeds q (c.current_value + held c.id s.reservations) amount ≡ some v
      → out ≡ (ok (record { reservation_id = none; status = bypassed; quota = q }, some v), s)
      → Answer organization metric amount key now q c s out
  written :
      (id : ℕ) (s' : Store)
      → IsVacant organization metric key s
      → exceeds q (c.current_value + held c.id s.reservations) amount ≡ none
      → IsWritten organization metric amount key now c s id s'
      → out ≡ (ok (record { reservation_id = some id; status = reserved; quota = q }, none), s')
      → Answer organization metric amount key now q c s out

module _ (organization : ℕ) (metric : QuotaMetric) (amount : ℕ) (key : String) (now : ℕ) where
  module _ (q : EffectiveQuota) (c : UsageCounter) (s : Store) (v : IsValid s) where
    place-Answer :
        (existing : Option UsageReservation)
        → IsVacant organization metric key s
        → IsWritten organization metric amount key now c s
            (write_reservation organization metric amount key now c existing s).0
            (write_reservation organization metric amount key now c existing s).1
        → Answer organization metric amount key now q c s
            (place_reservation organization metric amount key now q c existing s)
    unfolding place_reservation
    place-Answer existing vacant w =
        elim (Option-cases (exceeds q (c.current_value + held c.id s.reservations) amount)) [
          | inl within ↦ written _ _ vacant within w (rw (within, place_reservation))
          | inr (violation, over) ↦ refused violation vacant over (rw (over, place_reservation))
        ]

    answer_existing-Answer : Answer organization metric amount key now q c s (
        answer_existing organization metric amount key now q c
          (find (is_keyed organization metric key) s.reservations)
          s)
    unfolding answer_existing is_live
    answer_existing-Answer =
        elim (Option-cases (find (is_keyed organization metric key) s.reservations)) [
          | inl missing ↦
              rw (missing, answer_existing)
                (place-Answer none (λ r found. absurd (ground arith))
                  (write_new organization metric amount key now c s v missing))
          | inr (r, found) ↦
              rw (found, answer_existing)
                (elim (Bool-cases (r.amount == amount)) [
                  | inl same ↦ elim (Bool-cases (is_reserved r.status || is_committed r.status)) [
                    | inl live ↦ repeated r found (ground arith) live (rw (same, live))
                    | inr dead ↦
                        rw (same, dead)
                          (place-Answer (some r) (λ x f. let same : r ≡ x = cc in rw (← same) dead)
                            (write_again organization metric amount key now c s v r found
                              (ground arith)))
                  ]
                  | inr other ↦ mismatched r found (ground arith) (rw other)
                ])
        ]

  -- What the transaction's body does with a counter that the database takes or refuses.
  module _ (s : Store) where
    upsert_counter-accepted :
        (q : EffectiveQuota)
        → is_accepted q s ≡ true
        → upsert_counter q s ≡ (ok (store_counter q s).0, (store_counter q s).1)
    unfolding upsert_counter
    upsert_counter-accepted q h = rw h refl

    upsert_counter-refused :
        (q : EffectiveQuota)
        → is_accepted q s ≡ false
        → upsert_counter q s ≡ (err constraint_violated, s)
    unfolding upsert_counter
    upsert_counter-refused q h = rw h refl

    accepted_body :
        (q : EffectiveQuota)
        → is_accepted q s ≡ true
        → let (c, s') = prepare q now s in
          (upsert_counter q >>= reserve_at organization metric amount key now q) s
          ≡ answer_existing organization metric amount key now q c
              (find (is_keyed organization metric key) s'.reservations)
              s'
    unfolding prepare reserve_at
    accepted_body q h =
        >>=-ok (upsert_counter q) s (reserve_at organization metric amount key now q) _ _
          (upsert_counter-accepted q h)

    refused_body :
        (q : EffectiveQuota)
        → is_accepted q s ≡ false
        → (upsert_counter q >>= reserve_at organization metric amount key now q) s
          ≡ (err constraint_violated, s)
    refused_body q h =
        >>=-err (upsert_counter q) s (reserve_at organization metric amount key now q) _ s
          (upsert_counter-refused q h)

  -- The transaction's body answers in one of these ways, from the state that `prepare` leaves, where
  -- the database takes the counter.
  module _ (s : Store) (v : IsValid s) where
    abbrev quota_now : EffectiveQuota
    quota_now = resolve s.directory organization metric now

    pub reserve_body-Answer :
        is_accepted quota_now s ≡ true
        → Answer organization metric amount key now quota_now
            (prepare quota_now now s).0
            (prepare quota_now now s).1
            (reserve_body organization metric amount key now s)
    unfolding reserve_body
    reserve_body-Answer accepted = rw (accepted_body s quota_now accepted) (
        answer_existing-Answer quota_now (prepare quota_now now s).0 (prepare quota_now now s).1
          (prepare-IsValid quota_now now s v))

  -- A body that answers had its counter accepted.
  pub reserve_body-accepted :
      (s s' : Store) (answer : UsageReservationResult × Option Violation)
      → reserve_body organization metric amount key now s ≡ (ok answer, s')
      → is_accepted (resolve s.directory organization metric now) s ≡ true
  unfolding reserve_body
  reserve_body-accepted s s' answer h =
      let q = resolve s.directory organization metric now in
      elim (Bool-cases (is_accepted q s)) [
        | inl accepted ↦ accepted
        | inr not_taken ↦ absurd (cc (rw (refused_body s q not_taken) at h))
      ]

  pub reserve_body-refused :
      (s : Store)
      → is_accepted (resolve s.directory organization metric now) s ≡ false
      → reserve_body organization metric amount key now s ≡ (err constraint_violated, s)
  unfolding reserve_body
  reserve_body-refused s h = refused_body s (resolve s.directory organization metric now) h
