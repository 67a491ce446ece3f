-- ===== src/Quota/Reserve/Repeat.antt =====
-- Repeating a call of `reserve` with the same key (src/quota/quota.service.ts).
use content_intelligence_bac.Base.{
  ℕ, ◌+◌, ◌<◌, ◌≡◌, refl, arith, sym, true, false, Option, none, some, ◌∙◌, ◌==◌, String, find,
  update_where, find-update_where, ok, is_blank,
}
use content_intelligence_bac.Quota.Model.{
  QuotaMetric, ReservationStatus, UsageCounter, UsageReservation, Store,
}
use content_intelligence_bac.Quota.Resolver.{EffectiveQuota, resolve}
use content_intelligence_bac.Quota.Tables.{is_accepted, is_keyed, expire}
use content_intelligence_bac.Quota.Tables.Laws.{IsValid}
use content_intelligence_bac.Quota.Reserve.{
  UsageReservationResult, reserved, already_reserved, reserve_body, report, reserve,
  reservation_ttl,
}
use content_intelligence_bac.Quota.Reserve.Laws.{
  is_due, prepare, reserve_body-accepted, prepare-reservations, Answer, mismatched, repeated,
  refused, written, reserve_body-Answer,
}
use content_intelligence_bac.Quota.Reserve.Safety.{reserve-asserted, reserve-IsReserved}

module _ (organization : ℕ) (metric : QuotaMetric) (amount : ℕ) (key : String) where
  -- A live row of the key with the same amount.
  record IsHeld (id : ℕ) (until : ℕ) (s : Store) : Type 0 where
    row : UsageReservation
    found : find (is_keyed organization metric key) s.reservations ≡ some row
    numbered : row.id ≡ id
    amounts : row.amount ≡ amount
    opened : row.status ≡ ReservationStatus.reserved
    expires : row.expires_at ≡ some until
    valid : IsValid s

  -- What a repeated call answers: the same identifier, and no reservation is added or changed, but
  -- for those that are overdue.
  pub record IsRepeated (now id : ℕ) (actor : Option ℕ) (request : Option String) (s : Store)
      : Type 0 where
    pub counter : UsageCounter
    pub result : UsageReservationResult
    pub after : Store
    pub answered : reserve organization metric amount key now actor request s ≡ (ok result, after)
    pub status : result.status ≡ already_reserved
    pub same : result.reservation_id ≡ some id
    pub reservations_kept :
        after.reservations ≡ update_where (is_due counter now) (expire now) s.reservations

  module _ (now : ℕ) (actor : Option ℕ) (request : Option String) (s : Store) where
    abbrev q : EffectiveQuota
    q = resolve s.directory organization metric now

    abbrev c : UsageCounter
    c = (prepare q now s).0

    abbrev p : Store
    p = (prepare q now s).1

    module _ (id until : ℕ) (held : IsHeld id until s) (soon : now < until) where
      still_found : find (is_keyed organization metric key) p.reservations ≡ some held.row
      still_found =
          let live : is_due c now held.row ≡ false = ground (arith, held.expires, held.opened) in
          rw (prepare-reservations q now s) (
            find-update_where (is_keyed organization metric key) (is_due c now) (expire now)
              (λ x. refl) s.reservations
            ∙ rw held.found (rw live))

      repeated_body :
          Answer organization metric amount key now q c p
            (reserve_body organization metric amount key now s)
          → reserve_body organization metric amount key now s ≡ (
            ok (record { reservation_id = some id; status = already_reserved; quota = q }, none),
            p,
          )
      repeated_body (mismatched x f a e) =
          let same : held.row ≡ x = cc still_found in absurd (a (rw (← same) held.amounts))
      repeated_body (repeated x f a live e) =
          let same : held.row ≡ x = cc still_found in rw e (rw (← same, held.numbered))
      repeated_body (refused x vacant f e) =
          absurd (ground (arith, vacant held.row still_found, held.opened))
      repeated_body (written id' s'' vacant fits w e) =
          absurd (ground (arith, vacant held.row still_found, held.opened))

      repeat-IsRepeated :
          is_accepted q s ≡ true
          → (amount == 0) ≡ false
          → is_blank key ≡ false
          → IsRepeated now id actor request s
      unfolding report
      repeat-IsRepeated accepted positive given =
          let body =
            repeated_body
              (reserve_body-Answer organization metric amount key now s held.valid accepted) in
          record {
            counter = c;
            result = record { reservation_id = some id; status = already_reserved; quota = q };
            after = p;
            answered =
                reserve-asserted organization metric amount key now actor request s positive given
                ∙ rw body;
            status = refl;
            same = refl;
            reservations_kept = prepare-reservations q now s;
          }

  module _ (now : ℕ) (s : Store) where
    written_IsHeld :
        (r : UsageReservationResult) (s' : Store)
        → r.status ≡ reserved
        → reserve_body organization metric amount key now s ≡ (ok (r, none), s')
        → Answer organization metric amount key now
            (q now none none s)
            (c now none none s)
            (p now none none s)
            (reserve_body organization metric amount key now s)
        → (id : ℕ) × (r.reservation_id ≡ some id) × IsHeld id (now + reservation_ttl) s'
    written_IsHeld r s' fresh b (mismatched x f a e) = absurd (cc)
    written_IsHeld r s' fresh b (repeated x f a live e) = absurd (cc)
    written_IsHeld r s' fresh b (refused x vacant f e) = absurd (cc)
    written_IsHeld r s' fresh b (written id s'' vacant fits w e) =
        let state : s'' ≡ s' = cc in
        let named : some id ≡ r.reservation_id = cc in
        (
          id,
          sym named,
          rw (← state) (record {
            row = w.row;
            found = w.by_key;
            numbered = w.numbered;
            amounts = w.amounts;
            opened = w.opened;
            expires = w.expires;
            valid = w.valid;
          }),
        )

    -- In well-formed tables, within its time to live a reservation is made once: a second call with
    -- its key and amount, with no other call in between and whose write of the counter the database
    -- takes, answers `ALREADY_RESERVED` with the same identifier, adds no reservation, and changes no reservation but the overdue ones of its
    -- counter.
    pub reserve_again :
        (actor : Option ℕ) (request : Option String) (r : UsageReservationResult) (s' : Store)
        → IsValid s
        → reserve organization metric amount key now actor request s ≡ (ok r, s')
        → r.status ≡ reserved
        → (later : ℕ) (actor' : Option ℕ) (request' : Option String) → later < now + reservation_ttl
        → is_accepted (resolve s'.directory organization metric later) s' ≡ true
        → (id : ℕ) × (r.reservation_id ≡ some id) × IsRepeated later id actor' request' s'
    reserve_again actor request r s' v h fresh later actor' request' soon accepted =
        let made = reserve-IsReserved organization metric amount key now actor request s r s' h in
        let (id, named, held) = written_IsHeld r s' fresh made.body (
          reserve_body-Answer organization metric amount key now s v
            (reserve_body-accepted organization metric amount key now s s' (r, none) made.body)) in
        (
          id,
          named,
          repeat-IsRepeated later actor' request' s' id (now + reservation_ttl) held soon accepted
              made.positive made.given,
        )
