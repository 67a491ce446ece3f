-- ===== src/Quota/Reserve/Laws/Written.antt =====
-- The two ways to write a reservation: a new row, and an old row of the key that is used again.
use content_intelligence_bac.Base.{
  ℕ, ◌+◌, suc, ◌≡◌, refl, arith, Bool, true, false, ◌&&◌, none, some, ◌∙◌, ◌==◌, if◌then◌else◌,
  String, find, update_where, sum_where-snoc, find-snoc, Below-mono, Below-snoc, Distinct-snoc,
  Below-update_where, Distinct-update_where, find-by_key, find-update_where, find-absent,
  All-ne_of_Below, sum_where-update_found, ==_refl,
}
use text.Mathlib.TextPositions.{eq_refl}
use content_intelligence_bac.Quota.Model.{
  QuotaMetric, ReservationStatus, UsageCounter, UsageReservation, Store, is_reserved,
  metric_eq_refl,
}
use content_intelligence_bac.Quota.Tables.{is_keyed, is_open, held}
use content_intelligence_bac.Quota.Tables.Laws.{counter_id, reservation_id, IsValid}
use content_intelligence_bac.Quota.Reserve.{
  reservation_ttl, reopen, new_reservation, write_reservation,
}

-- What the write leaves behind: one open row under the key, whose amount now counts.
pub record IsWritten (organization : ℕ) (metric : QuotaMetric) (amount : ℕ) (key : String) (now : ℕ)
    (c : UsageCounter) (s : Store) (id : ℕ) (s' : Store) : Type 0 where
  pub row : UsageReservation
  pub by_id : find (λ x. x.id == id) s'.reservations ≡ some row
  pub by_key : find (is_keyed organization metric key) s'.reservations ≡ some row
  pub numbered : row.id ≡ id
  pub counted : row.counter_id ≡ c.id
  pub amounts : row.amount ≡ amount
  pub opened : row.status ≡ ReservationStatus.reserved
  pub expires : row.expires_at ≡ some (now + reservation_ttl)
  pub same_counters : s'.counters ≡ s.counters
  pub same_directory : s'.directory ≡ s.directory
  pub raised : held c.id s'.reservations ≡ held c.id s.reservations + amount
  pub valid : IsValid s'

module _ (organization : ℕ) (metric : QuotaMetric) (amount : ℕ) (key : String) (now : ℕ)
    (c : UsageCounter) (s : Store) (v : IsValid s) where
  pub write_new :
      find (is_keyed organization metric key) s.reservations ≡ none
      → IsWritten organization metric amount key now c s
          (write_reservation organization metric amount key now c none s).0
          (write_reservation organization metric amount key now c none s).1
  unfolding write_reservation
  write_new missing =
      let row = new_reservation s.next_id organization c.id metric key amount now in
      record {
        row = row;
        by_id =
            find-snoc (λ x. x.id == s.next_id) s.reservations row
              (find-absent reservation_id s.next_id s.reservations
                (All-ne_of_Below reservation_id s.next_id s.reservations v.reservations_below))
            ∙ rw (==_refl s.next_id);
        by_key =
            find-snoc (is_keyed organization metric key) s.reservations row missing
            ∙ rw (==_refl organization, metric_eq_refl metric, eq_refl key);
        numbered = refl;
        counted = refl;
        amounts = refl;
        opened = refl;
        expires = refl;
        same_counters = refl;
        same_directory = refl;
        raised =
            sum_where-snoc (is_open c.id) (λ r. r.amount) s.reservations row ∙ rw (==_refl c.id);
        valid = record {
          counters_distinct = v.counters_distinct;
          counters_below =
              Below-mono counter_id s.next_id _ s.counters (omega arith) v.counters_below;
          reservations_distinct =
              Distinct-snoc reservation_id s.next_id s.reservations row v.reservations_distinct
                v.reservations_below (omega arith);
          reservations_below =
              Below-snoc reservation_id (suc s.next_id) s.reservations row
                (Below-mono reservation_id s.next_id _ s.reservations (omega arith)
                  v.reservations_below)
                (omega arith);
        };
      }

  module _ (r : UsageReservation)
      (found : find (is_keyed organization metric key) s.reservations ≡ some r)
      (shut : is_reserved r.status ≡ false) where
    abbrev same_row : UsageReservation → Bool
    same_row x = x.id == r.id

    found_by_id : find same_row s.reservations ≡ some r
    found_by_id =
        find-by_key reservation_id (is_keyed organization metric key) s.reservations r
          v.reservations_distinct found

    held-reopen :
        held c.id (update_where same_row (reopen c.id amount now) s.reservations)
        ≡ held c.id s.reservations + amount
    held-reopen =
        let after : ℕ = held c.id (update_where same_row (reopen c.id amount now) s.reservations) in
        let moved : after + (if is_open c.id r then r.amount else 0)
            ≡ held c.id s.reservations + (if (c.id == c.id) && true then amount else 0) =
          sum_where-update_found reservation_id r.id (reopen c.id amount now) (is_open c.id)
            (λ x. x.amount) s.reservations r v.reservations_distinct found_by_id in
        let was_shut : is_open c.id r ≡ false = ground arith in
        omega (arith, rw (was_shut, ==_refl c.id) at moved)

    pub write_again :
        IsWritten organization metric amount key now c s
          (write_reservation organization metric amount key now c (some r) s).0
          (write_reservation organization metric amount key now c (some r) s).1
    unfolding write_reservation
    write_again = record {
      row = reopen c.id amount now r;
      by_id =
          find-update_where same_row same_row (reopen c.id amount now) (λ x. refl) s.reservations
          ∙ rw found_by_id (rw (==_refl r.id));
      by_key =
          find-update_where (is_keyed organization metric key) same_row (reopen c.id amount now)
            (λ x. refl) s.reservations
          ∙ rw found (rw (==_refl r.id));
      numbered = refl;
      counted = refl;
      amounts = refl;
      opened = refl;
      expires = refl;
      same_counters = refl;
      same_directory = refl;
      raised = held-reopen;
      valid = record {
        counters_distinct = v.counters_distinct;
        counters_below = v.counters_below;
        reservations_distinct =
            Distinct-update_where reservation_id same_row (reopen c.id amount now) (λ x. refl)
              s.reservations v.reservations_distinct;
        reservations_below =
            Below-update_where reservation_id same_row (reopen c.id amount now) (λ x. refl)
              s.next_id s.reservations v.reservations_below;
      };
    }
