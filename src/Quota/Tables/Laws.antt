-- ===== src/Quota/Tables/Laws.antt =====
-- The invariant of the quota tables, the load of a counter, and what the shared writes do to them.
use content_intelligence_bac.Base.{
  ℕ, ◌+◌, suc, ◌≡◌, refl, arith, Bool, List, [], ◌∷◌, ◌∙◌, ◌==◌, inl, inr, Option-cases, find,
  update_where, sum_where, sum_where-snoc, Distinct, Below, Below-mono, Below-snoc, Distinct-snoc,
  Below-update_where, Distinct-update_where, sum_where-found, sum_where-absent, find-by_key,
  All-ne_of_Below,
}
use content_intelligence_bac.Quota.Model.{UsageCounter, UsageReservation, Store}
use content_intelligence_bac.Quota.Resolver.{EffectiveQuota}
use content_intelligence_bac.Quota.Tables.{is_counter_of, configure, store_counter, held}

abbrev pub counter_id : UsageCounter → ℕ
counter_id c = c.id

abbrev pub reservation_id : UsageReservation → ℕ
reservation_id r = r.id

-- The identifiers of the counters and of the reservations are unique, and the database has not given
-- the next one yet.
pub record IsValid (s : Store) : Type 0 where
  pub counters_distinct : Distinct counter_id s.counters
  pub counters_below : Below counter_id s.next_id s.counters
  pub reservations_distinct : Distinct reservation_id s.reservations
  pub reservations_below : Below reservation_id s.next_id s.reservations

-- The usage that a counter records.
abbrev pub usage : ℕ → List UsageCounter → ℕ
usage id cs = sum_where (λ c. c.id == id) (λ c. c.current_value) cs

-- What counts against the limit: the usage and the open reservations.
abbrev pub load : ℕ → Store → ℕ
load id s = usage id s.counters + held id s.reservations

-- A write that leaves the numbers alone leaves the usage alone.
usage-configure :
    (d : UsageCounter → Bool) (q : EffectiveQuota) (id : ℕ) (cs : List UsageCounter)
    → usage id (update_where d (configure q) cs) ≡ usage id cs
usage-configure d q id [] = refl
usage-configure d q id (c ∷ cs) = ground (arith, usage-configure d q id cs)

module _ (q : EffectiveQuota) (s : Store) (v : IsValid s) where
  abbrev fits : UsageCounter → Bool
  fits = is_counter_of q.organization_id q.metric q.period_start

  pub store_counter-IsValid : IsValid (store_counter q s).1
  unfolding store_counter
  store_counter-IsValid = elim (Option-cases (find fits s.counters)) [
    | inl missing ↦
        rw (missing, store_counter)
          (record {
            counters_distinct =
                Distinct-snoc counter_id s.next_id s.counters _ v.counters_distinct v.counters_below
                  (omega arith);
            counters_below =
                Below-snoc counter_id (suc s.next_id) s.counters _
                  (Below-mono counter_id s.next_id _ s.counters (omega arith) v.counters_below)
                  (omega arith);
            reservations_distinct = v.reservations_distinct;
            reservations_below =
                Below-mono reservation_id s.next_id _ s.reservations (omega arith)
                  v.reservations_below;
          })
    | inr (c, found) ↦
        rw (found, store_counter)
          (record {
            counters_distinct =
                Distinct-update_where counter_id fits (configure q) (λ x. refl) s.counters
                  v.counters_distinct;
            counters_below =
                Below-update_where counter_id fits (configure q) (λ x. refl) s.next_id s.counters
                  v.counters_below;
            reservations_distinct = v.reservations_distinct;
            reservations_below = v.reservations_below;
          })
  ]

  -- The counter that the upsert returns records the usage of its number.
  pub store_counter-usage :
      usage (store_counter q s).0.id (store_counter q s).1.counters
      ≡ (store_counter q s).0.current_value
  unfolding store_counter
  store_counter-usage = elim (Option-cases (find fits s.counters)) [
    | inl missing ↦
        rw (missing, store_counter)
          (rw
            (
              sum_where-snoc (λ c. c.id == s.next_id) (λ c. c.current_value) s.counters _,
              sum_where-absent counter_id s.next_id (λ c. c.current_value) s.counters
                  (All-ne_of_Below counter_id s.next_id s.counters v.counters_below),
            )
            (ground arith))
    | inr (c, found) ↦
        rw (found, store_counter)
          (usage-configure fits q c.id s.counters
            ∙ sum_where-found counter_id c.id (λ x. x.current_value) s.counters c
                v.counters_distinct
                (find-by_key counter_id fits s.counters c v.counters_distinct found))
  ]

pub store_counter-audit_logs :
    (q : EffectiveQuota) (s : Store) → (store_counter q s).1.audit_logs ≡ s.audit_logs
unfolding store_counter
store_counter-audit_logs q s = ground arith

pub store_counter-reservations :
    (q : EffectiveQuota) (s : Store) → (store_counter q s).1.reservations ≡ s.reservations
unfolding store_counter
store_counter-reservations q s = ground arith
