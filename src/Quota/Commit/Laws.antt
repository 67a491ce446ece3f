-- ===== src/Quota/Commit/Laws.antt =====
-- Theorems on the loads of the counters across commits (src/quota/quota.service.ts).
use content_intelligence_bac.Base.{
  ℕ, ◌+◌, ◌≡◌, refl, arith, true, false, ◌&&◌, Option, none, some, List, [], ◌∷◌, ◌∙◌, ◌==◌,
  if◌then◌else◌, inl, inr, Option-cases, Bool-cases, find, find_holds, find-by_key, update_where,
  Distinct-update_where, Below-update_where, sum_where-update_found, Action, pure, >>=-keeps,
  transaction-keeps, ◌>>=◌, ==_iff,
}
use content_intelligence_bac.Quota.Model.{UsageCounter, UsageReservation, Store, is_reserved}
use content_intelligence_bac.Quota.Tables.{QuotaError, is_open, held}
use content_intelligence_bac.Quota.Tables.Laws.{counter_id, reservation_id, IsValid, usage, load}
use content_intelligence_bac.Quota.Commit.{
  CommitResult, record_threshold, thresholds, increment, mark_committed, move_to_usage, commit_row,
  commit_one, commit_all, distinct_ids, commit_reservations,
}

-- The thresholds write their own events and the audit log, and nothing else.
abbrev pub SameQuota : Store → Store → Type 0
SameQuota s s' =
    (s'.counters ≡ s.counters) × (s'.reservations ≡ s.reservations) × (s'.next_id ≡ s.next_id)

record_threshold-SameQuota :
    (c : UsageCounter) (limit now threshold : ℕ) (s : Store)
    → SameQuota s (record_threshold c limit now threshold s)
unfolding record_threshold
record_threshold-SameQuota c limit now threshold s = ground arith

pub thresholds-SameQuota :
    (c : UsageCounter) (limit : Option ℕ) (now : ℕ) (s : Store)
    → SameQuota s (thresholds c limit now s)
unfolding thresholds
thresholds-SameQuota c none now s = (refl, refl, refl)
thresholds-SameQuota c (some limit) now s = elim (Bool-cases (limit == 0)) [
  | inl zero ↦ rw zero (refl, refl, refl)
  | inr positive ↦
      let first = record_threshold-SameQuota c limit now 80 s in
      let second = record_threshold-SameQuota c limit now 90 (record_threshold c limit now 80 s) in
      rw positive (second.0 ∙ first.0, second.1 ∙ first.1, second.2 ∙ first.2)
]

module _ (now : ℕ) (r : UsageReservation) (c : UsageCounter) (s : Store) (v : IsValid s)
    (listed : find (λ x. x.id == r.id) s.reservations ≡ some r)
    (owner : find (λ x. x.id == r.counter_id) s.counters ≡ some c)
    (opened : is_reserved r.status ≡ true) where
  move_to_usage-usage :
      (id : ℕ)
      → usage id (move_to_usage now r s).counters
        ≡ usage id s.counters + (if r.counter_id == id then r.amount else 0)
  unfolding move_to_usage
  move_to_usage-usage id =
      let before : ℕ = usage id s.counters in
      let after : ℕ =
        usage id (update_where (λ x. x.id == r.counter_id) (increment r.amount) s.counters) in
      let moved : after + (if c.id == id then c.current_value else 0)
          ≡ before + (if c.id == id then c.current_value + r.amount else 0) =
        sum_where-update_found counter_id r.counter_id (increment r.amount) (λ x. x.id == id)
          (λ x. x.current_value) s.counters c v.counters_distinct owner in
      let same : c.id ≡ r.counter_id =
        (==_iff _ _).0 (find_holds (λ x. x.id == r.counter_id) s.counters c owner) in
      elim (Bool-cases (r.counter_id == id)) [
        | inl own ↦ rw own (omega (arith, rw (same, own) at moved))
        | inr other ↦ rw other (omega (arith, rw (same, other) at moved))
      ]

  move_to_usage-held :
      (id : ℕ)
      → held id (move_to_usage now r s).reservations + (if r.counter_id == id then r.amount else 0)
        ≡ held id s.reservations
  unfolding move_to_usage
  move_to_usage-held id =
      let before : ℕ = held id s.reservations in
      let after : ℕ =
        held id (update_where (λ x. x.id == r.id) (mark_committed now) s.reservations) in
      let moved : after + (if (r.counter_id == id) && is_reserved r.status then r.amount else 0)
          ≡ before + (if (r.counter_id == id) && false then r.amount else 0) =
        sum_where-update_found reservation_id r.id (mark_committed now) (is_open id) (λ x. x.amount)
          s.reservations r v.reservations_distinct listed in
      elim (Bool-cases (r.counter_id == id)) [
        | inl own ↦ rw own (omega (arith, rw (own, opened) at moved))
        | inr other ↦ rw other (omega (arith, rw other at moved))
      ]

  move_to_usage-load : (id : ℕ) → load id (move_to_usage now r s) ≡ load id s
  move_to_usage-load id = omega (arith, move_to_usage-usage id, move_to_usage-held id)

  move_to_usage-IsValid : IsValid (move_to_usage now r s)
  unfolding move_to_usage
  move_to_usage-IsValid = record {
    counters_distinct =
        Distinct-update_where counter_id (λ x. x.id == r.counter_id) (increment r.amount)
          (λ x. refl) s.counters v.counters_distinct;
    counters_below =
        Below-update_where counter_id (λ x. x.id == r.counter_id) (increment r.amount) (λ x. refl)
          s.next_id s.counters v.counters_below;
    reservations_distinct =
        Distinct-update_where reservation_id (λ x. x.id == r.id) (mark_committed now) (λ x. refl)
          s.reservations v.reservations_distinct;
    reservations_below =
        Below-update_where reservation_id (λ x. x.id == r.id) (mark_committed now) (λ x. refl)
          s.next_id s.reservations v.reservations_below;
  }

-- A state in which every load and the identifiers are as before.
pub record KeepsLoads (s s' : Store) : Type 0 where
  pub valid : IsValid s'
  pub loads : (id : ℕ) → load id s' ≡ load id s

KeepsLoads-refl : (s : Store) → IsValid s → KeepsLoads s s
KeepsLoads-refl s v = record { valid = v; loads = λ id. refl }

KeepsLoads-trans : (s t u : Store) → KeepsLoads s t → KeepsLoads t u → KeepsLoads s u
KeepsLoads-trans s t u a b = record { valid = b.valid; loads = λ id. b.loads id ∙ a.loads id }

thresholds-KeepsLoads :
    (c : UsageCounter) (limit : Option ℕ) (now : ℕ) (s : Store)
    → IsValid s
    → KeepsLoads s (thresholds c limit now s)
thresholds-KeepsLoads c limit now s v =
    let (counters, reservations, next) = thresholds-SameQuota c limit now s in
    record {
      valid = record {
        counters_distinct = rw counters v.counters_distinct;
        counters_below = rw (counters, next) v.counters_below;
        reservations_distinct = rw reservations v.reservations_distinct;
        reservations_below = rw (reservations, next) v.reservations_below;
      };
      loads = λ id. rw (counters, reservations);
    }

commit_row-KeepsLoads :
    (now : ℕ) (r : UsageReservation) (s : Store)
    → IsValid s
    → find (λ x. x.id == r.id) s.reservations ≡ some r
    → KeepsLoads s (commit_row now r s).1
unfolding commit_row
commit_row-KeepsLoads now r s v listed = elim (Bool-cases (is_reserved r.status)) [
  | inr shut ↦ rw shut (KeepsLoads-refl s v)
  | inl opened ↦ elim (Option-cases (find (λ c. c.id == r.counter_id) s.counters)) [
    | inl missing ↦ rw (opened, missing) (KeepsLoads-refl s v)
    | inr (c, owner) ↦
        rw (opened, owner)
          (KeepsLoads-trans s (move_to_usage now r s) _
            (record {
              valid = move_to_usage-IsValid now r c s v listed owner opened;
              loads = move_to_usage-load now r c s v listed owner opened;
            })
            (thresholds-KeepsLoads (increment r.amount c) c.effective_hard_limit now
              (move_to_usage now r s) (move_to_usage-IsValid now r c s v listed owner opened)))
  ]
]

commit_one-KeepsLoads : (now id : ℕ) (s : Store) → IsValid s → KeepsLoads s (commit_one now id s).1
unfolding commit_one
commit_one-KeepsLoads now id s v = elim (Option-cases (find (λ r. r.id == id) s.reservations)) [
  | inl missing ↦ rw (missing, commit_one) (KeepsLoads-refl s v)
  | inr (r, found) ↦
      rw (found, commit_one)
        (commit_row-KeepsLoads now r s v (
          find-by_key reservation_id (λ r. r.id == id) s.reservations r v.reservations_distinct
            found))
]

abbrev commit_rest : ℕ → List ℕ → CommitResult → Action Store QuotaError (List CommitResult)
commit_rest now ids result = commit_all now ids >>= λ results. pure (result ∷ results)

commit_all-KeepsLoads :
    (now : ℕ) (ids : List ℕ) (s : Store) → IsValid s → KeepsLoads s (commit_all now ids s).1
unfolding commit_all
commit_all-KeepsLoads now [] s v = KeepsLoads-refl s v
commit_all-KeepsLoads now (id ∷ ids) s v =
    >>=-keeps (KeepsLoads s) (commit_one now id) (commit_rest now ids) s
      (commit_one-KeepsLoads now id s v)
      (λ result s₁ k.
        >>=-keeps (KeepsLoads s) (commit_all now ids) (λ results. pure (result ∷ results)) s₁
          (KeepsLoads-trans s s₁ _ k (commit_all-KeepsLoads now ids s₁ k.valid))
          (λ results s₂ k. k))

-- Whatever `commitReservations` answers, and whether or not it throws, well-formed tables stay so
-- and every counter's usage with its open reservations is as before.
pub commit_reservations-KeepsLoads :
    (ids : List (Option ℕ)) (now : ℕ) (s : Store)
    → IsValid s
    → KeepsLoads s (commit_reservations ids now s).1
unfolding commit_reservations
commit_reservations-KeepsLoads ids now s v =
    transaction-keeps (KeepsLoads s) (commit_all now (distinct_ids ids)) s (KeepsLoads-refl s v)
      (commit_all-KeepsLoads now (distinct_ids ids) s v)
