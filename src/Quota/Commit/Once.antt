-- ===== src/Quota/Commit/Once.antt =====
-- Theorems on repeated commits, thresholds and releases (src/quota/quota.service.ts).
use content_intelligence_bac.Base.{
  ℕ, ◌+◌, ◌*◌, ◌≤◌, ◌≡◌, refl, arith, sym, Bool, true, false, not, ◌&&◌, Option, none, some, List,
  [], ◌∷◌, ◌∙◌, ◌==◌, if◌then◌else◌, inl, inr, Option-cases, Bool-cases, find, update_where, any,
  count_where, count_where-snoc, count_where-update_where, sum_where-update_found,
  find-update_where, Result, ok, err, ltb, leb, ==_refl,
}
use content_intelligence_bac.Quota.Model.{
  UsageCounter, UsageReservation, ThresholdEvent, Store, metric_code, is_reserved, is_committed,
}
use content_intelligence_bac.Quota.Tables.{QuotaError, held, is_open}
use content_intelligence_bac.Quota.Tables.Laws.{reservation_id, IsValid}
use content_intelligence_bac.Quota.Commit.{
  CommitResult, is_threshold_of, record_threshold, thresholds, increment, mark_committed,
  move_to_usage, commit_row, commit_one, is_releasable, mark_released, release_reservation,
}
use content_intelligence_bac.Quota.Commit.Laws.{thresholds-SameQuota}

-- The answer's `committed`, false where the call throws.
abbrev pub is_success : Result QuotaError CommitResult → Bool
is_success (ok r) = r.committed
is_success (err e) = false

-- A later commit of the same identifier answers alike and writes nothing.
pub record IsSettled (id : ℕ) (first : Result QuotaError CommitResult × Store) : Type 0 where
  pub again : (later : ℕ) → (commit_one later id first.1).1 ≡ first.1
  pub alike : (later : ℕ) → is_success (commit_one later id first.1).0 ≡ is_success first.0

module _ (id : ℕ) (s : Store) where
  missing-IsSettled :
      (r : Result QuotaError CommitResult)
      → find (λ r. r.id == id) s.reservations ≡ none
      → is_success r ≡ false
      → IsSettled id (r, s)
  unfolding commit_one
  missing-IsSettled r missing failed = record {
    again = λ later. rw (missing, commit_one);
    alike = λ later. rw (missing, commit_one) (sym failed);
  }

  shut-IsSettled :
      (r : UsageReservation) (out : Result QuotaError CommitResult)
      → find (λ r. r.id == id) s.reservations ≡ some r
      → is_reserved r.status ≡ false
      → is_success out ≡ is_committed r.status
      → IsSettled id (out, s)
  unfolding commit_one commit_row
  shut-IsSettled r out found shut same = record {
    again = λ later. rw (found, commit_one) (rw shut);
    alike = λ later. rw (found, commit_one) (rw (shut, same));
  }

  unowned-IsSettled :
      (r : UsageReservation) (e : QuotaError)
      → find (λ r. r.id == id) s.reservations ≡ some r
      → is_reserved r.status ≡ true
      → find (λ c. c.id == r.counter_id) s.counters ≡ none
      → IsSettled id (err e, s)
  unfolding commit_one commit_row
  unowned-IsSettled r e found opened missing = record {
    again = λ later. rw (found, commit_one) (rw (opened, missing));
    alike = λ later. rw (found, commit_one) (rw (opened, missing));
  }

module _ (id now : ℕ) (s : Store) (v : IsValid s) (r : UsageReservation)
    (found : find (λ r. r.id == id) s.reservations ≡ some r) where
  -- The row after its commit.
  committed_row :
      (c : UsageCounter) (limit : Option ℕ)
      → find (λ x. x.id == id) (thresholds c limit now (move_to_usage now r s)).reservations
        ≡ some (mark_committed now r)
  unfolding move_to_usage
  committed_row c limit = rw ((thresholds-SameQuota c limit now (move_to_usage now r s)).1) (
      find-update_where (λ x. x.id == id) (λ x. x.id == r.id) (mark_committed now) (λ x. refl)
        s.reservations
      ∙ rw found (rw (==_refl r.id)))

  commit_row-IsSettled : IsSettled id (commit_row now r s)
  unfolding commit_row
  commit_row-IsSettled = elim (Bool-cases (is_reserved r.status)) [
    | inr shut ↦ rw shut (shut-IsSettled id s r _ found shut refl)
    | inl opened ↦ elim (Option-cases (find (λ c. c.id == r.counter_id) s.counters)) [
      | inl missing ↦ rw (opened, missing) (unowned-IsSettled id s r _ found opened missing)
      | inr (c, owner) ↦
          rw (opened, owner)
            (shut-IsSettled id _ (mark_committed now r) _
              (committed_row (increment r.amount c) c.effective_hard_limit) refl refl)
    ]
  ]

-- In well-formed tables, after a commit of an identifier, whatever its state was, each further
-- commit of it leaves the whole store as it is and gives the same `committed`, a throw counting as
-- false.
pub commit_one-IsSettled : (id now : ℕ) (s : Store) → IsValid s → IsSettled id (commit_one now id s)
unfolding commit_one
commit_one-IsSettled id now s v = elim (Option-cases (find (λ r. r.id == id) s.reservations)) [
  | inl missing ↦ rw (missing, commit_one) (missing-IsSettled id s _ missing refl)
  | inr (r, found) ↦ rw (found, commit_one) (commit_row-IsSettled id now s v r found)
]

-- The numbers of the recorded events of a threshold.
abbrev pub recorded : UsageCounter → ℕ → Store → ℕ
recorded c threshold s = count_where (is_threshold_of c threshold) s.threshold_events

any-count_where :
    (p : ThresholdEvent → Bool) (es : List ThresholdEvent) → any p es ≡ ltb 0 (count_where p es)
any-count_where p [] = refl
any-count_where p (e ∷ es) = ground (arith, any-count_where p es)

-- One round records the threshold exactly when it is reached and was not recorded, and records no
-- other threshold of the same counter.
record_threshold-recorded :
    (c : UsageCounter) (limit now threshold : ℕ) (s : Store)
    → recorded c threshold s ≤ 1
    → recorded c threshold (record_threshold c limit now threshold s)
      ≡ (if leb (limit * threshold) (c.current_value * 100) then 1 else recorded c threshold s)
unfolding record_threshold
record_threshold-recorded c limit now threshold s once =
    let seen = any-count_where (is_threshold_of c threshold) s.threshold_events in
    elim (Bool-cases (leb (limit * threshold) (c.current_value * 100))) [
      | inr below ↦ rw below
      | inl reached ↦ elim (Bool-cases (any (is_threshold_of c threshold) s.threshold_events)) [
        | inl old ↦ rw (reached, old) (ground (arith, seen))
        | inr new ↦
            let zero : recorded c threshold s ≡ 0 = ground (arith, seen) in
            rw (reached, new)
              (count_where-snoc (is_threshold_of c threshold) s.threshold_events _
                ∙ rw (
                  zero,
                  ==_refl c.organization_id,
                  ==_refl (metric_code c.metric),
                  ==_refl c.period_start,
                  ==_refl threshold,
                ))
      ]
    ]

-- A round leaves the events of another threshold alone.
record_threshold-others :
    (c : UsageCounter) (limit now threshold other : ℕ) (s : Store)
    → (threshold == other) ≡ false
    → recorded c other (record_threshold c limit now threshold s) ≡ recorded c other s
unfolding record_threshold
record_threshold-others c limit now threshold other s apart =
    elim (Bool-cases (
      leb (limit * threshold) (c.current_value * 100)
      && not (any (is_threshold_of c threshold) s.threshold_events))) [
        | inr quiet ↦ rw quiet
        | inl loud ↦ rw loud (
            count_where-snoc (is_threshold_of c other) s.threshold_events _
            ∙ rw
                (
                  ==_refl c.organization_id,
                  ==_refl (metric_code c.metric),
                  ==_refl c.period_start,
                  apart,
                )
                (omega arith))
      ]

abbrev reaches : UsageCounter → (limit threshold : ℕ) → Bool
reaches c limit threshold = leb (limit * threshold) (c.current_value * 100)

-- With a positive hard limit, and at most one event of each threshold before, the 80 % and the 90 %
-- event of a counter's period are each there exactly once after the usage was checked, if the usage
-- has reached that share of the limit; otherwise the events are as many as they were.
pub thresholds-recorded :
    (c : UsageCounter) (now limit : ℕ) (s : Store)
    → (limit == 0) ≡ false
    → recorded c 80 s ≤ 1
    → recorded c 90 s ≤ 1
    → (recorded c 80 (thresholds c (some limit) now s)
        ≡ (if reaches c limit 80 then 1 else recorded c 80 s))
      × (recorded c 90 (thresholds c (some limit) now s)
          ≡ (if reaches c limit 90 then 1 else recorded c 90 s))
unfolding thresholds
thresholds-recorded c now limit s positive once₈₀ once₉₀ =
    let s₁ = record_threshold c limit now 80 s in
    let same : recorded c 90 s₁ ≡ recorded c 90 s =
      record_threshold-others c limit now 80 90 s refl in
    rw positive (
      record_threshold-others c limit now 90 80 s₁ refl
          ∙ record_threshold-recorded c limit now 80 s once₈₀,
      record_threshold-recorded c limit now 90 s₁ (rw same once₉₀) ∙ rw same,
    )

-- Only the rows that are still open matter to a release.
held-releasable :
    (id now counter : ℕ) (rs : List UsageReservation)
    → held counter (update_where (is_releasable id) (mark_released now) rs)
      ≡ held counter (update_where (λ x. x.id == id) (mark_released now) rs)
held-releasable id now counter [] = refl
held-releasable id now counter (r ∷ rs) = ground (arith, held-releasable id now counter rs)

held-released :
    (id now counter : ℕ) (s : Store) (r : UsageReservation)
    → IsValid s
    → find (λ x. x.id == id) s.reservations ≡ some r
    → is_reserved r.status ≡ true
    → held counter (update_where (is_releasable id) (mark_released now) s.reservations)
        + (if r.counter_id == counter then r.amount else 0)
      ≡ held counter s.reservations
held-released id now counter s r v found opened =
    let after : ℕ =
      held counter (update_where (λ x. x.id == id) (mark_released now) s.reservations) in
    let moved : after + (if (r.counter_id == counter) && is_reserved r.status then r.amount else 0)
        ≡ held counter s.reservations
          + (if (r.counter_id == counter) && false then r.amount else 0) =
      sum_where-update_found reservation_id id (mark_released now) (is_open counter) (λ x. x.amount)
        s.reservations r v.reservations_distinct found in
    rw (held-releasable id now counter s.reservations)
      (elim (Bool-cases (r.counter_id == counter)) [
        | inl own ↦ rw own (omega (arith, rw (own, opened) at moved))
        | inr apart ↦ rw apart (omega (arith, rw apart at moved))
      ])

-- In well-formed tables, a release of an open reservation gives back its amount: its counter's open
-- reservations fall by it, those of the other counters stay, and a second release finds nothing to
-- do.
pub release_reservation_lem :
    (id now : ℕ) (s : Store) (r : UsageReservation)
    → IsValid s
    → find (λ x. x.id == id) s.reservations ≡ some r
    → is_reserved r.status ≡ true
    → let s' = (release_reservation (some id) now s).1 in
      (held r.counter_id s'.reservations + r.amount ≡ held r.counter_id s.reservations)
      × ((other : ℕ)
          → (r.counter_id == other) ≡ false
          → held other s'.reservations ≡ held other s.reservations)
      × ((release_reservation (some id) now s').0.released ≡ false)
unfolding release_reservation
release_reservation_lem id now s r v found opened = (
  rw (==_refl r.counter_id) at (held-released id now r.counter_id s r v found opened),
  λ other apart. omega (arith, rw apart at (held-released id now other s r v found opened)),
  rw (
      count_where-update_where (is_releasable id) (mark_released now) (λ x. ground arith)
        s.reservations),
)
