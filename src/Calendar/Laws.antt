-- ===== src/Calendar/Laws.antt =====
-- Theorems on the calendar functions of Calendar.
use content_intelligence_bac.Base.{
  ℕ, zero, suc, ◌+◌, ◌-◌, ◌*◌, ◌/◌, ◌%◌, ◌≤◌, ◌<◌, ◌≡◌, refl, arith, List, [], ◌∷◌, ltb, length,
  Bool-cases, inl, inr, ◌∙◌, ap,
}
use content_intelligence_bac.Calendar.{
  ms_per_day, year_length, month_lengths, days_before_year, days_before_month, locate_year,
  locate_month, year_of, get_utc_full_year, month_of, get_utc_month, get_utc_date, date_utc,
}

year_length_pos : (y : ℕ) → 365 ≤ year_length y
unfolding year_length
year_length_pos y = ground arith

abbrev IsInYear : ℕ → ℕ × ℕ → Type 0
IsInYear total (k, d) = (days_before_year k + d ≡ total) × (d < year_length (1970 + k))

locate_year-IsInYear :
    (fuel k d : ℕ) → d < fuel → IsInYear (days_before_year k + d) (locate_year fuel k d)
unfolding locate_year days_before_year
locate_year-IsInYear zero k d h = elim h [ ]
locate_year-IsInYear (suc fuel) k d h = ground (
  arith,
  year_length_pos (1970 + k),
  locate_year-IsInYear fuel (suc k) (d - year_length (1970 + k)),
)

sum : List ℕ → ℕ
sum [] = 0
sum (l ∷ ls) = l + sum ls

-- Where the walk over the months ends.
record IsInMonth (ls : List ℕ) (m d : ℕ) (at : ℕ × ℕ) : Type 0 where
  index : ℕ
  month : at.0 ≡ m + index
  listed : index < length ls
  before : days_before_month ls index + at.1 ≡ d
  inside : d < days_before_month ls (suc index)

IsInMonth-cons :
    (l : ℕ) (ls : List ℕ) (m d : ℕ) (at : ℕ × ℕ)
    → l ≤ d
    → IsInMonth ls (suc m) (d - l) at
    → IsInMonth (l ∷ ls) m d at
unfolding days_before_month
IsInMonth-cons l ls m d at h w = record {
  index = suc w.index;
  month = omega (arith, w.month);
  listed = omega (arith, w.listed);
  before = omega (arith, w.before);
  inside = omega (arith, w.inside);
}

locate_month-IsInMonth :
    (ls : List ℕ) (m d : ℕ) → d < sum ls → IsInMonth ls m d (locate_month ls m d)
unfolding locate_month sum
locate_month-IsInMonth [] m d h = elim h [ ]
locate_month-IsInMonth (l ∷ ls) m d h = elim (Bool-cases (ltb d l)) [
  | inl here ↦ rw here (
      unfold days_before_month in
      record {
        index = 0;
        month = omega arith;
        listed = omega arith;
        before = ground arith;
        inside = ground arith;
      })
  | inr later ↦ rw later (
      IsInMonth-cons l ls m d _ (ground arith)
        (locate_month-IsInMonth ls (suc m) (d - l) (ground arith)))
]

sum-month_lengths : (y : ℕ) → sum (month_lengths y) ≡ year_length y
unfolding sum month_lengths year_length
sum-month_lengths y = ground arith

days_before_month-12 : (y : ℕ) → days_before_month (month_lengths y) 12 ≡ year_length y
unfolding days_before_month month_lengths year_length
days_before_month-12 y = ground arith

days_before_month-zero : (ls : List ℕ) → days_before_month ls 0 ≡ 0
unfolding days_before_month
days_before_month-zero [] = refl
days_before_month-zero (l ∷ ls) = refl

length-month_lengths : (y : ℕ) → length (month_lengths y) ≡ 12
unfolding month_lengths
length-month_lengths y = refl

module _ (ms : ℕ) where
  year_of-IsInYear : IsInYear (ms / ms_per_day) (year_of ms)
  unfolding year_of days_before_year
  year_of-IsInYear =
      ground (arith, locate_year-IsInYear (suc (ms / ms_per_day)) 0 (ms / ms_per_day))

  month_of-IsInMonth :
      IsInMonth (month_lengths (get_utc_full_year ms)) 0 (year_of ms).1 (month_of ms)
  unfolding month_of get_utc_full_year
  month_of-IsInMonth =
      locate_month-IsInMonth (month_lengths (1970 + (year_of ms).0)) 0 (year_of ms).1
        (omega (arith, sum-month_lengths (1970 + (year_of ms).0), year_of-IsInYear.1))

date_utc-in_year :
    (k m day : ℕ)
    → m < 12
    → date_utc (1970 + k) m day
      ≡ (days_before_year k + days_before_month (month_lengths (1970 + k)) m + day - 1) * ms_per_day
unfolding date_utc
date_utc-in_year k m day h =
    let quotient : m / 12 ≡ 0 = omega arith in
    let remainder : m % 12 ≡ m = omega arith in
    let year : 1970 + k + 0 ≡ 1970 + k = omega arith in
    let index : 1970 + k - 1970 ≡ k = omega arith in rw (quotient, remainder, year, index)

date_utc-next_year : (k : ℕ) → date_utc (1970 + k) 12 1 ≡ days_before_year (suc k) * ms_per_day
unfolding date_utc
date_utc-next_year k =
    let index : 1970 + k + 1 - 1970 ≡ suc k = omega arith in rw index (omega arith)

module _ (ms : ℕ) where
  get_utc_month-lt : get_utc_month ms < 12
  unfolding get_utc_month
  get_utc_month-lt =
      let w = month_of-IsInMonth ms in
      omega (arith, w.month, w.listed, length-month_lengths (get_utc_full_year ms))

  -- The day of an instant, by its parts.
  day_of_parts :
      days_before_year (year_of ms).0
        + days_before_month (month_lengths (get_utc_full_year ms)) (get_utc_month ms)
        + get_utc_date ms
      ≡ ms / ms_per_day + 1
  unfolding get_utc_month get_utc_date
  day_of_parts =
      let w = month_of-IsInMonth ms in
      let e : (month_of ms).0 ≡ w.index = omega (arith, w.month) in
      rw e (omega (arith, w.before, (year_of-IsInYear ms).0))

  -- `Date.UTC` of an instant's UTC year, month and date is the start of its UTC day.
  pub date_utc-parts :
      date_utc (get_utc_full_year ms) (get_utc_month ms) (get_utc_date ms)
      ≡ ms / ms_per_day * ms_per_day
  unfolding get_utc_full_year
  date_utc-parts =
      date_utc-in_year (year_of ms).0 (get_utc_month ms) (get_utc_date ms) get_utc_month-lt
      ∙ ap (λ (t : ℕ). t * ms_per_day) (omega (arith, day_of_parts))

  -- The first of an instant's month is not after it.
  pub date_utc-month_start : date_utc (get_utc_full_year ms) (get_utc_month ms) 1 ≤ ms
  unfolding get_utc_full_year get_utc_date
  date_utc-month_start =
      omega
        (arith, date_utc-in_year (year_of ms).0 (get_utc_month ms) 1 get_utc_month-lt, day_of_parts)

  -- The instant lies before the first of the next month.
  pub date_utc-month_end : ms < date_utc (get_utc_full_year ms) (get_utc_month ms + 1) 1
  unfolding get_utc_full_year get_utc_month get_utc_date
  date_utc-month_end =
      let w = month_of-IsInMonth ms in
      let e : (month_of ms).0 ≡ w.index = omega (arith, w.month) in
      let k = (year_of ms).0 in
      let start = year_of-IsInYear ms in
      elim (Bool-cases (ltb (w.index + 1) 12)) [
        | inl inside ↦
            let lt : w.index + 1 < 12 = ground arith in
            let add : w.index + 1 ≡ suc w.index = omega arith in
            rw (e, date_utc-in_year k (w.index + 1) 1 lt, add) (omega (arith, start.0, w.inside))
        | inr december ↦
            let last : w.index + 1 ≡ 12 =
              ground (arith, w.listed, length-month_lengths (get_utc_full_year ms)) in
            rw (e, last, date_utc-next_year k)
              (unfold days_before_year in omega (arith, start.0, start.1))
      ]
