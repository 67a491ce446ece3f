-- ===== src/Calendar.antt =====
-- The UTC calendar of JavaScript's `Date`, from 1970 on: an instant is a number of milliseconds
-- since the epoch. `Date.UTC`, `getUTCFullYear`, `getUTCMonth` and `getUTCDate` are the language's
-- own; months count from 0 and days from 1.
pub mod Laws
use content_intelligence_bac.Base.{
  ℕ, zero, suc, ◌+◌, ◌-◌, ◌*◌, ◌/◌, ◌%◌, ◌≡◌, refl, Bool, ◌&&◌, ◌||◌, not, List, [], ◌∷◌, ltb, ◌==◌,
  if◌then◌else◌,
}

abbrev pub ms_per_day : ℕ
ms_per_day = 86400000

pub is_leap : ℕ → Bool
is_leap year = (year % 4 == 0) && (not (year % 100 == 0) || year % 400 == 0)

pub year_length : ℕ → ℕ
unfolding is_leap
year_length year = if is_leap year then 366 else 365

pub month_lengths : ℕ → List ℕ
unfolding is_leap
month_lengths year =
    31 ∷ (if is_leap year then 29 else 28) ∷ 31 ∷ 30 ∷ 31 ∷ 30 ∷ 31 ∷ 31 ∷ 30 ∷ 31 ∷ 30 ∷ 31 ∷ []

-- The days from 1 January 1970 to 1 January of the year 1970 + k.
pub days_before_year : ℕ → ℕ
unfolding year_length
days_before_year zero = 0
days_before_year (suc k) = days_before_year k + year_length (1970 + k)

-- The days of the first months of a year.
pub days_before_month : List ℕ → ℕ → ℕ
days_before_month [] m = 0
days_before_month (l ∷ ls) zero = 0
days_before_month (l ∷ ls) (suc m) = l + days_before_month ls m

-- The year (counted from 1970) and the day in it, from 0, of a day counted from 1 January 1970 + k.
pub locate_year : ℕ → ℕ → ℕ → ℕ × ℕ
unfolding year_length
locate_year zero k d = (k, d)
locate_year (suc fuel) k d =
    let later = locate_year fuel (suc k) (d - year_length (1970 + k)) in
    if ltb d (year_length (1970 + k)) then (k, d) else later

-- The month and the day in it, from 0.
pub locate_month : List ℕ → ℕ → ℕ → ℕ × ℕ
locate_month [] m d = (m, d)
locate_month (l ∷ ls) m d = if ltb d l then (m, d) else locate_month ls (suc m) (d - l)

-- The days since the epoch, and the position of that day.
unfoldable pub year_of : ℕ → ℕ × ℕ
unfolding locate_year
year_of ms = let d = ms / ms_per_day in locate_year (suc d) 0 d

unfoldable pub get_utc_full_year : ℕ → ℕ
get_utc_full_year ms = 1970 + (year_of ms).0

unfoldable pub month_of : ℕ → ℕ × ℕ
month_of ms = locate_month (month_lengths (get_utc_full_year ms)) 0 (year_of ms).1

unfoldable pub get_utc_month : ℕ → ℕ
get_utc_month ms = (month_of ms).0

unfoldable pub get_utc_date : ℕ → ℕ
get_utc_date ms = (month_of ms).1 + 1

-- A month past December counts on into the next years, and a day past the month's end into the next
-- months. Years below 1970 and day 0 do not occur.
unfoldable pub date_utc : ℕ → ℕ → ℕ → ℕ
unfolding days_before_year days_before_month month_lengths
date_utc year month day =
    let y = year + month / 12 in
    (days_before_year (y - 1970) + days_before_month (month_lengths y) (month % 12) + day - 1)
    * ms_per_day

leap_day : date_utc 2024 1 29 ≡ 1709164800000
unfolding date_utc
leap_day = refl

new_year : date_utc 2025 12 1 ≡ date_utc 2026 0 1
unfolding date_utc
new_year = refl
