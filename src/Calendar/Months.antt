-- ===== src/Calendar/Months.antt =====
-- `month2days` counts the days of the months before, and `inv_month2days` inverts it; `is_leap_year`
-- knows no leap year.
use smartmeterreader.Prelude.{
  ℕ, ◌+◌, ◌≤◌, ◌<◌, ◌≡◌, refl, Bool, true, false, not, ◌&&◌, ◌||◌, Option, none, some, arith, ◌==◌,
  if◌then◌else◌, leb, ltb, zero, suc,
}
use smartmeterreader.Prelude.Table.{all_below, all_below_sound}
use smartmeterreader.Prelude.Int.{ℤ, pos, negsuc, ◌+ℤ◌, ◌≤ℤ◌, ltb_ℤ, eq_ℤ, pos_part, neg_part}
use smartmeterreader.Calendar.{month2days, is_leap_year, inv_month2days}

-- The lengths of the months, counted from 1.
abbrev pub month_length : Bool → ℕ → ℕ
month_length leap m =
    if m == 2
    then if leap then 29 else 28
    else if m == 4 || m == 6 || m == 9 || m == 11
    then 30
    else 31

abbrev pub year_length : Bool → ℕ
year_length leap = if leap then 366 else 365

length_test : Bool → ℕ → Bool
length_test leap m =
    m == 0
    || eq_ℤ (month2days (pos (m + 1)) leap) (month2days (pos m) leap +ℤ pos (month_length leap m))

length_table : (leap : Bool) → all_below 13 (length_test leap) ≡ true
unfolding all_below length_test month2days ◌+ℤ◌
length_table true = refl
length_table false = refl

eq_ℤ-eq : (a b : ℤ) → eq_ℤ a b ≡ true → a ≡ b
eq_ℤ-eq a b h = ground arith

-- January starts at day 0, and each month from 1 to 12 ends, at the start of the next number, its own
-- length later, in both kinds of year.
pub month2days-suc :
    (leap : Bool) (m : ℕ)
    → 1 ≤ m
    → m ≤ 12
    → (month2days (pos 1) leap ≡ pos 0)
      × (month2days (pos (m + 1)) leap ≡ month2days (pos m) leap +ℤ pos (month_length leap m))
unfolding length_test
month2days-suc leap m h k = (
  start leap,
  eq_ℤ-eq _ _ (ground (arith, all_below_sound 13 (length_test leap) m (length_table leap))),
)
  where
    start : (b : Bool) → month2days (pos 1) b ≡ pos 0
    start true = unfold month2days in refl
    start false = unfold month2days in refl

-- Month `m` is the one that holds day `d` of the year, by the table of `month2days`.
pub record IsMonthOf (leap : Bool) (d m : ℕ) : Type 0 where
  pub first : 1 ≤ m
  pub not_after : month2days (pos m) leap ≤ℤ pos d
  pub not_before : pos (d + 1) ≤ℤ month2days (pos (m + 1)) leap
  pub close : pos d ≤ℤ month2days (pos m) leap +ℤ pos 30
  pub nonneg : month2days (pos m) leap ≡ pos (pos_part (month2days (pos m) leap))

found_test : Bool → ℕ → ℕ → Option ℤ → Bool
found_test leap last d (some (pos m)) =
    leb 1 m
    && leb m last
    && (not (ltb_ℤ (pos d) (month2days (pos m) leap))
        && ltb_ℤ (pos d) (month2days (pos (m + 1)) leap))
    && not (ltb_ℤ (month2days (pos m) leap +ℤ pos 30) (pos d))
    && neg_part (month2days (pos m) leap) == 0
found_test leap last d _ = false

month_test : Bool → ℕ → ℕ → Bool
unfolding found_test
month_test leap last d = found_test leap last d (inv_month2days (pos d) leap)

month_table_13 : all_below 366 (month_test false 13) ≡ true
unfolding all_below month_test month2days inv_month2days ◌+ℤ◌
month_table_13 = refl

found_test_sound :
    (leap : Bool) (last d : ℕ) (r : Option ℤ)
    → found_test leap last d r ≡ true
    → (m : ℕ) × (r ≡ some (pos m)) × (m ≤ last) × IsMonthOf leap d m
unfolding found_test
found_test_sound leap last d (some (pos m)) h = (m, refl, ground arith, ground arith)
found_test_sound leap last d (some (negsuc m)) h = cc
found_test_sound leap last d none h = cc

-- The days of a year before its month `m`, by the lengths of the months.
abbrev pub first_day : Bool → ℕ → ℕ
first_day leap zero = 0
first_day leap (suc m) = if m == 0 then 0 else first_day leap m + month_length leap m

-- Day `d` of the year, counted from 0, lies in month `m` of the calendar.
pub record IsIn (leap : Bool) (d m : ℕ) : Type 0 where
  pub first : 1 ≤ m
  pub last : m ≤ 12
  pub not_after : first_day leap m ≤ d
  pub not_before : d < first_day leap (m + 1)

in_test : Bool → ℕ → Option ℤ → Bool
in_test leap d (some (pos m)) =
    leb 1 m && leb m 12 && leb (first_day leap m) d && ltb d (first_day leap (m + 1))
in_test leap d _ = false

calendar_test : Bool → ℕ → Bool
unfolding in_test
calendar_test leap d = in_test leap d (inv_month2days (pos d) leap)

calendar_table : (leap : Bool) → all_below (year_length leap) (calendar_test leap) ≡ true
unfolding all_below calendar_test month2days inv_month2days ◌+ℤ◌
calendar_table true = refl
calendar_table false = refl

in_test_sound :
    (leap : Bool) (d : ℕ) (r : Option ℤ)
    → in_test leap d r ≡ true
    → (m : ℕ) × (r ≡ some (pos m)) × IsIn leap d m
unfolding in_test
in_test_sound leap d (some (pos m)) h = (m, refl, ground arith)
in_test_sound leap d (some (negsuc m)) h = cc
in_test_sound leap d none h = cc

-- For every day of a common or a leap year, `inv_month2days` returns the month that the day lies in, from
-- 1 to 12, by the lengths that the months have in the calendar.
pub inv_month2days_lem :
    (leap : Bool) (d : ℕ)
    → d < year_length leap
    → (m : ℕ) × (inv_month2days (pos d) leap ≡ some (pos m)) × IsIn leap d m
unfolding calendar_test
inv_month2days_lem leap d h =
    in_test_sound leap d (inv_month2days (pos d) leap)
      (all_below_sound (year_length leap) (calendar_test leap) d (calendar_table leap) h)

-- On the last day of a leap year that is taken for a common one, the month is 13.
pub inv_month2days_common :
    (d : ℕ)
    → d < 366
    → (m : ℕ) × (inv_month2days (pos d) false ≡ some (pos m)) × (m ≤ 13) × IsMonthOf false d m
unfolding month_test
inv_month2days_common d h =
    found_test_sound false 13 d (inv_month2days (pos d) false)
      (all_below_sound 366 (month_test false 13) d month_table_13 h)

-- `is_leap_year` answers `false` for every year.
pub is_leap_year-false : (y : ℕ) → is_leap_year y ≡ false
unfolding is_leap_year
is_leap_year-false y = ground arith
