-- ===== src/Calendar/Roundtrip.antt =====
-- Unix time to date and back, and what the answer of `is_leap_year` does to dates.
use smartmeterreader.Prelude.{
  ℕ, ◌+◌, ◌-◌, ◌/◌, ◌%◌, ◌≤◌, ◌<◌, ◌≡◌, refl, true, false, some, arith, leb, Bool-cases, inl, inr,
  sym, ◌∙◌, ap,
}
use smartmeterreader.Prelude.Int.{
  ℤ, pos, sub_ℕ, ◌+ℤ◌, ◌-ℤ◌, ◌/ℤ◌, ◌%ℤ◌, ◌*ℤ◌, pos_part, pattern_of, int_laws,
}
use smartmeterreader.Calendar.{
  DateTime, unix_epoch, year2days, month2days, inv_year2days, inv_month2days, sec_since_epoch,
  datetime_from_timestamp, datetime_as_timestamp, set_date,
}
use smartmeterreader.Calendar.Years.{
  days_before, days_before-step, year-lt, year2days-days_before, inv_year2days-year2days, IsYearOf,
  gregorian_leap, days_before-suc,
}
use smartmeterreader.Calendar.Months.{IsMonthOf, inv_month2days_common, is_leap_year-false}

abbrev month_start : ℕ → ℕ
month_start m = pos_part (month2days (pos m) false)

-- The date that the conversion builds, from the year and month that it finds.
abbrev built : ℕ → ℕ → ℕ → DateTime
built t y m = record {
  day_offset = t % 86400;
  year = y;
  month = m;
  day = t / 86400 - days_before y - month_start m + 1;
  hour = t % 86400 / 60 / 60 % 24;
  min = t % 86400 / 60 % 60;
  sec = t % 86400 % 60;
  is_dst = false;
}

day_in : (r m : ℕ) → IsMonthOf false r m → (month_start m ≤ r) × (r ≤ month_start m + 30)
day_in r m is_month =
    let below : month_start m ≤ r = omega (arith, rw is_month.nonneg at is_month.not_after) in
    let above : r ≤ month_start m + 30 = omega (int_laws, rw is_month.nonneg at is_month.close) in
    (below, above)

set_date_built :
    (d y m : ℕ)
    → inv_year2days (pos d) ≡ some (pos y)
    → inv_month2days (pos (d - days_before y)) false ≡ some (pos m)
    → IsYearOf d y
    → IsMonthOf false (d - days_before y) m
    → y < 65536
    → m ≤ 13
    → set_date (pos d) ≡ some (y, m, d - days_before y - month_start m + 1)
unfolding set_date
set_date_built d y m ey em is_year is_month hy hm =
    let e₂ : pattern_of 65536 (pos y) ≡ y = unfold pattern_of in omega arith in
    let e₃ : pattern_of 256 (pos m) ≡ m = unfold pattern_of in omega arith in
    let e₄ : pos d -ℤ pos (days_before y) ≡ pos (d - days_before y) = unfold ◌-ℤ◌ in ground arith in
    let r = d - days_before y in
    let e₅ : pattern_of 256 (pos r -ℤ pos (month_start m) +ℤ pos 1) ≡ r - month_start m + 1 =
      unfold pattern_of ◌-ℤ◌ ◌+ℤ◌ in ground (arith, day_in r m is_month) in
    rw (ey, e₂, is_leap_year-false y, year2days-days_before y, e₄, em, e₃)
      (rw is_month.nonneg (rw e₅))

-- The conversion of a timestamp that is `t` seconds after the start of year 0.
from_timestamp_built :
    (t y m : ℕ)
    → set_date (pos (t / 86400)) ≡ some (y, m, t / 86400 - days_before y - month_start m + 1)
    → datetime_from_timestamp (sub_ℕ t unix_epoch) ≡ some (built t y m)
unfolding datetime_from_timestamp
from_timestamp_built t y m e =
    let e₁ : sub_ℕ t unix_epoch +ℤ pos unix_epoch ≡ pos t = unfold ◌+ℤ◌ in ground arith in
    let e₂ : pos t /ℤ 86400 ≡ pos (t / 86400) = unfold ◌/ℤ◌ in refl in
    rw (e₁, e₂, e) (unfold ◌/ℤ◌ ◌%ℤ◌ pattern_of in ground arith)

as_timestamp_built :
    (t y m : ℕ)
    → IsYearOf (t / 86400) y
    → IsMonthOf false (t / 86400 - days_before y) m
    → datetime_as_timestamp (built t y m) ≡ sub_ℕ t unix_epoch
unfolding datetime_as_timestamp sec_since_epoch
as_timestamp_built t y m is_year is_month =
    let r = t / 86400 - days_before y in
    let days : pos (days_before y) +ℤ pos (month_start m) +ℤ pos (r - month_start m + 1) -ℤ pos 1
        ≡ pos (t / 86400) =
      unfold ◌+ℤ◌ ◌-ℤ◌ in ground (arith, day_in r m is_month) in
    rw (is_leap_year-false y, year2days-days_before y, is_month.nonneg, days)
      (unfold ◌+ℤ◌ ◌-ℤ◌ ◌*ℤ◌ in ground arith)

-- A timestamp from the start of year 0 up to the end of year 65535 is converted to a date, whose month
-- is 1 to 13 and whose day is 1 to 31, and whose seconds of the day are those of the timestamp; the
-- conversion back gives the timestamp again.
pub as_timestamp-from_timestamp :
    (t : ℕ)
    → t / 86400 < days_before 65536
    → (dt : DateTime) × (datetime_from_timestamp (sub_ℕ t unix_epoch) ≡ some dt)
      × (datetime_as_timestamp dt ≡ sub_ℕ t unix_epoch)
      × ((1 ≤ dt.month) × (dt.month ≤ 13) × (1 ≤ dt.day) × (dt.day ≤ 31))
      × (dt.day_offset ≡ t % 86400)
as_timestamp-from_timestamp t h =
    let d = t / 86400 in
    let (y, ey, is_year) = inv_year2days-year2days d in
    let r = d - days_before y in
    let (m, em, hm, is_month) = inv_month2days_common r (omega (arith, days_before-step y 1)) in
    let date = set_date_built d y m ey em is_year is_month (year-lt d y is_year h) hm in
    (
      built t y m,
      from_timestamp_built t y m date,
      as_timestamp_built t y m is_year is_month,
      (is_month.first, hm, omega arith, omega (arith, day_in r m is_month)),
      refl,
    )

shift_day : (a : ℤ) → a +ℤ pos 31 +ℤ pos 29 ≡ a +ℤ pos 59 +ℤ pos 1
shift_day a = omega int_laws

-- The timestamp of 29 February is that of 1 March, in every year and at every time of day.
pub as_timestamp_leap_day :
    (dt : DateTime)
    → datetime_as_timestamp (record dt { month = 2; day = 29 })
      ≡ datetime_as_timestamp (record dt { month = 3; day = 1 })
unfolding datetime_as_timestamp sec_since_epoch
as_timestamp_leap_day dt =
    rw (is_leap_year-false dt.year)
      (unfold month2days in rw (shift_day (year2days (pos dt.year))) refl)

year_before : (d y y' : ℕ) → IsYearOf d y → IsYearOf d y' → y ≤ y'
year_before d y y' is is' = elim (Bool-cases (leb y y')) [
  | inl le ↦ ground arith
  | inr gt ↦
      let past : y' + 1 + (y - (y' + 1)) ≡ y = ground arith in
      let bounds = rw past at (days_before-step (y' + 1) (y - (y' + 1))) in
      absurd (omega (arith, bounds.0, is.not_after, is'.not_before))
]

month_of_365 : inv_month2days (pos 365) false ≡ some (pos 13)
unfolding inv_month2days month2days ◌+ℤ◌
month_of_365 = refl

month_start_13 : month_start 13 ≡ 365
unfolding month2days
month_start_13 = refl

-- On 31 December of a leap year the conversion from a timestamp gives the first day of a month 13.
pub from_timestamp_month_13 :
    (t y : ℕ)
    → 1 ≤ y
    → y < 65536
    → gregorian_leap y ≡ true
    → t / 86400 ≡ days_before y + 365
    → (dt : DateTime) × (datetime_from_timestamp (sub_ℕ t unix_epoch) ≡ some dt)
      × (dt.year ≡ y)
      × (dt.month ≡ 13)
      × (dt.day ≡ 1)
from_timestamp_month_13 t y h lt leap e =
    let d = t / 86400 in
    let is_year : IsYearOf d y = ground (arith, days_before-suc y h) in
    let (y', ey, is_year') = inv_year2days-year2days d in
    let same : y' ≡ y =
      omega (arith, year_before d y y' is_year is_year', year_before d y' y is_year' is_year) in
    let (m, em, hm, is_month) = inv_month2days_common 365 (omega arith) in
    let r_is : d - days_before y ≡ 365 = omega arith in
    let thirteen : m ≡ 13 = cc (sym em ∙ month_of_365) in
    let date = set_date_built d y m (rw same at ey) (rw r_is em) is_year (rw r_is is_month) lt hm in
    (
      built t y m,
      from_timestamp_built t y m date,
      refl,
      thirteen,
      omega (arith, ap month_start thirteen ∙ month_start_13),
    )
