-- ===== src/Calendar.antt =====
-- sm_common.c: dates and times of the meter, and their conversion to Unix time and back.
-- `int`, `int32_t` and `int64_t` are integers here, the conversion of a timestamp's days to `int32_t` among
-- them: no value below leaves its type up to the end of year 65535, the last of a `uint16_t`, and above that
-- the functions are not those of the C code. Stores into the fields of `sm_datetime_s` wrap to the field's width.
pub mod Years
pub mod Months
pub mod Roundtrip
use smartmeterreader.Prelude.{
  ℕ, zero, suc, ◌+◌, ◌*◌, ◌%◌, Bool, true, false, not, Option, none, some, ◌==◌, if◌then◌else◌,
  ◌>>=◌,
}
use smartmeterreader.Prelude.Int.{
  ℤ, pos, negsuc, ◌+ℤ◌, ◌-ℤ◌, ◌/ℤ◌, ◌%ℤ◌, ◌*ℤ◌, pos_part, neg_part, ltb_ℤ, eq_ℤ, pattern_of,
}

pub record DateTime : Type 0 where
  pub day_offset : ℕ
  pub year : ℕ
  pub month : ℕ
  pub day : ℕ
  pub hour : ℕ
  pub min : ℕ
  pub sec : ℕ
  pub is_dst : Bool

abbrev pub seconds_per_minute : ℕ
seconds_per_minute = 60

abbrev pub seconds_per_hour : ℕ
seconds_per_hour = 3600

abbrev pub seconds_per_day : ℕ
seconds_per_day = 86400

abbrev pub hours_per_day : ℕ
hours_per_day = 24

abbrev pub unix_epoch : ℕ
unix_epoch = 62167132800

unfoldable pub year2days : ℤ → ℤ
unfolding ◌+ℤ◌ ◌-ℤ◌ ◌/ℤ◌ ◌*ℤ◌
year2days year =
    let base = (year -ℤ pos 1) /ℤ 4 in
    let corr1 = base /ℤ 25 in
    let corr2 = corr1 /ℤ 4 in let leap_years = base -ℤ corr1 +ℤ corr2 in 365 *ℤ year +ℤ leap_years

-- `year %= 4` and `year %= 25` overwrite the argument.
unfoldable pub is_leap_year : ℕ → Bool
is_leap_year year =
    let year₁ = year % 4 in
    let year₂ = year₁ % 25 in
    if not (year₁ == 0) then false else if not (year₂ == 0) then true else not (year₂ % 4 == 0)

unfoldable pub month2days : ℤ → Bool → ℤ
unfolding ◌-ℤ◌ ◌/ℤ◌ ◌*ℤ◌
month2days month is_leap =
    let days = (214 *ℤ month -ℤ pos 211) /ℤ 7 in
    if ltb_ℤ (pos 2) month then days -ℤ pos (if is_leap then 1 else 2) else days

-- A `do … while (prev_error != error)` loop of Newton steps: `table` is `year2days` or `month2days`
-- and `longest` the divisor. The result is `cur` and `error` behind the loop.
unfoldable pub invert_loop : (ℤ → ℤ) → ℕ → ℤ → ℕ → ℤ → ℤ → Option (ℤ × ℤ)
unfolding ◌-ℤ◌ ◌/ℤ◌
invert_loop table longest days zero cur prev_error = none
invert_loop table longest days (suc fuel) cur prev_error =
    let cur' = cur -ℤ prev_error /ℤ longest in
    let error = table cur' -ℤ days in
    let again = invert_loop table longest days fuel cur' error in
    if eq_ℤ prev_error error then some (cur', error) else again

-- `if (error > 0) --cur;`
unfoldable pub settle : ℤ × ℤ → ℤ
unfolding ◌-ℤ◌
settle (cur, error) = if ltb_ℤ (pos 0) error then cur -ℤ pos 1 else cur

abbrev pub enough : ℤ → ℕ
enough cur = pos_part cur + neg_part cur + 2

unfoldable pub inv_year2days : ℤ → Option ℤ
unfolding ◌-ℤ◌ ◌/ℤ◌ invert_loop settle year2days
inv_year2days days =
    let cur = days /ℤ 365 in
    invert_loop year2days 366 days (enough cur) cur (year2days cur -ℤ days) >>= λ r. some (settle r)

unfoldable pub inv_month2days : ℤ → Bool → Option ℤ
unfolding ◌+ℤ◌ ◌-ℤ◌ ◌/ℤ◌ invert_loop settle month2days
inv_month2days days is_leap =
    let cur = pos 1 +ℤ days /ℤ 29 in
    let table = λ (m : ℤ). month2days m is_leap in
    invert_loop table 31 days (enough cur) cur (table cur -ℤ days) >>= λ r. some (settle r)

unfoldable pub sec_since_epoch : DateTime → ℤ
sec_since_epoch dt =
    let day_offset = 60 * (60 * dt.hour + dt.min) + dt.sec in
    let days_year_epoch = year2days (pos dt.year) in
    let days_month_year = month2days (pos dt.month) (is_leap_year dt.year) in
    pos day_offset
    +ℤ (hours_per_day * seconds_per_hour)
      *ℤ (days_year_epoch +ℤ days_month_year +ℤ pos dt.day -ℤ pos 1)

unfoldable pub datetime_as_timestamp : DateTime → ℤ
datetime_as_timestamp dt = sec_since_epoch dt -ℤ pos unix_epoch

-- The date fields that `days` gives: `dt->year`, `dt->month` and `dt->day`, in this order.
unfoldable pub set_date : ℤ → Option (ℕ × ℕ × ℕ)
set_date days = do
  y ← inv_year2days days
  let year = pattern_of 65536 y
  let in_year = days -ℤ year2days (pos year)
  let is_leap = is_leap_year year
  m ← inv_month2days in_year is_leap
  let month = pattern_of 256 m
  let in_month = in_year -ℤ month2days (pos month) is_leap
  some (year, month, pattern_of 256 (in_month +ℤ pos 1))

-- `timestamp` is divided in place, by `% 60`, `/ 60`, `% 60`, `/ 60` and `% 24`.
unfoldable pub datetime_from_timestamp : ℤ → Option DateTime
datetime_from_timestamp timestamp = do
  let since_epoch = timestamp +ℤ pos unix_epoch
  let in_day = since_epoch %ℤ seconds_per_day
  let sec = pattern_of 256 (in_day %ℤ 60)
  let min = pattern_of 256 (in_day /ℤ 60 %ℤ 60)
  let hour = pattern_of 256 (in_day /ℤ 60 /ℤ 60 %ℤ 24)
  (year, month, day) ← set_date (since_epoch /ℤ seconds_per_day)
  some (record {
    day_offset = 60 * (60 * hour + min) + sec;
    year = year;
    month = month;
    day = day;
    hour = hour;
    min = min;
    sec = sec;
    is_dst = false;
  })

unfoldable pub datetime_diff : DateTime → DateTime → ℤ
datetime_diff begin end = sec_since_epoch end -ℤ sec_since_epoch begin
