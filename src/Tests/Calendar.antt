-- ===== src/Tests/Calendar.antt =====
-- The conversions on the days around the end of February and of December 2024.
use smartmeterreader.Prelude.{
  ℕ, ◌+◌, ◌*◌, ◌%◌, ◌≤◌, ◌<◌, ◌≡◌, refl, arith, true, false, some, if◌then◌else◌,
}
use smartmeterreader.Prelude.Int.{pos, sub_ℕ, ◌+ℤ◌}
use smartmeterreader.Calendar.{
  DateTime, year2days, is_leap_year, inv_year2days, inv_month2days, unix_epoch,
  datetime_as_timestamp, datetime_from_timestamp,
}
use smartmeterreader.Calendar.Years.{
  days_before, gregorian_leap, year2days-suc, IsYearOf, inv_year2days_lem,
}
use smartmeterreader.Calendar.Months.{IsIn, inv_month2days_lem, is_leap_year-false}
use smartmeterreader.Calendar.Roundtrip.{
  as_timestamp-from_timestamp, as_timestamp_leap_day, from_timestamp_month_13,
}
use smartmeterreader.Meter.Values.{zero_datetime}

-- 31 December 2024, 00:00:10, in seconds from the start of year 0.
abbrev last_second : ℕ
last_second = (days_before 2024 + 365) * 86400 + 10

year2days-suc_example :
    year2days (pos 2025) ≡ year2days (pos 2024) +ℤ pos (if gregorian_leap 2024 then 366 else 365)
year2days-suc_example = year2days-suc 2024 (omega arith) (omega arith)

inv_year2days_lem_example :
    (y : ℕ) × (inv_year2days (pos 739616) ≡ some (pos y)) × (y < 65536) × IsYearOf 739616 y
inv_year2days_lem_example = inv_year2days_lem 739616 (omega arith)

inv_month2days_lem_example :
    (m : ℕ) × (inv_month2days (pos 59) true ≡ some (pos m)) × IsIn true 59 m
inv_month2days_lem_example = inv_month2days_lem true 59 (omega arith)

is_leap_year-false_example : is_leap_year 2024 ≡ false
is_leap_year-false_example = is_leap_year-false 2024

as_timestamp-from_timestamp_example :
    (dt : DateTime) × (datetime_from_timestamp (sub_ℕ last_second unix_epoch) ≡ some dt)
    × (datetime_as_timestamp dt ≡ sub_ℕ last_second unix_epoch)
    × ((1 ≤ dt.month) × (dt.month ≤ 13) × (1 ≤ dt.day) × (dt.day ≤ 31))
    × (dt.day_offset ≡ last_second % 86400)
as_timestamp-from_timestamp_example = as_timestamp-from_timestamp last_second (omega arith)

as_timestamp_leap_day_example :
    datetime_as_timestamp (record zero_datetime { year = 2024; month = 2; day = 29 })
    ≡ datetime_as_timestamp (record zero_datetime { year = 2024; month = 3; day = 1 })
as_timestamp_leap_day_example = as_timestamp_leap_day (record zero_datetime { year = 2024 })

from_timestamp_month_13_example :
    (dt : DateTime) × (datetime_from_timestamp (sub_ℕ last_second unix_epoch) ≡ some dt)
    × (dt.year ≡ 2024)
    × (dt.month ≡ 13)
    × (dt.day ≡ 1)
from_timestamp_month_13_example =
    from_timestamp_month_13 last_second 2024 (omega arith) (omega arith) refl refl
