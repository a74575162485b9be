-- ===== src/Meter/Values.antt =====
-- The data of a frame, `sm_values_s` of sm_common.h.
use smartmeterreader.Prelude.{List}
use smartmeterreader.Prelude.{false, replicate}
use smartmeterreader.Prelude.Int.{ℤ, pos}
use smartmeterreader.Calendar.{DateTime}

-- The arrays of three have their values in the order of the phases.
pub record Values : Type 0 where
  pub timestamp : DateTime
  pub power_w : List ℤ
  pub potential_mv : List ℤ
  pub current_ma : List ℤ
  pub import_wh : ℤ
  pub export_wh : ℤ

abbrev pub zero_datetime : DateTime
zero_datetime = record {
  day_offset = 0;
  year = 0;
  month = 0;
  day = 0;
  hour = 0;
  min = 0;
  sec = 0;
  is_dst = false;
}

-- An object filled with zero bytes.
abbrev pub zero_values : Values
zero_values = record {
  timestamp = zero_datetime;
  power_w = replicate 3 (pos 0);
  potential_mv = replicate 3 (pos 0);
  current_ma = replicate 3 (pos 0);
  import_wh = pos 0;
  export_wh = pos 0;
}
