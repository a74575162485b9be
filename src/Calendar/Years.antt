-- ===== src/Calendar/Years.antt =====
-- `year2days` counts the days of the Gregorian calendar, and `inv_year2days` inverts it.
use smartmeterreader.Prelude.{
  ℕ, zero, suc, ◌+◌, ◌-◌, ◌*◌, ◌/◌, ◌%◌, ◌≤◌, ◌<◌, ◌≡◌, refl, Bool, false, not, ◌&&◌, ◌||◌, some,
  arith, ◌==◌, if◌then◌else◌, ltb, Bool-cases, inl, inr, ◌>>=◌, leb, leb→le, ap,
}
use smartmeterreader.Prelude.Int.{pos, sub_ℕ, ◌+ℤ◌, ◌-ℤ◌, ◌/ℤ◌, eq_ℤ}
use smartmeterreader.Calendar.{year2days, invert_loop, settle, inv_year2days, enough}

-- The days before year `y`, on the native numbers.
abbrev pub days_before : ℕ → ℕ
days_before y = 365 * y + (y - 1) / 4 - (y - 1) / 4 / 25 + (y - 1) / 4 / 25 / 4

-- The leap rule of the Gregorian calendar.
abbrev pub gregorian_leap : ℕ → Bool
gregorian_leap y = y % 4 == 0 && not (y % 100 == 0) || y % 400 == 0

pub year2days-days_before : (y : ℕ) → year2days (pos y) ≡ pos (days_before y)
unfolding year2days
year2days-days_before zero = refl
year2days-days_before (suc y) = ground arith

pub days_before-suc :
    (y : ℕ) → 1 ≤ y → days_before (y + 1) ≡ days_before y + (if gregorian_leap y then 366 else 365)
days_before-suc y h = ground arith

-- From year 1 up to the last year of a `uint16_t`, 65535, `year2days` grows by 366 days over a leap year of the Gregorian calendar and by 365
-- over any other.
pub year2days-suc :
    (y : ℕ)
    → 1 ≤ y
    → y < 65536
    → year2days (pos (suc y)) ≡ year2days (pos y) +ℤ pos (if gregorian_leap y then 366 else 365)
unfolding ◌+ℤ◌
year2days-suc y h k = ground (arith, year2days-days_before y, year2days-days_before (suc y))

pub days_before-step :
    (y k : ℕ)
    → (days_before y + 365 * k ≤ days_before (y + k))
      × (days_before (y + k) ≤ days_before y + 366 * k)
days_before-step y zero = omega arith
days_before-step y (suc k) = omega (arith, days_before-step y k)

-- The difference that the loop keeps: how far `cur` is from the days asked for.
year_error : (c d : ℕ) → year2days (pos c) -ℤ pos d ≡ sub_ℕ (days_before c) d
unfolding ◌-ℤ◌
year_error c d = rw year2days-days_before (ground arith)

-- With less than 366 days between them the loop stops.
loop_stops :
    (fuel c d : ℕ)
    → days_before c < d + 366
    → d ≤ days_before c + 364
    → invert_loop year2days 366 (pos d) (suc fuel) (pos c) (sub_ℕ (days_before c) d)
      ≡ some (pos c, sub_ℕ (days_before c) d)
unfolding invert_loop
loop_stops fuel c d h k =
    let stay : pos c -ℤ sub_ℕ (days_before c) d /ℤ 366 ≡ pos c = unfold ◌-ℤ◌ ◌/ℤ◌ in ground arith in
    rw (stay, year_error c d) (ground arith)

-- Where the loop lands from above: not below the days asked for, and lower than before.
landing :
    (c d : ℕ)
    → d + 366 ≤ days_before c
    → let k = (days_before c - d) / 366 in
      (k ≤ c) × (1 ≤ k) × (d ≤ days_before (c - k)) × (days_before (c - k) < days_before c)
landing c d h =
    let k = (days_before c - d) / 366 in
    let k_in : k ≤ c = omega arith in
    let back : c - k + k ≡ c = omega arith in
    let bounds = days_before-step (c - k) k in
    let bounds' : (days_before (c - k) + 365 * k ≤ days_before c)
        × (days_before c ≤ days_before (c - k) + 366 * k) =
      rw back at bounds in
    (k_in, omega arith, omega arith, omega arith)

loop_steps :
    (fuel c d : ℕ)
    → d + 366 ≤ days_before c
    → let c' = c - (days_before c - d) / 366 in
      invert_loop year2days 366 (pos d) (suc fuel) (pos c) (sub_ℕ (days_before c) d)
      ≡ invert_loop year2days 366 (pos d) fuel (pos c') (sub_ℕ (days_before c') d)
unfolding invert_loop
loop_steps fuel c d h =
    let c' = c - (days_before c - d) / 366 in
    let facts = landing c d h in
    let go : pos c -ℤ sub_ℕ (days_before c) d /ℤ 366 ≡ pos c' = unfold ◌-ℤ◌ ◌/ℤ◌ in ground arith in
    let differ : eq_ℤ (sub_ℕ (days_before c) d) (sub_ℕ (days_before c') d) ≡ false = ground arith in
    rw (go, year_error c' d, differ) refl

-- The year that holds day `d`, counted from the start of year 0.
pub record IsYearOf (d y : ℕ) : Type 0 where
  pub not_after : days_before y ≤ d
  pub not_before : d < days_before (y + 1)

-- The last correction, where the loop has stopped.
settle_year :
    (c d : ℕ)
    → days_before c < d + 366
    → d ≤ days_before c + 364
    → (y : ℕ) × (settle (pos c, sub_ℕ (days_before c) d) ≡ pos y) × IsYearOf d y
unfolding settle ◌-ℤ◌
settle_year c d h k = elim (Bool-cases (leb (days_before c) d)) [
  | inl below ↦ (c, ground arith, omega (arith, leb→le, days_before-step c 1))
  | inr above ↦
      let not_first : 1 ≤ c = ground arith in
      let back : c - 1 + 1 ≡ c = omega arith in
      let bounds = days_before-step (c - 1) 1 in
      (c - 1, ground arith, ground (arith, rw back at bounds))
]

loop_settles :
    (fuel c d : ℕ)
    → c < fuel
    → d ≤ days_before c + 364
    → (y : ℕ) × (invert_loop year2days 366 (pos d) fuel (pos c) (sub_ℕ (days_before c) d)
          >>= (λ r. some (settle r))
        ≡ some (pos y))
      × IsYearOf d y
loop_settles zero c d f h = absurd (omega arith)
loop_settles (suc fuel) c d f h = elim (Bool-cases (ltb (days_before c) (d + 366))) [
  | inl near ↦
      let (y, e, is_year) = settle_year c d (ground arith) h in
      (y, rw (loop_stops fuel c d (ground arith) h) (ap some e), is_year)
  | inr far ↦
      let c' = c - (days_before c - d) / 366 in
      let facts = landing c d (ground arith) in
      let (y, e, is_year) = loop_settles fuel c' d (omega arith) (omega arith) in
      (y, rw (loop_steps fuel c d (ground arith)) e, is_year)
]

pub inv_year2days-year2days :
    (d : ℕ) → (y : ℕ) × (inv_year2days (pos d) ≡ some (pos y)) × IsYearOf d y
unfolding inv_year2days ◌/ℤ◌
inv_year2days-year2days d =
    rw (year_error (d / 365) d)
      (loop_settles (enough (pos (d / 365))) (d / 365) d (omega arith) (omega arith))

pub year-lt : (d y : ℕ) → IsYearOf d y → d < days_before 65536 → y < 65536
year-lt d y is h = elim (Bool-cases (ltb y 65536)) [
  | inl lt ↦ ground arith
  | inr ge ↦
      let past : 65536 + (y - 65536) ≡ y = ground arith in
      let bounds = rw past at (days_before-step 65536 (y - 65536)) in
      absurd (omega (arith, bounds.0, is.not_after))
]

-- For every day from the start of year 0 to the end of year 65535, the last of a `uint16_t`,
-- `inv_year2days` returns, and what it returns is the year that the day lies in, at most 65535.
pub inv_year2days_lem :
    (d : ℕ)
    → d < days_before 65536
    → (y : ℕ) × (inv_year2days (pos d) ≡ some (pos y)) × (y < 65536) × IsYearOf d y
inv_year2days_lem d h =
    let (y, e, is_year) = inv_year2days-year2days d in (y, e, year-lt d y is_year h, is_year)
