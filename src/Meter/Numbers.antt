-- ===== src/Meter/Numbers.antt =====
-- The number and unit readers of sm_parser.c. A C string is the list of its characters, without the
-- terminating 0, which a read at the end gives.
pub mod Decimal
use smartmeterreader.Prelude.{
  ℕ, zero, suc, ◌+◌, ◌-◌, ◌*◌, Bool, true, false, not, ◌&&◌, ◌||◌, ltb, leb, ◌==◌, if◌then◌else◌,
  u8, u64, List, [], ◌∷◌, Option, none, some, ◌>>=◌, length,
}
use smartmeterreader.Prelude.Int.{ℤ, pos, ◌-ℤ◌, ◌/ℤ◌, ◌*ℤ◌, signed, pattern_of, int32, int64}
use smartmeterreader.Prelude.Text.{codes}

abbrev pub peek : List ℕ → ℕ
peek [] = 0
peek (c ∷ cs) = c

abbrev pub is_digit : ℕ → Bool
is_digit c = leb b'0' c && leb c b'9'

-- `result *= 10; result += (*ch++ - '0');` in an `int64_t`, kept as its bit pattern.
abbrev pub push_digit : ℕ → ℕ → ℕ
push_digit result c = u64 (u64 (result * 10) + (c - b'0'))

-- The loop over the digits before the point: the result and the rest of the text.
unfoldable pub whole_loop : List ℕ → ℕ → ℕ × List ℕ
whole_loop [] result = (result, [])
whole_loop (c ∷ cs) result =
    let more = whole_loop cs (push_digit result c) in if is_digit c then more else (result, c ∷ cs)

-- The loop over the digits behind the point. At `decimals == 0` its `continue` goes back to the test
-- with nothing changed; `none` when the fuel runs out.
unfoldable pub fraction_loop : ℕ → List ℕ → ℕ → ℕ → Option (ℕ × ℕ × List ℕ)
fraction_loop zero text decimals result = none
fraction_loop (suc fuel) [] decimals result = some (result, decimals, [])
fraction_loop (suc fuel) (c ∷ cs) decimals result =
    let stay = fraction_loop fuel (c ∷ cs) decimals result in
    let more = fraction_loop fuel cs (decimals - 1) (push_digit result c) in
    if is_digit c then if decimals == 0 then stay else more else some (result, decimals, c ∷ cs)

-- `while(decimals-- > 0) result *= 10;`
unfoldable pub scale : ℕ → ℕ → ℕ
scale zero result = result
scale (suc decimals) result = scale decimals (u64 (result * 10))

-- `if (*ch == '.') { … }`
unfoldable pub fraction : List ℕ → ℕ → ℕ → Option (ℕ × ℕ × List ℕ)
unfolding fraction_loop
fraction [] decimals result = some (result, decimals, [])
fraction (c ∷ cs) decimals result =
    if c == b'.'
    then fraction_loop (suc (length cs)) cs decimals result
    else some (result, decimals, c ∷ cs)

abbrev pub word64 : ℕ
word64 = 18446744073709551616

-- `return is_negative ? -result : result;`
unfoldable pub apply_sign : Bool → ℕ → ℤ
unfolding signed pattern_of ◌-ℤ◌
apply_sign true result = int64 (pos 0 -ℤ signed word64 result)
apply_sign false result = signed word64 result

-- A leading `-` is noted and not skipped.
unfoldable pub parse_flt : List ℕ → ℕ → Option (ℤ × List ℕ)
parse_flt buf decimals = do
  let is_negative = peek buf == b'-'
  let (whole, rest) = whole_loop buf 0
  (result, left, cur) ← fraction rest decimals whole
  some (apply_sign is_negative (scale left result), cur)

-- Here `none` stands for `return false`.
unfoldable pub subint_loop : ℕ → List ℕ → ℕ → Option (ℕ × List ℕ)
subint_loop zero text result = some (result, text)
subint_loop (suc digits) [] result = none
subint_loop (suc digits) (c ∷ cs) result =
    let more = subint_loop digits cs (u8 (u8 (result * 10) + (c - b'0'))) in
    if ltb c b'0' || ltb b'9' c then none else more

unfoldable pub parse_subint : List ℕ → ℕ → Option (ℕ × List ℕ)
unfolding subint_loop
parse_subint buf digits = subint_loop digits buf 0

-- `tolower` of the C locale.
abbrev pub tolower : ℕ → ℕ
tolower c = if leb b'A' c && leb c b'Z' then c + 32 else c

unfoldable pub str_starts_with : List ℕ → List ℕ → Bool
str_starts_with str [] = true
str_starts_with [] (c ∷ cs) = false
str_starts_with (s ∷ str) (c ∷ cs) =
    if tolower s == tolower c then str_starts_with str cs else false

unfoldable pub str_is_substring : List ℕ → List ℕ → Bool
unfolding str_starts_with
str_is_substring [] substring = false
str_is_substring (c ∷ cs) substring =
    if str_starts_with (c ∷ cs) substring then true else str_is_substring cs substring

-- The readers with a unit: the outer `none` is a call that never returns, the inner one `false`.
unfoldable pub parse_energy : List ℕ → Option (Option ℤ)
parse_energy text = do
  (energy, cur) ← parse_flt text 3
  let is_wh = str_is_substring cur (codes "*Wh")
  let is_kwh = str_is_substring cur (codes "*kWh")
  let energy' = if is_wh then energy /ℤ 1000 else energy
  some (if is_wh || is_kwh then some energy' else none)

unfoldable pub parse_power : List ℕ → Option (Option ℤ)
parse_power text = do
  (power, cur) ← parse_flt text 3
  let is_w = str_is_substring cur (codes "*W")
  let is_kw = str_is_substring cur (codes "*kW")
  let power' = if is_w then power /ℤ 1000 else power
  some (if is_w || is_kw then some (int32 power') else none)

unfoldable pub parse_potential : List ℕ → Option (Option ℤ)
parse_potential text = do
  (potential, cur) ← parse_flt text 1
  let is_v = str_is_substring cur (codes "*V")
  some (if is_v then some (int32 (int64 (100 *ℤ potential))) else none)

unfoldable pub parse_current : List ℕ → Option (Option ℤ)
parse_current text = do
  (current, cur) ← parse_flt text 0
  let is_a = str_is_substring cur (codes "*A")
  some (if is_a then some (int32 (int64 (1000 *ℤ current))) else none)
