-- ===== src/Hmi.antt =====
-- Hmi.h and Hmi.cpp: the status LED, which blinks a code for one active error after another.
pub mod Select
pub mod Invariant
pub mod Pattern
use Prim.Native.Nat.{bit_and, bit_or}
use smartmeterreader.Prelude.{
  ℕ, zero, suc, ◌+◌, ◌-◌, ◌^◌, Bool, true, false, not, ◌&&◌, Option, none, some, leb, ◌==◌,
  if◌then◌else◌, eq_bool, ◌>>=◌, u8, sub32,
}

-- `hmi_error_e`, and its codes.
pub data HmiError : Type 0 where
  no_wifi_connection no_sm_connection no_charger_connection : HmiError

abbrev pub code : HmiError → ℕ
code no_wifi_connection = 0
code no_sm_connection = 1
code no_charger_connection = 2

abbrev pub number_of_errors : ℕ
number_of_errors = 3

pub data State : Type 0 where
  intra_pattern_delay pattern_on pattern_off no_error_enter no_error_off : State

abbrev pub no_error_on_ms : ℕ
no_error_on_ms = 5000

abbrev pub intra_delay_ms : ℕ
intra_delay_ms = 1000

abbrev pub on_time_ms : ℕ
on_time_ms = 100

abbrev pub off_time_ms : ℕ
off_time_ms = 200

-- `led` is what the last `digitalWrite` of `set_led` put on the pin: `true` for LOW, which is on.
pub record Hmi : Type 0 where
  pub pin : ℕ
  pub state : State
  pub state_entry_time : ℕ
  pub active_errors : ℕ
  pub error_idx : ℕ
  pub blinks_remaining : ℕ
  pub led : Bool

-- `s_blink_count`
abbrev pub blink_count : ℕ → ℕ
blink_count zero = 1
blink_count (suc zero) = 2
blink_count (suc (suc n)) = 3

-- The constructor, on an object of static storage, whose other fields are 0.
unfoldable pub new : ℕ → Hmi
new pin = record {
  pin = pin;
  state = intra_pattern_delay;
  state_entry_time = 0;
  active_errors = 2 ^ number_of_errors - 1;
  error_idx = 0;
  blinks_remaining = 0;
  led = false;
}

unfoldable pub set_led : Hmi → Bool → Hmi
set_led h is_on = record h { led = is_on }

unfoldable pub begin : Hmi → Hmi
unfolding set_led
begin h = set_led (record h { error_idx = number_of_errors }) false

-- The `switch` of `set_state`.
unfoldable pub lit : State → Bool
lit intra_pattern_delay = false
lit pattern_on = true
lit pattern_off = false
lit no_error_enter = true
lit no_error_off = false

unfoldable pub set_state : Hmi → State → ℕ → Hmi
unfolding set_led lit
set_state h s now = set_led (record h { state = s; state_entry_time = now }) (lit s)

unfoldable pub is_active : ℕ → ℕ → Bool
is_active errors idx = not (bit_and (2 ^ idx) errors == 0)

unfoldable pub next_idx : ℕ → ℕ
next_idx idx = if leb number_of_errors (u8 (idx + 1)) then 0 else u8 (idx + 1)

-- The `do … while` loop of `select_error_to_show`, on `_error_idx`: where it ends, and whether an
-- active error was met; `none` when the fuel runs out.
unfoldable pub select_loop : ℕ → ℕ → ℕ → ℕ → Option (ℕ × Bool)
unfolding is_active next_idx
select_loop zero org errors error_idx = none
select_loop (suc fuel) org errors error_idx =
    let idx = next_idx error_idx in
    let again = select_loop fuel org errors idx in
    if is_active errors idx
    then some (idx, true)
    else if idx == org
    then some (idx, false)
    else again

-- What the loop leaves in the object: the blinks are set on a hit only.
unfoldable pub selected : Hmi → ℕ × Bool → Hmi × Bool
selected h (idx, true) = (record h { error_idx = idx; blinks_remaining = blink_count idx }, true)
selected h (idx, false) = (record h { error_idx = idx }, false)

-- Four rounds are enough: see `select_loop-Selects`.
unfoldable pub select_error_to_show : Hmi → Option (Hmi × Bool)
unfolding select_loop selected
select_error_to_show h =
    if h.active_errors == 0
    then some (h, false)
    else select_loop 4 h.error_idx h.active_errors h.error_idx >>= λ r. some (selected h r)

-- `set_state(has_error ? STATE_PATTERN_ON : STATE_NO_ERROR_ENTER)` on what was selected.
unfoldable pub show_selected : Hmi → ℕ → Option Hmi
unfolding select_error_to_show set_state
show_selected h entry = do
  (h', has_error) ← select_error_to_show h
  some (set_state h' (if has_error then pattern_on else no_error_enter) entry)

-- The `switch` of `loop`. `now` is its reading of the clock, `entry` the one in `set_state`.
unfoldable pub loop_in : State → Hmi → ℕ → ℕ → Option Hmi
unfolding show_selected set_state
loop_in intra_pattern_delay h now entry =
    if leb intra_delay_ms (sub32 now h.state_entry_time) then show_selected h entry else some h
loop_in pattern_on h now entry =
    if leb on_time_ms (sub32 now h.state_entry_time)
    then some (
        set_state (record h { blinks_remaining = u8 (h.blinks_remaining + 255) }) pattern_off entry)
    else some h
loop_in pattern_off h now entry =
    if leb off_time_ms (sub32 now h.state_entry_time)
    then some
        (set_state h (if h.blinks_remaining == 0 then intra_pattern_delay else pattern_on) entry)
    else some h
loop_in no_error_enter h now entry =
    if not (h.active_errors == 0) && leb intra_delay_ms (sub32 now h.state_entry_time)
    then show_selected h entry
    else if leb no_error_on_ms (sub32 now h.state_entry_time)
    then some (set_state h no_error_off entry)
    else some h
loop_in no_error_off h now entry =
    if not (h.active_errors == 0) then show_selected h entry else some h

unfoldable pub loop : Hmi → ℕ → ℕ → Option Hmi
unfolding loop_in
loop h now entry = loop_in h.state h now entry

-- `~mask` in an `unsigned` of 32 bits.
abbrev pub complement : ℕ → ℕ
complement mask = 4294967295 - mask

unfoldable pub set_error : Hmi → HmiError → Bool → Hmi
unfolding is_active
set_error h error is_error_active =
    let mask = 2 ^ code error in
    if eq_bool is_error_active (is_active h.active_errors (code error))
    then h
    else if is_error_active
    then record h { active_errors = bit_or h.active_errors mask }
    else record h { active_errors = bit_and h.active_errors (complement mask) }
