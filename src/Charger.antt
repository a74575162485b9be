-- ===== src/Charger.antt =====
-- The charge controller, of ChargeController.h, ChargeController.cpp. It polls the charger's meter,
-- keeps the charger alive and sets its current limit, one Modbus request at a time. What
-- `ModbusTcpClient::send_request` answers is an argument, and so is the clock. Log messages are left out.
pub mod Limit
pub mod Words
pub mod Invariant
pub mod Calls
pub mod Asks
use smartmeterreader.Prelude.{
  ℕ, zero, suc, ◌+◌, ◌-◌, ◌*◌, ◌/◌, ◌%◌, Bool, true, false, not, ◌&&◌, ◌||◌, ltb, leb, ◌==◌,
  if◌then◌else◌, eq_bool, u16, u32, sub32, List, [], ◌∷◌, ◌++◌, get_or, replicate, set,
}
use smartmeterreader.Prelude.Int.{ℤ, pos, negsuc, ◌+ℤ◌, ◌-ℤ◌, ◌/ℤ◌, eq_ℤ, ltb_ℤ, int32, pattern_of}
use smartmeterreader.Meter.Values.{Values, zero_datetime, zero_values}
use smartmeterreader.Modbus.Frame.{Request, holding_register, input_register, exception_none}
use smartmeterreader.Modbus.Tcp.{ModbusResult, ok, busy, fatal}

abbrev pub poll_interval_ms : ℕ
poll_interval_ms = 3000

abbrev pub smart_meter_timeout_ms : ℕ
smart_meter_timeout_ms = 10000

pub data State : Type 0 where
  idle read_charger_meter set_charger_keep_alive set_charger_limit : State

-- A callback that is not set is null. `charger_meter_buf` and `max_charging_current_buf` are words of the machine's memory, as its loads and
-- stores see them.
pub record Charger : Type 0 where
  pub fuse_limit_ma : ℕ
  pub is_connected : Bool
  pub is_request_done : Bool
  pub has_connected_callback : Bool
  pub has_frame_callback : Bool
  pub modbus_rc : ModbusResult
  pub smart_meter_meas : Values
  pub charger_meter_meas : Values
  pub state : State
  pub state_entry_time : ℕ
  pub last_poll_time : ℕ
  pub last_smart_meter_frame_time : ℕ
  pub limit_ma : ℤ
  pub max_charging_current_buf : ℕ
  pub charger_meter_buf : List ℕ

-- Calls of `send_request` and of the two callbacks.
pub data Event : Type 0 where
  sent : Request → Event
  connection : Bool → Event
  frame : Values → Event

-- The clock, as `loop` and as `set_state` read it, and the answer of `send_request`.
pub record Env : Type 0 where
  pub t : ℕ
  pub entry : ℕ
  pub answer : ModbusResult

-- Both shifts are of 16-bit words, and no bits of the summands overlap.
unfoldable pub swap_b16 : ℕ → ℕ
swap_b16 v = u16 (v / 256 + v * 256)

unfoldable pub swap_b32 : ℕ → ℕ → ℕ
swap_b32 v1 v2 =
    let b4 = (v1 % 256) * 16777216 in
    let b3 = (v1 / 256) * 65536 in
    let b2 = (v2 % 256) * 256 in let b1 = v2 / 256 in b1 + b2 + b3 + b4

-- The addresses of the three buffers.
abbrev pub charger_meter_address : ℕ
charger_meter_address = 0

abbrev pub keep_alive_address : ℕ
keep_alive_address = 1

abbrev pub max_charging_current_address : ℕ
max_charging_current_address = 2

abbrev pub charger_meter_request : Request
charger_meter_request = record {
  buf = charger_meter_address;
  count = 38;
  type = input_register;
  register_no = 1000;
  unit_id = 1;
  is_write_request = false;
}

abbrev pub keep_alive_request : Request
keep_alive_request = record {
  buf = keep_alive_address;
  count = 1;
  type = holding_register;
  register_no = 6000;
  unit_id = 1;
  is_write_request = true;
}

abbrev pub set_max_charging_current_request : Request
set_max_charging_current_request = record {
  buf = max_charging_current_address;
  count = 1;
  type = holding_register;
  register_no = 5004;
  unit_id = 1;
  is_write_request = true;
}

-- A global object starts as zeros.
unfoldable pub new : ℕ → Charger
new fuse = record {
  fuse_limit_ma = fuse;
  is_connected = false;
  is_request_done = false;
  has_connected_callback = false;
  has_frame_callback = false;
  modbus_rc = ok;
  smart_meter_meas = zero_values;
  charger_meter_meas = zero_values;
  state = idle;
  state_entry_time = 0;
  last_poll_time = 0;
  last_smart_meter_frame_time = 0;
  limit_ma = negsuc 0;
  max_charging_current_buf = 0;
  charger_meter_buf = replicate 38 0;
}

unfoldable pub begin : Charger → ℕ → Charger
begin c now = record c {
  state_entry_time = now;
  last_smart_meter_frame_time = sub32 now smart_meter_timeout_ms;
}

unfoldable pub set_connected_callback : Charger → Bool → Charger
set_connected_callback c is_set = record c { has_connected_callback = is_set }

unfoldable pub set_frame_callback : Charger → Bool → Charger
set_frame_callback c is_set = record c { has_frame_callback = is_set }

unfoldable pub on_smart_meter_frame : Charger → Values → ℕ → Charger
on_smart_meter_frame c measurement now = record c {
  smart_meter_meas = measurement;
  last_smart_meter_frame_time = now;
}

unfoldable pub set_is_connected : Charger → Bool → Charger × List Event
set_is_connected c b =
    if eq_bool b c.is_connected
    then (c, [])
    else (record c { is_connected = b }, if c.has_connected_callback then connection b ∷ [] else [])

unfoldable pub set_charge_limit : Charger → ℤ → Charger
set_charge_limit c limit_ma = if eq_ℤ limit_ma c.limit_ma then c else record c {
  limit_ma = limit_ma;
  max_charging_current_buf = swap_b16 (pattern_of 65536 (limit_ma /ℤ 1000));
}

abbrev pub current_of : Values → ℕ → ℤ
current_of v idx = get_or v.current_ma idx (pos 0)

-- `_charger_meter_meas.current_ma[idx] > 1000`.
abbrev pub is_phase_active : Charger → ℕ → Bool
is_phase_active c idx = ltb_ℤ (pos 1000) (current_of c.charger_meter_meas idx)

unfoldable pub is_any_phase_active : Charger → Bool
is_any_phase_active c = is_phase_active c 0 || is_phase_active c 1 || is_phase_active c 2

-- The sum is one of `uint32_t`, converted.
unfoldable pub phase_limit : Charger → ℕ → ℤ
phase_limit c idx = int32 (
    pos c.fuse_limit_ma -ℤ current_of c.smart_meter_meas idx +ℤ current_of c.charger_meter_meas idx)

abbrev pub min_ℤ : ℤ → ℤ → ℤ
min_ℤ a b = if ltb_ℤ a b then a else b

-- The body of the second loop, and the loop from the phases `idxs` on.
unfoldable pub limit_by : Charger → ℕ → ℤ → ℤ
limit_by c idx min_limit =
    if not (is_any_phase_active c) || is_phase_active c idx
    then min_ℤ (phase_limit c idx) min_limit
    else min_limit

unfoldable pub limit_loop : Charger → List ℕ → ℤ → ℤ
limit_loop c [] min_limit = min_limit
limit_loop c (idx ∷ idxs) min_limit = limit_loop c idxs (limit_by c idx min_limit)

abbrev pub phases : List ℕ
phases = 0 ∷ 1 ∷ 2 ∷ []

unfoldable pub determine_current_limit : Charger → ℤ
determine_current_limit c =
    let min_limit = limit_loop c phases (int32 (pos c.fuse_limit_ma)) in
    if ltb_ℤ min_limit (pos 0) then pos 0 else min_limit

-- `_modbus_rc = _client.send_request(...); _is_request_done = _modbus_rc != MODBUS_OK;`
unfoldable pub start_request : Charger → Request → ModbusResult → Charger × List Event
start_request c req rc = (
  record c { modbus_rc = rc; is_request_done = elim rc [ ok ↦ false | _ ↦ true ] },
  sent req ∷ [],
)

unfoldable pub update_limit : Charger → Charger
update_limit c =
    let age = sub32 c.state_entry_time c.last_smart_meter_frame_time in
    if leb age poll_interval_ms
    then set_charge_limit c (determine_current_limit c)
    else if leb smart_meter_timeout_ms age
    then set_charge_limit c (pos 0)
    else c

unfoldable pub enter_state : State → Charger → ModbusResult → Charger × List Event
enter_state idle c rc = (c, [])
enter_state read_charger_meter c rc = start_request c charger_meter_request rc
enter_state set_charger_keep_alive c rc = start_request c keep_alive_request rc
enter_state set_charger_limit c rc =
    start_request (update_limit c) set_max_charging_current_request rc

unfoldable pub set_state : Charger → State → Env → Charger × List Event
set_state c s env = enter_state s (record c { state = s; state_entry_time = env.entry }) env.answer

-- `set_is_connected(is_connected); set_state(STATE_IDLE);`
unfoldable pub finish : Charger → Bool → Env → Charger × List Event
finish c b env =
    let (c', es) = set_is_connected c b in let (c'', fs) = set_state c' idle env in (c'', es ++ fs)

-- The branches on `_modbus_rc`, with the continuation of `MODBUS_OK`.
unfoldable pub on_done : Charger → Env → Charger × List Event → Charger × List Event
on_done c env next = if not c.is_request_done then (c, []) else elim c.modbus_rc [
  | ok ↦ next
  | busy ↦ set_state c c.state env
  | fatal ↦ finish c false env
]

-- The `switch` of `loop`.
unfoldable pub loop_in : State → Charger → Env → Charger × List Event
loop_in idle c env =
    if leb poll_interval_ms (sub32 env.t c.last_poll_time)
    then set_state (record c { last_poll_time = env.t }) read_charger_meter env
    else (c, [])
loop_in read_charger_meter c env = on_done c env (set_state c set_charger_keep_alive env)
loop_in set_charger_keep_alive c env = on_done c env (set_state c set_charger_limit env)
loop_in set_charger_limit c env = on_done c env (finish c true env)

unfoldable pub loop : Charger → Env → Charger × List Event
loop c env = loop_in c.state c env

abbrev pub word : Charger → ℕ → ℕ
word c i = get_or c.charger_meter_buf i 0

-- The meter values in the answer of the charger.
unfoldable pub charger_values : Charger → Values
charger_values c = record {
  timestamp = zero_datetime;
  power_w =
      int32 (pos (swap_b32 (word c 24) (word c 25)))
      ∷ int32 (pos (swap_b32 (word c 28) (word c 29)))
      ∷ int32 (pos (swap_b32 (word c 32) (word c 33)))
      ∷ [];
  potential_mv =
      pos (1000 * swap_b16 (word c 14))
      ∷ pos (1000 * swap_b16 (word c 16))
      ∷ pos (1000 * swap_b16 (word c 18))
      ∷ [];
  current_ma =
      pos (swap_b16 (word c 8)) ∷ pos (swap_b16 (word c 10)) ∷ pos (swap_b16 (word c 12)) ∷ [];
  import_wh = pos (u32 (100 * swap_b32 (word c 36) (word c 37)));
  export_wh = pos 0;
}

abbrev pub done : Charger → Bool → Charger
done c is_success = record c {
  is_request_done = true;
  modbus_rc = if is_success then ok else fatal;
}

abbrev pub handle_in : State → Charger → Bool → Charger × List Event
handle_in read_charger_meter c is_success =
    if is_success
    then (
      done (record c { charger_meter_meas = charger_values c }) true,
      if c.has_frame_callback then frame (charger_values c) ∷ [] else [],
    )
    else (done c false, [])
handle_in set_charger_keep_alive c is_success = (done c is_success, [])
handle_in set_charger_limit c is_success = (done c is_success, [])
handle_in idle c is_success = (c, [])

unfoldable pub handle_modbus_request_done : Charger → ℕ → Charger × List Event
handle_modbus_request_done c exception_code = handle_in c.state c (exception_code == exception_none)
