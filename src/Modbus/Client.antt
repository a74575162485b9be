-- ===== src/Modbus/Client.antt =====
-- The state machine of the Modbus client. In a result, `none` is a dereferenced null pointer: the state
-- machine reads `_active_request` only where a request is active, which `Invariant` shows.
-- `_ip` and `_port` are only passed to `tcp_open`, whose answers are arguments.
pub mod Invariant
pub mod Requests
pub mod Responses
pub mod Start
pub mod Phases
pub mod Refinement
pub mod Timeout
pub mod Allows
pub mod Handler
use Prim.Native.Nat.{bit_and}
use smartmeterreader.Prelude.{
  ℕ, zero, suc, ◌+◌, ◌-◌, ◌*◌, Bool, true, false, not, ◌&&◌, ◌||◌, ltb, leb, ◌==◌, if◌then◌else◌,
  u8, u16, u32, sub32, List, [], ◌∷◌, ◌++◌, take, drop, replicate, length, get_or, Option, none,
  some, ◌>>=◌, map, min,
}
use smartmeterreader.Prelude.Int.{ℤ}
use smartmeterreader.Modbus.Frame.{
  Request, Memory, get_function_code, serialize_request, TcpHeader, parse_tcp_header,
  tcp_header_size, exception_none, exception_protocol_violation, exception_not_connected,
  exception_timeout,
}
use smartmeterreader.Modbus.Tcp.{
  ModbusResult, ok, busy, fatal, IoResult, OpenResult, tcp_read, tcp_write, tcp_open, tcp_close,
  tcp_connect,
}

pub data State : Type 0 where
  disconnected connecting connected write_request read_response_header read_response : State

-- The callback and its argument are one value here, `none` for a null callback.
pub record Client : Type 0 where
  pub fd : Option ℕ
  pub frame_id : ℕ
  pub frame_buffer : List ℕ
  pub frame_size : ℕ
  pub read_idx : ℕ
  pub write_idx : ℕ
  pub state : State
  pub state_entry_time : ℕ
  pub active_request : Option Request
  pub request_callback : Option ℕ

-- What a call does outside the object: descriptors that it closes, and callbacks with their request and
-- exception code.
pub data Event : Type 0 where
  closed : ℕ → Event
  completed : ℕ → Request → ℕ → Event

-- The answers of the clock and of lwIP during one call. `t` is read by `loop`, `entry` by `set_state`.
pub record Env : Type 0 where
  pub t : ℕ
  pub entry : ℕ
  pub poll_rc : ℤ
  pub io : IoResult
  pub opening : OpenResult

-- An object and the memory that it shares with its clients, after a call, and what the call did.
pub record World : Type 0 where
  pub client : Client
  pub memory : Memory
  pub events : List Event

-- The object at power-on; the constructor sets `_ip` and `_port` only.
unfoldable pub new : Client
new = record {
  fd = some 0;
  frame_id = 0;
  frame_buffer = replicate 272 0;
  frame_size = 0;
  read_idx = 0;
  write_idx = 0;
  state = disconnected;
  state_entry_time = 0;
  active_request = none;
  request_callback = none;
}

-- The destructor.
unfoldable pub destroy : World → World
destroy w = record w {
  client = record (w.client) { fd = none };
  events = w.events ++ map closed (tcp_close w.client.fd);
}

-- The call of the callback, if there are a request and a callback.
unfoldable pub completion : Option ℕ → Option Request → ℕ → List Event
completion (some callback) (some req) code = completed callback req code ∷ []
completion _ _ code = []

unfoldable pub complete_request : World → ℕ → World
unfolding completion
complete_request w code = record w {
  client = record (w.client) { active_request = none };
  events = w.events ++ completion w.client.request_callback w.client.active_request code;
}

-- The cases of the `switch` in `set_state` that do something.
unfoldable pub enter_disconnected : World → World
unfolding complete_request
enter_disconnected w =
    complete_request
      (record w {
        client = record (w.client) { fd = none };
        events = w.events ++ map closed (tcp_close w.client.fd);
      })
      exception_not_connected

unfoldable pub enter_connecting : World → OpenResult → World
enter_connecting w opening =
    let (fd, dropped) = tcp_open opening in
    record w { client = record (w.client) { fd = fd }; events = w.events ++ map closed dropped }

unfoldable pub enter_write_request : World → Option World
enter_write_request w = do
  let c = w.client
  req ← c.active_request
  let id = u16 (c.frame_id + 1)
  let frame = serialize_request w.memory req id 272
  some (record w {
    client = record c {
      frame_id = id;
      frame_buffer = frame ++ drop (length frame) c.frame_buffer;
      frame_size = length frame;
      write_idx = length frame;
      read_idx = 0;
    };
  })

unfoldable pub enter_read_response_header : World → World
enter_read_response_header w = record w {
  client = record (w.client) { frame_size = tcp_header_size; write_idx = 0; read_idx = 0 };
}

unfoldable pub enter_state : State → World → OpenResult → Option World
unfolding enter_disconnected enter_connecting enter_write_request enter_read_response_header
enter_state disconnected w opening = some (enter_disconnected w)
enter_state connecting w opening = some (enter_connecting w opening)
enter_state connected w opening = some w
enter_state write_request w opening = enter_write_request w
enter_state read_response_header w opening = some (enter_read_response_header w)
enter_state read_response w opening = some w

unfoldable pub set_state : World → State → Env → Option World
unfolding enter_state
set_state w s env =
    enter_state s
      (record w { client = record (w.client) { state = s; state_entry_time = env.entry } })
      env.opening

-- The comparisons `_state < STATE_CONNECTED` and `_state > STATE_CONNECTED`.
abbrev pub rank : State → ℕ
rank disconnected = 0
rank connecting = 1
rank connected = 2
rank write_request = 3
rank read_response_header = 4
rank read_response = 5

unfoldable pub send_request : World → Request → Option ℕ → Env → Option (World × ModbusResult)
send_request w req on_done env =
    if ltb (rank w.client.state) (rank connected)
    then some (w, fatal)
    else if ltb (rank connected) (rank w.client.state)
    then some (w, busy)
    else set_state
        (record w {
          client = record (w.client) { active_request = some req; request_callback = on_done };
        })
        write_request env
      >>= λ w'. some (w', ok)

-- `memcpy` of `received` to `buf + at`.
abbrev pub write_at : List ℕ → ℕ → List ℕ → List ℕ
write_at buf at bytes = take at buf ++ (bytes ++ drop (at + length bytes) buf)

abbrev pub done_if : Bool → ModbusResult
done_if b = if b then ok else busy

unfoldable pub read_data : Client → IoResult → Client × ModbusResult
read_data c io =
    let (rc, act_length) = tcp_read (c.frame_size - c.write_idx) io in
    let c' = record c {
      frame_buffer = write_at c.frame_buffer c.write_idx (take act_length io.received);
      write_idx = c.write_idx + act_length;
    } in
    (c', elim rc [ fatal ↦ fatal | _ ↦ done_if (leb c'.frame_size c'.write_idx) ])

unfoldable pub write_data : Client → IoResult → Client × ModbusResult
write_data c io =
    let (rc, act_length) = tcp_write (c.write_idx - c.read_idx) io in
    let c' = record c { read_idx = c.read_idx + act_length } in
    (c', elim rc [ fatal ↦ fatal | _ ↦ done_if (leb c'.write_idx c'.read_idx) ])

abbrev pub store : Memory → ℕ → List ℕ → Memory
store mem address bytes a = if a == address then bytes else mem a

-- The answer's payload in the requester's buffer: what there is of it, and zeros for the rest.
unfoldable pub store_payload : Client → Request → Memory → Memory
store_payload c req mem =
    let payload_size = get_or c.frame_buffer (c.read_idx + 2) 0 in
    let buf_size = u32 (2 * req.count) in
    let cpy_size = min payload_size buf_size in
    store mem req.buf (
      take cpy_size (drop (c.read_idx + 3) c.frame_buffer)
      ++ (replicate (buf_size - cpy_size) 0 ++ drop buf_size (mem req.buf)))

-- `process_response` after the null test that C does not make; `_read_idx` is not read again before it
-- is set, so its steps are written out as offsets.
unfoldable pub process_response_of : World → Request → World
unfolding store_payload complete_request
process_response_of w req =
    let c = w.client in
    let unit_id = get_or c.frame_buffer c.read_idx 0 in
    let tmp = get_or c.frame_buffer (c.read_idx + 1) 0 in
    let function_code = bit_and tmp 0x7f in
    let is_exception = not (bit_and function_code 0x80 == 0) in
    if not (unit_id == req.unit_id) || not (get_function_code req == function_code)
    then complete_request w exception_protocol_violation
    else if is_exception
    then complete_request w exception_protocol_violation
    else if req.is_write_request
    then complete_request w exception_none
    else complete_request (record w { memory = store_payload c req w.memory }) exception_none

unfoldable pub process_response : World → Option World
process_response w = w.client.active_request >>= λ req. some (process_response_of w req)

unfoldable pub begin : Client → ℕ → Client
begin c now = record c { state_entry_time = now }

-- `complete_request(MODBUS_EXCEPTION_TIMEOUT); set_state(STATE_DISCONNECTED);`, and the same with
-- another code.
unfoldable pub give_up : World → ℕ → Env → Option World
give_up w code env = set_state (complete_request w code) disconnected env

abbrev pub late : World → Env → Bool
late w env = ltb 1000 (sub32 env.t w.client.state_entry_time)

-- The three branches on `rc` of the states that wait for the socket.
unfoldable pub on_result : ModbusResult → World → Env → Option World → Option World
on_result fatal w env finish = set_state w disconnected env
on_result ok w env finish = finish
on_result busy w env finish = if late w env then give_up w exception_timeout env else some w

-- The answer to a complete header.
unfoldable pub take_header : World → Env → Option World
take_header w env =
    let c = w.client in
    let hdr = parse_tcp_header c.frame_buffer in
    let w' = record w {
      client = record c { read_idx = c.frame_size; frame_size = c.frame_size + hdr.pdu_size };
    } in
    if not (hdr.id == c.frame_id) || leb 272 (c.frame_size + hdr.pdu_size)
    then give_up w' exception_protocol_violation env
    else set_state w' read_response env

unfoldable pub take_response : World → Env → Option World
take_response w env = process_response w >>= λ w'. set_state w' connected env

abbrev pub with_client : World → Client → World
with_client w c = record w { client = c }

unfoldable pub on_connect : ModbusResult → World → Env → Option World
on_connect fatal w env = set_state w disconnected env
on_connect ok w env = set_state w connected env
on_connect busy w env =
    if leb 5000 (sub32 env.t w.client.state_entry_time)
    then set_state w disconnected env
    else some w

-- The `switch` of `loop`.
unfoldable pub loop_in : State → World → Env → Option World
loop_in disconnected w env =
    if ltb 5000 (sub32 env.t w.client.state_entry_time) then set_state w connecting env else some w
loop_in connecting w env = on_connect (tcp_connect w.client.fd env.poll_rc) w env
loop_in connected w env = some w
loop_in write_request w env =
    let (c, rc) = write_data w.client env.io in
    let w' = with_client w c in on_result rc w' env (set_state w' read_response_header env)
loop_in read_response_header w env =
    let (c, rc) = read_data w.client env.io in
    let w' = with_client w c in on_result rc w' env (take_header w' env)
loop_in read_response w env =
    let (c, rc) = read_data w.client env.io in
    let w' = with_client w c in on_result rc w' env (take_response w' env)

unfoldable pub loop : World → Env → Option World
loop w env = loop_in w.client.state w env
