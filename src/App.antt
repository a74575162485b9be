-- ===== src/App.antt =====
-- smartmeterreader.ino: the application around the components, with the callbacks that connect them. What
-- the libraries and the clock answer is an argument, and so is the text that `snprintf` makes. A component
-- collects the calls of its callbacks as events, which change nothing in it, and they are made here once
-- the component's call returns. Log messages are left out: with `LOG_MODE_SERIAL`, as Config.h has it, none
-- of them goes to `s_net_logger`.
pub mod Format
pub mod Shows
pub mod Dispatch
pub mod Turns
pub mod Requests
pub mod Running
pub mod Waiting
pub mod Exchange
pub mod Handshake
pub mod Wire
use smartmeterreader.Meter.Tokenizer.{c_str}
use smartmeterreader.Prelude.{
  ℕ, suc, ◌+◌, ◌*◌, ◌/◌, ◌%◌, Bool, true, false, not, ltb, if◌then◌else◌, u16, sub32, List, [], ◌∷◌,
  ◌++◌, Option, none, some, ◌>>=◌, ◌==◌,
}
use smartmeterreader.Meter.Values.{Values}
use smartmeterreader.Modbus.Frame.{Request, Memory}
use smartmeterreader.Modbus.Tcp.{ModbusResult, ok}
use smartmeterreader.Hmi
use smartmeterreader.Hmi.{HmiError, no_wifi_connection, no_sm_connection, no_charger_connection}
use smartmeterreader.ConnectionManager
use smartmeterreader.SmartMeter
use smartmeterreader.NetworkLog
use smartmeterreader.Charger
use smartmeterreader.Charger.Calls.{request_of}
use smartmeterreader.Modbus.Client
use smartmeterreader.App.Format.{Arg, format_frame, webasto_unite}

-- The global objects. `modbus` holds the client; its memory is that of the charger's buffers, and its
-- events are worked off in each call. `events` are all calls of the WiFi library.
pub record App : Type 0 where
  pub hmi : Hmi.Hmi
  pub network : ConnectionManager.ConnectionManager
  pub meter : SmartMeter.SmartMeter
  pub modbus : Client.Client
  pub charger : Charger.Charger
  pub log : NetworkLog.NetworkLog
  pub start_network : Bool
  pub start_time : ℕ
  pub frame_id : ℕ
  pub events : List ConnectionManager.Event

-- What happens during one call of `loop`: the clock at its points, and what the libraries answer.
-- `frame_time` is the clock when the frame of that number is handed to the charge controller, and `behind_log` are the
-- bytes in memory behind a frame of the log.
pub record Env : Type 0 where
  pub now : ℕ
  pub network : ConnectionManager.Env
  pub hmi_now : ℕ
  pub hmi_entry : ℕ
  pub meter : SmartMeter.Env
  pub frame_time : ℕ → ℕ
  pub modbus : Client.Env
  pub charger_now : ℕ
  pub charger_entry : ℕ
  pub sending : Client.Env
  pub log_now : ℕ
  pub behind_log : List ℕ

-- `buf` of a request is an address; these are the buffers that the charge controller's requests name.
abbrev pub bytes_of : List ℕ → List ℕ
bytes_of [] = []
bytes_of (w ∷ ws) = w % 256 ∷ w / 256 ∷ bytes_of ws

abbrev pub words_of : List ℕ → List ℕ
words_of (lo ∷ hi ∷ bs) = (lo + hi * 256) ∷ words_of bs
words_of _ = []

abbrev pub keep_alive_value : List ℕ
keep_alive_value = 0 ∷ 1 ∷ []

unfoldable pub memory_of : Charger.Charger → Memory
memory_of c address =
    if address == Charger.charger_meter_address
    then bytes_of c.charger_meter_buf
    else if address == Charger.keep_alive_address
    then keep_alive_value
    else if address == Charger.max_charging_current_address
    then bytes_of (c.max_charging_current_buf ∷ [])
    else []

unfoldable pub broadcast : App → List ℕ → ℕ → App
broadcast a frame port = record a {
  events = a.events ++ ConnectionManager.broadcast a.network frame port;
}

unfoldable pub on_wifi_connected : App → Bool → App
on_wifi_connected a b = record a {
  hmi = Hmi.set_error a.hmi no_wifi_connection (not b);
  log = NetworkLog.set_enable a.log b;
}

unfoldable pub on_meter_connected : App → Bool → App
on_meter_connected a b = record a { hmi = Hmi.set_error a.hmi no_sm_connection (not b) }

unfoldable pub on_ev_charger_connected : App → Bool → App
on_ev_charger_connected a b = record a { hmi = Hmi.set_error a.hmi no_charger_connection (not b) }

abbrev pub quiet_meter : SmartMeter.SmartMeter → SmartMeter.SmartMeter
quiet_meter m = record m { link = record (m.link) { events = [] } }

unfoldable pub hmi_turn : App → Env → Option App
hmi_turn a env = Hmi.loop a.hmi env.hmi_now env.hmi_entry >>= λ h. some (record a { hmi = h })

abbrev pub charger_env : Env → ModbusResult → Charger.Env
charger_env env rc = record { t = env.charger_now; entry = env.charger_entry; answer = rc }

-- `send_request` reads the buffers as they are then, and its answer decides only what follows.
unfoldable pub answer_to :
    App → Env → Charger.Charger → Option Request → Option (Client.Client × ModbusResult)
answer_to a env c none = some (a.modbus, ok)
answer_to a env c (some req) = do
  let w : Client.World = record { client = a.modbus; memory = memory_of c; events = [] }
  (w', rc) ← Client.send_request w req (some 0) env.sending
  some (w'.client, rc)

-- The callbacks for frames, with `print` for `snprintf`. `s_frame_id` is an `int`, which has not reached
-- its last value.
module _ (print : List ℕ → List Arg → List ℕ) where
  unfoldable pub on_smart_meter_frame : App → List ℕ → Values → ℕ → App
  on_smart_meter_frame a name values now =
      let id = suc a.frame_id in
      let a' = broadcast (record a { frame_id = id }) (format_frame print name id values) 20000 in
      record a' { charger = Charger.on_smart_meter_frame a'.charger values now }

  unfoldable pub on_charger_meter_frame : App → Values → App
  on_charger_meter_frame a values =
      let id = suc a.frame_id in
      broadcast (record a { frame_id = id }) (format_frame print webasto_unite id values) 20001

  -- The calls of the callbacks, in order.
  unfoldable pub from_network : App → List ConnectionManager.Event → App
  from_network a [] = a
  from_network a (ConnectionManager.setup ∷ es) = from_network a es
  from_network a (ConnectionManager.disconnect_async ∷ es) = from_network a es
  from_network a (ConnectionManager.wifi_begin ∷ es) = from_network a es
  from_network a (ConnectionManager.connection b ∷ es) = from_network (on_wifi_connected a b) es
  from_network a (ConnectionManager.broadcast_to f p ∷ es) = from_network a es

  unfoldable pub from_meter : (ℕ → ℕ) → App → List SmartMeter.Event → App
  from_meter frame_time a [] = a
  from_meter frame_time a (SmartMeter.connection b ∷ es) =
      from_meter frame_time (on_meter_connected a b) es
  from_meter frame_time a (SmartMeter.frame name v ∷ es) =
      from_meter frame_time (on_smart_meter_frame a name v (frame_time a.frame_id)) es

  unfoldable pub from_charger : App → List Charger.Event → App
  from_charger a [] = a
  from_charger a (Charger.sent req ∷ es) = from_charger a es
  from_charger a (Charger.connection b ∷ es) = from_charger (on_ev_charger_connected a b) es
  from_charger a (Charger.frame v ∷ es) = from_charger (on_charger_meter_frame a v) es

  unfoldable pub from_modbus : App → List Client.Event → App
  from_modbus a [] = a
  from_modbus a (Client.closed fd ∷ es) = from_modbus a es
  from_modbus a (Client.completed callback req code ∷ es) =
      let (c, fs) = Charger.handle_modbus_request_done a.charger code in
      from_modbus (from_charger (record a { charger = c }) fs) es

  -- `emit_log_frame` leaves the length out, so that the text goes on to the first 0 in or behind the frame.
  unfoldable pub emit_log_frames : List ℕ → App → List (List ℕ) → App
  emit_log_frames behind a [] = a
  emit_log_frames behind a (f ∷ fs) =
      emit_log_frames behind (broadcast a (c_str (f ++ behind)) 20001) fs

  -- The parts of `loop`, in its order. What the WiFi library was called with is kept.
  unfoldable pub after_network :
      App → ConnectionManager.ConnectionManager × List ConnectionManager.Event → App
  after_network a (n, es) = from_network (record a { network = n; events = a.events ++ es }) es

  unfoldable pub network_turn : App → Env → App
  network_turn a env =
      if a.start_network
      then after_network a (ConnectionManager.loop a.network env.network)
      else if ltb 1000 (sub32 env.now a.start_time)
      then after_network (record a { start_network = true })
          (ConnectionManager.begin a.network env.network.entry)
      else a

  unfoldable pub meter_turn : App → Env → Option App
  meter_turn a env = do
    m ← SmartMeter.loop (quiet_meter a.meter) env.meter
    some (from_meter env.frame_time (record a { meter = m }) m.link.events)

  unfoldable pub modbus_turn : App → Env → Option App
  modbus_turn a env = do
    let w : Client.World = record { client = a.modbus; memory = memory_of a.charger; events = [] }
    w' ← Client.loop w env.modbus
    let c = record (a.charger) {
      charger_meter_buf = words_of (w'.memory Charger.charger_meter_address);
    }
    some (from_modbus (record a { modbus = w'.client; charger = c }) w'.events)

  unfoldable pub charger_turn : App → Env → Option App
  charger_turn a env = do
    let (c₁, es₁) = Charger.loop a.charger (charger_env env ok)
    (client, rc) ← answer_to a env c₁ (request_of es₁)
    let (c, es) = Charger.loop a.charger (charger_env env rc)
    some (from_charger (record a { modbus = client; charger = c }) es)

  unfoldable pub log_turn : App → Env → App
  log_turn a env =
      let l = NetworkLog.loop (record (a.log) { frames = [] }) env.log_now in
      emit_log_frames env.behind_log (record a { log = l }) l.frames

  unfoldable pub loop : App → Env → Option App
  loop a env = do
    a₁ ← hmi_turn (network_turn a env) env
    a₂ ← meter_turn a₁ env
    a₃ ← modbus_turn a₂ env
    a₄ ← charger_turn a₃ env
    some (log_turn a₄ env)

-- The objects before `setup`, with the pin of the LED and the fuse's limit, and `setup` at three
-- readings of the clock. The charge controller takes `s_charger_modbus` by reference.
unfoldable pub new : ℕ → ℕ → App
new pin fuse = record {
  hmi = Hmi.new pin;
  network = ConnectionManager.new;
  meter = SmartMeter.new;
  modbus = Client.new;
  charger = Charger.new fuse;
  log = NetworkLog.new;
  start_network = false;
  start_time = 0;
  frame_id = 0;
  events = [];
}

unfoldable pub setup : App → ℕ → ℕ → ℕ → App
setup a modbus_now charger_now start_now = record a {
  network = ConnectionManager.set_connected_handler a.network true;
  meter =
      SmartMeter.begin
        (SmartMeter.set_frame_callback (SmartMeter.set_connected_callback a.meter true) true);
  charger =
      Charger.begin
        (Charger.set_frame_callback (Charger.set_connected_callback a.charger true) true)
        charger_now;
  log = NetworkLog.set_frame_callback a.log true;
  hmi = Hmi.begin a.hmi;
  modbus = Client.begin a.modbus modbus_now;
  start_time = start_now;
}
