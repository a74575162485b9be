-- ===== src/Tests/App.antt =====
-- The first call of `loop` after `setup`, with a reading error of the serial line.
use smartmeterreader.Modbus.Client.Phases.{phase}
use smartmeterreader.Charger.Asks.{waits}
use smartmeterreader.App.Handshake.{Runs-waits}
use smartmeterreader.App.Exchange.{is_pending}
use smartmeterreader.Prelude.{ℕ, ◌≡◌, refl, arith, true, false, not, List, [], ◌∷◌, none, some}
use smartmeterreader.Prelude.Int.{pos}
use smartmeterreader.Hmi.{no_wifi_connection, no_sm_connection, no_charger_connection}
use smartmeterreader.ConnectionManager
use smartmeterreader.ConnectionManager.Invariant.{broadcasts_connected}
use smartmeterreader.SmartMeter
use smartmeterreader.Charger.Invariant.{LimitIsSafe}
use smartmeterreader.Modbus.Client
use smartmeterreader.Modbus.Tcp
use smartmeterreader.App.{App, Env, setup, new, loop}
use smartmeterreader.App.Format.{Arg}
use smartmeterreader.App.Shows.{shows}
use smartmeterreader.App.Running.{Runs, set_up, looped, Promises, Runs-shows, Runs-returns}

-- The template in place of the text.
abbrev print : List ℕ → List Arg → List ℕ
print tpl args = tpl

abbrev started : App
started = setup (new 2 25000) 900 950 1000

abbrev socket : Client.Env
socket = record {
  t = 2100;
  entry = 2100;
  poll_rc = pos 0;
  io = record { bytes = pos 0; errno = Tcp.eagain; received = [] };
  opening = record {
    pton_rc = pos 1;
    socket_fd = some 3;
    connect_failed = true;
    errno = Tcp.einprogress;
  };
}

abbrev env : Env
env = record {
  now = 2100;
  network = record {
    status = ConnectionManager.other (pos 6);
    is_connected = false;
    now = 2100;
    entry = 2100;
  };
  hmi_now = 2100;
  hmi_entry = 2100;
  meter = record { reading = none; frame_time = λ n. 2100; t = 2100 };
  frame_time = λ n. 2100;
  modbus = socket;
  charger_now = 2100;
  charger_entry = 2100;
  sending = socket;
  log_now = 2100;
  behind_log = 0 ∷ [];
}

ready : Runs print started
ready = set_up 2 25000 900 950 1000 (omega arith)

promises : Promises started env
unfolding setup new SmartMeter.loop SmartMeter.read Client.begin Client.new
promises = record { meter = _; read = refl; answers = tt }

first_call : (a : App) × (loop print started env ≡ some a)
first_call = Runs-returns print started env ready promises

Runs-returns_example : (a : App) × (loop print started env ≡ some a)
Runs-returns_example = Runs-returns print started env ready promises

Runs-shows_example :
    let a = first_call.0 in
    (shows a.hmi no_wifi_connection ≡ not a.network.is_connected)
    × (shows a.hmi no_sm_connection ≡ not a.meter.link.is_connected)
    × (shows a.hmi no_charger_connection ≡ not a.charger.is_connected)
    × (a.log.is_enabled ≡ a.network.is_connected)
    × (broadcasts_connected false a.events ≡ true)
    × LimitIsSafe a.charger.fuse_limit_ma a.charger.limit_ma a.charger.max_charging_current_buf
Runs-shows_example =
    Runs-shows print first_call.0 (looped started first_call.0 env ready promises first_call.1)

Runs-waits_example : waits first_call.0.charger ≡ is_pending (phase first_call.0.modbus)
Runs-waits_example =
    Runs-waits print first_call.0 (looped started first_call.0 env ready promises first_call.1)
