-- ===== src/App/Running.antt =====
-- The application as a whole, call by call of `loop`.
use smartmeterreader.Prelude.{Returns-some}
use smartmeterreader.Modbus.Tcp.{IoResult}
use smartmeterreader.Prelude.{
  ℕ, ◌≡◌, ◌∙◌, refl, ap, true, false, not, List, Option, none, some, Returns, ◌<◌,
}
use smartmeterreader.Hmi.{
  Hmi, HmiError, code, no_wifi_connection, no_sm_connection, no_charger_connection, is_active,
  set_error,
}
use smartmeterreader.Hmi.Invariant.{begin-IsValid}
use smartmeterreader.ConnectionManager
use smartmeterreader.ConnectionManager.Invariant
use smartmeterreader.SmartMeter
use smartmeterreader.Charger
use smartmeterreader.Charger.Invariant.{same-IsSafe, LimitIsSafe, new-IsSafe}
use smartmeterreader.Modbus.Client
use smartmeterreader.App.Format.{Arg}
use smartmeterreader.App.{App, setup, new}
use smartmeterreader.NetworkLog
use smartmeterreader.Hmi
use smartmeterreader.Prelude.{Returns->>=}
use smartmeterreader.Modbus.Client.Invariant.{Answers}
use smartmeterreader.App.{
  Env, quiet_meter, network_turn, hmi_turn, meter_turn, modbus_turn, charger_turn, loop,
}
use smartmeterreader.App.Shows.{shows}
use smartmeterreader.App.Turns.{
  IsRunning, Settles, network_turn-Settles, hmi_turn-Settles, meter_turn-Settles,
}
use smartmeterreader.App.Requests.{
  modbus_turn-IsRunning, charger_turn-IsRunning, log_turn-IsRunning,
}

-- What `loop` relies on: the reading of the meter ends, and `read` and `write` of the socket give no more
-- bytes than they are asked for.
pub record Promises (a : App) (env : Env) : Type 0 where
  pub meter : SmartMeter.SmartMeter
  pub read : SmartMeter.loop (quiet_meter a.meter) env.meter ≡ some meter
  pub answers : Answers a.modbus.state a.modbus env.modbus.io

pub same_answers :
    (c d : Client.Client) (io : IoResult) → c ≡ d → Answers d.state d io → Answers c.state c io
same_answers c d io e h = rw e h

loop-IsRunning :
    (print : List ℕ → List Arg → List ℕ) (a : App) (env : Env)
    → IsRunning a
    → Promises a env
    → Returns IsRunning (loop print a env)
unfolding loop
loop-IsRunning print a env r p =
    let a₀ = network_turn print a env in
    let s₀ = network_turn-Settles print a r env in
    Returns->>= (Settles a₀.meter a₀.modbus) IsRunning (hmi_turn a₀ env) _
      (hmi_turn-Settles print a₀ s₀.running env)
      (λ a₁ s₁.
        Returns->>= (Settles p.meter a₁.modbus) IsRunning (meter_turn print a₁ env) _
          (meter_turn-Settles print a₁ s₁.running env p.meter
            (ap (λ m. SmartMeter.loop (quiet_meter m) env.meter) (s₁.meter ∙ s₀.meter) ∙ p.read))
          (λ a₂ s₂.
            Returns->>= IsRunning IsRunning (modbus_turn print a₂ env) _
              (modbus_turn-IsRunning print a₂ s₂.running env (
                same_answers a₂.modbus a.modbus env.modbus.io (s₂.modbus ∙ s₁.modbus ∙ s₀.modbus)
                  p.answers))
              (λ a₃ r₃.
                Returns->>= IsRunning IsRunning (charger_turn print a₃ env) _
                  (charger_turn-IsRunning print a₃ r₃ env)
                  (λ a₄ r₄. log_turn-IsRunning print a₄ r₄ env))))

setup-IsRunning :
    (pin fuse modbus_now charger_now start_now : ℕ)
    → fuse < 65536000
    → IsRunning (setup (new pin fuse) modbus_now charger_now start_now)
unfolding setup new Hmi.begin Hmi.new Hmi.is_active SmartMeter.begin SmartMeter.set_frame_callback
    SmartMeter.set_connected_callback SmartMeter.new ConnectionManager.new
    ConnectionManager.set_connected_handler Client.begin Client.new Charger.begin
    Charger.set_frame_callback Charger.set_connected_callback Charger.new
    NetworkLog.set_frame_callback NetworkLog.new
setup-IsRunning pin fuse modbus_now charger_now start_now h = record {
  holds = record {
    light = record { valid = begin-IsValid pin; no_wifi = refl; no_sm = refl; no_charger = refl };
    log = refl;
    network = Invariant.ready;
    client = record { buffer = refl; shape = refl };
    limit = same-IsSafe (Charger.new fuse) _ refl refl refl (new-IsSafe fuse h);
    callback = refl;
    wifi = refl;
    charger = refl;
    meter = refl;
    modbus = refl;
  };
  told = refl;
}

-- `setup` at any readings of the clock, and then calls of `loop` that all return.
pub data Runs (print : List ℕ → List Arg → List ℕ) : App → Type 0 where
  set_up :
      (pin fuse modbus_now charger_now start_now : ℕ)
      → fuse < 65536000
      → Runs print (setup (new pin fuse) modbus_now charger_now start_now)
  looped :
      (a a' : App) (env : Env)
      → Runs print a
      → Promises a env
      → loop print a env ≡ some a'
      → Runs print a'

pub Runs-IsRunning : (print : List ℕ → List Arg → List ℕ) (a : App) → Runs print a → IsRunning a
Runs-IsRunning print a (set_up pin fuse modbus_now charger_now start_now h) =
    setup-IsRunning pin fuse modbus_now charger_now start_now h
Runs-IsRunning print a (looped a₀ a₁ env r p e) =
    Returns-some IsRunning (loop print a₀ env)
      (loop-IsRunning print a₀ env (Runs-IsRunning print a₀ r) p) e

returned : (P : App → Type 0) (m : Option App) → Returns P m → (a : App) × (m ≡ some a)
returned P none h = absurd h
returned P (some a) h = (a, refl)

-- After `setup` and any calls of `loop` that return, where `read` and `write` of the socket give no more
-- bytes than they are asked for: the light shows an error for WiFi, for the meter and for the charger
-- exactly where that connection does not stand, the network log is on exactly where WiFi is connected,
-- every frame was broadcast while it was, and the word for the charger is 0 or says in whole amperes a
-- limit between 0 and the fuse's. The fuse's limit is below 65536 A.
pub Runs-shows :
    (print : List ℕ → List Arg → List ℕ) (a : App)
    → Runs print a
    → (shows a.hmi no_wifi_connection ≡ not a.network.is_connected)
      × (shows a.hmi no_sm_connection ≡ not a.meter.link.is_connected)
      × (shows a.hmi no_charger_connection ≡ not a.charger.is_connected)
      × (a.log.is_enabled ≡ a.network.is_connected)
      × (Invariant.broadcasts_connected false a.events ≡ true)
      × LimitIsSafe a.charger.fuse_limit_ma a.charger.limit_ma a.charger.max_charging_current_buf
Runs-shows print a r =
    let h = (Runs-IsRunning print a r).holds in
    let (agrees, told, sent) = Invariant.Reaches-told a.network a.events h.network in
    (h.light.no_wifi, h.light.no_sm, h.light.no_charger, h.log, sent, h.limit.limit)

-- After such calls of `setup` and `loop`, the next call returns, if the reading of the meter ends and the
-- socket gives no more bytes than it is asked for: the LED's loop ends, and no request that is null is
-- read.
pub Runs-returns :
    (print : List ℕ → List Arg → List ℕ) (a : App) (env : Env)
    → Runs print a
    → Promises a env
    → (a' : App) × (loop print a env ≡ some a')
Runs-returns print a env r p =
    returned IsRunning (loop print a env) (loop-IsRunning print a env (Runs-IsRunning print a r) p)
