-- ===== src/App/Turns.antt =====
-- The first parts of `loop`: the callbacks of WiFi and of the meter, and the status light.
use smartmeterreader.Prelude.{
  ℕ, ◌≡◌, ◌∙◌, refl, sym, ap, Bool, true, false, ltb, if◌then◌else◌, List, ◌++◌, some, Returns,
  Returns-both,
}
use smartmeterreader.Prelude.Told.{last_or}
use smartmeterreader.Hmi.{
  Hmi, HmiError, code, no_wifi_connection, no_sm_connection, no_charger_connection, is_active,
  set_error,
}
use smartmeterreader.Hmi.Invariant.{IsValid}
use smartmeterreader.ConnectionManager
use smartmeterreader.ConnectionManager.Invariant
use smartmeterreader.SmartMeter
use smartmeterreader.SmartMeter.Connection
use smartmeterreader.Modbus.Client
use smartmeterreader.App.Format.{Arg}
use smartmeterreader.App.{App}
use smartmeterreader.Hmi.Invariant.{loop-IsValid, loop-active_errors}
use smartmeterreader.Hmi
use smartmeterreader.Prelude.{sub32, Returns->>=}
use smartmeterreader.App.{Env, quiet_meter, network_turn, after_network, hmi_turn, meter_turn}
use smartmeterreader.App.Shows.{Flags, Holds}
use smartmeterreader.App.Dispatch.{from_network-Holds, from_meter-Holds}

abbrev pub flags : App → Flags
flags a = record {
  wifi = a.network.is_connected;
  charger = a.charger.is_connected;
  meter = a.meter;
  modbus = a.modbus;
}

-- The callbacks have been told how the connections stand, and the parts are well formed.
pub record IsRunning (a : App) : Type 0 where
  pub holds :
      Holds a.network.is_connected a.meter.link.is_connected a.charger.is_connected (flags a) a
  pub told : a.meter.link.has_connected_callback ≡ true

-- The same, and these are the objects that the later parts of `loop` start from.
pub record Settles (m : SmartMeter.SmartMeter) (c : Client.Client) (a : App) : Type 0 where
  pub running : IsRunning a
  pub meter : a.meter ≡ m
  pub modbus : a.modbus ≡ c

pub settle :
    (w s c : Bool) (f : Flags) (a : App)
    → Holds w s c f a
    → w ≡ f.wifi
    → s ≡ f.meter.link.is_connected
    → c ≡ f.charger
    → f.meter.link.has_connected_callback ≡ true
    → Settles f.meter f.modbus a
settle w s c f a h ew es ec k =
    let ew' : w ≡ a.network.is_connected = ew ∙ sym h.wifi in
    let es' : s ≡ a.meter.link.is_connected = es ∙ ap (λ m. m.link.is_connected) (sym h.meter) in
    let ec' : c ≡ a.charger.is_connected = ec ∙ sym h.charger in
    record {
      running = record {
        holds = record {
          light = rw (← ew', ← es', ← ec') h.light;
          log = h.log ∙ ew';
          network = h.network;
          client = h.client;
          limit = h.limit;
          callback = h.callback;
          wifi = refl;
          charger = refl;
          meter = refl;
          modbus = refl;
        };
        told = ap (λ m. m.link.has_connected_callback) h.meter ∙ k;
      };
      meter = h.meter;
      modbus = h.modbus;
    }

module _ (print : List ℕ → List Arg → List ℕ) (a : App) (r : IsRunning a) where
  after_network-Settles :
      (b : Bool) (n : ConnectionManager.ConnectionManager) (es : List ConnectionManager.Event)
      → Invariant.Reaches n (a.events ++ es)
      → last_or a.network.is_connected (Invariant.connections es) ≡ n.is_connected
      → Settles a.meter a.modbus (after_network print (record a { start_network = b }) (n, es))
  unfolding after_network
  after_network-Settles b n es reach e =
      let h = r.holds in
      let f = record (flags a) { wifi = n.is_connected } in
      let a' = record a { start_network = b; network = n; events = a.events ++ es } in
      settle _ _ _ f _
        (from_network-Holds print f a.network.is_connected a.meter.link.is_connected
          a.charger.is_connected a' es
          (record {
            light = h.light;
            log = h.log;
            network = reach;
            client = h.client;
            limit = h.limit;
            callback = h.callback;
            wifi = refl;
            charger = refl;
            meter = refl;
            modbus = refl;
          }))
        e refl refl r.told

  pub network_turn-Settles : (env : Env) → Settles a.meter a.modbus (network_turn print a env)
  unfolding network_turn
  network_turn-Settles env = go a.start_network (ltb 1000 (sub32 env.now a.start_time))
    where
      d : Invariant.Did false a.network a.events
      d = Invariant.Reaches-Did a.network a.events r.holds.network

      looped : Settles a.meter a.modbus (
          after_network print
            (record a { start_network = a.start_network })
            (ConnectionManager.loop a.network env.network))
      looped =
          after_network-Settles a.start_network _ _
            (Invariant.looped a.network a.events env.network r.holds.network)
            (Invariant.loop-Did a.network env.network d.callback d.agrees).told

      begun : Settles a.meter a.modbus (
          after_network print
            (record a { start_network = true })
            (ConnectionManager.begin a.network env.network.entry))
      begun =
          after_network-Settles true _ _
            (Invariant.begun a.network a.events env.network.entry r.holds.network)
            (Invariant.begin-Did a.network env.network.entry d.callback).told

      go :
          (started late : Bool)
          → Settles a.meter a.modbus (
              if started
              then after_network print a (ConnectionManager.loop a.network env.network)
              else if late
              then after_network print
                  (record a { start_network = true })
                  (ConnectionManager.begin a.network env.network.entry)
              else a)
      go true late = looped
      go false true = begun
      go false false = record { running = r; meter = refl; modbus = refl }

  pub hmi_turn-Settles : (env : Env) → Returns (Settles a.meter a.modbus) (hmi_turn a env)
  unfolding hmi_turn
  hmi_turn-Settles env =
      let h = r.holds in
      let v = h.light.valid in
      Returns->>= (λ l. IsValid l × (l.active_errors ≡ a.hmi.active_errors))
        (Settles a.meter a.modbus) (Hmi.loop a.hmi env.hmi_now env.hmi_entry)
        (λ l. some (record a { hmi = l }))
        (Returns-both IsValid (λ l. l.active_errors ≡ a.hmi.active_errors)
          (Hmi.loop a.hmi env.hmi_now env.hmi_entry)
          (loop-IsValid a.hmi env.hmi_now env.hmi_entry v)
          (loop-active_errors a.hmi env.hmi_now env.hmi_entry v))
        (λ l (valid, same).
          settle _ _ _ (flags a) (record a { hmi = l })
            (record {
              light = record {
                valid = valid;
                no_wifi = ap (λ n. is_active n 0) same ∙ h.light.no_wifi;
                no_sm = ap (λ n. is_active n 1) same ∙ h.light.no_sm;
                no_charger = ap (λ n. is_active n 2) same ∙ h.light.no_charger;
              };
              log = h.log;
              network = h.network;
              client = h.client;
              limit = h.limit;
              callback = h.callback;
              wifi = refl;
              charger = refl;
              meter = refl;
              modbus = refl;
            })
            refl refl refl r.told)

  pub meter_turn-Settles :
      (env : Env) (m : SmartMeter.SmartMeter)
      → SmartMeter.loop (quiet_meter a.meter) env.meter ≡ some m
      → Returns (Settles m a.modbus) (meter_turn print a env)
  unfolding meter_turn
  meter_turn-Settles env m e = rw e (
      let h = r.holds in
      let told =
        Connection.loop-IsTold a.meter.link.is_connected (quiet_meter a.meter) env.meter
          (record { callback = r.told; told = refl }) e in
      let f = record (flags a) { meter = m } in
      settle _ _ _ f _
        (from_meter-Holds print f env.frame_time a.network.is_connected a.meter.link.is_connected
          a.charger.is_connected (record a { meter = m }) m.link.events
          (record {
            light = h.light;
            log = h.log;
            network = h.network;
            client = h.client;
            limit = h.limit;
            callback = h.callback;
            wifi = refl;
            charger = refl;
            meter = refl;
            modbus = refl;
          }))
        refl told.0.told refl told.0.callback)
