-- ===== src/App/Dispatch.antt =====
-- What the calls of the callbacks come to, once a component's call has returned.
use smartmeterreader.Prelude.{ℕ, ◌≡◌, ◌∙◌, refl, ap, Bool, List, [], ◌∷◌}
use smartmeterreader.Prelude.Told.{last_or}
use smartmeterreader.Meter.Values.{Values}
use smartmeterreader.Hmi.{code}
use smartmeterreader.ConnectionManager
use smartmeterreader.ConnectionManager.Invariant
use smartmeterreader.SmartMeter
use smartmeterreader.SmartMeter.Connection
use smartmeterreader.Charger
use smartmeterreader.NetworkLog.{NetworkLog, set_enable}
use smartmeterreader.Charger.Calls
use smartmeterreader.Charger.Invariant.{call_frame, call_done, after-IsSafe}
use smartmeterreader.Modbus.Client
use smartmeterreader.App.Format.{Arg}
use smartmeterreader.App.{
  App, broadcast, on_wifi_connected, on_meter_connected, on_ev_charger_connected,
  on_smart_meter_frame, on_charger_meter_frame, from_network, from_meter, from_charger, from_modbus,
  emit_log_frames, suc,
}
use smartmeterreader.App.Shows.{
  Flags, Holds, broadcast-Holds, set_wifi-Shows, set_sm-Shows, set_charger-Shows,
}

set_enable-is_enabled : (l : NetworkLog) (b : Bool) → (set_enable l b).is_enabled ≡ b
unfolding set_enable
set_enable-is_enabled l b = refl

on_smart_meter_frame-same :
    (c : Charger.Charger) (v : Values) (now : ℕ)
    → ((Charger.on_smart_meter_frame c v now).has_connected_callback ≡ c.has_connected_callback)
      × ((Charger.on_smart_meter_frame c v now).is_connected ≡ c.is_connected)
unfolding Charger.on_smart_meter_frame
on_smart_meter_frame-same c v now = (refl, refl)

module _ (print : List ℕ → List Arg → List ℕ) (f : Flags) where
  pub from_network-Holds :
      (w s c : Bool) (a : App) (es : List ConnectionManager.Event)
      → Holds w s c f a
      → Holds (last_or w (Invariant.connections es)) s c f (from_network print a es)
  unfolding from_network on_wifi_connected
  from_network-Holds w s c a [] h = h
  from_network-Holds w s c a (ConnectionManager.setup ∷ es) h = from_network-Holds w s c a es h
  from_network-Holds w s c a (ConnectionManager.disconnect_async ∷ es) h =
      from_network-Holds w s c a es h
  from_network-Holds w s c a (ConnectionManager.wifi_begin ∷ es) h = from_network-Holds w s c a es h
  from_network-Holds w s c a (ConnectionManager.connection b ∷ es) h =
      from_network-Holds b s c (on_wifi_connected a b) es (record {
        light = set_wifi-Shows w s c b a.hmi h.light;
        log = set_enable-is_enabled a.log b;
        network = h.network;
        client = h.client;
        limit = h.limit;
        callback = h.callback;
        wifi = h.wifi;
        charger = h.charger;
        meter = h.meter;
        modbus = h.modbus;
      })
  from_network-Holds w s c a (ConnectionManager.broadcast_to g p ∷ es) h =
      from_network-Holds w s c a es h

  on_smart_meter_frame-Holds :
      (w s c : Bool) (a : App) (name : List ℕ) (v : Values) (now : ℕ)
      → Holds w s c f a
      → Holds w s c f (on_smart_meter_frame print a name v now)
  unfolding on_smart_meter_frame broadcast
  on_smart_meter_frame-Holds w s c a name v now h =
      let b =
        broadcast-Holds w s c f (record a { frame_id = suc a.frame_id }) _ 20000
          (record {
            light = h.light;
            log = h.log;
            network = h.network;
            client = h.client;
            limit = h.limit;
            callback = h.callback;
            wifi = h.wifi;
            charger = h.charger;
            meter = h.meter;
            modbus = h.modbus;
          }) in
      record {
        light = h.light;
        log = h.log;
        network = b.network;
        client = h.client;
        limit = after-IsSafe a.charger (call_frame v now) h.limit;
        callback = (on_smart_meter_frame-same a.charger v now).0 ∙ h.callback;
        wifi = h.wifi;
        charger = (on_smart_meter_frame-same a.charger v now).1 ∙ h.charger;
        meter = h.meter;
        modbus = h.modbus;
      }

  pub from_meter-Holds :
      (frame_time : ℕ → ℕ) (w s c : Bool) (a : App) (es : List SmartMeter.Event)
      → Holds w s c f a
      → Holds w (last_or s (Connection.connections es)) c f (from_meter print frame_time a es)
  unfolding from_meter on_meter_connected
  from_meter-Holds ft w s c a [] h = h
  from_meter-Holds ft w s c a (SmartMeter.connection b ∷ es) h =
      from_meter-Holds ft w b c (on_meter_connected a b) es (record {
        light = set_sm-Shows w s c b a.hmi h.light;
        log = h.log;
        network = h.network;
        client = h.client;
        limit = h.limit;
        callback = h.callback;
        wifi = h.wifi;
        charger = h.charger;
        meter = h.meter;
        modbus = h.modbus;
      })
  from_meter-Holds ft w s c a (SmartMeter.frame n v ∷ es) h =
      from_meter-Holds ft w s c (on_smart_meter_frame print a n v (ft a.frame_id)) es
        (on_smart_meter_frame-Holds w s c a n v (ft a.frame_id) h)

  on_charger_meter_frame-Holds :
      (w s c : Bool) (a : App) (v : Values)
      → Holds w s c f a
      → Holds w s c f (on_charger_meter_frame print a v)
  unfolding on_charger_meter_frame
  on_charger_meter_frame-Holds w s c a v h =
      broadcast-Holds w s c f (record a { frame_id = suc a.frame_id }) _ 20001
        (record {
          light = h.light;
          log = h.log;
          network = h.network;
          client = h.client;
          limit = h.limit;
          callback = h.callback;
          wifi = h.wifi;
          charger = h.charger;
          meter = h.meter;
          modbus = h.modbus;
        })

  pub from_charger-Holds :
      (w s c : Bool) (a : App) (es : List Charger.Event)
      → Holds w s c f a
      → Holds w s (last_or c (Calls.connections es)) f (from_charger print a es)
  unfolding from_charger on_ev_charger_connected
  from_charger-Holds w s c a [] h = h
  from_charger-Holds w s c a (Charger.sent req ∷ es) h = from_charger-Holds w s c a es h
  from_charger-Holds w s c a (Charger.connection b ∷ es) h =
      from_charger-Holds w s b (on_ev_charger_connected a b) es (record {
        light = set_charger-Shows w s c b a.hmi h.light;
        log = h.log;
        network = h.network;
        client = h.client;
        limit = h.limit;
        callback = h.callback;
        wifi = h.wifi;
        charger = h.charger;
        meter = h.meter;
        modbus = h.modbus;
      })
  from_charger-Holds w s c a (Charger.frame v ∷ es) h =
      from_charger-Holds w s c (on_charger_meter_frame print a v) es
        (on_charger_meter_frame-Holds w s c a v h)

  pub from_modbus-Holds :
      (w s c : Bool) (a : App) (es : List Client.Event)
      → Holds w s c f a
      → Holds w s c f (from_modbus print a es)
  unfolding from_modbus
  from_modbus-Holds w s c a [] h = h
  from_modbus-Holds w s c a (Client.closed fd ∷ es) h = from_modbus-Holds w s c a es h
  from_modbus-Holds w s c a (Client.completed callback req code ∷ es) h =
      let r = Charger.handle_modbus_request_done a.charger code in
      let (k, n, e) = Calls.handle-quiet a.charger code h.callback in
      let a' = record a { charger = r.0 } in
      let one = from_charger-Holds w s c a' r.1 (record {
        light = h.light;
        log = h.log;
        network = h.network;
        client = h.client;
        limit = after-IsSafe a.charger (call_done code) h.limit;
        callback = k;
        wifi = h.wifi;
        charger = e ∙ h.charger;
        meter = h.meter;
        modbus = h.modbus;
      }) in
      from_modbus-Holds w s c (from_charger print a' r.1) es (rw (ap (last_or c) n) at one)

  pub emit_log_frames-Holds :
      (behind : List ℕ) (w s c : Bool) (a : App) (frames : List (List ℕ))
      → Holds w s c f a
      → Holds w s c f (emit_log_frames print behind a frames)
  unfolding emit_log_frames
  emit_log_frames-Holds behind w s c a [] h = h
  emit_log_frames-Holds behind w s c a (g ∷ gs) h =
      emit_log_frames-Holds behind w s c (broadcast a _ 20001) gs
        (broadcast-Holds w s c f a _ 20001 h)
