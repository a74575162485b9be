-- ===== src/App/Waiting.antt =====
-- Which calls of the callbacks leave the charge controller and the Modbus client as they are.
use smartmeterreader.Prelude.{ℕ, ◌≡◌, ◌∙◌, Bool, false, List, [], ◌∷◌}
use smartmeterreader.Modbus.Frame.{Request}
use smartmeterreader.Meter.Values.{Values}
use smartmeterreader.ConnectionManager
use smartmeterreader.SmartMeter
use smartmeterreader.Charger
use smartmeterreader.Charger.Asks.{waits, handle-waits, on_smart_meter_frame-waits}
use smartmeterreader.Modbus.Client
use smartmeterreader.Modbus.Client.Phases.{answers}
use smartmeterreader.App.Format.{Arg}
use smartmeterreader.App.{
  App, broadcast, on_wifi_connected, on_meter_connected, on_ev_charger_connected,
  on_smart_meter_frame, on_charger_meter_frame, from_network, from_meter, from_charger, from_modbus,
  emit_log_frames,
}

-- Whether the controller waits, and the client.
pub record Has (b : Bool) (m : Client.Client) (a : App) : Type 0 where
  pub waiting : waits a.charger ≡ b
  pub client : a.modbus ≡ m

module _ (print : List ℕ → List Arg → List ℕ) (b : Bool) (m : Client.Client) where
  pub from_network-Has :
      (a : App) (es : List ConnectionManager.Event) → Has b m a → Has b m (from_network print a es)
  unfolding from_network on_wifi_connected
  from_network-Has a [] h = h
  from_network-Has a (ConnectionManager.setup ∷ es) h = from_network-Has a es h
  from_network-Has a (ConnectionManager.disconnect_async ∷ es) h = from_network-Has a es h
  from_network-Has a (ConnectionManager.wifi_begin ∷ es) h = from_network-Has a es h
  from_network-Has a (ConnectionManager.connection c ∷ es) h =
      from_network-Has (on_wifi_connected a c) es
        (record { waiting = h.waiting; client = h.client })
  from_network-Has a (ConnectionManager.broadcast_to f p ∷ es) h = from_network-Has a es h

  on_smart_meter_frame-Has :
      (a : App) (name : List ℕ) (v : Values) (now : ℕ)
      → Has b m a
      → Has b m (on_smart_meter_frame print a name v now)
  unfolding on_smart_meter_frame broadcast
  on_smart_meter_frame-Has a name v now h = record {
    waiting = on_smart_meter_frame-waits a.charger v now ∙ h.waiting;
    client = h.client;
  }

  pub from_meter-Has :
      (ft : ℕ → ℕ) (a : App) (es : List SmartMeter.Event)
      → Has b m a
      → Has b m (from_meter print ft a es)
  unfolding from_meter on_meter_connected
  from_meter-Has ft a [] h = h
  from_meter-Has ft a (SmartMeter.connection c ∷ es) h =
      from_meter-Has ft (on_meter_connected a c) es
        (record { waiting = h.waiting; client = h.client })
  from_meter-Has ft a (SmartMeter.frame n v ∷ es) h =
      from_meter-Has ft (on_smart_meter_frame print a n v (ft a.frame_id)) es
        (on_smart_meter_frame-Has a n v (ft a.frame_id) h)

  pub from_charger-Has :
      (a : App) (es : List Charger.Event) → Has b m a → Has b m (from_charger print a es)
  unfolding from_charger on_ev_charger_connected on_charger_meter_frame broadcast
  from_charger-Has a [] h = h
  from_charger-Has a (Charger.sent req ∷ es) h = from_charger-Has a es h
  from_charger-Has a (Charger.connection c ∷ es) h =
      from_charger-Has (on_ev_charger_connected a c) es
        (record { waiting = h.waiting; client = h.client })
  from_charger-Has a (Charger.frame v ∷ es) h =
      from_charger-Has (on_charger_meter_frame print a v) es
        (record { waiting = h.waiting; client = h.client })

  pub emit_log_frames-Has :
      (behind : List ℕ) (a : App) (frames : List (List ℕ))
      → Has b m a
      → Has b m (emit_log_frames print behind a frames)
  unfolding emit_log_frames broadcast
  emit_log_frames-Has behind a [] h = h
  emit_log_frames-Has behind a (g ∷ gs) h =
      emit_log_frames-Has behind (broadcast a _ 20001) gs
        (record { waiting = h.waiting; client = h.client })

  -- Without an answer among the events, nothing reaches the controller.
  pub from_modbus-none :
      (a : App) (es : List Client.Event)
      → answers es ≡ []
      → Has b m a
      → Has b m (from_modbus print a es)
  unfolding from_modbus
  from_modbus-none a [] n h = h
  from_modbus-none a (Client.closed fd ∷ es) n h = from_modbus-none a es n h
  from_modbus-none a (Client.completed callback req code ∷ es) n h = cc

rest_of : {A : Type 0} {x y : A} {xs ys : List A} → ◌≡◌ {A = List A} (x ∷ xs) (y ∷ ys) → xs ≡ ys
rest_of e = cc

-- One answer among the events ends the wait.
pub from_modbus-one :
    (print : List ℕ → List Arg → List ℕ) (b : Bool) (m : Client.Client) (a : App)
    (es : List Client.Event) (answer : Request × ℕ)
    → answers es ≡ answer ∷ []
    → Has b m a
    → Has false m (from_modbus print a es)
unfolding from_modbus
from_modbus-one print b m a [] answer n h = cc
from_modbus-one print b m a (Client.closed fd ∷ es) answer n h =
    from_modbus-one print b m a es answer n h
from_modbus-one print b m a (Client.completed callback req code ∷ es) answer n h =
    let r = Charger.handle_modbus_request_done a.charger code in
    let one =
      from_charger-Has print false m (record a { charger = r.0 }) r.1
        (record { waiting = handle-waits a.charger code; client = h.client }) in
    from_modbus-none print false m (from_charger print (record a { charger = r.0 }) r.1) es
      (rest_of n) one
