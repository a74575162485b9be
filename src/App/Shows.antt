-- ===== src/App/Shows.antt =====
-- What the callbacks of the application leave in the status light and in the network log's switch.
use smartmeterreader.Prelude.{ℕ, ◌≡◌, ◌∙◌, Bool, true, not, List}
use smartmeterreader.Hmi.{
  Hmi, HmiError, code, no_wifi_connection, no_sm_connection, no_charger_connection, is_active,
  set_error,
}
use smartmeterreader.Hmi.Invariant.{IsValid, set_error_lem, set_error-IsValid}
use smartmeterreader.ConnectionManager.Invariant
use smartmeterreader.SmartMeter
use smartmeterreader.Charger.Invariant.{IsSafe}
use smartmeterreader.Modbus.Client
use smartmeterreader.Modbus.Client.Invariant.{IsConsistent}
use smartmeterreader.App.{App, broadcast}

abbrev pub shows : Hmi → HmiError → Bool
shows h e = is_active h.active_errors (code e)

-- The light shows an error for each connection that does not stand.
pub record Shows (wifi meter charger : Bool) (h : Hmi) : Type 0 where
  pub valid : IsValid h
  pub no_wifi : shows h no_wifi_connection ≡ not wifi
  pub no_sm : shows h no_sm_connection ≡ not meter
  pub no_charger : shows h no_charger_connection ≡ not charger

module _ (w s c b : Bool) (h : Hmi) (v : Shows w s c h) where
  pub set_wifi-Shows : Shows b s c (set_error h no_wifi_connection (not b))
  set_wifi-Shows = record {
    valid = set_error-IsValid h no_wifi_connection (not b) v.valid;
    no_wifi = (set_error_lem h no_wifi_connection no_wifi_connection (not b) v.valid.errors_in).1;
    no_sm =
        (set_error_lem h no_wifi_connection no_sm_connection (not b) v.valid.errors_in).1 ∙ v.no_sm;
    no_charger =
        (set_error_lem h no_wifi_connection no_charger_connection (not b) v.valid.errors_in).1
        ∙ v.no_charger;
  }

  pub set_sm-Shows : Shows w b c (set_error h no_sm_connection (not b))
  set_sm-Shows = record {
    valid = set_error-IsValid h no_sm_connection (not b) v.valid;
    no_wifi =
        (set_error_lem h no_sm_connection no_wifi_connection (not b) v.valid.errors_in).1
        ∙ v.no_wifi;
    no_sm = (set_error_lem h no_sm_connection no_sm_connection (not b) v.valid.errors_in).1;
    no_charger =
        (set_error_lem h no_sm_connection no_charger_connection (not b) v.valid.errors_in).1
        ∙ v.no_charger;
  }

  pub set_charger-Shows : Shows w s b (set_error h no_charger_connection (not b))
  set_charger-Shows = record {
    valid = set_error-IsValid h no_charger_connection (not b) v.valid;
    no_wifi =
        (set_error_lem h no_charger_connection no_wifi_connection (not b) v.valid.errors_in).1
        ∙ v.no_wifi;
    no_sm =
        (set_error_lem h no_charger_connection no_sm_connection (not b) v.valid.errors_in).1
        ∙ v.no_sm;
    no_charger =
        (set_error_lem h no_charger_connection no_charger_connection (not b) v.valid.errors_in).1;
  }

-- What the components' connections are.
pub record Flags : Type 0 where
  pub wifi : Bool
  pub charger : Bool
  pub meter : SmartMeter.SmartMeter
  pub modbus : Client.Client

-- The callbacks have last been told `w`, `s` and `c`, while the connections are `f`.
pub record Holds (w s c : Bool) (f : Flags) (a : App) : Type 0 where
  pub light : Shows w s c a.hmi
  pub log : a.log.is_enabled ≡ w
  pub network : Invariant.Reaches a.network a.events
  pub client : IsConsistent a.modbus
  pub limit : IsSafe a.charger
  pub callback : a.charger.has_connected_callback ≡ true
  pub wifi : a.network.is_connected ≡ f.wifi
  pub charger : a.charger.is_connected ≡ f.charger
  pub meter : a.meter ≡ f.meter
  pub modbus : a.modbus ≡ f.modbus

pub broadcast-Holds :
    (w s c : Bool) (f : Flags) (a : App) (frame : List ℕ) (port : ℕ)
    → Holds w s c f a
    → Holds w s c f (broadcast a frame port)
unfolding broadcast
broadcast-Holds w s c f a frame port h = record {
  light = h.light;
  log = h.log;
  network = Invariant.sent a.network a.events frame port h.network;
  client = h.client;
  limit = h.limit;
  callback = h.callback;
  wifi = h.wifi;
  charger = h.charger;
  meter = h.meter;
  modbus = h.modbus;
}
