-- ===== src/ConnectionManager.antt =====
-- ConnectionManager.h and ConnectionManager.cpp: the state machine around the WiFi library. What the
-- library and the clock answer is an argument, and the calls of the library are events.
pub mod Invariant
pub mod Retry
use smartmeterreader.Prelude.{
  ℕ, Bool, true, false, not, ltb, if◌then◌else◌, eq_bool, sub32, List, [], ◌∷◌, ◌++◌,
}
use smartmeterreader.Prelude.Int.{ℤ, negsuc}

pub data State : Type 0 where
  disconnected connecting connected : State

-- `WL_CONNECTED`, and the other values of an `int`.
pub data Status : Type 0 where
  wl_connected : Status
  other : ℤ → Status

abbrev pub is_wl_connected : Status → Bool
is_wl_connected wl_connected = true
is_wl_connected (other z) = false

-- Calls of the library, and of the callback: `setup` stands for the three calls in `begin`, and
-- `broadcast` for the frame and the port of `broadcastTo`.
pub data Event : Type 0 where
  setup disconnect_async wifi_begin : Event
  connection : Bool → Event
  broadcast_to : List ℕ → ℕ → Event

-- `has_callback` is the test of `_callback`.
pub record ConnectionManager : Type 0 where
  pub has_callback : Bool
  pub is_connected : Bool
  pub state : State
  pub state_entry_time : ℕ
  pub status : Status

-- `WiFi.status()`, `WiFi.isConnected()`, and the clock in `loop` and in `set_state`.
pub record Env : Type 0 where
  pub status : Status
  pub is_connected : Bool
  pub now : ℕ
  pub entry : ℕ

unfoldable pub new : ConnectionManager
new = record {
  has_callback = false;
  is_connected = false;
  state = disconnected;
  state_entry_time = 0;
  status = other (negsuc 0);
}

unfoldable pub set_connected_handler : ConnectionManager → Bool → ConnectionManager
set_connected_handler c is_set = record c { has_callback = is_set }

unfoldable pub fire_callback : ConnectionManager → Bool → List Event
fire_callback c is_connected = if c.has_callback then connection is_connected ∷ [] else []

unfoldable pub update_connected_state : ConnectionManager → Bool → ConnectionManager × List Event
update_connected_state c b =
    if eq_bool b c.is_connected
    then (c, [])
    else let c' = record c { is_connected = b } in (c', fire_callback c' b)

-- The `switch` of `set_state`, behind a call of the library.
unfoldable pub enter_state : State → ConnectionManager → ConnectionManager × List Event
enter_state disconnected c =
    let (c', es) = update_connected_state c false in (c', disconnect_async ∷ es)
enter_state connecting c = let (c', es) = update_connected_state c false in (c', wifi_begin ∷ es)
enter_state connected c = update_connected_state c true

unfoldable pub set_state : ConnectionManager → State → ℕ → ConnectionManager × List Event
set_state c s entry = enter_state s (record c { state = s; state_entry_time = entry })

-- The first assignment of `_state_entry_time` is made again in `set_state`.
unfoldable pub begin : ConnectionManager → ℕ → ConnectionManager × List Event
begin c entry = let (c', es) = set_state c connecting entry in (c', setup ∷ es)

-- `status` is assigned where it differs, which comes to the same.
unfoldable pub update_wifi_status : ConnectionManager → Status → ConnectionManager
update_wifi_status c status = record c { status = status }

-- The `switch` of `loop`, behind the assignment of `_status`.
unfoldable pub loop_in : State → ConnectionManager → Env → ConnectionManager × List Event
loop_in disconnected c env = if env.is_connected then (c, []) else set_state c connecting env.entry
loop_in connecting c env =
    if ltb 10000 (sub32 env.now c.state_entry_time)
    then set_state c disconnected env.entry
    else if is_wl_connected c.status
    then set_state c connected env.entry
    else (c, [])
loop_in connected c env =
    if is_wl_connected c.status then (c, []) else set_state c disconnected env.entry

unfoldable pub loop : ConnectionManager → Env → ConnectionManager × List Event
loop c env = loop_in c.state (update_wifi_status c env.status) env

unfoldable pub broadcast : ConnectionManager → List ℕ → ℕ → List Event
broadcast c frame port = if c.is_connected then broadcast_to frame port ∷ [] else []
