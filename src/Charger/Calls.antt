-- ===== src/Charger/Calls.antt =====
-- What a call of the controller tells the connection callback, and which request it sends.
use smartmeterreader.Prelude.{
  ℕ, ◌≡◌, ◌∙◌, refl, sym, ap, arith, Bool, true, false, eq_bool, if◌then◌else◌, List, [], ◌∷◌, ◌++◌,
  Option, none, some, ◌==◌,
}
use smartmeterreader.Prelude.Told.{last_or}
use smartmeterreader.Modbus.Frame.{Request}
use smartmeterreader.Charger.{
  Charger, Env, Event, sent, connection, frame, State, idle, read_charger_meter,
  set_charger_keep_alive, set_charger_limit, set_is_connected, set_charge_limit, update_limit,
  start_request, enter_state, set_state, finish, on_done, loop_in, loop, handle_in,
  handle_modbus_request_done, charger_meter_request, keep_alive_request,
  set_max_charging_current_request,
}

abbrev pub connections : List Event → List Bool
connections [] = []
connections (sent req ∷ es) = connections es
connections (connection b ∷ es) = b ∷ connections es
connections (frame v ∷ es) = connections es

connections-append :
    (es fs : List Event) → connections (es ++ fs) ≡ connections es ++ connections fs
connections-append [] fs = refl
connections-append (sent req ∷ es) fs = connections-append es fs
connections-append (connection b ∷ es) fs = ap (◌∷◌ b) (connections-append es fs)
connections-append (frame v ∷ es) fs = connections-append es fs

abbrev pub request_of : List Event → Option Request
request_of [] = none
request_of (sent req ∷ es) = some req
request_of (connection b ∷ es) = request_of es
request_of (frame v ∷ es) = request_of es

-- The requests that the controller sends.
pub data IsOurs : Option Request → Type 0 where
  no_request : IsOurs none
  reads_meter : IsOurs (some charger_meter_request)
  keeps_alive : IsOurs (some keep_alive_request)
  sets_limit : IsOurs (some set_max_charging_current_request)

-- A call from `before` on: the callback is set and knows the flag, and the request is one of those.
pub record Tells (before : Bool) (r : Charger × List Event) : Type 0 where
  pub callback : r.0.has_connected_callback ≡ true
  pub told : last_or before (connections r.1) ≡ r.0.is_connected
  pub request : IsOurs (request_of r.1)

update_limit-same :
    (c : Charger)
    → ((update_limit c).has_connected_callback ≡ c.has_connected_callback)
      × ((update_limit c).is_connected ≡ c.is_connected)
unfolding update_limit set_charge_limit
update_limit-same c = ground (arith)

set_state-Tells :
    (c : Charger) (s : State) (env : Env)
    → c.has_connected_callback ≡ true
    → Tells c.is_connected (set_state c s env)
unfolding set_state enter_state start_request
set_state-Tells c idle env h = record { callback = h; told = refl; request = no_request }
set_state-Tells c read_charger_meter env h = record {
  callback = h;
  told = refl;
  request = reads_meter;
}
set_state-Tells c set_charger_keep_alive env h = record {
  callback = h;
  told = refl;
  request = keeps_alive;
}
set_state-Tells c set_charger_limit env h =
    let (same_callback, same_flag) =
      update_limit-same (record c { state = set_charger_limit; state_entry_time = env.entry }) in
    record { callback = same_callback ∙ h; told = sym same_flag; request = sets_limit }

finish-Tells :
    (c : Charger) (b : Bool) (env : Env)
    → c.has_connected_callback ≡ true
    → Tells c.is_connected (finish c b env)
unfolding finish set_is_connected set_state enter_state
finish-Tells c b env h = record {
  callback = ground (arith);
  told = ground (arith);
  request = rw (nothing_sent (eq_bool b c.is_connected) c.has_connected_callback) no_request;
}
  where
    nothing_sent :
        (same called : Bool)
        → request_of (
            (if◌then◌else◌ {A = Charger × List Event} same
              (c, [])
              (record c { is_connected = b }, if called then connection b ∷ [] else [])).1
            ++ [])
          ≡ none
    nothing_sent true called = refl
    nothing_sent false true = refl
    nothing_sent false false = refl

quiet : (c : Charger) → c.has_connected_callback ≡ true → Tells c.is_connected (c, [])
quiet c h = record { callback = h; told = refl; request = no_request }

on_done-Tells :
    (c : Charger) (env : Env) (next : Charger × List Event)
    → c.has_connected_callback ≡ true
    → Tells c.is_connected next
    → Tells c.is_connected (on_done c env next)
unfolding on_done
on_done-Tells c env next h t =
    ground (arith, quiet c h, set_state-Tells c c.state env h, finish-Tells c false env h)

loop_in-Tells :
    (s : State) (c : Charger) (env : Env)
    → c.has_connected_callback ≡ true
    → Tells c.is_connected (loop_in s c env)
unfolding loop_in
loop_in-Tells idle c env h = ground (
  arith,
  quiet c h,
  set_state-Tells (record c { last_poll_time = env.t }) read_charger_meter env h,
)
loop_in-Tells read_charger_meter c env h =
    on_done-Tells c env _ h (set_state-Tells c set_charger_keep_alive env h)
loop_in-Tells set_charger_keep_alive c env h =
    on_done-Tells c env _ h (set_state-Tells c set_charger_limit env h)
loop_in-Tells set_charger_limit c env h = on_done-Tells c env _ h (finish-Tells c true env h)

-- Once the callback is set, it is told each change of the connection in `loop`, and the request is one of
-- the three.
pub loop-Tells :
    (c : Charger) (env : Env) → c.has_connected_callback ≡ true → Tells c.is_connected (loop c env)
unfolding loop
loop-Tells c env h = loop_in-Tells c.state c env h

handle_in-quiet :
    (s : State) (c : Charger) (b : Bool)
    → let r = handle_in s c b in
      (r.0.has_connected_callback ≡ c.has_connected_callback)
      × (connections r.1 ≡ [])
      × (r.0.is_connected ≡ c.is_connected)
handle_in-quiet idle c b = (refl, refl, refl)
handle_in-quiet read_charger_meter c true = (refl, ground (arith), refl)
handle_in-quiet read_charger_meter c false = (refl, refl, refl)
handle_in-quiet set_charger_keep_alive c b = (refl, refl, refl)
handle_in-quiet set_charger_limit c b = (refl, refl, refl)

-- The callback for Modbus leaves the connection as it is.
pub handle-quiet :
    (c : Charger) (code : ℕ)
    → c.has_connected_callback ≡ true
    → let r = handle_modbus_request_done c code in
      (r.0.has_connected_callback ≡ true)
      × (connections r.1 ≡ [])
      × (r.0.is_connected ≡ c.is_connected)
unfolding handle_modbus_request_done
handle-quiet c code h = let (k, n, e) = handle_in-quiet c.state c (code == 0) in (k ∙ h, n, e)
