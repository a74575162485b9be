-- ===== src/Charger/Asks.antt =====
-- Which request a call of `loop` sends, and whether the controller waits for its answer.
use smartmeterreader.Prelude.{
  ℕ, ◌≡◌, refl, sym, ap, arith, Bool, true, false, not, ◌&&◌, leb, if◌then◌else◌, eq_bool, sub32,
  List, [], ◌∷◌, ◌++◌, Option, none, some, ◌==◌,
}
use smartmeterreader.Modbus.Frame.{Request}
use smartmeterreader.Modbus.Tcp.{ModbusResult, ok, busy, fatal}
use smartmeterreader.Meter.Values.{Values}
use smartmeterreader.Charger.{
  Charger, Env, Event, connection, State, idle, read_charger_meter, set_charger_keep_alive,
  set_charger_limit, set_is_connected, set_charge_limit, update_limit, start_request, enter_state,
  set_state, finish, on_done, loop_in, loop, handle_in, handle_modbus_request_done,
  on_smart_meter_frame, charger_meter_request, keep_alive_request, set_max_charging_current_request,
}
use smartmeterreader.Charger.Calls.{request_of}

abbrev pub is_idle : State → Bool
is_idle idle = true
is_idle read_charger_meter = false
is_idle set_charger_keep_alive = false
is_idle set_charger_limit = false

-- A request has been accepted and its answer has not come.
abbrev pub waits : Charger → Bool
waits c = not (is_idle c.state) && not c.is_request_done

abbrev pub is_ok : ModbusResult → Bool
is_ok ok = true
is_ok busy = false
is_ok fatal = false

abbrev request_in : State → Option Request
request_in idle = none
request_in read_charger_meter = some charger_meter_request
request_in set_charger_keep_alive = some keep_alive_request
request_in set_charger_limit = some set_max_charging_current_request

abbrev next_state : State → State
next_state idle = idle
next_state read_charger_meter = set_charger_keep_alive
next_state set_charger_keep_alive = set_charger_limit
next_state set_charger_limit = idle

abbrev after_result : State → ModbusResult → Option Request
after_result s ok = request_in (next_state s)
after_result s busy = request_in s
after_result s fatal = none

-- The request that is sent depends on the time and on the last result, not on the answer to it.
abbrev pub asks : State → Charger → ℕ → Option Request
asks idle c t = if leb 3000 (sub32 t c.last_poll_time) then request_in read_charger_meter else none
asks s c t = if c.is_request_done then after_result s c.modbus_rc else none

-- What an accepted or refused request, or none, leaves.
abbrev pub waits_after : Option Request → Bool → ModbusResult → Bool
waits_after none before rc = before
waits_after (some req) before rc = is_ok rc

pub record Asks (req : Option Request) (before : Bool) (rc : ModbusResult)
    (r : Charger × List Event) : Type 0 where
  pub asked : request_of r.1 ≡ req
  pub waiting : waits r.0 ≡ waits_after req before rc

set_state-Asks :
    (c : Charger) (s : State) (env : Env) → Asks (request_in s) false env.answer (set_state c s env)
unfolding set_state enter_state start_request update_limit set_charge_limit
set_state-Asks c idle env = record { asked = refl; waiting = refl }
set_state-Asks c read_charger_meter env = record { asked = refl; waiting = ground (arith) }
set_state-Asks c set_charger_keep_alive env = record { asked = refl; waiting = ground (arith) }
set_state-Asks c set_charger_limit env = record { asked = refl; waiting = ground (arith) }

finish-Asks : (c : Charger) (b : Bool) (env : Env) → Asks none false env.answer (finish c b env)
unfolding finish set_is_connected set_state enter_state
finish-Asks c b env = record {
  asked = nothing_sent (eq_bool b c.is_connected) c.has_connected_callback;
  waiting = ground (arith);
}
  where
    nothing_sent :
        (same called : Bool)
        → request_of (
            (if◌then◌else◌ {A = Charger × List Event} same
              (c, [])
              (record c { is_connected = b }, if called then connection b ∷ [] else [])).1
            ++ [])
          ≡ none
    nothing_sent true called = refl
    nothing_sent false true = refl
    nothing_sent false false = refl

and_false : (b : Bool) → (b && false) ≡ false
and_false b = ground (arith)

on_done-Asks :
    (s : State) (c : Charger) (env : Env) (next : Charger × List Event)
    → is_idle s ≡ false
    → c.state ≡ s
    → Asks (request_in (next_state s)) false env.answer next
    → Asks
        (if c.is_request_done then after_result s c.modbus_rc else none)
        (waits c)
        env.answer
        (on_done c env next)
unfolding on_done
on_done-Asks s c env next i e n = go c.is_request_done c.modbus_rc refl
  where
    go :
        (done : Bool) (rc : ModbusResult)
        → c.is_request_done ≡ done
        → Asks
            (if done then after_result s rc else none)
            (not (is_idle c.state) && not done)
            env.answer
            (if◌then◌else◌ {A = Charger × List Event}
              (not done)
              (c, [])
              (elim rc [ ok ↦ next | busy ↦ set_state c c.state env | fatal ↦ finish c false env ]))
    go false rc d = record { asked = refl; waiting = ap (λ b. not (is_idle c.state) && not b) d }
    go true ok d = rw (and_false (not (is_idle c.state))) n
    go true busy d =
        rw (and_false (not (is_idle c.state))) (rw (sym e) (set_state-Asks c c.state env))
    go true fatal d = rw (and_false (not (is_idle c.state))) (finish-Asks c false env)

with_before :
    {req : Option Request} {b b' : Bool} {rc : ModbusResult} {r : Charger × List Event}
    → b ≡ b'
    → Asks req b' rc r
    → Asks req b rc r
with_before e n = rw e n

loop_in-Asks :
    (s : State) (c : Charger) (env : Env)
    → c.state ≡ s
    → Asks (asks s c env.t) (waits c) env.answer (loop_in s c env)
unfolding loop_in
loop_in-Asks idle c env e = with_before idle_waits (go (leb 3000 (sub32 env.t c.last_poll_time)))
  where
    idle_waits : waits c ≡ false
    idle_waits = ap (λ s. not (is_idle s) && not c.is_request_done) e

    c' : Charger
    c' = record c { last_poll_time = env.t }

    go :
        (b : Bool)
        → Asks (if b then request_in read_charger_meter else none) false env.answer (
            if◌then◌else◌ {A = Charger × List Event} b
              (set_state c' read_charger_meter env)
              (c, []))
    go true = set_state-Asks c' read_charger_meter env
    go false = record { asked = refl; waiting = idle_waits }
loop_in-Asks read_charger_meter c env e =
    on_done-Asks read_charger_meter c env _ refl e (set_state-Asks c set_charger_keep_alive env)
loop_in-Asks set_charger_keep_alive c env e =
    on_done-Asks set_charger_keep_alive c env _ refl e (set_state-Asks c set_charger_limit env)
loop_in-Asks set_charger_limit c env e =
    on_done-Asks set_charger_limit c env _ refl e (finish-Asks c true env)

-- Which request `loop` sends does not depend on the answer to it, and the controller waits after an
-- accepted request, and does not after a refused one.
pub loop-Asks :
    (c : Charger) (env : Env) → Asks (asks c.state c env.t) (waits c) env.answer (loop c env)
unfolding loop
loop-Asks c env = loop_in-Asks c.state c env refl

-- A controller that waits sends nothing.
pub waits-asks : (c : Charger) (t : ℕ) → waits c ≡ true → asks c.state c t ≡ none
waits-asks c t h = go c.state c.is_request_done refl h
  where
    go :
        (s : State) (done : Bool)
        → c.is_request_done ≡ done
        → (not (is_idle s) && not done) ≡ true
        → asks s c t ≡ none
    go idle done e h = cc
    go s true e h = ground (arith)
    go read_charger_meter false e h = rw e refl
    go set_charger_keep_alive false e h = rw e refl
    go set_charger_limit false e h = rw e refl

-- The answer ends the wait.
pub handle-waits : (c : Charger) (code : ℕ) → waits (handle_modbus_request_done c code).0 ≡ false
unfolding handle_modbus_request_done
handle-waits c code = go c.state (code == 0) refl
  where
    go : (s : State) (b : Bool) → c.state ≡ s → waits (handle_in s c b).0 ≡ false
    go idle b e = ap (λ s. not (is_idle s) && not c.is_request_done) e
    go read_charger_meter true e = and_false (not (is_idle c.state))
    go read_charger_meter false e = and_false (not (is_idle c.state))
    go set_charger_keep_alive b e = and_false (not (is_idle c.state))
    go set_charger_limit b e = and_false (not (is_idle c.state))

pub on_smart_meter_frame-waits :
    (c : Charger) (v : Values) (now : ℕ) → waits (on_smart_meter_frame c v now) ≡ waits c
unfolding on_smart_meter_frame
on_smart_meter_frame-waits c v now = refl
