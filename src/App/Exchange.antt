-- ===== src/App/Exchange.antt =====
-- A request between the charge controller and the Modbus client, from its start to its answer.
use smartmeterreader.Prelude.{
  ℕ, ◌≡◌, ◌∙◌, refl, sym, ap, Bool, true, false, ltb, if◌then◌else◌, List, [], Option, none, some,
  ◌>>=◌, >>=-eq-some, Returns, Returns-some, Returns->>=,
}
use smartmeterreader.Modbus.Frame.{Request}
use smartmeterreader.Modbus.Tcp.{ModbusResult, ok, busy, fatal}
use smartmeterreader.Charger
use smartmeterreader.Charger.Calls
use smartmeterreader.Charger.Asks.{waits, asks, waits_after, is_ok, loop-Asks, waits-asks}
use smartmeterreader.Modbus.Client
use smartmeterreader.Modbus.Client.Invariant.{IsConsistent, Answers, loop-IsConsistent}
use smartmeterreader.Modbus.Client.Phases.{
  Phase, down, idle, pending, Steps, stays, connects, answers_up, answers_down, phase, answers,
}
use smartmeterreader.Modbus.Client.Refinement.{Handled, loop-Refines}
use smartmeterreader.Modbus.Client.Handler.{loop-request_callback, loop-Handled}
use smartmeterreader.Modbus.Client.Allows.{Allows}
use smartmeterreader.Prelude.{some-eq}
use smartmeterreader.App.Format.{Arg}
use smartmeterreader.App.{
  App, Env, modbus_turn, charger_turn, charger_env, answer_to, memory_of, words_of, from_modbus,
}
use smartmeterreader.App.Waiting.{Has, from_charger-Has, from_modbus-none, from_modbus-one}

abbrev pub is_pending : Phase → Bool
is_pending down = false
is_pending idle = false
is_pending (pending req) = true

-- The controller waits exactly while the client is at work, and the client has the controller's callback.
pub record InStep (a : App) : Type 0 where
  pub waiting : waits a.charger ≡ is_pending (phase a.modbus)
  pub handled : Handled 0 a.modbus

pub in_step :
    (b : Bool) (m : Client.Client) (a : App)
    → Has b m a
    → b ≡ is_pending (phase m)
    → Handled 0 m
    → InStep a
in_step b m a h e k = record {
  waiting = h.waiting ∙ e ∙ ap (λ c. is_pending (phase c)) (sym h.client);
  handled = rw h.client k;
}

-- What a step of the client means for the controller.
answered-Has :
    (print : List ℕ → List Arg → List ℕ) (p q : Phase) (given : List (Request × ℕ))
    (m : Client.Client) (a : App) (es : List Client.Event)
    → Steps p given q
    → answers es ≡ given
    → Has (is_pending p) m a
    → Has (is_pending q) m (from_modbus print a es)
answered-Has print p q given m a es (stays _) n h = from_modbus-none print (is_pending p) m a es n h
answered-Has print p q given m a es connects n h = from_modbus-none print false m a es n h
answered-Has print p q given m a es (answers_up req code) n h =
    from_modbus-one print true m a es (req, code) n h
answered-Has print p q given m a es (answers_down req code) n h =
    from_modbus-one print true m a es (req, code) n h

-- What is known of one call of the client.
record Stepped (m : Client.Client) (w : Client.World) : Type 0 where
  step : Steps (phase m) (answers w.events) (phase w.client)
  handled : Handled 0 w.client

loop-Stepped :
    (w : Client.World) (env : Client.Env) {w' : Client.World}
    → IsConsistent w.client
    → Answers w.client.state w.client env.io
    → Handled 0 w.client
    → answers w.events ≡ []
    → Client.loop w env ≡ some w'
    → Stepped w.client w'
loop-Stepped w env {w'} v p k n e =
    go (Client.loop w env) e (loop-IsConsistent w env v p) (loop-Refines 0 w env v n k)
      (loop-request_callback w env)
  where
    go :
        (m : Option Client.World)
        → m ≡ some w'
        → Returns (λ w'. IsConsistent w'.client) m
        → Returns (λ w'. Steps (phase w.client) (answers w'.events) (phase w'.client)) m
        → Allows (λ w'. w'.client.request_callback ≡ w.client.request_callback) m
        → Stepped w.client w'
    go none e c s r = cc
    go (some w₁) e c s r =
        rw (← some-eq e) (record { step = s; handled = loop-Handled 0 w w₁ c r k s })

pub modbus_turn-InStep :
    (print : List ℕ → List Arg → List ℕ) (a : App) (env : Env) {a' : App}
    → IsConsistent a.modbus
    → Answers a.modbus.state a.modbus env.modbus.io
    → InStep a
    → modbus_turn print a env ≡ some a'
    → InStep a'
unfolding modbus_turn
modbus_turn-InStep print a env {a'} v p i e =
    let w : Client.World = record {
      client = a.modbus;
      memory = memory_of a.charger;
      events = [];
    } in
    let (w', stepped, done) = >>=-eq-some (Client.loop w env.modbus) _ e in
    let s = loop-Stepped w env.modbus v p i.handled refl stepped in
    let c = record (a.charger) {
      charger_meter_buf = words_of (w'.memory Charger.charger_meter_address);
    } in
    let h =
      answered-Has print (phase a.modbus) (phase w'.client) (answers w'.events) w'.client
        (record a { modbus = w'.client; charger = c }) w'.events s.step refl
        (record { waiting = i.waiting; client = refl }) in
    rw (← some-eq done) (in_step (is_pending (phase w'.client)) w'.client _ h refl s.handled)

-- A request to a client that has none.
send_request-pending :
    (w : Client.World) (req : Request) (env : Client.Env)
    → Handled 0 w.client
    → is_pending (phase w.client) ≡ false
    → Returns
        (λ (r : Client.World × ModbusResult).
          (is_pending (phase r.0.client) ≡ is_ok r.1) × Handled 0 r.0.client)
        (Client.send_request w req (some 0) env)
unfolding Client.send_request Client.set_state Client.enter_state Client.enter_write_request
send_request-pending w req env k n =
    go (ltb (Client.rank w.client.state) 2) (ltb 2 (Client.rank w.client.state))
  where
    begun : Client.World
    begun = record w {
      client = record (w.client) { active_request = some req; request_callback = some 0 };
    }

    go :
        (early late : Bool)
        → Returns
            (λ (r : Client.World × ModbusResult).
              (is_pending (phase r.0.client) ≡ is_ok r.1) × Handled 0 r.0.client)
            (if early
              then some (w, fatal)
              else if late
              then some (w, busy)
              else (Client.set_state begun Client.write_request env >>= λ w'. some (w', ok)))
    go true late = (n, k)
    go false true = (n, k)
    go false false = (refl, λ r e. refl)

some-none : {req : Request} → some req ≡ none → ⊥
some-none e = cc

answer_to-pending :
    (a : App) (env : Env) (c : Charger.Charger) (asked : Option Request)
    → InStep a
    → (waits a.charger ≡ true → asked ≡ none)
    → Returns
        (λ (r : Client.Client × ModbusResult).
          (waits_after asked (waits a.charger) r.1 ≡ is_pending (phase r.0)) × Handled 0 r.0)
        (answer_to a env c asked)
unfolding answer_to
answer_to-pending a env c none i q = (i.waiting, i.handled)
answer_to-pending a env c (some req) i q =
    let w : Client.World = record { client = a.modbus; memory = memory_of c; events = [] } in
    Returns->>=
      (λ (r : Client.World × ModbusResult).
        (is_pending (phase r.0.client) ≡ is_ok r.1) × Handled 0 r.0.client)
      (λ (r : Client.Client × ModbusResult). (is_ok r.1 ≡ is_pending (phase r.0)) × Handled 0 r.0)
      (Client.send_request w req (some 0) env.sending) _
      (send_request-pending w req env.sending i.handled
        (sym i.waiting ∙ free (waits a.charger) refl))
      (λ r (e, k). (sym e, k))
  where
    free : (b : Bool) → waits a.charger ≡ b → b ≡ false
    free true e = absurd (some-none (q e))
    free false e = refl

pub charger_turn-InStep :
    (print : List ℕ → List Arg → List ℕ) (a : App) (env : Env) {a' : App}
    → InStep a
    → charger_turn print a env ≡ some a'
    → InStep a'
unfolding charger_turn
charger_turn-InStep print a env {a'} i e =
    let asked = asks a.charger.state a.charger env.charger_now in
    let first = Charger.loop a.charger (charger_env env ok) in
    let ((client, rc), sent, done) =
      >>=-eq-some (answer_to a env first.0 (Calls.request_of first.1)) _ e in
    let same = (loop-Asks a.charger (charger_env env ok)).asked in
    let (agrees, handled) =
      Returns-some _ _
        (answer_to-pending a env first.0 asked i (waits-asks a.charger env.charger_now))
        (ap (answer_to a env first.0) (sym same) ∙ sent) in
    let next = Charger.loop a.charger (charger_env env rc) in
    let h =
      from_charger-Has print (waits next.0) client (record a { modbus = client; charger = next.0 })
        next.1 (record { waiting = refl; client = refl }) in
    rw (← some-eq done) (
      in_step (waits next.0) client _ h
        ((loop-Asks a.charger (charger_env env rc)).waiting ∙ agrees) handled)
