-- ===== src/Modbus/Client/Handler.antt =====
-- The callback of a request stays as `send_request` has set it.
use smartmeterreader.Modbus.Client.Refinement.{Handled}
use smartmeterreader.Modbus.Client.Phases.{
  answers, Steps, stays, phase, pending, Phase, connects, answers_up, answers_down, phase_of,
}
use smartmeterreader.Modbus.Client.Invariant.{IsConsistent, Shape}
use smartmeterreader.Prelude.{ℕ, ◌≡◌, ◌∙◌, refl, ap, Option, none, some, ◌>>=◌, List, arith}
use smartmeterreader.Modbus.Frame.{Request}
use smartmeterreader.Modbus.Tcp.{ModbusResult, ok, busy, fatal}
use smartmeterreader.Modbus.Client.{
  State, disconnected, connecting, connected, write_request, read_response_header, read_response,
  Client, World, Env, set_state, give_up, loop_in, loop, enter_state, enter_write_request,
  complete_request, on_result, on_connect, take_header, take_response, process_response,
  process_response_of, late, read_data, write_data, with_client,
}
use smartmeterreader.Modbus.Client.Allows.{Allows, Allows->>=, Allows-if}

abbrev Same : Client → World → Type 0
Same c w = w.client.request_callback ≡ c.request_callback

module _ (c : Client) where
  set_state-Same :
      (w : World) (s : State) (env : Env) → Same c w → Allows (Same c) (set_state w s env)
  unfolding set_state enter_state enter_write_request
  set_state-Same w disconnected env h = h
  set_state-Same w connecting env h = h
  set_state-Same w connected env h = h
  set_state-Same w write_request env h = Allows->>= (Same c) w.client.active_request _ (λ req. h)
  set_state-Same w read_response_header env h = h
  set_state-Same w read_response env h = h

  give_up-Same :
      (w : World) (code : ℕ) (env : Env) → Same c w → Allows (Same c) (give_up w code env)
  unfolding give_up complete_request
  give_up-Same w code env h = set_state-Same (complete_request w code) disconnected env h

  on_result-Same :
      (rc : ModbusResult) (w : World) (env : Env) (finish : Option World)
      → Same c w
      → Allows (Same c) finish
      → Allows (Same c) (on_result rc w env finish)
  unfolding on_result
  on_result-Same fatal w env finish h k = set_state-Same w disconnected env h
  on_result-Same ok w env finish h k = k
  on_result-Same busy w env finish h k =
      Allows-if (Same c) (late w env) _ (some w) (give_up-Same w 255 env h) h

  on_connect-Same :
      (rc : ModbusResult) (w : World) (env : Env) → Same c w → Allows (Same c) (on_connect rc w env)
  unfolding on_connect
  on_connect-Same fatal w env h = set_state-Same w disconnected env h
  on_connect-Same ok w env h = set_state-Same w connected env h
  on_connect-Same busy w env h =
      Allows-if (Same c) _ _ (some w) (set_state-Same w disconnected env h) h

  process_response_of-Same :
      (w : World) (req : Request) → Same c w → Same c (process_response_of w req)
  unfolding process_response_of complete_request
  process_response_of-Same w req h = ground (arith)

  take_response-Same : (w : World) (env : Env) → Same c w → Allows (Same c) (take_response w env)
  unfolding take_response process_response
  take_response-Same w env h = go w.client.active_request
    where
      go :
          (r : Option Request)
          → Allows
              (Same c)
              ((r >>= λ req. some (process_response_of w req)) >>= λ w'. set_state w' connected env)
      go none = tt
      go (some req) =
          set_state-Same (process_response_of w req) connected env
            (process_response_of-Same w req h)

  take_header-Same : (w : World) (env : Env) → Same c w → Allows (Same c) (take_header w env)
  unfolding take_header
  take_header-Same w env h =
      Allows-if (Same c) _ _ _ (give_up-Same _ 252 env h) (set_state-Same _ read_response env h)

  loop_in-Same : (s : State) (w : World) (env : Env) → Same c w → Allows (Same c) (loop_in s w env)
  unfolding loop_in write_data read_data
  loop_in-Same disconnected w env h =
      Allows-if (Same c) _ _ (some w) (set_state-Same w connecting env h) h
  loop_in-Same connecting w env h = on_connect-Same _ w env h
  loop_in-Same connected w env h = h
  loop_in-Same write_request w env h =
      let (d, rc) = write_data w.client env.io in
      on_result-Same rc (with_client w d) env _ h
        (set_state-Same (with_client w d) read_response_header env h)
  loop_in-Same read_response_header w env h =
      let (d, rc) = read_data w.client env.io in
      on_result-Same rc (with_client w d) env _ h (take_header-Same (with_client w d) env h)
  loop_in-Same read_response w env h =
      let (d, rc) = read_data w.client env.io in
      on_result-Same rc (with_client w d) env _ h (take_response-Same (with_client w d) env h)

-- `loop` leaves the callback as it is.
pub loop-request_callback :
    (w : World) (env : Env)
    → Allows (λ w'. w'.client.request_callback ≡ w.client.request_callback) (loop w env)
unfolding loop
loop-request_callback w env = loop_in-Same w.client w.client.state w env refl

phase_of-pending :
    (s : State) (c : Client) (req : Request)
    → Shape s c
    → c.active_request ≡ some req
    → phase_of s c.active_request ≡ pending (some req)
phase_of-pending disconnected c req v a = cc
phase_of-pending connecting c req v a = cc
phase_of-pending connected c req v a = cc
phase_of-pending write_request c req v a = ap pending a
phase_of-pending read_response_header c req v a = ap pending a
phase_of-pending read_response c req v a = ap pending a

was_pending :
    (p q : Phase) (given : List (Request × ℕ)) (req : Request)
    → Steps p given q
    → q ≡ pending (some req)
    → p ≡ pending (some req)
was_pending p q given req (stays _) e = e
was_pending p q given req connects e = cc
was_pending p q given req (answers_up _ code) e = cc
was_pending p q given req (answers_down _ code) e = cc

active_of :
    (s : State) (r : Option Request) (req : Request)
    → phase_of s r ≡ pending (some req)
    → r ≡ some req
active_of disconnected r req e = cc
active_of connecting r req e = cc
active_of connected r req e = cc
active_of write_request r req e = cc
active_of read_response_header r req e = cc
active_of read_response r req e = cc

-- A pending request was pending before, and keeps its callback.
pub loop-Handled :
    (callback : ℕ) (w w' : World)
    → IsConsistent w'.client
    → (w'.client.request_callback ≡ w.client.request_callback)
    → Handled callback w.client
    → Steps (phase w.client) (answers w'.events) (phase w'.client)
    → Handled callback w'.client
loop-Handled callback w w' v same k step req a =
    let before =
      was_pending (phase w.client) (phase w'.client) (answers w'.events) req step
        (phase_of-pending w'.client.state w'.client req v.shape a) in
    same ∙ k req (active_of w.client.state w.client.active_request req before)
