-- ===== src/Modbus/Client/Refinement.antt =====
-- Each call of `loop` is a step of the abstract client.
use smartmeterreader.Prelude.{
  ℕ, ◌+◌, ◌≡◌, ◌≢◌, ◌∙◌, refl, ap, List, [], ◌∷◌, arith, if◌then◌else◌, Bool, true, false, Option,
  some, Returns, Returns-map,
}
use smartmeterreader.Modbus.Frame.{Request, parse_tcp_header}
use smartmeterreader.Modbus.Tcp.{ModbusResult, ok, busy, fatal, tcp_open}
use smartmeterreader.Modbus.Client.{
  State, disconnected, connecting, connected, write_request, read_response_header, read_response,
  World, Env, set_state, give_up, loop_in, loop, enter_state, on_result, on_connect, take_header,
  take_response, process_response, process_response_of, read_data, write_data, with_client,
  enter_connecting, enter_read_response_header, late, Client,
}
use smartmeterreader.Modbus.Client.Invariant.{IsConsistent, Shape}
use smartmeterreader.Modbus.Client.Phases.{
  Phase, down, idle, pending, Steps, stays, connects, answers_up, answers_down, phase, answers,
  answers-closed, IsFree, IsBusy, Ends, disconnect-Ends, drop-Ends, give_up-Ends,
  process_response_of-IsFree, phase_of,
}

-- What a call did that began in the phase `p` with no answers given.
pub record Refines (p : Phase) (w : World) : Type 0 where
  pub step : Steps p (answers w.events) (phase w.client)

refines :
    (p q : Phase) (given : List (Request × ℕ)) (w : World)
    → Steps p given q
    → Ends q given w
    → Refines p w
refines p q given w s e = record { step = rw e.reached (rw e.answered s) }

dropped :
    (req : Request) (code : ℕ) (m : Option World)
    → Returns (Ends down ((req, code) ∷ [])) m
    → Returns (Refines (pending (some req))) m
dropped req code m e =
    Returns-map m
      (λ w' h. refines (pending (some req)) down ((req, code) ∷ []) w' (answers_down req code) h) e

-- The states that work on a request.
module _ (req : Request) (cb : ℕ) where
  goes_on :
      (w : World) (s : State) (env : Env)
      → IsBusy req cb w
      → phase_of s (some req) ≡ pending (some req)
      → s ≢ write_request
      → Returns (Refines (pending (some req))) (set_state w s env)
  unfolding set_state enter_state enter_read_response_header
  goes_on w disconnected env b e n = cc
  goes_on w connecting env b e n = cc
  goes_on w connected env b e n = cc
  goes_on w write_request env b e n = absurd (n refl)
  goes_on w read_response_header env b e n =
      refines (pending (some req)) (pending (some req)) [] _ (stays _)
        (record { reached = ap pending b.active; answered = b.answered })
  goes_on w read_response env b e n =
      refines (pending (some req)) (pending (some req)) [] _ (stays _)
        (record { reached = ap pending b.active; answered = b.answered })

  remains :
      (w : World)
      → IsBusy req cb w
      → phase w.client ≡ pending w.client.active_request
      → Refines (pending (some req)) w
  remains w b e =
      refines (pending (some req)) (pending (some req)) [] w (stays _)
        (record { reached = e ∙ ap pending b.active; answered = b.answered })

  on_result-Refines :
      (rc : ModbusResult) (w : World) (env : Env) (finish : Option World)
      → IsBusy req cb w
      → phase w.client ≡ pending w.client.active_request
      → Returns (Refines (pending (some req))) finish
      → Returns (Refines (pending (some req))) (on_result rc w env finish)
  unfolding on_result
  on_result-Refines fatal w env finish b e h = dropped req 253 _ (drop-Ends req cb w env b)
  on_result-Refines ok w env finish b e h = h
  on_result-Refines busy w env finish b e h = go (late w env)
    where
      go :
          (l : Bool)
          → Returns (Refines (pending (some req))) (if l then give_up w 255 env else some w)
      go true = dropped req 255 _ (give_up-Ends req cb 255 w env b)
      go false = remains w b e

  take_header-Refines :
      (w : World) (env : Env)
      → IsBusy req cb w
      → Returns (Refines (pending (some req))) (take_header w env)
  unfolding take_header
  take_header-Refines w env b =
      let c = w.client in
      let hdr = parse_tcp_header c.frame_buffer in
      let w' =
        with_client w
          (record c { read_idx = c.frame_size; frame_size = c.frame_size + hdr.pdu_size }) in
      let b' : IsBusy req cb w' = record {
        active = b.active;
        handler = b.handler;
        answered = b.answered;
      } in
      ground (
        arith,
        dropped req 252 _ (give_up-Ends req cb 252 w' env b'),
        goes_on w' read_response env b' refl (λ e. cc),
      )

  finished :
      (code : ℕ) (w : World) (env : Env)
      → IsFree ((req, code) ∷ []) w
      → Returns (Refines (pending (some req))) (set_state w connected env)
  unfolding set_state enter_state
  finished code w env f =
      refines (pending (some req)) idle ((req, code) ∷ []) _ (answers_up req code)
        (record { reached = refl; answered = f.answered })

  take_response-Refines :
      (w : World) (env : Env)
      → IsBusy req cb w
      → Returns (Refines (pending (some req))) (take_response w env)
  unfolding take_response process_response
  take_response-Refines w env b = simp b.active (
      let (code, f) = process_response_of-IsFree req cb w b in
      finished code (process_response_of w req) env f)

-- The states without a request.
still : (w : World) → IsFree [] w → Refines (phase w.client) w
still w f =
    refines (phase w.client) (phase w.client) [] w (stays _)
      (record { reached = refl; answered = f.answered })

goes_down :
    (w : World) (env : Env) → IsFree [] w → Returns (Refines down) (set_state w disconnected env)
goes_down w env f =
    Returns-map (set_state w disconnected env) (λ w' h. refines down down [] w' (stays down) h)
      (disconnect-Ends [] w env f)

opens : (w : World) (env : Env) → IsFree [] w → Returns (Refines down) (set_state w connecting env)
unfolding set_state enter_state enter_connecting
opens w env f = refines down down [] _ (stays down) (record {
  reached = refl;
  answered = answers-closed w.events (tcp_open env.opening).1 ∙ f.answered;
})

comes_up :
    (w : World) (env : Env) → IsFree [] w → Returns (Refines down) (set_state w connected env)
unfolding set_state enter_state
comes_up w env f =
    refines down idle [] _ connects (record { reached = refl; answered = f.answered })

on_connect-Refines :
    (rc : ModbusResult) (w : World) (env : Env)
    → IsFree [] w
    → Refines down w
    → Returns (Refines down) (on_connect rc w env)
unfolding on_connect
on_connect-Refines fatal w env f r = goes_down w env f
on_connect-Refines ok w env f r = comes_up w env f
on_connect-Refines busy w env f r = ground (arith, r, goes_down w env f)

-- A pending request has a callback.
abbrev pub Handled : ℕ → Client → Type 0
Handled callback c =
    (req : Request) → c.active_request ≡ some req → c.request_callback ≡ some callback

with_active :
    (req : Request) (r : Option Request) (m : Option World)
    → r ≡ some req
    → Returns (Refines (pending (some req))) m
    → Returns (Refines (pending r)) m
with_active req r m e h = rw e h

loop_in-Refines :
    (callback : ℕ) (s : State) (w : World) (env : Env)
    → w.client.state ≡ s
    → Shape s w.client
    → (answers w.events ≡ [])
    → Handled callback w.client
    → Returns (Refines (phase_of s w.client.active_request)) (loop_in s w env)
unfolding loop_in write_data read_data
loop_in-Refines cb disconnected w env e v n k =
    let f : IsFree [] w = record { active = v; answered = n } in
    ground (
      arith,
      opens w env f,
      refines down down [] w (stays down) (record { reached = rw e refl; answered = n }),
    )
loop_in-Refines cb connecting w env e v n k =
    let f : IsFree [] w = record { active = v; answered = n } in
    on_connect-Refines _ w env f
      (refines down down [] w (stays down) (record { reached = rw e refl; answered = n }))
loop_in-Refines cb connected w env e v n k =
    refines idle idle [] w (stays idle) (record { reached = rw e refl; answered = n })
loop_in-Refines cb write_request w env e v n k =
    let (c, rc) = write_data w.client env.io in
    let b : IsBusy v.0.0 cb (with_client w c) = record {
      active = v.0.1;
      handler = k v.0.0 v.0.1;
      answered = n;
    } in
    with_active v.0.0 w.client.active_request _ v.0.1 (
      on_result-Refines v.0.0 cb rc (with_client w c) env _ b (rw e refl)
        (goes_on v.0.0 cb (with_client w c) read_response_header env b refl (λ e. cc)))
loop_in-Refines cb read_response_header w env e v n k =
    let (c, rc) = read_data w.client env.io in
    let b : IsBusy v.0.0 cb (with_client w c) = record {
      active = v.0.1;
      handler = k v.0.0 v.0.1;
      answered = n;
    } in
    with_active v.0.0 w.client.active_request _ v.0.1 (
      on_result-Refines v.0.0 cb rc (with_client w c) env _ b (rw e refl)
        (take_header-Refines v.0.0 cb (with_client w c) env b))
loop_in-Refines cb read_response w env e v n k =
    let (c, rc) = read_data w.client env.io in
    let b : IsBusy v.0.0 cb (with_client w c) = record {
      active = v.0.1;
      handler = k v.0.0 v.0.1;
      answered = n;
    } in
    with_active v.0.0 w.client.active_request _ v.0.1 (
      on_result-Refines v.0.0 cb rc (with_client w c) env _ b (rw e refl)
        (take_response-Refines v.0.0 cb (with_client w c) env b))

-- Each call of `loop` on a consistent object returns, and is a step of the abstract client: down, free, or
-- at work on one request. A free client stays free; one that is down stays down or becomes free; one at work
-- on a request goes on with it, or answers just this request, once, and is then free or down. The answers
-- before the call have been taken away, and the callback of a pending request is not null.
pub loop-Refines :
    (callback : ℕ) (w : World) (env : Env)
    → IsConsistent w.client
    → answers w.events ≡ []
    → Handled callback w.client
    → Returns (λ w'. Steps (phase w.client) (answers w'.events) (phase w'.client)) (loop w env)
unfolding loop
loop-Refines callback w env v n k =
    Returns-map (loop_in w.client.state w env) (λ w' r. r.step)
      (loop_in-Refines callback w.client.state w env refl v.shape n k)
