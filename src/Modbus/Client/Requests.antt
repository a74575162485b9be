-- ===== src/Modbus/Client/Requests.antt =====
-- Each accepted request is answered exactly once.
use smartmeterreader.Prelude.{
  ℕ, suc, ◌+◌, ◌≡◌, ◌≢◌, ◌∙◌, refl, ap, List, [], ◌∷◌, ◌++◌, arith, if◌then◌else◌, Option, none,
  some, ◌>>=◌, Returns, map, Returns-map, ltb, ◌<◌,
}
use smartmeterreader.Modbus.Frame.{Request, Memory, parse_tcp_header}
use smartmeterreader.Modbus.Tcp.{ModbusResult, ok, busy, fatal, tcp_open, tcp_close}
use smartmeterreader.Modbus.Client.{
  State, disconnected, connecting, connected, write_request, read_response_header, read_response,
  Client, World, Env, Event, closed, completed, set_state, give_up, loop_in, loop, enter_state,
  on_result, on_connect, take_header, take_response, process_response, process_response_of,
  complete_request, completion, send_request, read_data, write_data, with_client, store_payload,
  enter_write_request, rank,
}
use smartmeterreader.Modbus.Client.Invariant.{IsConsistent, Shape}

-- The calls of the callback among the events.
abbrev pub completions : List Event → ℕ
completions [] = 0
completions (closed fd ∷ es) = completions es
completions (completed callback req code ∷ es) = suc (completions es)

-- The answers given and the answers still owed.
abbrev pub owed : Option Request → ℕ
owed none = 0
owed (some req) = 1

abbrev pub balance : World → ℕ
balance w = completions w.events + owed w.client.active_request

completions-append : (es fs : List Event) → completions (es ++ fs) ≡ completions es + completions fs
completions-append [] fs = omega arith
completions-append (closed fd ∷ es) fs = completions-append es fs
completions-append (completed callback req code ∷ es) fs = omega (arith, completions-append es fs)

completions-closed : (fds : List ℕ) → completions (map closed fds) ≡ 0
completions-closed [] = refl
completions-closed (fd ∷ fds) = completions-closed fds

-- What a call does to the balance, with a callback that is not null.
record Keeps (callback : ℕ) (n : ℕ) (w : World) : Type 0 where
  same_balance : balance w ≡ n
  same_callback : w.client.request_callback ≡ some callback

complete_request-Keeps :
    (cb n : ℕ) (w : World) (code : ℕ) → Keeps cb n w → Keeps cb n (complete_request w code)
unfolding complete_request
complete_request-Keeps cb n w code k = record {
  same_balance =
      go w.client.request_callback w.client.active_request k.same_callback k.same_balance;
  same_callback = k.same_callback;
}
  where
    go :
        (callback : Option ℕ) (req : Option Request)
        → callback ≡ some cb
        → completions w.events + owed req ≡ n
        → completions (w.events ++ completion callback req code) + 0 ≡ n
    go none req e b = cc
    go (some c) none e b = unfold completion in omega (arith, completions-append w.events [])
    go (some c) (some r) e b =
        unfold completion in omega (arith, completions-append w.events (completed c r code ∷ []))

closed-Keeps :
    (cb n : ℕ) (w : World) (fds : List ℕ) (c : Client)
    → c.active_request ≡ w.client.active_request
    → c.request_callback ≡ w.client.request_callback
    → Keeps cb n w
    → Keeps cb n (record w { client = c; events = w.events ++ map closed fds })
closed-Keeps cb n w fds c e f k = record {
  same_balance = rw e (
      omega (
        arith,
        completions-append w.events (map closed fds),
        completions-closed fds,
        k.same_balance,
      ));
  same_callback = f ∙ k.same_callback;
}

set_state-Keeps :
    (cb n : ℕ) (s : State) (w : World) (env : Env)
    → (s ≢ write_request)
    → Keeps cb n w
    → Returns (Keeps cb n) (set_state w s env)
unfolding set_state enter_state
set_state-Keeps cb n disconnected w env h k =
    complete_request-Keeps cb n _ 253 (closed-Keeps cb n w (tcp_close w.client.fd) _ refl refl k)
set_state-Keeps cb n connecting w env h k =
    closed-Keeps cb n w (tcp_open env.opening).1 _ refl refl k
set_state-Keeps cb n connected w env h k = record {
  same_balance = k.same_balance;
  same_callback = k.same_callback;
}
set_state-Keeps cb n write_request w env h k = absurd (h refl)
set_state-Keeps cb n read_response_header w env h k = record {
  same_balance = k.same_balance;
  same_callback = k.same_callback;
}
set_state-Keeps cb n read_response w env h k = record {
  same_balance = k.same_balance;
  same_callback = k.same_callback;
}

client-Keeps :
    (cb n : ℕ) (w : World) (c : Client)
    → c.active_request ≡ w.client.active_request
    → c.request_callback ≡ w.client.request_callback
    → Keeps cb n w
    → Keeps cb n (with_client w c)
client-Keeps cb n w c e f k = record {
  same_balance = rw e k.same_balance;
  same_callback = f ∙ k.same_callback;
}

give_up-Keeps :
    (cb n : ℕ) (w : World) (code : ℕ) (env : Env)
    → Keeps cb n w
    → Returns (Keeps cb n) (give_up w code env)
unfolding give_up
give_up-Keeps cb n w code env k =
    set_state-Keeps cb n disconnected _ env (λ e. cc) (complete_request-Keeps cb n w code k)

on_result-Keeps :
    (cb n : ℕ) (rc : ModbusResult) (w : World) (env : Env) (next : Option World)
    → Keeps cb n w
    → Returns (Keeps cb n) next
    → Returns (Keeps cb n) (on_result rc w env next)
unfolding on_result
on_result-Keeps cb n fatal w env next k h = set_state-Keeps cb n disconnected w env (λ e. cc) k
on_result-Keeps cb n ok w env next k h = h
on_result-Keeps cb n busy w env next k h = ground (arith, give_up-Keeps cb n w 255 env k)

on_connect-Keeps :
    (cb n : ℕ) (rc : ModbusResult) (w : World) (env : Env)
    → Keeps cb n w
    → Returns (Keeps cb n) (on_connect rc w env)
unfolding on_connect
on_connect-Keeps cb n fatal w env k = set_state-Keeps cb n disconnected w env (λ e. cc) k
on_connect-Keeps cb n ok w env k = set_state-Keeps cb n connected w env (λ e. cc) k
on_connect-Keeps cb n busy w env k =
    ground (arith, set_state-Keeps cb n disconnected w env (λ e. cc) k)

take_header-Keeps :
    (cb n : ℕ) (w : World) (env : Env) → Keeps cb n w → Returns (Keeps cb n) (take_header w env)
unfolding take_header
take_header-Keeps cb n w env k =
    let c = w.client in
    let hdr = parse_tcp_header c.frame_buffer in
    let w' =
      with_client w
        (record c { read_idx = c.frame_size; frame_size = c.frame_size + hdr.pdu_size }) in
    let k' = client-Keeps cb n w w'.client refl refl k in
    ground (
      arith,
      give_up-Keeps cb n w' 252 env k',
      set_state-Keeps cb n read_response w' env (λ e. cc) k',
    )

memory-Keeps :
    (cb n : ℕ) (w : World) (mem : Memory) → Keeps cb n w → Keeps cb n (record w { memory = mem })
memory-Keeps cb n w mem k = record {
  same_balance = k.same_balance;
  same_callback = k.same_callback;
}

process_response_of-Keeps :
    (cb n : ℕ) (w : World) (req : Request) → Keeps cb n w → Keeps cb n (process_response_of w req)
unfolding process_response_of
process_response_of-Keeps cb n w req k =
    let w' = record w { memory = store_payload w.client req w.memory } in
    ground (
      arith,
      complete_request-Keeps cb n w 252 k,
      complete_request-Keeps cb n w 0 k,
      complete_request-Keeps cb n w' 0 (memory-Keeps cb n w w'.memory k),
    )

take_response-Keeps :
    (cb n : ℕ) (w : World) (env : Env) (req : Request)
    → w.client.active_request ≡ some req
    → Keeps cb n w
    → Returns (Keeps cb n) (take_response w env)
unfolding take_response process_response
take_response-Keeps cb n w env req a k = simp a (
    set_state-Keeps cb n connected (process_response_of w req) env (λ e. cc)
      (process_response_of-Keeps cb n w req k))

loop_in-Keeps :
    (cb n : ℕ) (s : State) (w : World) (env : Env)
    → Shape s w.client
    → Keeps cb n w
    → Returns (Keeps cb n) (loop_in s w env)
unfolding loop_in write_data read_data
loop_in-Keeps cb n disconnected w env v k =
    ground (arith, set_state-Keeps cb n connecting w env (λ e. cc) k)
loop_in-Keeps cb n connecting w env v k = on_connect-Keeps cb n _ w env k
loop_in-Keeps cb n connected w env v k = k
loop_in-Keeps cb n write_request w env v k =
    let (c, rc) = write_data w.client env.io in
    let k' = client-Keeps cb n w c refl refl k in
    on_result-Keeps cb n rc (with_client w c) env _ k'
      (set_state-Keeps cb n read_response_header (with_client w c) env (λ e. cc) k')
loop_in-Keeps cb n read_response_header w env v k =
    let (c, rc) = read_data w.client env.io in
    let k' = client-Keeps cb n w c refl refl k in
    on_result-Keeps cb n rc (with_client w c) env _ k'
      (take_header-Keeps cb n (with_client w c) env k')
loop_in-Keeps cb n read_response w env v k =
    let (c, rc) = read_data w.client env.io in
    let k' = client-Keeps cb n w c refl refl k in
    on_result-Keeps cb n rc (with_client w c) env _ k'
      (take_response-Keeps cb n (with_client w c) env v.0.0 v.0.1 k')

-- With a callback that is not null, a call of `loop` on a consistent object returns and leaves the
-- number of answers given plus the number of answers owed, 0 or 1, as it was: a pending request stays
-- pending or is answered once, and none is answered when none is pending. The callback stays the same.
pub loop-Keeps :
    (callback : ℕ) (w : World) (env : Env)
    → IsConsistent w.client
    → w.client.request_callback ≡ some callback
    → Returns
        (λ w'. (balance w' ≡ balance w) × (w'.client.request_callback ≡ some callback))
        (loop w env)
unfolding loop
loop-Keeps callback w env v e =
    Returns-map (loop_in w.client.state w env) (λ w' k. (k.same_balance, k.same_callback))
      (loop_in-Keeps callback (balance w) w.client.state w env v.shape
        (record { same_balance = refl; same_callback = e }))

-- What the answer of `send_request` says of the object before and after it. The state `connected` has
-- the rank 2, so in that state the answer can only be `ok`.
abbrev pub Accepts : World → World × ModbusResult → Type 0
Accepts w (w', ok) = (w.client.state ≡ connected) × (balance w' ≡ suc (balance w))
Accepts w (w', busy) = (w' ≡ w) × (2 < rank w.client.state) × (owed w.client.active_request ≡ 1)
Accepts w (w', fatal) = (w' ≡ w) × (rank w.client.state < 2) × (owed w.client.active_request ≡ 0)

start-Accepts :
    (w : World) (req : Request) (callback : Option ℕ) (env : Env)
    → w.client.state ≡ connected
    → w.client.active_request ≡ none
    → Returns (Accepts w) (
        set_state
          (record w {
            client = record (w.client) { active_request = some req; request_callback = callback };
          })
          write_request
          env
        >>= λ w'. some (w', ok))
unfolding set_state enter_state enter_write_request
start-Accepts w req callback env s n = (s, simp n (omega arith))

-- On a consistent object the call returns. In the state `connected`, and in no other, the request is
-- accepted, and one answer more is owed than before. In the states before it the answer is `fatal`, and
-- no answer is owed; in the states behind it the answer is `busy`, and another request is pending; both
-- change nothing.
pub send_request-Accepts :
    (w : World) (req : Request) (callback : Option ℕ) (env : Env)
    → IsConsistent w.client
    → Returns (Accepts w) (send_request w req callback env)
unfolding send_request
send_request-Accepts w req callback env v = go w.client.state refl v.shape
  where
    go :
        (s : State)
        → w.client.state ≡ s
        → Shape s w.client
        → Returns (Accepts w) (
            if ltb (rank s) 2
            then some (w, fatal)
            else if ltb 2 (rank s)
            then some (w, busy)
            else set_state
                (record w {
                  client = record (w.client) {
                    active_request = some req;
                    request_callback = callback;
                  };
                })
                write_request
                env
              >>= λ w'. some (w', ok))
    go disconnected e n = (refl, omega (arith, ap rank e), ap owed n)
    go connecting e n = (refl, omega (arith, ap rank e), ap owed n)
    go connected e n = start-Accepts w req callback env e n
    go write_request e n = (refl, omega (arith, ap rank e), ap owed n.0.1)
    go read_response_header e n = (refl, omega (arith, ap rank e), ap owed n.0.1)
    go read_response e n = (refl, omega (arith, ap rank e), ap owed n.0.1)
