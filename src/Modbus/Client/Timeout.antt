-- ===== src/Modbus/Client/Timeout.antt =====
-- A request does not wait for ever: calls of `loop` that come too late end it.
use smartmeterreader.Modbus.Client.Allows.{Allows, Allows-map, Allows->>=, Allows-if}
use smartmeterreader.Modbus.Frame.{Request}
use smartmeterreader.Prelude.{
  ℕ, suc, ◌+◌, ◌≤◌, ◌<◌, ◌≡◌, ◌∙◌, refl, ap, List, [], ◌∷◌, length, arith, true, Option, none, some,
  ◌>>=◌, Returns, ◌⊎◌, inl, inr, Returns-map, leb, ltb, sub32,
}
use smartmeterreader.Modbus.Tcp.{ModbusResult, ok, busy, fatal}
use smartmeterreader.Modbus.Client.{
  State, disconnected, connecting, connected, write_request, read_response_header, read_response,
  Client, World, Env, set_state, give_up, loop_in, loop, enter_state, enter_write_request,
  complete_request, on_result, on_connect, take_header, take_response, process_response, late, rank,
  read_data, write_data, with_client,
}
use smartmeterreader.Modbus.Client.Invariant.{IsConsistent, Shape, Answers, loop-IsConsistent}
use smartmeterreader.Modbus.Client.Requests.{completions, balance, owed, loop-Keeps}

-- Calls of `loop`, one after another.
unfoldable pub run : World → List Env → Option World
run w [] = some w
run w (env ∷ envs) = loop w env >>= λ w'. run w' envs

-- Each call comes more than a second after the state that it finds was entered, and the socket gives no
-- more bytes than it is asked for.
abbrev pub AllLate : World → List Env → Type 0
AllLate w [] = Unit {0}
AllLate w (env ∷ envs) =
    (late w env ≡ true)
    × Answers w.client.state w.client env.io
    × ((w' : World) → loop w env ≡ some w' → AllLate w' envs)

set_state-state :
    (w : World) (s : State) (env : Env) → Allows (λ w'. w'.client.state ≡ s) (set_state w s env)
unfolding set_state enter_state enter_write_request
set_state-state w disconnected env = refl
set_state-state w connecting env = refl
set_state-state w connected env = refl
set_state-state w write_request env =
    Allows->>= (λ w'. w'.client.state ≡ write_request) w.client.active_request _ (λ req. refl)
set_state-state w read_response_header env = refl
set_state-state w read_response env = refl

-- From a state of rank `n`, the request's work is over, or it has come to the next stage.
abbrev Advances : ℕ → World → Type 0
Advances n w = (rank w.client.state ≤ 2) ⊎ ((2 < n) × (rank w.client.state ≡ suc n))

over :
    (n : ℕ) (w : World) (s : State) (env : Env)
    → rank s ≤ 2
    → Allows (Advances n) (set_state w s env)
over n w s env h =
    Allows-map (λ w'. w'.client.state ≡ s) (Advances n) (set_state w s env) (λ w' e. inl (rw e h))
      (set_state-state w s env)

next :
    (n : ℕ) (w : World) (s : State) (env : Env)
    → 2 < n
    → rank s ≡ suc n
    → Allows (Advances n) (set_state w s env)
next n w s env l h =
    Allows-map (λ w'. w'.client.state ≡ s) (Advances n) (set_state w s env)
      (λ w' e. inr (l, rw e h)) (set_state-state w s env)

given_up : (n : ℕ) (w : World) (code : ℕ) (env : Env) → Allows (Advances n) (give_up w code env)
unfolding give_up
given_up n w code env = over n (complete_request w code) disconnected env (omega arith)

on_result-Advances :
    (n : ℕ) (rc : ModbusResult) (w : World) (env : Env) (finish : Option World)
    → late w env ≡ true
    → Allows (Advances n) finish
    → Allows (Advances n) (on_result rc w env finish)
unfolding on_result
on_result-Advances n fatal w env finish l h = over n w disconnected env (omega arith)
on_result-Advances n ok w env finish l h = h
on_result-Advances n busy w env finish l h = rw l (given_up n w 255 env)

take_header-Advances : (w : World) (env : Env) → Allows (Advances 4) (take_header w env)
unfolding take_header
take_header-Advances w env =
    Allows-if (Advances 4) _ _ _ (given_up 4 _ 252 env)
      (next 4 _ read_response env (omega arith) refl)

take_response-Advances : (w : World) (env : Env) → Allows (Advances 5) (take_response w env)
unfolding take_response
take_response-Advances w env =
    Allows->>= (Advances 5) (process_response w) _ (λ w'. over 5 w' connected env (omega arith))

on_connect-Advances :
    (rc : ModbusResult) (w : World) (env : Env)
    → w.client.state ≡ connecting
    → Allows (Advances 1) (on_connect rc w env)
unfolding on_connect
on_connect-Advances fatal w env e = over 1 w disconnected env (omega arith)
on_connect-Advances ok w env e = over 1 w connected env (omega arith)
on_connect-Advances busy w env e =
    Allows-if (Advances 1) (leb 5000 (sub32 env.t w.client.state_entry_time)) _ (some w)
      (over 1 w disconnected env (omega arith)) (inl (rw e (omega arith)))

loop_in-Advances :
    (s : State) (w : World) (env : Env)
    → w.client.state ≡ s
    → late w env ≡ true
    → Allows (Advances (rank s)) (loop_in s w env)
unfolding loop_in write_data read_data
loop_in-Advances disconnected w env e l =
    Allows-if (Advances 0) (ltb 5000 (sub32 env.t w.client.state_entry_time)) _ (some w)
      (over 0 w connecting env (omega arith)) (inl (rw e (omega arith)))
loop_in-Advances connecting w env e l = on_connect-Advances _ w env e
loop_in-Advances connected w env e l = inl (rw e (omega arith))
loop_in-Advances write_request w env e l =
    let (c, rc) = write_data w.client env.io in
    on_result-Advances 3 rc (with_client w c) env _ l
      (next 3 (with_client w c) read_response_header env (omega arith) refl)
loop_in-Advances read_response_header w env e l =
    let (c, rc) = read_data w.client env.io in
    on_result-Advances 4 rc (with_client w c) env _ l (take_header-Advances (with_client w c) env)
loop_in-Advances read_response w env e l =
    let (c, rc) = read_data w.client env.io in
    on_result-Advances 5 rc (with_client w c) env _ l (take_response-Advances (with_client w c) env)

-- With what `loop` keeps.
record Goes (callback : ℕ) (w w' : World) : Type 0 where
  consistent : IsConsistent w'.client
  balanced : balance w' ≡ balance w
  handler : w'.client.request_callback ≡ some callback
  advances : Advances (rank w.client.state) w'

loop-Goes :
    (callback : ℕ) (w : World) (env : Env)
    → IsConsistent w.client
    → w.client.request_callback ≡ some callback
    → late w env ≡ true
    → Answers w.client.state w.client env.io
    → (w' : World) × (loop w env ≡ some w') × Goes callback w w'
loop-Goes callback w env v k l a =
    go (loop w env) refl (loop-IsConsistent w env v a) (loop-Keeps callback w env v k)
      (unfold loop in loop_in-Advances w.client.state w env refl l)
  where
    go :
        (m : Option World)
        → loop w env ≡ m
        → Returns (λ w'. IsConsistent w'.client) m
        → Returns (λ w'. (balance w' ≡ balance w) × (w'.client.request_callback ≡ some callback)) m
        → Allows (Advances (rank w.client.state)) m
        → (w' : World) × (loop w env ≡ some w') × Goes callback w w'
    go none e c b x = absurd c
    go (some w') e c b x =
        (w', e, record { consistent = c; balanced = b.0; handler = b.1; advances = x })

-- A client whose request's work is over owes no answer.
nothing_owed : (s : State) (c : Client) → Shape s c → rank s ≤ 2 → c.active_request ≡ none
nothing_owed disconnected c v h = v
nothing_owed connecting c v h = v
nothing_owed connected c v h = v
nothing_owed write_request c v h = absurd (omega arith)
nothing_owed read_response_header c v h = absurd (omega arith)
nothing_owed read_response c v h = absurd (omega arith)

rank_le : (s : State) → rank s ≤ 5
rank_le s = ground arith

at_work :
    (s : State) (c : Client) (req : Request) → Shape s c → c.active_request ≡ some req → 3 ≤ rank s
at_work disconnected c req v e = cc
at_work connecting c req v e = cc
at_work connected c req v e = cc
at_work write_request c req v e = omega arith
at_work read_response_header c req v e = omega arith
at_work read_response c req v e = omega arith

stages :
    (r r' n : ℕ)
    → (r' ≤ 2) ⊎ ((2 < r) × (r' ≡ suc r))
    → (r ≤ 2) ⊎ (6 ≤ r + suc n)
    → (r' ≤ 2) ⊎ (6 ≤ r' + n)
stages r r' n (inl h) k = inl h
stages r r' n (inr h) (inl k) = absurd (omega (arith, h.0))
stages r r' n (inr h) (inr k) = inr (omega (arith, h.1))

run-over :
    (callback : ℕ) (envs : List Env) (w : World)
    → IsConsistent w.client
    → w.client.request_callback ≡ some callback
    → AllLate w envs
    → (rank w.client.state ≤ 2) ⊎ (6 ≤ rank w.client.state + length envs)
    → Returns (λ w'. (balance w' ≡ balance w) × (w'.client.active_request ≡ none)) (run w envs)
unfolding run
run-over callback [] w v k l r = (refl, nothing_owed w.client.state w.client v.shape (last_stage r))
  where
    last_stage : (rank w.client.state ≤ 2) ⊎ (6 ≤ rank w.client.state + 0) → rank w.client.state ≤ 2
    last_stage (inl h) = h
    last_stage (inr h) = omega (arith, rank_le w.client.state)
run-over callback (env ∷ envs) w v k l r =
    let (w', e, g) = loop-Goes callback w env v k l.0 l.1 in
    rw e (
      Returns-map (run w' envs) (λ w'' (b, n). (b ∙ g.balanced, n))
        (run-over callback envs w' g.consistent g.handler (l.2 w' e)
          (stages _ _ (length envs) g.advances r)))

-- A request at work, with a callback that is not null, is answered exactly once in three calls of `loop`,
-- if each comes more than a second after the state that it finds was entered, whatever the socket answers:
-- the calls return, and no request is active any more. The socket gives no more bytes than it is asked for.
pub run-answers :
    (callback : ℕ) (w : World) (req : Request) (env₁ env₂ env₃ : Env)
    → IsConsistent w.client
    → w.client.request_callback ≡ some callback
    → w.client.active_request ≡ some req
    → AllLate w (env₁ ∷ env₂ ∷ env₃ ∷ [])
    → Returns
        (λ w'.
          (completions w'.events ≡ suc (completions w.events)) × (w'.client.active_request ≡ none))
        (run w (env₁ ∷ env₂ ∷ env₃ ∷ []))
run-answers callback w req env₁ env₂ env₃ v k a l =
    let start = at_work w.client.state w.client req v.shape a in
    Returns-map (run w (env₁ ∷ env₂ ∷ env₃ ∷ [])) (λ w' (b, n). (paid w w' b a n, n))
      (run-over callback (env₁ ∷ env₂ ∷ env₃ ∷ []) w v k l (inr (omega (arith, start))))
  where
    paid :
        (w w' : World)
        → balance w' ≡ balance w
        → w.client.active_request ≡ some req
        → w'.client.active_request ≡ none
        → completions w'.events ≡ suc (completions w.events)
    paid w w' b a n =
        let before : owed w.client.active_request ≡ 1 = ap owed a in
        let after : owed w'.client.active_request ≡ 0 = ap owed n in omega (arith, b, before, after)
