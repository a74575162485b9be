-- ===== src/Modbus/Client/Phases.antt =====
-- The client as its users see it: down, free, or at work on one request, which it answers once.
use Prim.Native.Nat.{bit_and}
use smartmeterreader.Prelude.{
  get_or, ℕ, ◌+◌, ◌≡◌, ◌∙◌, refl, ap, List, [], ◌∷◌, ◌++◌, append-nil, if◌then◌else◌, Bool, true,
  false, not, ◌||◌, ◌==◌, Option, none, some, Returns, map,
}
use smartmeterreader.Modbus.Frame.{Request, get_function_code}
use smartmeterreader.Modbus.Tcp.{tcp_close}
use smartmeterreader.Modbus.Client.{
  State, disconnected, connecting, connected, write_request, read_response_header, read_response,
  Client, World, Env, Event, closed, completed, set_state, give_up, enter_state,
  process_response_of, complete_request, completion, store_payload, enter_disconnected,
}

-- The abstract client.
pub data Phase : Type 0 where
  down idle : Phase
  pending : Option Request → Phase

-- One call of `loop`, with the answers that it gives: requests with their codes.
pub data Steps : Phase → List (Request × ℕ) → Phase → Type 0 where
  stays : (p : Phase) → Steps p [] p
  connects : Steps down [] idle
  answers_up : (req : Request) (code : ℕ) → Steps (pending (some req)) ((req, code) ∷ []) idle
  answers_down : (req : Request) (code : ℕ) → Steps (pending (some req)) ((req, code) ∷ []) down

abbrev pub phase_of : State → Option Request → Phase
phase_of disconnected req = down
phase_of connecting req = down
phase_of connected req = idle
phase_of write_request req = pending req
phase_of read_response_header req = pending req
phase_of read_response req = pending req

abbrev pub phase : Client → Phase
phase c = phase_of c.state c.active_request

-- The answers among the events.
abbrev pub answers : List Event → List (Request × ℕ)
answers [] = []
answers (closed fd ∷ es) = answers es
answers (completed callback req code ∷ es) = (req, code) ∷ answers es

pub answers-append : (es fs : List Event) → answers (es ++ fs) ≡ answers es ++ answers fs
answers-append [] fs = refl
answers-append (closed fd ∷ es) fs = answers-append es fs
answers-append (completed callback req code ∷ es) fs = ap (◌∷◌ (req, code)) (answers-append es fs)

pub answers-closed : (es : List Event) (fds : List ℕ) → answers (es ++ map closed fds) ≡ answers es
answers-closed es fds =
    answers-append es (map closed fds)
    ∙ ap (λ r. answers es ++ r) (none_of fds)
    ∙ append-nil (answers es)
  where
    none_of : (fds : List ℕ) → answers (map closed fds) ≡ []
    none_of [] = refl
    none_of (fd ∷ fds) = none_of fds

-- No request is active, and these answers have been given.
pub record IsFree (given : List (Request × ℕ)) (w : World) : Type 0 where
  pub active : w.client.active_request ≡ none
  pub answered : answers w.events ≡ given

-- A request is active, and no answer has been given.
pub record IsBusy (req : Request) (callback : ℕ) (w : World) : Type 0 where
  pub active : w.client.active_request ≡ some req
  pub handler : w.client.request_callback ≡ some callback
  pub answered : answers w.events ≡ []

pub record Ends (p : Phase) (given : List (Request × ℕ)) (w : World) : Type 0 where
  pub reached : phase w.client ≡ p
  pub answered : answers w.events ≡ given

complete_request-IsFree :
    (given : List (Request × ℕ)) (w : World) (code : ℕ)
    → IsFree given w
    → IsFree given (complete_request w code)
unfolding complete_request completion
complete_request-IsFree given w code f = record {
  active = refl;
  answered = go w.client.request_callback w.client.active_request f.active;
}
  where
    go :
        (cb : Option ℕ) (req : Option Request)
        → req ≡ none
        → answers (w.events ++ completion cb req code) ≡ given
    go cb (some r) e = cc
    go none none e = ap answers (append-nil w.events) ∙ f.answered
    go (some c) none e = ap answers (append-nil w.events) ∙ f.answered

complete_request-answers :
    (req : Request) (cb : ℕ) (w : World) (code : ℕ)
    → IsBusy req cb w
    → IsFree ((req, code) ∷ []) (complete_request w code)
unfolding complete_request completion
complete_request-answers req cb w code b = record {
  active = refl;
  answered = rw b.handler (
      rw b.active (
        answers-append w.events (completed cb req code ∷ [])
        ∙ ap (λ r. r ++ (req, code) ∷ []) b.answered));
}

pub disconnect-Ends :
    (given : List (Request × ℕ)) (w : World) (env : Env)
    → IsFree given w
    → Returns (Ends down given) (set_state w disconnected env)
unfolding set_state enter_state enter_disconnected
disconnect-Ends given w env f =
    let w₁ : World = record w {
      client = record (w.client) { state = disconnected; state_entry_time = env.entry; fd = none };
      events = w.events ++ map closed (tcp_close w.client.fd);
    } in
    let r = complete_request-IsFree given w₁ 253 (record {
      active = f.active;
      answered = answers-closed w.events (tcp_close w.client.fd) ∙ f.answered;
    }) in
    record { reached = unfold complete_request in refl; answered = r.answered }

pub drop-Ends :
    (req : Request) (cb : ℕ) (w : World) (env : Env)
    → IsBusy req cb w
    → Returns (Ends down ((req, 253) ∷ [])) (set_state w disconnected env)
unfolding set_state enter_state enter_disconnected
drop-Ends req cb w env b =
    let w₁ : World = record w {
      client = record (w.client) { state = disconnected; state_entry_time = env.entry; fd = none };
      events = w.events ++ map closed (tcp_close w.client.fd);
    } in
    let r = complete_request-answers req cb w₁ 253 (record {
      active = b.active;
      handler = b.handler;
      answered = answers-closed w.events (tcp_close w.client.fd) ∙ b.answered;
    }) in
    record { reached = unfold complete_request in refl; answered = r.answered }

pub give_up-Ends :
    (req : Request) (cb code : ℕ) (w : World) (env : Env)
    → IsBusy req cb w
    → Returns (Ends down ((req, code) ∷ [])) (give_up w code env)
unfolding give_up
give_up-Ends req cb code w env b =
    disconnect-Ends ((req, code) ∷ []) (complete_request w code) env
      (complete_request-answers req cb w code b)

pub process_response_of-IsFree :
    (req : Request) (cb : ℕ) (w : World)
    → IsBusy req cb w
    → (code : ℕ) × IsFree ((req, code) ∷ []) (process_response_of w req)
unfolding process_response_of
process_response_of-IsFree req cb w b =
    let c = w.client in
    let function_code = bit_and (get_or c.frame_buffer (c.read_idx + 1) 0) 127 in
    go
      (not (get_or c.frame_buffer c.read_idx 0 == req.unit_id)
        || not (get_function_code req == function_code))
      (not (bit_and function_code 128 == 0)) req.is_write_request
  where
    violation : IsFree ((req, 252) ∷ []) (complete_request w 252)
    violation = complete_request-answers req cb w 252 b

    go :
        (wrong exception write : Bool)
        → (code : ℕ) × IsFree ((req, code) ∷ []) (
            if wrong
            then complete_request w 252
            else if exception
            then complete_request w 252
            else if write
            then complete_request w 0
            else complete_request (record w { memory = store_payload w.client req w.memory }) 0)
    go true exception write = (252, violation)
    go false true write = (252, violation)
    go false false true = (0, complete_request-answers req cb w 0 b)
    go false false false = (
      0,
      complete_request-answers req cb (record w { memory = store_payload w.client req w.memory }) 0
          (record { active = b.active; handler = b.handler; answered = b.answered }),
    )
