-- ===== src/Tests/Modbus.antt =====
-- The Modbus client with a read of two input registers pending.
use smartmeterreader.Modbus.Client.Phases
use smartmeterreader.Prelude.{some-eq}
use smartmeterreader.Modbus.Client.Timeout.{AllLate, run, run-answers}
use smartmeterreader.Modbus.Client.Refinement.{loop-Refines}
use smartmeterreader.Modbus.Client.Phases.{Steps, phase}
use smartmeterreader.Prelude.{
  ◌+◌, ◌≡◌, refl, arith, true, false, [], ◌∷◌, replicate, get_or, ltb, u32, if◌then◌else◌, some,
  Returns, suc, sym, ◌∙◌, none, ℕ, List,
}
use smartmeterreader.Prelude.Int.{pos, negsuc}
use smartmeterreader.Modbus.Frame.{
  Request, Memory, input_register, holding_register, serialize_request, exception_none,
  exception_protocol_violation, get_function_code,
}
use smartmeterreader.Modbus.Frame.Serialize.{IsFrame, serialize_request-IsFrame}
use smartmeterreader.Modbus.Tcp.{eagain, tcp_read, tcp_close}
use smartmeterreader.Modbus.Client.{
  Client, World, Env, new, connected, read_response, loop, send_request, process_response_of,
  store_payload, completed, disconnected, closed, loop_in, on_result, read_data, give_up, set_state,
}
use smartmeterreader.Modbus.Client.Invariant.{IsConsistent, Answers, loop-IsConsistent}
use smartmeterreader.Modbus.Client.Requests.{
  balance, loop-Keeps, Accepts, send_request-Accepts, completions,
}
use smartmeterreader.Modbus.Client.Start.{send_request-IsConsistent}
use smartmeterreader.Modbus.Client.Responses.{
  answers, process_response_of-answers, payload_size, store_payload-get_or,
}

abbrev read_two : Request
read_two = record {
  buf = 0;
  count = 2;
  type = input_register;
  register_no = 1000;
  unit_id = 1;
  is_write_request = false;
}

abbrev write_one : Request
write_one = record {
  buf = 0;
  count = 1;
  type = holding_register;
  register_no = 5004;
  unit_id = 1;
  is_write_request = true;
}

abbrev memory : Memory
memory address = 0 ∷ 16 ∷ 7 ∷ 7 ∷ 9 ∷ []

-- The header is read, and the six bytes behind it are to come.
abbrev waiting : Client
waiting = record new {
  frame_id = 1;
  frame_buffer = 0 ∷ 1 ∷ 0 ∷ 0 ∷ 0 ∷ 6 ∷ replicate 266 0;
  frame_size = 12;
  read_idx = 6;
  write_idx = 6;
  state = read_response;
  active_request = some read_two;
  request_callback = some 5;
}

abbrev before : World
before = record { client = waiting; memory = memory; events = [] }

abbrev last_bytes : Env
last_bytes = record {
  t = 100;
  entry = 101;
  poll_rc = pos 1;
  io = record { bytes = pos 6; errno = eagain; received = 1 ∷ 4 ∷ 3 ∷ 11 ∷ 12 ∷ 13 ∷ [] };
  opening = record { pton_rc = pos 1; socket_fd = some 3; connect_failed = false; errno = eagain };
}

waiting-IsConsistent : IsConsistent waiting
unfolding new
waiting-IsConsistent = record {
  buffer = refl;
  shape = ((read_two, refl), omega arith, omega arith, omega arith, refl);
}

fitting_answer : Answers read_response waiting last_bytes.io
fitting_answer = (omega arith, refl)

loop-IsConsistent_example : Returns (λ w. IsConsistent w.client) (loop before last_bytes)
loop-IsConsistent_example = loop-IsConsistent before last_bytes waiting-IsConsistent fitting_answer

loop-Keeps_example :
    Returns
      (λ w. (balance w ≡ balance before) × (w.client.request_callback ≡ some 5))
      (loop before last_bytes)
loop-Keeps_example = loop-Keeps 5 before last_bytes waiting-IsConsistent refl

abbrev idle : World
idle = record { client = record new { state = connected }; memory = memory; events = [] }

idle-IsConsistent : IsConsistent idle.client
unfolding new
idle-IsConsistent = record { buffer = refl; shape = refl }

send_request-Accepts_example :
    Returns (Accepts idle) (send_request idle read_two (some 5) last_bytes)
send_request-Accepts_example =
    send_request-Accepts idle read_two (some 5) last_bytes idle-IsConsistent

serialize_request-IsFrame_example : IsFrame 272 258 (serialize_request memory write_one 258 272)
serialize_request-IsFrame_example =
    serialize_request-IsFrame memory write_one 258 272 (omega arith) (omega arith) (omega arith)
      (omega arith)

serialize_test :
    serialize_request memory write_one 258 272
    ≡ 1 ∷ 2 ∷ 0 ∷ 0 ∷ 0 ∷ 9 ∷ 1 ∷ 16 ∷ 19 ∷ 140 ∷ 0 ∷ 1 ∷ 2 ∷ 0 ∷ 16 ∷ []
unfolding serialize_request
serialize_test = refl

-- An exception, code 2, in answer to the write of a register.
abbrev refused : World
refused = record {
  client = record waiting {
    frame_buffer = 0 ∷ 1 ∷ 0 ∷ 0 ∷ 0 ∷ 3 ∷ 1 ∷ 144 ∷ 2 ∷ replicate 263 0;
    active_request = some write_one;
  };
  memory = memory;
  events = [];
}

process_response_of-answers_example :
    (process_response_of refused write_one).events
    ≡ completed 5 write_one
        (if answers refused.client write_one then exception_none else exception_protocol_violation)
      ∷ []
process_response_of-answers_example =
    process_response_of-answers refused write_one 5 refl refl (omega arith)

exception_test : answers refused.client write_one ≡ true
unfolding get_function_code
exception_test = refl

abbrev answered : Client
answered = record waiting {
  frame_buffer = 0 ∷ 1 ∷ 0 ∷ 0 ∷ 0 ∷ 6 ∷ 1 ∷ 4 ∷ 3 ∷ 11 ∷ 12 ∷ 13 ∷ replicate 260 0;
}

store_payload-get_or_example : get_or (store_payload answered read_two memory 0) 3 0 ≡ (
    if ltb 3 (u32 4)
    then if ltb 3 (payload_size answered) then get_or answered.frame_buffer (9 + 3) 0 else 0
    else get_or (memory 0) 3 0)
store_payload-get_or_example =
    store_payload-get_or answered read_two memory 3 refl (omega arith) (omega arith)

send_request-IsConsistent_example :
    Returns (λ r. IsConsistent (r.0).client) (send_request idle write_one (some 5) last_bytes)
send_request-IsConsistent_example =
    send_request-IsConsistent idle write_one (some 5) last_bytes idle-IsConsistent (omega arith)
      (omega arith)

loop-Refines_example :
    Returns
      (λ w'. Steps (phase before.client) (Phases.answers w'.events) (phase w'.client))
      (loop before last_bytes)
loop-Refines_example = loop-Refines 5 before last_bytes waiting-IsConsistent refl (λ req e. refl)

-- Nothing comes any more.
abbrev silent : ℕ → Env
silent t = record last_bytes {
  t = t;
  entry = t;
  io = record { bytes = negsuc 0; errno = eagain; received = [] };
}

abbrev gave_up : World
gave_up = record before {
  client = record waiting {
    fd = none;
    state = disconnected;
    state_entry_time = 2000;
    active_request = none;
  };
  events = completed 5 read_two 255 ∷ closed 0 ∷ [];
}

always_late :
    (w w₁ : World) (env : Env) (envs : List Env)
    → loop w env ≡ some w₁
    → AllLate w₁ envs
    → (w' : World) → loop w env ≡ some w'
    → AllLate w' envs
always_late w w₁ env envs e l w' e' = rw (some-eq (sym e' ∙ e)) l

first_silence : loop before (silent 2000) ≡ some gave_up
unfolding loop loop_in on_result read_data tcp_read new give_up set_state tcp_close
first_silence = refl

second_silence : loop gave_up (silent 4000) ≡ some gave_up
unfolding loop loop_in
second_silence = refl

silences : AllLate before (silent 2000 ∷ silent 4000 ∷ silent 6000 ∷ [])
unfolding new
silences = (
  refl,
  (omega arith, refl),
  always_late before gave_up (silent 2000) (silent 4000 ∷ silent 6000 ∷ []) first_silence (
    refl,
    tt,
    always_late gave_up gave_up (silent 4000) (silent 6000 ∷ []) second_silence
        (refl, tt, λ w' e. tt),
  ),
)

run-answers_example :
    Returns
      (λ w'.
        (completions w'.events ≡ suc (completions before.events))
        × (w'.client.active_request ≡ none))
      (run before (silent 2000 ∷ silent 4000 ∷ silent 6000 ∷ []))
run-answers_example =
    run-answers 5 before read_two (silent 2000) (silent 4000) (silent 6000) waiting-IsConsistent
      refl refl silences
