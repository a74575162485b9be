-- ===== src/Modbus/Client/Invariant.antt =====
-- The invariant of the Modbus client: which requests are pending, and where the indices stand.
use smartmeterreader.Prelude.{
  ℕ, ◌+◌, ◌-◌, ◌≤◌, ◌<◌, ◌≡◌, ◌∙◌, refl, ap, List, ◌++◌, length, take, drop, arith, Option, none,
  some, length-append, length-take, length-drop, Returns, ◌⊎◌, inl, inr,
}
use smartmeterreader.Prelude.Int.{pos_part}
use smartmeterreader.Modbus.Frame.{Request, parse_tcp_header}
use smartmeterreader.Modbus.Tcp.{ModbusResult, ok, busy, fatal, IoResult, tcp_read, tcp_write}
use smartmeterreader.Modbus.Client.{
  State, disconnected, connecting, connected, write_request, read_response_header, read_response,
  Client, World, Env, write_at, read_data, write_data, set_state, give_up, loop_in, loop, new,
  on_result, on_connect, take_header, take_response, process_response, process_response_of,
  complete_request, with_client,
}

-- A request is pending exactly in the last three states, and the indices stay within the frame, the
-- frame within the buffer of 272 bytes.
abbrev pub Shape : State → Client → Type 0
Shape write_request c =
    ((req : Request) × (c.active_request ≡ some req))
    × (c.read_idx ≤ c.write_idx)
    × (c.write_idx ≤ 272)
    × (c.frame_size ≤ 272)
Shape read_response_header c =
    ((req : Request) × (c.active_request ≡ some req))
    × (c.write_idx ≤ c.frame_size)
    × (c.frame_size ≡ 6)
Shape read_response c =
    ((req : Request) × (c.active_request ≡ some req))
    × (c.write_idx ≤ c.frame_size)
    × (c.frame_size < 272)
    × (6 ≤ c.frame_size)
    × (c.read_idx ≡ 6)
Shape _ c = c.active_request ≡ none

pub record IsConsistent (c : Client) : Type 0 where
  pub buffer : length c.frame_buffer ≡ 272
  pub shape : Shape c.state c

-- What `read` and `write` promise: no more bytes than they were asked for, and of a `read` as many as it
-- says.
abbrev pub Answers : State → Client → IoResult → Type 0
Answers write_request c io = pos_part io.bytes ≤ c.write_idx - c.read_idx
Answers read_response_header c io =
    (pos_part io.bytes ≤ c.frame_size - c.write_idx) × (length io.received ≡ pos_part io.bytes)
Answers read_response c io =
    (pos_part io.bytes ≤ c.frame_size - c.write_idx) × (length io.received ≡ pos_part io.bytes)
Answers _ c io = Unit {0}

pub new-IsConsistent : IsConsistent new
unfolding new
new-IsConsistent = record { buffer = refl; shape = refl }

length-write_at :
    (buf : List ℕ) (at : ℕ) (bytes : List ℕ)
    → at + length bytes ≤ length buf
    → length (write_at buf at bytes) ≡ length buf
length-write_at buf at bytes h = omega (
  arith,
  length-append (take at buf) (bytes ++ drop (at + length bytes) buf),
  length-append bytes (drop (at + length bytes) buf),
  length-take at buf,
  length-drop (at + length bytes) buf,
)

tcp_read-le :
    (n : ℕ) (io : IoResult)
    → pos_part io.bytes ≤ n
    → length io.received ≡ pos_part io.bytes
    → ((tcp_read n io).1 ≤ n) × (length (take (tcp_read n io).1 io.received) ≡ (tcp_read n io).1)
unfolding tcp_read
tcp_read-le n io h l =
    ground (arith, length-take (pos_part io.bytes) io.received, length-take 0 io.received)

tcp_write-le : (n : ℕ) (io : IoResult) → pos_part io.bytes ≤ n → (tcp_write n io).1 ≤ n
unfolding tcp_write
tcp_write-le n io h = ground arith

-- Entering a state keeps the invariant, from what the code has set up before.
enter_disconnected-IsConsistent :
    (w : World) (env : Env)
    → length w.client.frame_buffer ≡ 272
    → Returns (λ w'. IsConsistent w'.client) (set_state w disconnected env)
unfolding set_state
enter_disconnected-IsConsistent w env b = record { buffer = b; shape = refl }

enter_idle-IsConsistent :
    (w : World) (s : State) (env : Env)
    → (s ≡ connecting) ⊎ (s ≡ connected)
    → length w.client.frame_buffer ≡ 272
    → w.client.active_request ≡ none
    → Returns (λ w'. IsConsistent w'.client) (set_state w s env)
unfolding set_state
enter_idle-IsConsistent w connecting env s b n = record { buffer = b; shape = n }
enter_idle-IsConsistent w connected env s b n = record { buffer = b; shape = n }
enter_idle-IsConsistent w _ env s b n = ground arith

enter_header-IsConsistent :
    (w : World) (env : Env) (req : Request)
    → length w.client.frame_buffer ≡ 272
    → w.client.active_request ≡ some req
    → Returns (λ w'. IsConsistent w'.client) (set_state w read_response_header env)
unfolding set_state
enter_header-IsConsistent w env req b a = record {
  buffer = b;
  shape = ((req, a), omega arith, refl);
}

enter_response-IsConsistent :
    (w : World) (env : Env) (req : Request)
    → length w.client.frame_buffer ≡ 272
    → w.client.active_request ≡ some req
    → w.client.write_idx ≤ w.client.frame_size
    → w.client.frame_size < 272
    → 6 ≤ w.client.frame_size
    → w.client.read_idx ≡ 6
    → Returns (λ w'. IsConsistent w'.client) (set_state w read_response env)
unfolding set_state
enter_response-IsConsistent w env req b a h₁ h₂ h₃ h₄ = record {
  buffer = b;
  shape = ((req, a), h₁, h₂, h₃, h₄);
}

give_up-IsConsistent :
    (w : World) (code : ℕ) (env : Env)
    → length w.client.frame_buffer ≡ 272
    → Returns (λ w'. IsConsistent w'.client) (give_up w code env)
unfolding give_up complete_request
give_up-IsConsistent w code env b = enter_disconnected-IsConsistent (complete_request w code) env b

-- The common branches: what is left to show is the state where the call stays and the branch of success.
on_result-IsConsistent :
    (rc : ModbusResult) (w : World) (env : Env) (next : Option World)
    → IsConsistent w.client
    → (rc ≡ ok → Returns (λ w'. IsConsistent w'.client) next)
    → Returns (λ w'. IsConsistent w'.client) (on_result rc w env next)
unfolding on_result
on_result-IsConsistent fatal w env next v h = enter_disconnected-IsConsistent w env v.buffer
on_result-IsConsistent ok w env next v h = h refl
on_result-IsConsistent busy w env next v h = ground (arith, give_up-IsConsistent w 255 env v.buffer)

-- What a partial or complete read leaves.
record IsRead (c c' : Client) (rc : ModbusResult) : Type 0 where
  buffer : length c'.frame_buffer ≡ 272
  within : c'.write_idx ≤ c.frame_size
  same_size : c'.frame_size ≡ c.frame_size
  same_state : c'.state ≡ c.state
  same_request : c'.active_request ≡ c.active_request
  same_read_idx : c'.read_idx ≡ c.read_idx
  same_id : c'.frame_id ≡ c.frame_id
  complete : rc ≡ ok → c'.write_idx ≡ c.frame_size

read_data-IsRead :
    (c : Client) (io : IoResult)
    → length c.frame_buffer ≡ 272
    → c.write_idx ≤ c.frame_size
    → c.frame_size ≤ 272
    → pos_part io.bytes ≤ c.frame_size - c.write_idx
    → length io.received ≡ pos_part io.bytes
    → IsRead c (read_data c io).0 (read_data c io).1
unfolding read_data
read_data-IsRead c io b h k n l =
    let read = tcp_read-le (c.frame_size - c.write_idx) io n l in
    let act = (tcp_read (c.frame_size - c.write_idx) io).1 in
    record {
      buffer =
          length-write_at c.frame_buffer c.write_idx (take act io.received)
            (omega (arith, read.0, read.1))
          ∙ b;
      within = omega (arith, read.0);
      same_size = refl;
      same_state = refl;
      same_request = refl;
      same_read_idx = refl;
      same_id = refl;
      complete = λ e. ground (arith, read.0);
    }

on_connect-IsConsistent :
    (rc : ModbusResult) (w : World) (env : Env)
    → IsConsistent w.client
    → w.client.active_request ≡ none
    → Returns (λ w'. IsConsistent w'.client) (on_connect rc w env)
unfolding on_connect
on_connect-IsConsistent fatal w env v n = enter_disconnected-IsConsistent w env v.buffer
on_connect-IsConsistent ok w env v n = enter_idle-IsConsistent w connected env (inr refl) v.buffer n
on_connect-IsConsistent busy w env v n =
    ground (arith, enter_disconnected-IsConsistent w env v.buffer)

take_header-IsConsistent :
    (w : World) (env : Env) (req : Request)
    → length w.client.frame_buffer ≡ 272
    → w.client.active_request ≡ some req
    → w.client.write_idx ≡ 6
    → w.client.frame_size ≡ 6
    → Returns (λ w'. IsConsistent w'.client) (take_header w env)
unfolding take_header
take_header-IsConsistent w env req b a h k =
    let c = w.client in
    let hdr = parse_tcp_header c.frame_buffer in
    let w' = record w {
      client = record c { read_idx = c.frame_size; frame_size = c.frame_size + hdr.pdu_size };
    } in
    ground (arith, give_up-IsConsistent w' 252 env b, enter_response-IsConsistent w' env req b a)

process_response_of_keeps :
    (w : World) (req : Request)
    → (length (process_response_of w req).client.frame_buffer ≡ length w.client.frame_buffer)
      × ((process_response_of w req).client.active_request ≡ none)
unfolding process_response_of
process_response_of_keeps w req = ground arith

take_response-IsConsistent :
    (w : World) (env : Env) (req : Request)
    → length w.client.frame_buffer ≡ 272
    → w.client.active_request ≡ some req
    → Returns (λ w'. IsConsistent w'.client) (take_response w env)
unfolding take_response process_response
take_response-IsConsistent w env req b a = simp a (
    enter_idle-IsConsistent (process_response_of w req) connected env (inr refl)
      ((process_response_of_keeps w req).0 ∙ b) (process_response_of_keeps w req).1)

write_data_keeps :
    (c : Client) (io : IoResult)
    → ((write_data c io).0.frame_buffer ≡ c.frame_buffer)
      × ((write_data c io).0.active_request ≡ c.active_request)
      × ((write_data c io).0.state ≡ c.state)
unfolding write_data
write_data_keeps c io = (refl, refl, refl)

write_data-IsConsistent :
    (c : Client) (io : IoResult)
    → c.state ≡ write_request
    → length c.frame_buffer ≡ 272
    → Shape write_request c
    → pos_part io.bytes ≤ c.write_idx - c.read_idx
    → IsConsistent (write_data c io).0
unfolding write_data
write_data-IsConsistent c io e b n a = record {
  buffer = b;
  shape = rw e (n.0, omega (arith, tcp_write-le (c.write_idx - c.read_idx) io a), n.2, n.3);
}

loop_in-IsConsistent :
    (s : State) (w : World) (env : Env)
    → w.client.state ≡ s
    → length w.client.frame_buffer ≡ 272
    → Shape s w.client
    → Answers s w.client env.io
    → Returns (λ w'. IsConsistent w'.client) (loop_in s w env)
unfolding loop_in
loop_in-IsConsistent disconnected w env e b n a =
    ground (arith, enter_idle-IsConsistent w connecting env (inl refl) b n, stay)
  where
    stay : IsConsistent w.client
    stay = record { buffer = b; shape = rw e n }
loop_in-IsConsistent connecting w env e b n a =
    on_connect-IsConsistent _ w env (record { buffer = b; shape = rw e n }) n
loop_in-IsConsistent connected w env e b n a = record { buffer = b; shape = rw e n }
loop_in-IsConsistent write_request w env e b n a =
    let (c, rc) = write_data w.client env.io in
    let w' = with_client w c in
    on_result-IsConsistent rc w' env (set_state w' read_response_header env)
      (write_data-IsConsistent w.client env.io e b n a)
      (λ _.
        enter_header-IsConsistent w' env n.0.0 (ap length (write_data_keeps w.client env.io).0 ∙ b)
          ((write_data_keeps w.client env.io).1 ∙ n.0.1))
loop_in-IsConsistent read_response_header w env e b n a =
    let (c, rc) = read_data w.client env.io in
    let w' = with_client w c in
    let r = read_data-IsRead w.client env.io b n.1 (omega arith) a.0 a.1 in
    on_result-IsConsistent rc w' env (take_header w' env)
      (record {
        buffer = r.buffer;
        shape = rw (r.same_state ∙ e) (
          (n.0.0, r.same_request ∙ n.0.1),
          omega (arith, r.within, r.same_size),
          r.same_size ∙ n.2,
        );
      })
      (λ h.
        take_header-IsConsistent w' env n.0.0 r.buffer (r.same_request ∙ n.0.1) (r.complete h ∙ n.2)
          (r.same_size ∙ n.2))
loop_in-IsConsistent read_response w env e b n a =
    let (c, rc) = read_data w.client env.io in
    let w' = with_client w c in
    let r = read_data-IsRead w.client env.io b n.1 (omega arith) a.0 a.1 in
    on_result-IsConsistent rc w' env (take_response w' env)
      (record {
        buffer = r.buffer;
        shape = rw (r.same_state ∙ e) (
          (n.0.0, r.same_request ∙ n.0.1),
          omega (arith, r.within, r.same_size),
          omega (arith, r.same_size),
          omega (arith, r.same_size),
          r.same_read_idx ∙ n.4,
        );
      })
      (λ h. take_response-IsConsistent w' env n.0.0 r.buffer (r.same_request ∙ n.0.1))

-- Each call of `loop` on a consistent object returns, so that no null request is dereferenced, and
-- keeps it consistent: the frame buffer keeps its 272 bytes and the indices stay within it, and a
-- request is pending exactly in the states that work on one. `read` and `write` answer no more bytes
-- than they are asked for, and `read` gives as many as it answers.
pub loop-IsConsistent :
    (w : World) (env : Env)
    → IsConsistent w.client
    → Answers w.client.state w.client env.io
    → Returns (λ w'. IsConsistent w'.client) (loop w env)
unfolding loop
loop-IsConsistent w env v a = loop_in-IsConsistent w.client.state w env refl v.buffer v.shape a
