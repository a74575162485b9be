-- ===== src/Modbus/Client/Start.antt =====
-- The start of a request keeps the invariant of the Modbus client.
use smartmeterreader.Prelude.{
  ℕ, ◌+◌, ◌≤◌, ◌<◌, ◌≡◌, refl, arith, Bool, true, false, ltb, if◌then◌else◌, u16, List, length,
  drop, length-append, length-drop, Option, some, ◌>>=◌, Returns, inl, inr, none,
}
use smartmeterreader.Modbus.Frame.{Request, serialize_request, payload_size_of}
use smartmeterreader.Modbus.Frame.Serialize.{IsFrame, serialize_request-IsFrame}
use smartmeterreader.Modbus.Tcp.{ModbusResult, ok, busy, fatal}
use smartmeterreader.Modbus.Client.{
  connected, write_request, World, Env, set_state, enter_state, enter_write_request, send_request,
  rank,
}
use smartmeterreader.Modbus.Client.Invariant.{IsConsistent}

IsFrame-le : (n id : ℕ) (bytes : List ℕ) → IsFrame n id bytes → length bytes ≤ n
IsFrame-le n id bytes (inl e) = rw e (omega arith)
IsFrame-le n id bytes (inr h) = h.0

start-IsConsistent :
    (w : World) (req : Request) (env : Env)
    → length w.client.frame_buffer ≡ 272
    → w.client.active_request ≡ some req
    → req.count < 65536
    → payload_size_of req ≤ length (w.memory req.buf)
    → Returns (λ w'. IsConsistent w'.client) (set_state w write_request env)
unfolding set_state enter_state enter_write_request
start-IsConsistent w req env b a h k =
    let id = u16 (w.client.frame_id + 1) in
    let frame = serialize_request w.memory req id 272 in
    let fits =
      IsFrame-le 272 id frame
        (serialize_request-IsFrame w.memory req id 272 (omega arith) (omega arith) h k) in
    simp a (record {
      buffer = omega (
        arith,
        length-append frame (drop (length frame) w.client.frame_buffer),
        length-drop (length frame) w.client.frame_buffer,
        fits,
        b,
      );
      shape = ((req, refl), omega arith, fits, fits);
    })

-- A call of `send_request` on a consistent object returns and keeps it consistent: what is serialized fits
-- the frame buffer. The count is a number of 16 bits, and the requester's buffer holds the payload.
pub send_request-IsConsistent :
    (w : World) (req : Request) (callback : Option ℕ) (env : Env)
    → IsConsistent w.client
    → req.count < 65536
    → payload_size_of req ≤ length (w.memory req.buf)
    → Returns
        (λ (r : World × ModbusResult). IsConsistent (r.0).client)
        (send_request w req callback env)
unfolding send_request
send_request-IsConsistent w req callback env v h k =
    go (ltb (rank w.client.state) (rank connected)) (ltb (rank connected) (rank w.client.state))
  where
    answered :
        (m : Option World)
        → Returns (λ w'. IsConsistent w'.client) m
        → Returns
            (λ (r : World × ModbusResult). IsConsistent (r.0).client)
            (m >>= λ w'. some (w', ok))
    answered none c = c
    answered (some w') c = c

    begun : World
    begun = record w {
      client = record (w.client) { active_request = some req; request_callback = callback };
    }

    go :
        (early late : Bool)
        → Returns
            (λ (r : World × ModbusResult). IsConsistent (r.0).client)
            (if early
              then some (w, fatal)
              else if late
              then some (w, busy)
              else set_state begun write_request env >>= λ w'. some (w', ok))
    go true late = v
    go false true = v
    go false false =
        answered (set_state begun write_request env)
          (start-IsConsistent begun req env v.buffer refl h k)
