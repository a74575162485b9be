-- ===== src/Modbus/Client/Responses.antt =====
-- What a complete response does: the code that the requester is told, and the bytes in its buffer.
use Prim.Native.Nat.{bit_and}
use smartmeterreader.Prelude.{
  ℕ, ◌+◌, ◌-◌, ◌*◌, ◌≤◌, ◌<◌, ◌≡◌, refl, arith, Bool, true, false, not, ◌&&◌, ◌||◌, ◌==◌,
  if◌then◌else◌, List, [], ◌∷◌, ◌++◌, length, take, drop, replicate, get_or, min, u32, some,
  length-drop, get_or-drop, ltb, zero, suc, ◌∙◌, ap,
}
use smartmeterreader.Prelude.Table.{all_below, all_below_sound}
use smartmeterreader.Modbus.Frame.{
  Request, Memory, get_function_code, exception_none, exception_protocol_violation,
}
use smartmeterreader.Modbus.Client.{
  World, Client, completed, process_response_of, complete_request, completion, store_payload, ltb,
}

never_exception : (byte : ℕ) → byte < 256 → (bit_and (bit_and byte 0x7f) 0x80 == 0) ≡ true
unfolding all_below
never_exception byte h = all_below_sound 256 (λ b. bit_and (bit_and b 0x7f) 0x80 == 0) byte refl h

-- The unit and the function of the response are the request's; the bit that marks an exception is not
-- looked at.
abbrev pub answers : Client → Request → Bool
answers c req =
    (get_or c.frame_buffer c.read_idx 0 == req.unit_id)
    && (get_function_code req == bit_and (get_or c.frame_buffer (c.read_idx + 1) 0) 0x7f)

complete_request-events :
    (w : World) (req : Request) (callback code : ℕ)
    → w.client.active_request ≡ some req
    → w.client.request_callback ≡ some callback
    → (complete_request w code).events ≡ w.events ++ completed callback req code ∷ []
unfolding complete_request completion
complete_request-events w req callback code a e = simp (a, e)

-- A response completes the pending request once: with success if the unit and the low seven bits of
-- the function code are the request's, even when the high bit says that the response is an exception,
-- and with `MODBUS_EXCEPTION_PROTOCOL_VIOLATION` otherwise. The callback is not null, and the function
-- code of the response is a byte.
pub process_response_of-answers :
    (w : World) (req : Request) (callback : ℕ)
    → w.client.active_request ≡ some req
    → w.client.request_callback ≡ some callback
    → get_or w.client.frame_buffer (w.client.read_idx + 1) 0 < 256
    → (process_response_of w req).events
      ≡ w.events
        ++ (completed callback req
              (if answers w.client req then exception_none else exception_protocol_violation)
            ∷ [])
unfolding process_response_of
process_response_of-answers w req callback a e h =
    go (get_or w.client.frame_buffer w.client.read_idx 0 == req.unit_id)
      (get_function_code req
        == bit_and (get_or w.client.frame_buffer (w.client.read_idx + 1) 0) 0x7f)
      (bit_and (bit_and (get_or w.client.frame_buffer (w.client.read_idx + 1) 0) 0x7f) 0x80 == 0)
      req.is_write_request
      (never_exception (get_or w.client.frame_buffer (w.client.read_idx + 1) 0) h)
  where
    stored_world : World
    stored_world = record w { memory = store_payload w.client req w.memory }

    go :
        (u f x is_write : Bool)
        → x ≡ true
        → (if not u || not f
            then complete_request w exception_protocol_violation
            else if not x
            then complete_request w exception_protocol_violation
            else if is_write
            then complete_request w exception_none
            else complete_request stored_world exception_none).events
          ≡ w.events
            ++ (completed callback req
                  (if u && f then exception_none else exception_protocol_violation)
                ∷ [])
    go false f x is_write k = complete_request-events w req callback 252 a e
    go true false x is_write k = complete_request-events w req callback 252 a e
    go true true false is_write k = cc
    go true true true true k = complete_request-events w req callback 0 a e
    go true true true false k = complete_request-events stored_world req callback 0 a e

==-refl : (n : ℕ) → (n == n) ≡ true
==-refl n = ground arith

cleared :
    (m : ℕ) (rest : List ℕ) (i : ℕ)
    → get_or (replicate m 0 ++ rest) i 0 ≡ (if ltb i m then 0 else get_or rest (i - m) 0)
cleared zero rest i = ground arith
cleared (suc m) rest zero = ground arith
cleared (suc m) rest (suc i) = ground (arith, cleared m rest i)

stored :
    (n m : ℕ) (src rest : List ℕ) (i : ℕ)
    → n ≤ length src
    → get_or (take n src ++ (replicate m 0 ++ rest)) i 0 ≡ (
        if ltb i n
        then get_or src i 0
        else if ltb i (n + m)
        then 0
        else get_or rest (i - (n + m)) 0)
stored zero m src rest i h = ground (arith, cleared m rest i)
stored (suc n) m [] rest i h = absurd (omega arith)
stored (suc n) m (x ∷ src) rest zero h = ground arith
stored (suc n) m (x ∷ src) rest (suc i) h = ground (arith, stored n m src rest i)

dropped :
    (b n : ℕ) (old : List ℕ) (i : ℕ)
    → n ≤ b
    → b ≤ i
    → get_or (drop b old) (i - (n + (b - n))) 0 ≡ get_or old i 0
dropped b n old i h k = get_or-drop b old (i - (n + (b - n))) 0 ∙ ap (λ j. get_or old j 0) same
  where
    same : b + (i - (n + (b - n))) ≡ i
    same = omega arith

stored_payload :
    (p b at : ℕ) (frame old : List ℕ) (i : ℕ)
    → at + p ≤ length frame
    → get_or (take (min p b) (drop at frame) ++ (replicate (b - min p b) 0 ++ drop b old)) i 0
      ≡ (if ltb i b then if ltb i p then get_or frame (at + i) 0 else 0 else get_or old i 0)
stored_payload p b at frame old i h = ground (
  arith,
  stored (min p b) (b - min p b) (drop at frame) (drop b old) i
      (omega (arith, length-drop at frame)),
  get_or-drop at frame i 0,
  dropped b (min p b) old i,
)

abbrev pub payload_size : Client → ℕ
payload_size c = get_or c.frame_buffer (c.read_idx + 2) 0

-- After the payload is stored, the requester's buffer has, at each index below the number of bytes
-- asked for, the byte of the response's payload, or 0 behind the payload's end; at each other index it
-- has what it had. The frame buffer has 272 bytes, the response starts at byte 8 of it or below, and
-- the payload's length is a byte.
pub store_payload-get_or :
    (c : Client) (req : Request) (mem : Memory) (i : ℕ)
    → length c.frame_buffer ≡ 272
    → c.read_idx ≤ 8
    → payload_size c < 256
    → get_or (store_payload c req mem req.buf) i 0 ≡ (
        if ltb i (u32 (2 * req.count))
        then if ltb i (payload_size c) then get_or c.frame_buffer (c.read_idx + 3 + i) 0 else 0
        else get_or (mem req.buf) i 0)
unfolding store_payload
store_payload-get_or c req mem i h k l = rw (==-refl req.buf) (
    stored_payload (payload_size c) (u32 (2 * req.count)) (c.read_idx + 3) c.frame_buffer
      (mem req.buf) i (omega arith))
