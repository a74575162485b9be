-- ===== src/Modbus/Frame/Serialize.antt =====
-- What a serialized request says, and its size.
use smartmeterreader.Prelude.{
  ℕ, ◌+◌, ◌-◌, ◌*◌, ◌≤◌, ◌<◌, ◌≡◌, refl, arith, Bool, true, false, if◌then◌else◌, ltb, ◌==◌, List,
  [], ◌∷◌, length, take, length-take, u8, u32, ◌⊎◌, inl, inr,
}
use smartmeterreader.Modbus.Frame.{
  Request, Memory, serialize_request, parse_tcp_header, TcpHeader, payload_size_of, pdu_size_of,
  get_function_code, func_invalid, tcp_header_size,
}

-- No bytes, or at most `n` whose header has the identifier and the number of the bytes behind it.
abbrev pub IsFrame : ℕ → ℕ → List ℕ → Type 0
IsFrame n id bytes =
    (bytes ≡ [])
    ⊎ ((length bytes ≤ n)
        × (parse_tcp_header bytes ≡ record { id = id; reserved = 0; pdu_size = length bytes - 6 }))

if-IsFrame :
    (n id : ℕ) (b : Bool) (bytes : List ℕ)
    → (b ≡ false → IsFrame n id bytes)
    → IsFrame n id (if b then [] else bytes)
if-IsFrame n id true bytes h = inl refl
if-IsFrame n id false bytes h = h refl

header-eq :
    (a b c : ℕ) {d e f : ℕ}
    → a ≡ d
    → b ≡ e
    → c ≡ f
    → Path TcpHeader
        (record { id = a; reserved = b; pdu_size = c })
        (record { id = d; reserved = e; pdu_size = f })
header-eq a b c h k l = cc

length-payload :
    (p : ℕ) (bytes : List ℕ)
    → p ≤ length bytes
    → length (if p == 0 then [] else u8 p ∷ take p bytes) ≡ (if p == 0 then 0 else 1 + p)
length-payload p bytes h = ground (arith, length-take p bytes)

-- A request is serialized into no bytes, or into at most as many as the buffer has, and then their header,
-- read back as a response's, has the identifier of the request, and the number of the bytes behind the
-- header as the size. The count and the identifier are numbers of 16 bits, the buffer is shorter than
-- 65536 bytes, and the requester's buffer holds the payload.
pub serialize_request-IsFrame :
    (mem : Memory) (req : Request) (id n : ℕ)
    → id < 65536
    → n < 65536
    → req.count < 65536
    → payload_size_of req ≤ length (mem req.buf)
    → IsFrame n id (serialize_request mem req id n)
unfolding serialize_request parse_tcp_header
serialize_request-IsFrame mem req id n h k c l =
    if-IsFrame n id (get_function_code req == func_invalid) _ (λ _.
      if-IsFrame n id (ltb n (u32 (tcp_header_size + pdu_size_of req))) _ (λ e. inr (
        ground (arith, size, small),
        header-eq _ _ _ (omega arith) refl (ground (arith, size, small)),
      )))
  where
    size :
        length (
          if payload_size_of req == 0
          then []
          else u8 (payload_size_of req) ∷ take (payload_size_of req) (mem req.buf))
        ≡ (if payload_size_of req == 0 then 0 else 1 + payload_size_of req)
    size = length-payload (payload_size_of req) (mem req.buf) l

    small : payload_size_of req ≤ 2 * req.count
    small = ground arith
