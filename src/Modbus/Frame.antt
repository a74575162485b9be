-- ===== src/Modbus/Frame.antt =====
-- The requests of the Modbus client and the bytes that stand for them on the wire.
pub mod Serialize
use Prim.Native.Nat.{bit_and}
use smartmeterreader.Prelude.{
  ℕ, zero, suc, ◌+◌, ◌-◌, ◌*◌, ◌/◌, ◌%◌, Bool, true, false, not, ◌&&◌, ◌||◌, ltb, leb, ◌==◌,
  if◌then◌else◌, u8, u16, u32, List, [], ◌∷◌, ◌++◌, take, length, get_or,
}

pub data RegisterType : Type 0 where
  discrete_input coil input_register holding_register : RegisterType

-- `buf` is the address of the requester's buffer.
pub record Request : Type 0 where
  pub buf : ℕ
  pub count : ℕ
  pub type : RegisterType
  pub register_no : ℕ
  pub unit_id : ℕ
  pub is_write_request : Bool

-- `ModbusExceptionCode`, the codes that the client gives itself.
abbrev pub exception_none : ℕ
exception_none = 0

abbrev pub exception_protocol_violation : ℕ
exception_protocol_violation = 252

abbrev pub exception_not_connected : ℕ
exception_not_connected = 253

abbrev pub exception_timeout : ℕ
exception_timeout = 255

-- `ModbusFunctionCode`, the codes in use.
abbrev pub func_invalid : ℕ
func_invalid = 0

abbrev pub func_read_coils : ℕ
func_read_coils = 1

abbrev pub func_read_discrete_inputs : ℕ
func_read_discrete_inputs = 2

abbrev pub func_read_holding_registers : ℕ
func_read_holding_registers = 3

abbrev pub func_read_input_registers : ℕ
func_read_input_registers = 4

abbrev pub func_write_multiple_coils : ℕ
func_write_multiple_coils = 15

abbrev pub func_write_multiple_registers : ℕ
func_write_multiple_registers = 16

unfoldable pub function_code_of : RegisterType → Bool → ℕ
function_code_of discrete_input write = if write then func_invalid else func_read_discrete_inputs
function_code_of coil write = if write then func_write_multiple_coils else func_read_coils
function_code_of input_register write = if write then func_invalid else func_read_input_registers
function_code_of holding_register write =
    if write then func_write_multiple_registers else func_read_holding_registers

unfoldable pub get_function_code : Request → ℕ
unfolding function_code_of
get_function_code req = function_code_of req.type req.is_write_request

abbrev pub tcp_header_size : ℕ
tcp_header_size = 6

abbrev pub pdu_header_size : ℕ
pdu_header_size = 6

-- The bytes of a buffer, by its address.
abbrev pub Memory : Type 0
Memory = ℕ → List ℕ

-- `size_t` is 32 bits wide on this target.
abbrev pub payload_size_of : Request → ℕ
payload_size_of req = if req.is_write_request then u32 (2 * req.count) else 0

abbrev pub pdu_size_of : Request → ℕ
pdu_size_of req =
    let payload_size = payload_size_of req in
    u32 (pdu_header_size + (if payload_size == 0 then 0 else u32 (1 + payload_size)))

-- The bytes that `serialize_request` writes from the start of `buf` on; none for `return 0`, and its
-- result is their number.
unfoldable pub serialize_request : Memory → Request → ℕ → ℕ → List ℕ
unfolding get_function_code
serialize_request mem req id buf_length =
    let function_code = get_function_code req in
    let payload_size = payload_size_of req in
    let pdu_size = pdu_size_of req in
    if function_code == func_invalid
    then []
    else if ltb buf_length (u32 (tcp_header_size + pdu_size))
    then []
    else u8 (id / 256)
      ∷ u8 id
      ∷ 0
      ∷ 0
      ∷ u8 (pdu_size / 256)
      ∷ u8 pdu_size
      ∷ u8 req.unit_id
      ∷ function_code
      ∷ u8 (req.register_no / 256)
      ∷ u8 req.register_no
      ∷ u8 (req.count / 256)
      ∷ u8 req.count
      ∷ (if payload_size == 0 then [] else u8 payload_size ∷ take payload_size (mem req.buf))

pub record TcpHeader : Type 0 where
  pub id : ℕ
  pub reserved : ℕ
  pub pdu_size : ℕ

-- `(uint16_t)(hi << 8) | lo`, for two bytes.
abbrev pub be16 : ℕ → ℕ → ℕ
be16 hi lo = hi * 256 + lo

unfoldable pub parse_tcp_header : List ℕ → TcpHeader
parse_tcp_header buf = record {
  id = be16 (get_or buf 0 0) (get_or buf 1 0);
  reserved = be16 (get_or buf 2 0) (get_or buf 3 0);
  pdu_size = be16 (get_or buf 4 0) (get_or buf 5 0);
}
