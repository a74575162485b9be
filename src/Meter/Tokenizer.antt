-- ===== src/Meter/Tokenizer.antt =====
-- The tokenizer of sm_parser.c: a state machine over the characters of a telegram.
-- `buf` and `last_token_buf` are the C arrays; a write at an index out of range would change nothing
-- here, and `Bounds` shows that there is none.
pub mod Bounds
pub mod Entry
use smartmeterreader.Prelude.{
  ℕ, zero, suc, ◌+◌, ◌-◌, Bool, true, false, not, ◌&&◌, ◌||◌, ltb, leb, ◌==◌, if◌then◌else◌, u8,
  List, [], ◌∷◌, ◌++◌, take, drop, set, length, replicate,
}

pub data State : Type 0 where
  default parse_key parse_value parse_end_of_frame parse_frame_header : State

pub data Token : Type 0 where
  need_more_input frame_header key value frame_footer error : Token

abbrev pub tokenizer_buf_size : ℕ
tokenizer_buf_size = 32

pub record Tokenizer : Type 0 where
  pub state : State
  pub last_token : Token
  pub last_token_buf : List ℕ
  pub buf : List ℕ
  pub idx : ℕ

-- `sizeof(t->buf)` is `SMART_METER_TOKENIZER_BUF_SIZE - 1`.
unfoldable pub push_ch : Tokenizer → ℕ → Tokenizer
push_ch t ch =
    if ltb t.idx (tokenizer_buf_size - 1)
    then record t { buf = set t.buf t.idx ch; idx = u8 (t.idx + 1) }
    else t

-- `memcpy` of `idx` bytes, and the terminating 0 behind them.
unfoldable pub accept : Tokenizer → Token → Tokenizer
accept t token = record t {
  last_token_buf = set (take t.idx t.buf ++ drop t.idx t.last_token_buf) t.idx 0;
  last_token = token;
  idx = 0;
}

abbrev pub is_blank : ℕ → Bool
is_blank ch = ch == b' ' || (ch == b'\t' || (ch == b'\r' || ch == b'\n'))

unfoldable pub handle_default : Tokenizer → ℕ → Tokenizer × Token
handle_default t ch =
    if ch == b'/'
    then (record t { state = parse_frame_header }, need_more_input)
    else if ch == b'!'
    then (record t { state = parse_end_of_frame }, need_more_input)
    else if ch == b'('
    then (record t { state = parse_value }, need_more_input)
    else if ch == b')'
    then (record t { state = default }, error)
    else if ch == 0 || is_blank ch
    then (t, need_more_input)
    else (push_ch (record t { state = parse_key }) ch, need_more_input)

unfoldable pub handle_parse_frame_header : Tokenizer → ℕ → Tokenizer × Token
handle_parse_frame_header t ch =
    if ch == b'/' || ch == b'!'
    then ((handle_default t ch).0, error)
    else if ch == b'\r' || ch == b'\n'
    then (record t { state = default }, frame_header)
    else if ch == b'\\'
    then (push_ch (push_ch t ch) ch, need_more_input)
    else (push_ch t ch, need_more_input)

unfoldable pub handle_parse_key : Tokenizer → ℕ → Tokenizer × Token
handle_parse_key t ch =
    if ch == 0 || (ch == b'/' || (ch == b'!' || ch == b')'))
    then ((handle_default t ch).0, error)
    else if ch == b'('
    then (record t { state = parse_value }, key)
    else if is_blank ch
    then (record t { state = default }, key)
    else (push_ch t ch, need_more_input)

unfoldable pub handle_parse_value : Tokenizer → ℕ → Tokenizer × Token
handle_parse_value t ch =
    if ch == 0 || (ch == b'/' || (ch == b'!' || ch == b'('))
    then ((handle_default t ch).0, error)
    else if ch == b')'
    then (record t { state = default }, value)
    else if is_blank ch
    then (t, need_more_input)
    else (push_ch t ch, need_more_input)

unfoldable pub handle_parse_end_of_frame : Tokenizer → ℕ → Tokenizer × Token
handle_parse_end_of_frame t ch =
    if ltb ch b'0' || ltb b'9' ch
    then ((handle_default t ch).0, frame_footer)
    else let t' = push_ch t ch in (t', if ltb t'.idx 4 then need_more_input else frame_footer)

-- `s_state_action_table`
unfoldable pub state_action : State → Tokenizer → ℕ → Tokenizer × Token
unfolding handle_parse_key handle_parse_value handle_parse_end_of_frame handle_parse_frame_header
state_action default = handle_default
state_action parse_key = handle_parse_key
state_action parse_value = handle_parse_value
state_action parse_end_of_frame = handle_parse_end_of_frame
state_action parse_frame_header = handle_parse_frame_header

-- `sm_tokenizer_reset`, which `sm_tokenizer_init` calls.
unfoldable pub reset : Tokenizer
reset = record {
  state = default;
  last_token = need_more_input;
  last_token_buf = replicate tokenizer_buf_size 0;
  buf = replicate (tokenizer_buf_size - 1) 0;
  idx = 0;
}

abbrev pub init : Tokenizer
init = reset

-- `if (result != SM_TOKEN_NEED_MORE_INPUT) accept(t, result);`
unfoldable pub accept_unless_more : Tokenizer → Token → Tokenizer
accept_unless_more t need_more_input = t
accept_unless_more t token = accept t token

unfoldable pub parse_ch : Tokenizer → ℕ → Tokenizer × Token
unfolding accept_unless_more state_action
parse_ch t ch =
    let (t', result) = state_action t.state t ch in (accept_unless_more t' result, result)

unfoldable pub finalize : Tokenizer → Tokenizer × Token
unfolding parse_ch
finalize t = parse_ch t 0

-- The characters of a C string, up to the terminating 0.
unfoldable pub c_str : List ℕ → List ℕ
c_str [] = []
c_str (c ∷ cs) = if c == 0 then [] else c ∷ c_str cs

unfoldable pub last_token_str : Tokenizer → List ℕ
unfolding c_str
last_token_str t = c_str t.last_token_buf
