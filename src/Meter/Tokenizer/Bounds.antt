-- ===== src/Meter/Tokenizer/Bounds.antt =====
-- The tokenizer never leaves its buffers, and each token is the text pushed since the one before.
use smartmeterreader.Prelude.{
  ℕ, ◌≤◌, ◌<◌, ◌≡◌, ◌∙◌, refl, List, [], ◌∷◌, ◌++◌, take, drop, length, arith, set-copy,
  length-copy, length-set, length-take,
}
use smartmeterreader.Meter.Tokenizer.{
  State, default, parse_key, parse_end_of_frame, parse_frame_header, Token, need_more_input,
  Tokenizer, push_ch, accept, handle_default, accept_unless_more, state_action, parse_ch, reset,
  c_str, last_token_str, frame_header, key, value, frame_footer, error,
}

-- The indices stay within the arrays, and the last token is a string that fits in 32 bytes.
pub record InBounds (t : Tokenizer) : Type 0 where
  pub buf_size : length t.buf ≡ 31
  pub last_size : length t.last_token_buf ≡ 32
  pub idx_in : t.idx ≤ 31
  pub terminated : length (last_token_str t) ≤ 31

-- What holds between two characters: besides, no text is pending in the default state.
pub record IsValid (t : Tokenizer) : Type 0 where
  pub in_bounds : InBounds t
  pub default_empty : t.state ≡ default → t.idx ≡ 0
  pub end_short : t.state ≡ parse_end_of_frame → t.idx < 4

pub reset-IsValid : IsValid reset
unfolding reset last_token_str
reset-IsValid = omega arith

length-c_str_le : (xs : List ℕ) → length (c_str xs) ≤ length xs
unfolding c_str
length-c_str_le [] = omega arith
length-c_str_le (x ∷ xs) = ground (arith, length-c_str_le xs)

c_str_ends : (xs ys : List ℕ) → c_str (xs ++ 0 ∷ ys) ≡ c_str xs
unfolding c_str
c_str_ends [] ys = refl
c_str_ends (x ∷ xs) ys = ground (arith, c_str_ends xs ys)

-- The token is the text that was pushed.
pub last_token_str-accept :
    (t : Tokenizer) (token : Token)
    → InBounds t
    → last_token_str (accept t token) ≡ c_str (take t.idx t.buf)
unfolding last_token_str accept
last_token_str-accept t token v =
    rw (set-copy t.buf t.last_token_buf t.idx 0 (omega arith) (omega arith))
      (c_str_ends (take t.idx t.buf) _)

pub accept-InBounds : (t : Tokenizer) (token : Token) → InBounds t → InBounds (accept t token)
accept-InBounds t token v = record {
  buf_size = unfold accept in v.buf_size;
  last_size =
      unfold accept in
      (length-set (take t.idx t.buf ++ drop t.idx t.last_token_buf) t.idx 0
        ∙ length-copy t.buf t.last_token_buf t.idx (omega arith) (omega arith)
        ∙ v.last_size);
  idx_in = unfold accept in omega arith;
  terminated =
      rw (last_token_str-accept t token v)
        (omega (arith, length-c_str_le (take t.idx t.buf), length-take t.idx t.buf));
}

pub push_ch-InBounds : (t : Tokenizer) (ch : ℕ) → InBounds t → InBounds (push_ch t ch)
unfolding push_ch last_token_str
push_ch-InBounds t ch v = ground (arith, length-set t.buf t.idx ch)

pub state-InBounds : (t : Tokenizer) (s : State) → InBounds t → InBounds (record t { state = s })
unfolding last_token_str
state-InBounds t s v = ground arith

handle_default-InBounds : (t : Tokenizer) (ch : ℕ) → InBounds t → InBounds (handle_default t ch).0
unfolding handle_default last_token_str
handle_default-InBounds t ch v =
    ground
      (arith, push_ch-InBounds (record t { state = parse_key }) ch (state-InBounds t parse_key v))

state_action-InBounds :
    (s : State) (t : Tokenizer) (ch : ℕ) → InBounds t → InBounds (state_action s t ch).0
unfolding state_action last_token_str
state_action-InBounds default t ch v = handle_default-InBounds t ch v
state_action-InBounds parse_frame_header t ch v =
    let once = push_ch-InBounds t ch v in
    ground (arith, handle_default-InBounds t ch v, once, push_ch-InBounds (push_ch t ch) ch once)
state_action-InBounds _ t ch v =
    ground (arith, handle_default-InBounds t ch v, push_ch-InBounds t ch v)

-- What the handlers establish: a token that is not the default's, or no text pending in the default state.
-- When no token is complete.
abbrev Settled : Tokenizer × Token → Type 0
Settled (t, need_more_input) =
    (t.state ≡ default → t.idx ≡ 0) × (t.state ≡ parse_end_of_frame → t.idx < 4)
Settled (t, _) = Unit {0}

pub push_ch_state : (t : Tokenizer) (ch : ℕ) → (push_ch t ch).state ≡ t.state
unfolding push_ch
push_ch_state t ch = ground arith

handle_default-Settled :
    (t : Tokenizer) (ch : ℕ) → t.state ≡ default → t.idx ≡ 0 → Settled (handle_default t ch)
unfolding handle_default
handle_default-Settled t ch s e = ground (arith, push_ch_state (record t { state = parse_key }) ch)

state_action-Settled :
    (s : State) (t : Tokenizer) (ch : ℕ) → t.state ≡ s → IsValid t → Settled (state_action s t ch)
unfolding state_action
state_action-Settled default t ch s v = handle_default-Settled t ch s (v.default_empty s)
state_action-Settled parse_frame_header t ch s v =
    ground (arith, push_ch_state t ch, push_ch_state (push_ch t ch) ch)
state_action-Settled _ t ch s v = ground (arith, push_ch_state t ch)

accept_unless_more-IsValid :
    (t : Tokenizer) (token : Token)
    → InBounds t
    → Settled (t, token)
    → IsValid (accept_unless_more t token)
unfolding accept_unless_more
accept_unless_more-IsValid t need_more_input v s = record {
  in_bounds = v;
  default_empty = s.0;
  end_short = s.1;
}
accept_unless_more-IsValid t token v s = record {
  in_bounds = accept-InBounds t token v;
  default_empty = λ _. unfold accept in refl;
  end_short = λ _. unfold accept in omega arith;
}

accept_unless_more-InBounds :
    (t : Tokenizer) (token : Token) → InBounds t → InBounds (accept_unless_more t token)
unfolding accept_unless_more
accept_unless_more-InBounds t need_more_input v = v
accept_unless_more-InBounds t frame_header v = accept-InBounds t frame_header v
accept_unless_more-InBounds t key v = accept-InBounds t key v
accept_unless_more-InBounds t value v = accept-InBounds t value v
accept_unless_more-InBounds t frame_footer v = accept-InBounds t frame_footer v
accept_unless_more-InBounds t error v = accept-InBounds t error v

pub parse_ch-InBounds : (t : Tokenizer) (ch : ℕ) → InBounds t → InBounds (parse_ch t ch).0
unfolding parse_ch
parse_ch-InBounds t ch v = accept_unless_more-InBounds _ _ (state_action-InBounds t.state t ch v)

-- From a valid tokenizer no character in any state leaves the arrays: `idx` stays at most 31, so that
-- the writes to `buf[idx]` and `last_token_buf[idx]` are in range, the last token stays a string of at
-- most 31 characters, and no text is pending in the default state.
pub parse_ch-IsValid : (t : Tokenizer) (ch : ℕ) → IsValid t → IsValid (parse_ch t ch).0
unfolding parse_ch
parse_ch-IsValid t ch v =
    accept_unless_more-IsValid _ _ (state_action-InBounds t.state t ch v.in_bounds)
      (state_action-Settled t.state t ch refl v)
