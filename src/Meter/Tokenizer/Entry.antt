-- ===== src/Meter/Tokenizer/Entry.antt =====
-- The tokenizer on the words of a telegram.
use smartmeterreader.Prelude.{
  ℕ, suc, ◌+◌, ◌≤◌, ◌<◌, ◌≡◌, ◌∙◌, refl, sym, ap, Bool, true, not, ◌||◌, List, [], ◌∷◌, ◌++◌, take,
  length, arith, ◌==◌, take-set, append-nil, append_assoc, ◌⊎◌, lt→ltb, ◌%◌, Bool-cases, inl, inr,
  false, ◌≢◌, if◌then◌else◌,
}
use smartmeterreader.Meter.Tokenizer.{
  State, default, parse_key, parse_value, parse_end_of_frame, parse_frame_header, Token,
  need_more_input, frame_header, key, value, frame_footer, Tokenizer, push_ch, accept,
  handle_default, parse_ch, c_str, last_token_str, is_blank,
}
use smartmeterreader.Meter.Tokenizer.Bounds.{
  InBounds, push_ch-InBounds, last_token_str-accept, state-InBounds,
}

-- A character that stands for itself in a key and in a value.
abbrev pub is_plain : ℕ → Bool
is_plain c = not (c == 0 || (c == b'/' || (c == b'!' || (c == b'(' || (c == b')' || is_blank c)))))

abbrev pub AllPlain : List ℕ → Type 0
AllPlain [] = Unit {0}
AllPlain (c ∷ cs) = (is_plain c ≡ true) × AllPlain cs

-- A character of the header line.
abbrev pub is_header_char : ℕ → Bool
is_header_char c = not (c == 0 || (c == b'/' || (c == b'!' || (c == b'\r' || c == b'\n'))))

abbrev pub AllHeader : List ℕ → Type 0
AllHeader [] = Unit {0}
AllHeader (c ∷ cs) = (is_header_char c ≡ true) × AllHeader cs

-- The model as the parser keeps it: each backslash twice.
abbrev pub doubled : List ℕ → List ℕ
doubled [] = []
doubled (c ∷ cs) = if c == b'\\' then c ∷ c ∷ doubled cs else c ∷ doubled cs

-- Pushing a whole word.
unfoldable pub push_all : Tokenizer → List ℕ → Tokenizer
push_all t [] = t
push_all t (c ∷ cs) = push_all (push_ch t c) cs

pub parse_ch_plain :
    (t : Tokenizer) (c : ℕ)
    → (t.state ≡ parse_key) ⊎ (t.state ≡ parse_value)
    → is_plain c ≡ true
    → parse_ch t c ≡ (push_ch t c, need_more_input)
unfolding parse_ch
parse_ch_plain t c s h = ground arith

pub parse_ch_first :
    (t : Tokenizer) (c : ℕ)
    → t.state ≡ default
    → is_plain c ≡ true
    → parse_ch t c ≡ (push_ch (record t { state = parse_key }) c, need_more_input)
unfolding parse_ch handle_default
parse_ch_first t c s h = ground arith

-- The token that a delimiter ends.
pub parse_ch_open :
    (t : Tokenizer)
    → t.state ≡ parse_key
    → parse_ch t b'(' ≡ (accept (record t { state = parse_value }) key, key)
unfolding parse_ch
parse_ch_open t s = ground arith

pub parse_ch_close :
    (t : Tokenizer)
    → t.state ≡ parse_value
    → parse_ch t b')' ≡ (accept (record t { state = default }) value, value)
unfolding parse_ch
parse_ch_close t s = ground arith

pub parse_ch_blank :
    (t : Tokenizer) (c : ℕ)
    → t.state ≡ default
    → is_blank c ≡ true
    → parse_ch t c ≡ (t, need_more_input)
unfolding parse_ch handle_default
parse_ch_blank t c s h = ground arith

pub state-push_all : (t : Tokenizer) (cs : List ℕ) → (push_all t cs).state ≡ t.state
unfolding push_all push_ch
state-push_all t [] = refl
state-push_all t (c ∷ cs) = ground (arith, state-push_all (push_ch t c) cs)

pub push_all-InBounds : (t : Tokenizer) (cs : List ℕ) → InBounds t → InBounds (push_all t cs)
unfolding push_all
push_all-InBounds t [] v = v
push_all-InBounds t (c ∷ cs) v = push_all-InBounds (push_ch t c) cs (push_ch-InBounds t c v)

-- The text pushed since the last token.
abbrev pub pending : Tokenizer → List ℕ
pending t = take t.idx t.buf

pending-push_ch :
    (t : Tokenizer) (c : ℕ)
    → InBounds t
    → t.idx < 31
    → (pending (push_ch t c) ≡ pending t ++ c ∷ []) × ((push_ch t c).idx ≡ t.idx + 1)
unfolding push_ch
pending-push_ch t c v h =
    let step : (t.idx + 1) % 256 ≡ suc t.idx = omega arith in
    rw (lt→ltb _ _ h, step) (take-set t.buf t.idx c (omega arith), omega arith)

pub pending-push_all :
    (t : Tokenizer) (cs : List ℕ)
    → InBounds t
    → t.idx + length cs ≤ 31
    → pending (push_all t cs) ≡ pending t ++ cs
unfolding push_all
pending-push_all t [] v h = sym (append-nil _)
pending-push_all t (c ∷ cs) v h =
    let one = pending-push_ch t c v (omega arith) in
    pending-push_all (push_ch t c) cs (push_ch-InBounds t c v) (omega arith)
    ∙ rw one.0 (append_assoc (pending t) (c ∷ []) cs)

pub c_str_plain : (cs : List ℕ) → AllPlain cs → c_str cs ≡ cs
unfolding c_str
c_str_plain [] a = refl
c_str_plain (c ∷ cs) a = ground (arith, c_str_plain cs a.1)

pub c_str-doubled : (cs : List ℕ) → AllHeader cs → c_str (doubled cs) ≡ doubled cs
unfolding c_str
c_str-doubled [] a = refl
c_str-doubled (c ∷ cs) a =
    let not_end : (c == 0) ≡ false = ground (arith, a.0) in
    elim (Bool-cases (c == b'\\')) [
      | inl e ↦ rw (e, not_end, c_str-doubled cs a.1) refl
      | inr e ↦ rw (e, not_end, c_str-doubled cs a.1) refl
    ]

-- A word pushed onto an empty buffer is the text of the token that is accepted next.
pub last_token_str-push_all :
    (t : Tokenizer) (s : State) (cs : List ℕ) (token : Token)
    → InBounds t
    → t.idx ≡ 0
    → length cs ≤ 31
    → c_str cs ≡ cs
    → last_token_str (accept (record (push_all t cs) { state = s }) token) ≡ cs
last_token_str-push_all t s cs token v e l a =
    let inside = state-InBounds (push_all t cs) s (push_all-InBounds t cs v) in
    let none_before : pending t ≡ [] = rw e in
    last_token_str-accept (record (push_all t cs) { state = s }) token inside
    ∙ ap c_str (pending-push_all t cs v (omega arith) ∙ rw none_before)
    ∙ a

-- The header line, from the default state or behind the footer of a telegram before.
pub parse_ch_slash :
    (t : Tokenizer)
    → t.state ≡ default
    → parse_ch t b'/' ≡ (record t { state = parse_frame_header }, need_more_input)
unfolding parse_ch handle_default
parse_ch_slash t s = ground arith

pub parse_ch_slash_again :
    (t : Tokenizer)
    → t.state ≡ parse_end_of_frame
    → parse_ch t b'/'
      ≡ (accept (record t { state = parse_frame_header }) frame_footer, frame_footer)
unfolding parse_ch handle_default
parse_ch_slash_again t s = ground arith

pub parse_ch_header :
    (t : Tokenizer) (c : ℕ)
    → t.state ≡ parse_frame_header
    → is_header_char c ≡ true
    → (c == b'\\') ≡ false
    → parse_ch t c ≡ (push_ch t c, need_more_input)
unfolding parse_ch
parse_ch_header t c s h e = ground arith

pub parse_ch_backslash :
    (t : Tokenizer) (c : ℕ)
    → t.state ≡ parse_frame_header
    → is_header_char c ≡ true
    → (c == b'\\') ≡ true
    → parse_ch t c ≡ (push_ch (push_ch t c) c, need_more_input)
unfolding parse_ch
parse_ch_backslash t c s h e = ground arith

-- A bracket in the default state opens another value.
pub parse_ch_open_again :
    (t : Tokenizer)
    → t.state ≡ default
    → parse_ch t b'(' ≡ (record t { state = parse_value }, need_more_input)
unfolding parse_ch handle_default
parse_ch_open_again t s = ground arith

pub parse_ch_header_end :
    (t : Tokenizer)
    → t.state ≡ parse_frame_header
    → parse_ch t b'\r' ≡ (accept (record t { state = default }) frame_header, frame_header)
unfolding parse_ch
parse_ch_header_end t s = ground arith

pub parse_ch_bang :
    (t : Tokenizer)
    → t.state ≡ default
    → parse_ch t b'!' ≡ (record t { state = parse_end_of_frame }, need_more_input)
unfolding parse_ch handle_default
parse_ch_bang t s = ground arith

-- Where the rest of a checksum may stand, and where its line end leaves the tokenizer.
abbrev pub IsBehind : Tokenizer → Type 0
IsBehind t = (t.state ≡ parse_end_of_frame) ⊎ (t.state ≡ parse_key)

abbrev pub IsEnded : Tokenizer → Type 0
IsEnded t = ((t.state ≡ default) ⊎ (t.state ≡ parse_end_of_frame)) × (t.idx ≡ 0)

-- Behind the footer's mark a digit of the checksum is kept, up to the fourth, which ends the footer; any
-- other character ends it at once.
pub parse_ch_check :
    (t : Tokenizer) (c : ℕ)
    → t.state ≡ parse_end_of_frame
    → is_plain c ≡ true
    → (((parse_ch t c).1 ≡ need_more_input) × ((parse_ch t c).0.state ≡ parse_end_of_frame))
      ⊎ (((parse_ch t c).1 ≡ frame_footer) × IsBehind (parse_ch t c).0)
unfolding parse_ch handle_default push_ch accept
parse_ch_check t c s h = ground arith

-- The rest of the checksum, and the line end behind it, start no header.
pub parse_ch_rest :
    (t : Tokenizer) (c : ℕ)
    → IsBehind t
    → is_plain c ≡ true
    → IsBehind (parse_ch t c).0 × ((parse_ch t c).1 ≢ frame_header)
unfolding parse_ch handle_default push_ch accept
parse_ch_rest t c (inl s) h = ground arith
parse_ch_rest t c (inr s) h = ground arith

pub parse_ch_return :
    (t : Tokenizer)
    → IsBehind t
    → IsEnded (parse_ch t b'\r').0 × ((parse_ch t b'\r').1 ≢ frame_header)
unfolding parse_ch handle_default push_ch accept
parse_ch_return t (inl s) = ground arith
parse_ch_return t (inr s) = ground arith

pub parse_ch_footer :
    (t : Tokenizer) → t.state ≡ parse_end_of_frame → (parse_ch t b'\r').1 ≡ frame_footer
unfolding parse_ch handle_default
parse_ch_footer t s = ground arith

pub parse_ch_newline :
    (t : Tokenizer)
    → IsEnded t
    → IsEnded (parse_ch t b'\n').0 × ((parse_ch t b'\n').1 ≢ frame_header)
unfolding parse_ch handle_default push_ch accept
parse_ch_newline t (inl s, z) = ground arith
parse_ch_newline t (inr s, z) = ground arith
