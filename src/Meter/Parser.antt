-- ===== src/Meter/Parser.antt =====
-- The telegram parser of sm_parser.c: the handlers of the object identifiers, and the state machine over
-- the tokens. In a result, `none` is a call that never returns (`parse_flt` can do that); the frame that
-- `handle_frame_end` passes to the callback is a value of the result.
pub mod Words
pub mod Lines
pub mod Footer
pub mod Telegram
pub mod Callback
use smartmeterreader.Prelude.{
  ℕ, zero, suc, ◌+◌, ◌-◌, ◌*◌, Bool, true, false, not, ◌&&◌, ◌||◌, ltb, leb, ◌==◌, if◌then◌else◌,
  u8, u16, u32, List, [], ◌∷◌, ◌++◌, Option, none, some, ◌>>=◌, set, get_or, drop, replicate,
}
use smartmeterreader.Prelude.Int.{ℤ, pos, ◌+ℤ◌, ◌-ℤ◌, int32, int64}
use smartmeterreader.Prelude.Text.{codes}
use smartmeterreader.Calendar.{DateTime, seconds_per_minute, seconds_per_hour}
use smartmeterreader.Meter.Values.{Values, zero_values, zero_datetime}
use smartmeterreader.Meter.Numbers.{
  peek, parse_subint, parse_energy, parse_power, parse_potential, parse_current,
}
use smartmeterreader.Meter.Tokenizer
use smartmeterreader.Meter.Tokenizer.{
  Tokenizer, Token, need_more_input, frame_header, key, value, frame_footer, error, last_token_str,
}

pub data State : Type 0 where
  parse_header parse_key parse_values : State

-- The functions that `sm_parser_entry_s::parser` points to.
pub data Handler : Type 0 where
  timestamp potential current power_import power_export energy_import energy_export : Handler

pub record Entry : Type 0 where
  pub ibis_key : List ℕ
  pub parser : Handler
  pub phase : ℕ

-- The fields of `sm_parser_t` that the handlers work on: the measurement so far.
pub record Meas : Type 0 where
  pub model : List ℕ
  pub timestamp : DateTime
  pub power : List ℤ
  pub potential_mv : List ℤ
  pub current_ma : List ℤ
  pub import_wh : ℤ
  pub export_wh : ℤ
  pub is_lx_power_present : Bool

-- The other fields of `sm_parser_t`, around them.
pub record Parser : Type 0 where
  pub tokenizer : Tokenizer
  pub active_key : Option Entry
  pub last_frame : Values
  pub value_idx : ℕ
  pub state : State
  pub meas : Meas

abbrev pub entry : List ℕ → Handler → ℕ → Entry
entry k h phase = record { ibis_key = k; parser = h; phase = phase }

-- `s_ibis_keys_parsers`
abbrev pub ibis_keys_parsers : List Entry
ibis_keys_parsers =
    entry (codes "0-0:1.0.0") timestamp 0
    ∷ entry (codes "1-0:1.8.1") energy_import 0
    ∷ entry (codes "1-0:1.8.2") energy_import 0
    ∷ entry (codes "1-0:2.8.1") energy_export 1
    ∷ entry (codes "1-0:2.8.2") energy_export 1
    ∷ entry (codes "1-0:1.7.0") power_import 0
    ∷ entry (codes "1-0:2.7.0") power_export 0
    ∷ entry (codes "1-0:21.7.0") power_import 1
    ∷ entry (codes "1-0:22.7.0") power_export 1
    ∷ entry (codes "1-0:41.7.0") power_import 2
    ∷ entry (codes "1-0:42.7.0") power_export 2
    ∷ entry (codes "1-0:61.7.0") power_import 3
    ∷ entry (codes "1-0:62.7.0") power_export 3
    ∷ entry (codes "1-0:32.7.0") potential 0
    ∷ entry (codes "1-0:52.7.0") potential 1
    ∷ entry (codes "1-0:72.7.0") potential 2
    ∷ entry (codes "1-0:31.7.0") current 0
    ∷ entry (codes "1-0:51.7.0") current 1
    ∷ entry (codes "1-0:71.7.0") current 2
    ∷ []

-- A read of two digits into a field of the parser: on a failure the field keeps its value and the
-- handler returns `false`; the fields stored before stay stored.
abbrev pub read_field : List ℕ → Meas → (ℕ → List ℕ → Meas × Bool) → Meas × Bool
read_field text p store = elim (parse_subint text 2) [
  | none ↦ (p, false)
  | some (n, rest) ↦ store n rest
]

abbrev set_month : Meas → ℕ → Meas
set_month p n = record p { timestamp = record (p.timestamp) { month = n } }

abbrev set_day : Meas → ℕ → Meas
set_day p n = record p { timestamp = record (p.timestamp) { day = n } }

abbrev set_hour : Meas → ℕ → Meas
set_hour p n = record p { timestamp = record (p.timestamp) { hour = n } }

abbrev set_min : Meas → ℕ → Meas
set_min p n = record p { timestamp = record (p.timestamp) { min = n } }

abbrev set_sec : Meas → ℕ → Meas
set_sec p n = record p { timestamp = record (p.timestamp) { sec = n } }

-- The last part of `handle_timestamp`, from the test of the season on.
unfoldable pub finish_timestamp : Meas → ℕ → List ℕ → Meas × Bool
finish_timestamp p year text =
    if peek text == b'S' || peek text == b'W'
    then (
      record p {
        timestamp = record (p.timestamp) {
          is_dst = peek text == b'S';
          year = 2000 + year;
          day_offset = u32 (
              p.timestamp.sec
              + seconds_per_minute * p.timestamp.min
              + seconds_per_hour * p.timestamp.hour);
        };
      },
      true,
    )
    else (p, false)

unfoldable pub handle_timestamp : Meas → List ℕ → Meas × Bool
unfolding finish_timestamp
handle_timestamp p text = read_field text p λ year rest₁. read_field rest₁ p λ month rest₂.
    let p₂ = set_month p month in
    read_field rest₂ p₂ λ day rest₃.
      let p₃ = set_day p₂ day in
      read_field rest₃ p₃ λ hour rest₄.
        let p₄ = set_hour p₃ hour in
        read_field rest₄ p₄ λ min rest₅.
          let p₅ = set_min p₄ min in
          read_field rest₅ p₅ λ sec rest₆. finish_timestamp (set_sec p₅ sec) year rest₆

-- The other handlers differ in their reader and in what they store.
abbrev pub with_value : ℕ → Option (Option ℤ) → Meas → (ℤ → Meas) → Option (Meas × Bool)
with_value value_idx reading p store =
    if value_idx == 0
    then reading >>= elim [ none ↦ some (p, false) | some z ↦ some (store z, true) ]
    else some (p, false)

unfoldable pub handle_potential : Meas → ℕ → ℕ → List ℕ → Option (Meas × Bool)
handle_potential p phase value_idx text =
    with_value value_idx (parse_potential text) p
      λ z. record p { potential_mv = set p.potential_mv phase z }

unfoldable pub handle_current : Meas → ℕ → ℕ → List ℕ → Option (Meas × Bool)
handle_current p phase value_idx text =
    with_value value_idx (parse_current text) p
      λ z. record p { current_ma = set p.current_ma phase z }

abbrev pub flag_lx : Meas → ℕ → Bool
flag_lx p phase = if ltb 0 phase then true else p.is_lx_power_present

unfoldable pub handle_power_import : Meas → ℕ → ℕ → List ℕ → Option (Meas × Bool)
handle_power_import p phase value_idx text = with_value value_idx (parse_power text) p λ z.
    record p {
      is_lx_power_present = flag_lx p phase;
      power = set p.power phase (int32 (get_or p.power phase (pos 0) +ℤ z));
    }

unfoldable pub handle_power_export : Meas → ℕ → ℕ → List ℕ → Option (Meas × Bool)
handle_power_export p phase value_idx text = with_value value_idx (parse_power text) p λ z.
    record p {
      is_lx_power_present = flag_lx p phase;
      power = set p.power phase (int32 (get_or p.power phase (pos 0) -ℤ z));
    }

unfoldable pub handle_energy_import : Meas → ℕ → List ℕ → Option (Meas × Bool)
handle_energy_import p value_idx text =
    with_value value_idx (parse_energy text) p
      λ z. record p { import_wh = int64 (p.import_wh +ℤ z) }

unfoldable pub handle_energy_export : Meas → ℕ → List ℕ → Option (Meas × Bool)
handle_energy_export p value_idx text =
    with_value value_idx (parse_energy text) p
      λ z. record p { export_wh = int64 (p.export_wh +ℤ z) }

-- The call through `active_key->parser`.
unfoldable pub run_handler : Handler → Meas → ℕ → ℕ → List ℕ → Option (Meas × Bool)
run_handler timestamp p phase value_idx text = some (handle_timestamp p text)
run_handler potential p phase value_idx text = handle_potential p phase value_idx text
run_handler current p phase value_idx text = handle_current p phase value_idx text
run_handler power_import p phase value_idx text = handle_power_import p phase value_idx text
run_handler power_export p phase value_idx text = handle_power_export p phase value_idx text
run_handler energy_import p phase value_idx text = handle_energy_import p value_idx text
run_handler energy_export p phase value_idx text = handle_energy_export p value_idx text

unfoldable pub handle_frame_start : Meas → Meas
handle_frame_start p = record p {
  power = replicate 4 (pos 0);
  current_ma = replicate 3 (pos 0);
  potential_mv = replicate 3 (pos 0);
  import_wh = pos 0;
  export_wh = pos 0;
  is_lx_power_present = false;
  model = [];
}

-- The parser with its last frame filled in, which is also what the callback is given.
unfoldable pub handle_frame_end : Parser → Parser
handle_frame_end p =
    let m = p.meas in
    let power =
      if m.is_lx_power_present then m.power else set m.power 1 (get_or m.power 0 (pos 0)) in
    record p {
      meas = record m { power = power };
      last_frame = record {
        timestamp = m.timestamp;
        power_w = drop 1 power;
        potential_mv = m.potential_mv;
        current_ma = m.current_ma;
        import_wh = m.import_wh;
        export_wh = m.export_wh;
      };
    }

-- `strcmp(a, b) == 0`
unfoldable pub str_eq : List ℕ → List ℕ → Bool
str_eq [] [] = true
str_eq (a ∷ as₁) (b ∷ bs) = if a == b then str_eq as₁ bs else false
str_eq _ _ = false

unfoldable pub find_key : List Entry → List ℕ → Option Entry
unfolding str_eq
find_key [] token_str = none
find_key (e ∷ es) token_str = if str_eq token_str e.ibis_key then some e else find_key es token_str

unfoldable pub find_ibis_key : List ℕ → Option Entry
unfolding find_key
find_ibis_key token_str = find_key ibis_keys_parsers token_str

-- What a call of the parser gives: the new state, the returned flag, and the frame, if one was passed to
-- the callback.
abbrev pub Step : Type 0
Step = Parser × Bool × Option Values

abbrev pub quiet : Parser → Bool → Step
quiet p ok = (p, ok, none)

-- `if (p->active_key) ok = …; ++p->value_idx; return ok;`
unfoldable pub handle_value : Option Entry → Parser → List ℕ → Option Step
handle_value none p text = some (quiet (record p { value_idx = u8 (p.value_idx + 1) }) true)
handle_value (some e) p text = do
  (m, ok) ← run_handler e.parser p.meas e.phase p.value_idx text
  some (quiet (record p { meas = m; value_idx = u8 (p.value_idx + 1) }) ok)

-- The `switch` of `sm_parser_parse_token`; tokens that no case takes give `return false`.
unfoldable pub parse_token_in : State → Parser → Token → Option Step
parse_token_in _ p need_more_input = some (quiet p true)
parse_token_in parse_header p frame_header = some (
    quiet
      (record p {
        meas = record (handle_frame_start p.meas) { model = last_token_str p.tokenizer };
        state = parse_key;
      })
      true)
parse_token_in parse_header p _ = some (quiet p true)
parse_token_in parse_key p key = some (
    quiet
      (record p {
        active_key = find_ibis_key (last_token_str p.tokenizer);
        value_idx = 0;
        state = parse_values;
      })
      true)
parse_token_in parse_key p frame_footer = some (quiet (record p { state = parse_header }) true)
parse_token_in parse_key p _ = some (quiet p false)
parse_token_in parse_values p key =
    if p.value_idx == 0
    then some (quiet p false)
    else some (
        quiet (record p { active_key = find_ibis_key (last_token_str p.tokenizer); value_idx = 0 })
          true)
parse_token_in parse_values p value = handle_value p.active_key p (last_token_str p.tokenizer)
parse_token_in parse_values p frame_footer =
    if p.value_idx == 0
    then some (quiet p false)
    else let p' = handle_frame_end (record p { state = parse_header }) in
      some (p', true, some p'.last_frame)
parse_token_in parse_values p _ = some (quiet p false)

unfoldable pub parse_token : Parser → Token → Option Step
unfolding parse_token_in
parse_token p token = parse_token_in p.state p token

-- `if (!ok) p->state = STATE_PARSE_HEADER;`
abbrev pub back_on_error : Step → Step
back_on_error (p, true, frame) = (p, true, frame)
back_on_error (p, false, frame) = (record p { state = parse_header }, false, frame)

unfoldable pub parse_ch : Parser → ℕ → Option Step
unfolding parse_token
parse_ch p ch =
    let (t, token) = Tokenizer.parse_ch p.tokenizer ch in
    parse_token (record p { tokenizer = t }) token >>= λ s. some (back_on_error s)

-- The callback that `parse_str` is given: none is called where it is null.
unfoldable pub set_frame_callback :
    {S : Type 0} → Option (Parser → Values → S → S) → Parser → Values → S → S
set_frame_callback none p values s = s
set_frame_callback (some on_frame_parsed) p values s = on_frame_parsed p values s

-- The callback changes a state of its own, from the parser as it then is and the frame.
abbrev pub notify : {S : Type 0} → (Parser → Values → S → S) → Parser → Option Values → S → S
notify on_frame p none s = s
notify on_frame p (some v) s = on_frame p v s

-- `sm_parser_parse_str`, with the callback: the parser, the callback's state, and the returned flag.
unfoldable pub parse_str :
    {S : Type 0} → (Parser → Values → S → S) → Parser → S → List ℕ → Option (Parser × S × Bool)
parse_str on_frame p s [] = some (p, s, true)
parse_str on_frame p s (ch ∷ str) = parse_ch p ch >>= λ r.
    parse_str on_frame r.0 (notify on_frame r.0 r.2 s) str >>= λ q.
    some (q.0, q.1, if r.1 then q.2 else false)

unfoldable pub finalize : Parser → Option Step
finalize p = parse_ch p 0

-- `sm_parser_get_values` and `sm_parser_get_model`
unfoldable pub get_values : Parser → Values
get_values p = p.last_frame

unfoldable pub get_model : Parser → List ℕ
get_model p = p.meas.model

-- `memset` of the whole object, and `sm_tokenizer_init`.
unfoldable pub init : Parser
init = record {
  tokenizer = Tokenizer.init;
  active_key = none;
  last_frame = zero_values;
  value_idx = 0;
  state = parse_header;
  meas = record {
    model = [];
    timestamp = zero_datetime;
    power = replicate 4 (pos 0);
    potential_mv = replicate 3 (pos 0);
    current_ma = replicate 3 (pos 0);
    import_wh = pos 0;
    export_wh = pos 0;
    is_lx_power_present = false;
  };
}

unfoldable pub reset : Parser → Parser
reset p = record p { tokenizer = Tokenizer.reset; last_frame = zero_values; state = parse_header }
