-- ===== src/Logging.antt =====
-- util.h and util.cpp: log messages, on an output that takes bytes, and the printing of numbers and texts
-- into a buffer. Texts are without their closing 0 and hold no other. In a result, `none` is behaviour that
-- C++ leaves undefined: an argument of the wrong type, or memory outside a buffer.
pub mod Render
pub mod Hex
pub mod Digits
use Prim.Native.Nat.{◌/◌, ◌%◌}
use smartmeterreader.Prelude.{
  ℕ, zero, suc, ◌+◌, ◌-◌, ◌*◌, ◌<◌, Bool, true, false, not, ◌||◌, ltb, leb, ◌==◌, if◌then◌else◌, u8,
  List, [], ◌∷◌, ◌++◌, length, take, get_or, Option, none, some, ◌>>=◌, ◌&&◌,
}
use smartmeterreader.Prelude.Int.{ℤ, pos, negsuc}
use smartmeterreader.Prelude.Text.{codes}
use smartmeterreader.Meter.Values.{Values}

pub data LogLevel : Type 0 where
  log_debug log_info log_warn log_error : LogLevel

abbrev pub rank : LogLevel → ℕ
rank log_debug = 0
rank log_info = 1
rank log_warn = 2
rank log_error = 3

pub data LogMode : Type 0 where
  log_mode_disabled log_mode_serial log_mode_network : LogMode

abbrev pub is_disabled : LogMode → Bool
is_disabled log_mode_disabled = true
is_disabled log_mode_serial = false
is_disabled log_mode_network = false

-- The settings of Config.h.
pub record Config : Type 0 where
  pub enable_logging : LogMode
  pub log_level : LogLevel

abbrev pub config : Config
config = record { enable_logging = log_mode_serial; log_level = log_info }

-- The objects that `s_output` points to, and what each has been given.
pub data Output : Type 0 where
  serial network_log : Output

pub record Outputs : Type 0 where
  pub output : Output
  pub to_serial : List ℕ
  pub to_network_log : List ℕ

unfoldable pub log_set_output : Outputs → Output → Outputs
log_set_output outputs output = record outputs { output = output }

unfoldable pub write : Outputs → List ℕ → Outputs
write outputs text = elim outputs.output [
  | serial ↦ record outputs { to_serial = outputs.to_serial ++ text }
  | network_log ↦ record outputs { to_network_log = outputs.to_network_log ++ text }
]

-- The variable arguments.
pub data Arg : Type 0 where
  long int : ℤ → Arg
  str : List ℕ → Arg

abbrev pub prefix_of : LogLevel → List ℕ
prefix_of log_debug = codes "[D]"
prefix_of log_info = codes "   "
prefix_of log_warn = codes "[W]"
prefix_of log_error = codes "[E]"

unfoldable pub to_hex : ℕ → ℕ
to_hex nibble = if ltb nibble 10 then b'0' + nibble else b'A' + nibble - 10

-- What is written; the length is a `uint8_t`.
unfoldable pub write_P : List ℕ → ℕ → List ℕ
write_P begin max_length = take (u8 max_length) begin

-- The text that `log_buf` makes of the bytes, in a buffer for 300 characters.
unfoldable pub hex_loop : ℕ → List ℕ → List ℕ
hex_loop w_idx [] = []
hex_loop w_idx (b ∷ buf) =
    let rest = hex_loop (w_idx + 3) buf in
    if ltb w_idx 300 then to_hex (b / 16) ∷ to_hex (b % 16) ∷ b' ' ∷ rest else []

-- Where the loop of `vlog` stands: in the text, behind a `%`, or behind the `l` of a `%ld`.
pub data Place : Type 0 where
  in_text in_escape in_long : Place

-- `print` is the text that `Print::print` makes of a number.
module _ (print : ℤ → List ℕ) where
  -- A conversion: what is written, and the arguments that are left. Another letter writes nothing.
  unfoldable pub convert : ℕ → List Arg → Option (List ℕ × List Arg)
  convert ch args =
      if ch == b'l'
      then elim args [ (long z ∷ rest) ↦ some (print z, rest) | _ ↦ none ]
      else if ch == b'd'
      then elim args [ (int z ∷ rest) ↦ some (print z, rest) | _ ↦ none ]
      else if ch == b's'
      then elim args [ (str s ∷ rest) ↦ some (write_P s 255, rest) | _ ↦ none ]
      else if ch == b'%'
      then some (b'%' ∷ [], args)
      else some ([], args)

  -- The loop, with the text from `begin_p` on. Where the template ends behind an `l`, the loop would go on
  -- behind it.
  unfoldable pub vlog_loop : Place → List ℕ → List ℕ → List Arg → Option (List ℕ)
  vlog_loop in_long begin [] args = none
  vlog_loop _ begin [] args = some (write_P begin (length begin))
  vlog_loop in_text begin (ch ∷ tpl) args =
      let escape = vlog_loop in_escape (begin ++ ch ∷ []) tpl args in
      let text = vlog_loop in_text (begin ++ ch ∷ []) tpl args in
      if ch == b'%' then (escape >>= λ out. some (write_P begin (length begin) ++ out)) else text
  vlog_loop in_escape begin (ch ∷ tpl) args = convert ch args >>= λ r.
      vlog_loop (if ch == b'l' then in_long else in_text) [] tpl r.1 >>= λ out. some (r.0 ++ out)
  vlog_loop in_long begin (ch ∷ tpl) args = vlog_loop in_text [] tpl args

  unfoldable pub vlog : LogLevel → List ℕ → List Arg → Option (List ℕ)
  vlog level tpl args = vlog_loop in_text [] tpl args >>= λ out.
      some (write_P (prefix_of level) 3 ++ b' ' ∷ out ++ 13 ∷ 10 ∷ [])

  unfoldable pub log : Config → LogLevel → List ℕ → List Arg → Option (List ℕ)
  log settings level tpl args =
      if is_disabled settings.enable_logging || ltb (rank level) (rank settings.log_level)
      then some []
      else vlog level tpl args

  -- Calls of `log`, one after another.
  unfoldable pub log_all : Config → LogLevel → List (List ℕ × List Arg) → Option (List ℕ)
  log_all settings level [] = some []
  log_all settings level ((tpl, args) ∷ calls) = log settings level tpl args >>= λ out.
      log_all settings level calls >>= λ rest. some (out ++ rest)

  -- The module argument is left out of the call.
  unfoldable pub log_buf : Config → LogLevel → List ℕ → List ℕ → Option (List ℕ)
  log_buf settings level name buf =
      log settings level (codes "%s: count: %d, frame: %s")
        (int (pos (length buf)) ∷ str (hex_loop 0 buf) ∷ [])

  abbrev three : List ℤ → List Arg
  three values =
      long (get_or values 0 (pos 0))
      ∷ long (get_or values 1 (pos 0))
      ∷ long (get_or values 2 (pos 0))
      ∷ []

  unfoldable pub log_meter_values : Config → LogLevel → List ℕ → Values → Option (List ℕ)
  log_meter_values settings level name v = log_all settings level (
      (codes "%s: received frame:", str name ∷ [])
      ∷ (codes "  power:     %ld %ld %ld (W)", three v.power_w)
      ∷ (codes "  current:   %ld %ld %ld (mA)", three v.current_ma)
      ∷ (codes "  potential: %ld %ld %ld (mV)", three v.potential_mv)
      ∷ (codes "  energy:    %ld %ld (Wh)", long v.import_wh ∷ long v.export_wh ∷ [])
      ∷ [])

-- `end - *buf` is `room`, and the result is the text in front of the 0 that closes it. The lengths are of
-- `uint8_t`.
unfoldable pub cut : ℕ → List ℕ → Option (List ℕ)
cut room text =
    let max_len = u8 room in
    let len = if leb max_len (u8 (length text)) then u8 (max_len + 255) else u8 (length text) in
    if leb len (length text) && ltb len room then some (take len text) else none

unfoldable pub concat_str : ℕ → List ℕ → Option (List ℕ)
unfolding cut
concat_str room text = cut room text

-- `c + '0'` for the last digit of the value; the negation of -32768 is again -32768, whose digits are
-- negative.
abbrev pub digit : Bool → ℕ → ℕ
digit overflows value = if overflows then b'0' - value % 10 else b'0' + value % 10

-- The loops of `print_number`, which put the digits in front of `text`, on the magnitude of the value. The
-- second one ends with the digits of an `int16_t`, of which there are five.
unfoldable pub decimals : Bool → ℕ → ℕ → List ℕ → ℕ × List ℕ
decimals o zero value text = (value, text)
decimals o (suc prec) value text = decimals o prec (value / 10) (digit o value ∷ text)

unfoldable pub digits : Bool → ℕ → ℕ → List ℕ → List ℕ
digits o zero value text = text
digits o (suc fuel) value text =
    let rest = digits o fuel (value / 10) (digit o value ∷ text) in
    if value / 10 == 0 then digit o value ∷ text else rest

abbrev pub with_point : ℕ → List ℕ → List ℕ
with_point zero text = text
with_point (suc prec) text = b'.' ∷ text

-- `tmp` has 34 bytes.
abbrev pub cut_number : ℕ → List ℕ → Option (List ℕ)
cut_number room printed = if leb (length printed) 34 then cut room printed else none

unfoldable pub print_magnitude : Bool → ℕ → ℕ → List ℕ
print_magnitude o magnitude prec =
    let (whole, text) = decimals o prec magnitude [] in digits o 5 whole (with_point prec text)

unfoldable pub print_number : ℕ → ℤ → ℕ → Option (List ℕ)
print_number room (pos n) prec = cut_number room (print_magnitude false n prec)
print_number room (negsuc n) prec =
    cut_number room (b'-' ∷ print_magnitude (n == 32767) (suc n) prec)
