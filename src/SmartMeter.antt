-- ===== src/SmartMeter.antt =====
-- SmartMeter.h and SmartMeter.cpp: the meter behind the serial line, around the telegram parser. In a
-- result, `none` is a call of the parser that never returns. The callbacks' arguments are left out.
pub mod Delivery
pub mod Connection
use smartmeterreader.Prelude.{
  ℕ, suc, ◌+◌, ◌*◌, Bool, true, false, leb, if◌then◌else◌, eq_bool, sub32, List, [], ◌∷◌, ◌++◌,
  Option, none, some, ◌>>=◌,
}
use smartmeterreader.Meter.Values.{Values}
use smartmeterreader.Meter.Parser
use smartmeterreader.Meter.Parser.{Parser, parse_str, get_model, get_values}

-- Calls of the two callbacks, the frame's with what `name()` answers during the call.
pub data Event : Type 0 where
  connection : Bool → Event
  frame : List ℕ → Values → Event

-- The fields around the parser. A callback that is not set is null. `frames` counts the frames, to tell
-- the readings of the clock apart, and `events` are the calls of the callbacks.
pub record Link : Type 0 where
  pub is_connected : Bool
  pub last_frame_time : ℕ
  pub has_frame_callback : Bool
  pub has_connected_callback : Bool
  pub frames : ℕ
  pub events : List Event

pub record SmartMeter : Type 0 where
  pub parser : Parser
  pub link : Link

-- What `_read` gives, `none` for `SM_READ_ERROR`, the clock when the n-th frame is handled, and the clock
-- in `check_timeout`.
pub record Env : Type 0 where
  pub reading : Option (List ℕ)
  pub frame_time : ℕ → ℕ
  pub t : ℕ

abbrev pub smart_meter_timeout_sec : ℕ
smart_meter_timeout_sec = 15

-- The constructor, on a global object.
unfoldable pub new : SmartMeter
new = record {
  parser = Parser.init;
  link = record {
    is_connected = false;
    last_frame_time = 0;
    has_frame_callback = false;
    has_connected_callback = false;
    frames = 0;
    events = [];
  };
}

unfoldable pub set_frame_callback : SmartMeter → Bool → SmartMeter
set_frame_callback m is_set = record m { link = record (m.link) { has_frame_callback = is_set } }

unfoldable pub set_connected_callback : SmartMeter → Bool → SmartMeter
set_connected_callback m is_set = record m {
  link = record (m.link) { has_connected_callback = is_set };
}

unfoldable pub begin : SmartMeter → SmartMeter
begin m = record m {
  parser = Parser.reset m.parser;
  link = record (m.link) { is_connected = false };
}

unfoldable pub set_connected : Link → Bool → Link
set_connected l b = if eq_bool l.is_connected b then l else record l {
  is_connected = b;
  events = l.events ++ (if l.has_connected_callback then connection b ∷ [] else []);
}

unfoldable pub emit_frame : Link → List ℕ → Values → Link
emit_frame l model values = record l {
  events = l.events ++ (if l.has_frame_callback then frame model values ∷ [] else []);
}

unfoldable pub handle_smart_meter_frame : Link → List ℕ → Values → ℕ → Link
handle_smart_meter_frame l model values now =
    emit_frame (set_connected (record l { last_frame_time = now; frames = suc l.frames }) true)
      model values

unfoldable pub check_timeout : Link → ℕ → Link
check_timeout l t =
    if l.is_connected
    then if leb (1000 * smart_meter_timeout_sec) (sub32 t l.last_frame_time)
      then set_connected l false
      else l
    else l

-- The parser's callback.
abbrev pub on_frame : (ℕ → ℕ) → Parser → Values → Link → Link
on_frame frame_time p values l =
    handle_smart_meter_frame l p.meas.model values (frame_time l.frames)

-- Up to `check_timeout`; the flag that the parser returns is only logged.
unfoldable pub read : SmartMeter → Option (List ℕ) → (ℕ → ℕ) → Option SmartMeter
read m none frame_time = some (record m { link = set_connected m.link false })
read m (some buf) frame_time = do
  (p, l, parse_ok) ← parse_str (on_frame frame_time) m.parser m.link buf
  some (record { parser = p; link = l })

unfoldable pub loop : SmartMeter → Env → Option SmartMeter
loop m env = do
  m' ← read m env.reading env.frame_time
  some (record m' { link = check_timeout m'.link env.t })

unfoldable pub name : SmartMeter → List ℕ
unfolding get_model
name m = get_model m.parser

unfoldable pub values : SmartMeter → Values
unfolding get_values
values m = get_values m.parser
