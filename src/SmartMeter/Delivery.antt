-- ===== src/SmartMeter/Delivery.antt =====
-- The frames that the callback is given: those of the text, however the serial line cuts it.
use smartmeterreader.Prelude.{
  ℕ, ◌≡◌, ◌∙◌, refl, sym, ap, arith, Bool, true, false, eq_bool, if◌then◌else◌, List, [], ◌∷◌, ◌++◌,
  append_assoc, append-nil, Option, none, some, ◌>>=◌, >>=-eq-some, Returns, suc, Returns->>=,
  Returns-map,
}
use smartmeterreader.Meter.Values.{Values}
use smartmeterreader.Meter.Parser.{Parser, Meas, parse_str}
use smartmeterreader.Meter.Parser.Callback.{image, parse_str-append, parse_str-map, after}
use smartmeterreader.Meter.Tokenizer.Entry.{doubled}
use smartmeterreader.Meter.Parser.Telegram.{
  Line, telegram, IsTelegram, Takes, started, parse_str-telegram,
}
use smartmeterreader.Meter.Parser.Footer.{log_frame, IsIdle, frame_of}
use smartmeterreader.SmartMeter.{
  SmartMeter, Link, Event, connection, frame, Env, loop, read, on_frame, handle_smart_meter_frame,
  set_connected, emit_frame, check_timeout,
}

abbrev pub Log : Type 0
Log = List (List ℕ × Values)

-- The frames among the events.
abbrev pub frames_of : List Event → Log
frames_of [] = []
frames_of (connection b ∷ es) = frames_of es
frames_of (frame n v ∷ es) = (n, v) ∷ frames_of es

-- Calls of `loop`, one after another, and the bytes that they read.
unfoldable pub run : SmartMeter → List Env → Option SmartMeter
run m [] = some m
run m (env ∷ envs) = loop m env >>= λ m'. run m' envs

abbrev pub reading_of : Option (List ℕ) → List ℕ
reading_of none = []
reading_of (some buf) = buf

abbrev pub bytes : List Env → List ℕ
bytes [] = []
bytes (env ∷ envs) = reading_of env.reading ++ bytes envs

replay : (ℕ → ℕ) → Link → Log → Link
replay ft l [] = l
replay ft l ((n, v) ∷ log) = replay ft (handle_smart_meter_frame l n v (ft l.frames)) log

replay-append :
    (ft : ℕ → ℕ) (l : Link) (log : Log) (model : List ℕ) (v : Values)
    → replay ft l (log ++ (model, v) ∷ [])
      ≡ handle_smart_meter_frame (replay ft l log) model v (ft (replay ft l log).frames)
unfolding replay
replay-append ft l [] model v = refl
replay-append ft l ((n, w) ∷ log) model v =
    replay-append ft (handle_smart_meter_frame l n w (ft l.frames)) log model v

-- The link has the callback, and these are the frames that it was given.
record Gave (frames : Log) (l : Link) : Type 0 where
  given : frames_of l.events ≡ frames
  callback : l.has_frame_callback ≡ true

frames_of-append : (es fs : List Event) → frames_of (es ++ fs) ≡ frames_of es ++ frames_of fs
frames_of-append [] fs = refl
frames_of-append (connection b ∷ es) fs = frames_of-append es fs
frames_of-append (frame n v ∷ es) fs = ap (◌∷◌ (n, v)) (frames_of-append es fs)

set_connected-Gave : (vs : Log) (l : Link) (b : Bool) → Gave vs l → Gave vs (set_connected l b)
unfolding set_connected
set_connected-Gave vs l b g = go (eq_bool l.is_connected b) l.has_connected_callback
  where
    told : (called : Bool) → frames_of (l.events ++ (if called then connection b ∷ [] else [])) ≡ vs
    told true =
        frames_of-append l.events (connection b ∷ []) ∙ append-nil (frames_of l.events) ∙ g.given
    told false = ap frames_of (append-nil l.events) ∙ g.given

    go :
        (same called : Bool)
        → Gave vs (
            if same then l else record l {
              is_connected = b;
              events = l.events ++ (if called then connection b ∷ [] else []);
            })
    go true called = g
    go false called = record { given = told called; callback = g.callback }

handle-Gave :
    (vs : Log) (l : Link) (n : List ℕ) (v : Values) (now : ℕ)
    → Gave vs l
    → Gave (vs ++ (n, v) ∷ []) (handle_smart_meter_frame l n v now)
unfolding handle_smart_meter_frame emit_frame
handle-Gave vs l n v now g =
    let l₁ = record l { last_frame_time = now; frames = suc l.frames } in
    let g₁ = set_connected-Gave vs l₁ true (record { given = g.given; callback = g.callback }) in
    record {
      given = rw g₁.callback (
          frames_of-append (set_connected l₁ true).events (frame n v ∷ [])
          ∙ ap (λ x. x ++ (n, v) ∷ []) g₁.given);
      callback = g₁.callback;
    }

replay-Gave :
    (ft : ℕ → ℕ) (l : Link) (log vs : Log) → Gave vs l → Gave (vs ++ log) (replay ft l log)
unfolding replay
replay-Gave ft l [] vs g = rw (append-nil vs) g
replay-Gave ft l ((n, v) ∷ log) vs g = rw (← append_assoc vs ((n, v) ∷ []) log) (
    replay-Gave ft (handle_smart_meter_frame l n v (ft l.frames)) log (vs ++ (n, v) ∷ [])
      (handle-Gave vs l n v (ft l.frames) g))

check_timeout-Gave : (vs : Log) (l : Link) (t : ℕ) → Gave vs l → Gave vs (check_timeout l t)
unfolding check_timeout
check_timeout-Gave vs l t g = ground (arith, set_connected-Gave vs l false g)

-- One reading, given what the parser makes of it with the log as its callback.
read-replay :
    (m : SmartMeter) (buf : List ℕ) (ft : ℕ → ℕ) (p : Parser) (log : Log) (ok : Bool)
    → parse_str log_frame m.parser [] buf ≡ some (p, log, ok)
    → read m (some buf) ft ≡ some (record { parser = p; link = replay ft m.link log })
unfolding read replay
read-replay m buf ft p log ok e =
    rw
      (parse_str-map log_frame (on_frame ft) (replay ft m.link) buf m.parser []
        (λ p v log. replay-append ft m.link log p.meas.model v))
      (rw e refl)

log_image :
    (o : Option (Parser × Log × Bool)) (s : Log) (p : Parser) (s' : Log) (ok : Bool)
    → (o >>= λ r. some (image (λ log. s ++ log) r)) ≡ some (p, s', ok)
    → (log : Log) × (o ≡ some (p, log, ok)) × (s' ≡ s ++ log)
log_image none s p s' ok h = cc
log_image (some (q, log, b)) s p s' ok h = (log, cc, cc)

-- The frames of a piece are added to those before it.
log_prefix :
    (buf : List ℕ) (p : Parser) (s : Log) (p' : Parser) (s' : Log) (ok : Bool)
    → parse_str log_frame p s buf ≡ some (p', s', ok)
    → (log : Log) × (parse_str log_frame p [] buf ≡ some (p', log, ok)) × (s' ≡ s ++ log)
log_prefix buf p s p' s' ok e =
    let same =
      parse_str-map log_frame log_frame (λ log. s ++ log) buf p []
        (λ p v log. sym (append_assoc s log ((p.meas.model, v) ∷ []))) in
    log_image (parse_str log_frame p [] buf) s p' s' ok (sym (rw (append-nil s) at same) ∙ e)

parsed_nothing :
    (p : Parser) (s : Log) (p' : Parser) (s' : Log) (ok : Bool)
    → parse_str log_frame p s [] ≡ some (p', s', ok)
    → (p ≡ p') × (s ≡ s')
unfolding parse_str
parsed_nothing p s p' s' ok e = (cc, cc)

-- A call of `loop` on a piece, or on a read error.
loop-Gave :
    (env : Env) (m : SmartMeter) (s : Log) (p : Parser) (s' : Log) (ok : Bool) (base : Log)
    → parse_str log_frame m.parser s (reading_of env.reading) ≡ some (p, s', ok)
    → Gave (base ++ s) m.link
    → Returns (λ m'. (m'.parser ≡ p) × Gave (base ++ s') m'.link) (loop m env)
unfolding loop read
loop-Gave env m s p s' ok base e g = go env.reading e
  where
    go :
        (reading : Option (List ℕ))
        → parse_str log_frame m.parser s (reading_of reading) ≡ some (p, s', ok)
        → Returns
            (λ m'. (m'.parser ≡ p) × Gave (base ++ s') m'.link)
            (read m reading env.frame_time >>= λ m'.
              some (record m' { link = check_timeout m'.link env.t }))
    go none e =
        let same = parsed_nothing m.parser s p s' ok e in
        (
          same.0,
          check_timeout-Gave _ _ env.t (set_connected-Gave _ m.link false (rw (sym same.1) g)),
        )
    go (some buf) e =
        let (log, one, all) = log_prefix buf m.parser s p s' ok e in
        let grown : base ++ s' ≡ (base ++ s) ++ log = rw all (sym (append_assoc base s log)) in
        rw (read-replay m buf env.frame_time p log ok one) (
          refl,
          check_timeout-Gave _ _ env.t
              (rw grown (replay-Gave env.frame_time m.link log (base ++ s) g)),
        )

flag_of_rest :
    (ok₁ : Bool) (o : Option (Parser × Log × Bool)) (p : Parser) (s' : Log) (ok : Bool)
    → (o >>= λ q. some (after ok₁ q)) ≡ some (p, s', ok)
    → (ok₂ : Bool) × (o ≡ some (p, s', ok₂))
flag_of_rest ok₁ none p s' ok h = cc
flag_of_rest ok₁ (some (q, t, b)) p s' ok h = (b, cc)

-- All readings: the parser ends as it does on the whole text, and the callback is given the same frames.
run-Gave :
    (envs : List Env) (m : SmartMeter) (s : Log) (p : Parser) (s' : Log) (ok : Bool) (base : Log)
    → parse_str log_frame m.parser s (bytes envs) ≡ some (p, s', ok)
    → Gave (base ++ s) m.link
    → Returns (λ m'. (m'.parser ≡ p) × Gave (base ++ s') m'.link) (run m envs)
unfolding run
run-Gave [] m s p s' ok base e g =
    let (same, grown) = parsed_nothing m.parser s p s' ok e in (same, rw (← grown) g)
run-Gave (env ∷ envs) m s p s' ok base e g =
    let both =
      sym (parse_str-append log_frame (reading_of env.reading) (bytes envs) m.parser s) ∙ e in
    let ((p₁, s₁, ok₁), first, rest) =
      >>=-eq-some (parse_str log_frame m.parser s (reading_of env.reading)) _ both in
    let (ok₂, second) = flag_of_rest ok₁ (parse_str log_frame p₁ s₁ (bytes envs)) p s' ok rest in
    Returns->>= (λ m₁. (m₁.parser ≡ p₁) × Gave (base ++ s₁) m₁.link)
      (λ m'. (m'.parser ≡ p) × Gave (base ++ s') m'.link) (loop m env) (λ m'. run m' envs)
      (loop-Gave env m s p₁ s₁ ok₁ base first g)
      (λ m₁ (same, g₁).
        run-Gave envs m₁ s₁ p s' ok₂ base
          (ap (λ q. parse_str log_frame q s₁ (bytes envs)) same ∙ second) g₁)

-- A telegram whose handlers all succeed, and which comes in pieces of any lengths, with read errors between
-- them and the clock as it may be: the calls of `loop` that read the pieces all return, and together they
-- give the frame callback one frame, that of the telegram, while the name is the telegram's header line with
-- each backslash doubled. The parser is between telegrams before and after it. The callback is set. The
-- header line has no slash, exclamation mark or 0, and at most 31 characters, backslashes counted twice; each
-- line has a key and 1 to 255 values, each of at most 31 characters; these and the checksum, if there is one,
-- have no blank, bracket, slash, exclamation mark or 0.
pub run-telegram :
    (model blanks : List ℕ) (es : List Line) (check : List ℕ) (m : SmartMeter) (meas : Meas)
    (envs : List Env)
    → bytes envs ≡ telegram model blanks es check
    → m.link.has_frame_callback ≡ true
    → IsIdle m.parser
    → IsTelegram model blanks es check
    → Takes (started m.parser.meas (doubled model)) es meas
    → Returns
        (λ m'.
          IsIdle m'.parser
          × (frames_of m'.link.events
              ≡ frames_of m.link.events ++ (doubled model, frame_of meas) ∷ []))
        (run m envs)
run-telegram model blanks es check m meas envs b c i is t =
    let (p, parsed, last, idle) =
      parse_str-telegram model blanks es check m.parser [] meas i is t in
    let base = frames_of m.link.events in
    let start : Gave (base ++ []) m.link = record { given = sym (append-nil base); callback = c } in
    let log = (doubled model, frame_of meas) ∷ [] in
    let got = run-Gave envs m [] p log true base (rw b parsed) start in
    Returns-map (run m envs) (λ m' (same, g). (rw same idle, g.given)) got
