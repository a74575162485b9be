-- ===== src/Meter/Parser/Telegram.antt =====
-- Whole telegrams: each one gives one frame, with the measurement that its lines make up.
use smartmeterreader.Meter.Parser.Footer.{frame_of, IsIdle, log_frame, Log, parse_str_footer}
use smartmeterreader.Prelude.{
  ℕ, ◌≤◌, ◌≡◌, ◌≢◌, ◌∙◌, refl, sym, ap, Bool, true, false, List, [], ◌∷◌, ◌++◌, length, arith,
  Option, none, some, ◌⊎◌, inl, inr, replicate, suc,
}
use smartmeterreader.Prelude.Int.{pos}
use smartmeterreader.Meter.Tokenizer
use smartmeterreader.Meter.Tokenizer.{
  Tokenizer, Token, need_more_input, frame_header, key, value, frame_footer, last_token_str, accept,
  push_ch, is_blank, c_str,
}
use smartmeterreader.Meter.Tokenizer.Bounds.{InBounds, accept-InBounds, state-InBounds}
use smartmeterreader.Meter.Tokenizer.Entry.{
  push_all, AllHeader, parse_ch_slash, parse_ch_slash_again, parse_ch_header_end, state-push_all,
  push_all-InBounds, last_token_str-push_all, doubled, c_str-doubled, AllPlain,
}
use smartmeterreader.Meter.Parser.{
  Parser, Meas, Entry, parse_header, parse_key, parse_values, parse_token_in, parse_str,
  handle_frame_start, Handler, timestamp, potential, run_handler, handle_timestamp,
  handle_potential, handle_current, handle_power_import, handle_power_export, handle_energy_import,
  handle_energy_export, find_ibis_key,
}
use smartmeterreader.Meter.Parser.Words.{
  parse_ch_token, parse_str_step, parse_str_more, parse_str_header, AllBlank, parse_str_blanks,
}
use smartmeterreader.Meter.Parser.Lines.{
  IsReady, IsWord, take_value, TakesValues, AreWords, values, parse_str-line,
}

-- A line of a telegram: its key, its first value, and the values behind that.
abbrev pub Line : Type 0
Line = List ℕ × List ℕ × List (List ℕ)

-- The lines, each with its values in brackets, in front of a text.
abbrev pub lines : List Line → List ℕ → List ℕ
lines [] rest = rest
lines ((k, v, vs) ∷ es) rest = k ++ b'(' ∷ (v ++ b')' ∷ values vs (b'\r' ∷ b'\n' ∷ lines es rest))

-- The header line, blank lines or none, the lines, and the footer with a checksum or none.
abbrev pub telegram : List ℕ → List ℕ → List Line → List ℕ → List ℕ
telegram model blanks es check =
    b'/' ∷ (model ++ b'\r' ∷ b'\n' ∷ (blanks ++ lines es (b'!' ∷ (check ++ b'\r' ∷ b'\n' ∷ []))))

abbrev pub IsLine : Line → Type 0
IsLine (k, v, vs) = IsWord k × (k ≢ []) × AreWords (v ∷ vs) × (length (v ∷ vs) ≤ 255)

abbrev pub AreLines : List Line → Type 0
AreLines [] = Unit {0}
AreLines (line ∷ es) = IsLine line × AreLines es

-- A telegram's text: a model that fits with its backslashes doubled, blanks, one line or more, each of a key
-- and 1 to 255 values, all words, and a checksum of any plain characters.
pub record IsTelegram (model blanks : List ℕ) (es : List Line) (check : List ℕ) : Type 0 where
  pub model_chars : AllHeader model
  pub model_fits : length (doubled model) ≤ 31
  pub all_blank : AllBlank blanks
  pub are_lines : AreLines es
  pub some_line : es ≢ []
  pub check_chars : AllPlain check

-- The handlers of the lines all succeed, and lead from one measurement to the other.
abbrev pub Takes : Meas → List Line → Meas → Type 0
Takes m [] m' = m ≡ m'
Takes m ((k, v, vs) ∷ es) m' =
    (m₁ : Meas) × TakesValues (find_ibis_key k) 0 m (v ∷ vs) m₁ × Takes m₁ es m'

parse_str-lines :
    (es : List Line) (rest : List ℕ) (p : Parser) (s : Log) (m' : Meas)
    → IsReady p
    → AreLines es
    → Takes p.meas es m'
    → (p.state ≡ parse_values) ⊎ (es ≢ [])
    → (p' : Parser) × (parse_str log_frame p s (lines es rest) ≡ parse_str log_frame p' s rest)
      × IsReady p'
      × (p'.meas ≡ m')
      × (p'.state ≡ parse_values)
parse_str-lines [] rest p s m' r w t (inl st) = (p, refl, r, t, st)
parse_str-lines [] rest p s m' r w t (inr ne) = absurd (ne refl)
parse_str-lines (([], v, vs) ∷ es) rest p s m' r w t n = absurd (w.0.1 refl)
parse_str-lines ((c ∷ k, v, vs) ∷ es) rest p s m' r (w, ws) (m₁, h, t) n =
    let (p₁, step, r₁, same, st) =
      parse_str-line log_frame c k v vs (lines es rest) p s m₁ r w.0 w.2 w.3 h in
    let (p₂, more, r₂, same₂, st₂) = parse_str-lines es rest p₁ s m' r₁ ws (rw same t) (inl st) in
    (p₂, step ∙ more, r₂, same₂, st₂)

parse_str_slash :
    (rest : List ℕ) (p : Parser) (s : Log)
    → IsIdle p
    → (t : Tokenizer) × (parse_str log_frame p s (b'/' ∷ rest)
        ≡ parse_str log_frame (record p { tokenizer = t }) s rest)
      × (t.state ≡ Tokenizer.parse_frame_header)
      × (t.idx ≡ 0)
      × InBounds t
parse_str_slash rest p s i = go i.at_rest
  where
    header : Tokenizer
    header = record (p.tokenizer) { state = Tokenizer.parse_frame_header }

    bounds : InBounds header
    bounds = state-InBounds p.tokenizer Tokenizer.parse_frame_header i.in_bounds

    go :
        (p.tokenizer.state ≡ Tokenizer.default) ⊎ (p.tokenizer.state ≡ Tokenizer.parse_end_of_frame)
        → (t : Tokenizer) × (parse_str log_frame p s (b'/' ∷ rest)
            ≡ parse_str log_frame (record p { tokenizer = t }) s rest)
          × (t.state ≡ Tokenizer.parse_frame_header)
          × (t.idx ≡ 0)
          × InBounds t
    go (inl d) = (
      header,
      parse_str_more log_frame p s b'/' header rest (parse_ch_slash p.tokenizer d),
      refl,
      i.nothing_pending,
      bounds,
    )
    go (inr d) = (
      accept header frame_footer,
      parse_str_step log_frame p (record p { tokenizer = accept header frame_footer }) s b'/' rest
          none
          (parse_ch_token p _ b'/' _ frame_footer none (parse_ch_slash_again p.tokenizer d)
            (rw i.awaits_header (unfold parse_token_in in refl))),
      unfold accept in refl,
      unfold accept in refl,
      accept-InBounds header frame_footer bounds,
    )

-- The measurement that a header line starts with: all is zero but the time, which is kept.
abbrev pub started : Meas → List ℕ → Meas
started m model = record {
  model = model;
  timestamp = m.timestamp;
  power = replicate 4 (pos 0);
  potential_mv = replicate 3 (pos 0);
  current_ma = replicate 3 (pos 0);
  import_wh = pos 0;
  export_wh = pos 0;
  is_lx_power_present = false;
}

parse_str_model :
    (model blanks rest : List ℕ) (p : Parser) (s : Log)
    → p.state ≡ parse_header
    → p.tokenizer.state ≡ Tokenizer.parse_frame_header
    → p.tokenizer.idx ≡ 0
    → InBounds p.tokenizer
    → AllHeader model
    → length (doubled model) ≤ 31
    → AllBlank blanks
    → (p' : Parser) × (parse_str log_frame p s (model ++ b'\r' ∷ b'\n' ∷ (blanks ++ rest))
        ≡ parse_str log_frame p' s rest)
      × IsReady p'
      × (p'.meas ≡ started p.meas (doubled model))
parse_str_model model blanks rest p s h st z b a l bl =
    let name = doubled model in
    let t = push_all p.tokenizer name in
    let t' = accept (record t { state = Tokenizer.default }) frame_header in
    let text =
      last_token_str-push_all p.tokenizer Tokenizer.default name frame_header b z l
        (c_str-doubled model a) in
    let p' = record p { tokenizer = t'; meas = started p.meas name; state = parse_key } in
    (
      p',
      parse_str_header log_frame model (b'\r' ∷ b'\n' ∷ (blanks ++ rest)) p s st a
          ∙ parse_str_step log_frame (record p { tokenizer = t }) p' s b'\r'
              (b'\n' ∷ (blanks ++ rest)) none
              (parse_ch_token (record p { tokenizer = t }) p' b'\r' t' frame_header none
                (parse_ch_header_end t (state-push_all p.tokenizer name ∙ st))
                (rw h (unfold parse_token_in handle_frame_start in rw text)))
          ∙ parse_str_blanks log_frame (b'\n' ∷ blanks) rest p' s (unfold accept in refl)
              (refl, bl),
      record {
        tokenizer_default = unfold accept in refl;
        nothing_pending = unfold accept in refl;
        in_bounds =
            accept-InBounds _ frame_header
              (state-InBounds t Tokenizer.default (push_all-InBounds p.tokenizer name b));
        takes_key = inl refl;
      },
      refl,
    )

run_handler-model :
    (h : Handler) (m : Meas) (phase idx : ℕ) (text : List ℕ) {m' : Meas} {ok : Bool}
    → run_handler h m phase idx text ≡ some (m', ok)
    → m'.model ≡ m.model
unfolding run_handler handle_timestamp handle_potential handle_current handle_power_import
    handle_power_export handle_energy_import handle_energy_export
run_handler-model timestamp m phase idx text e = ground arith
run_handler-model potential m phase idx text e = ground arith
run_handler-model _ m phase idx text e = ground arith

take_value-model :
    (o : Option Entry) (i : ℕ) (m : Meas) (v : List ℕ) {m' : Meas} {ok : Bool}
    → take_value o i m v ≡ some (m', ok)
    → m'.model ≡ m.model
take_value-model none i m v e = ground arith
take_value-model (some x) i m v e = run_handler-model x.parser m x.phase i v e

TakesValues-model :
    (vs : List (List ℕ)) (o : Option Entry) (i : ℕ) (m m' : Meas)
    → TakesValues o i m vs m'
    → m'.model ≡ m.model
TakesValues-model [] o i m m' t = ap (λ (x : Meas). x.model) (sym t)
TakesValues-model (v ∷ vs) o i m m' (m₁, e, t) =
    TakesValues-model vs o (suc i) m₁ m' t ∙ take_value-model o i m v e

Takes-model : (es : List Line) (m m' : Meas) → Takes m es m' → m'.model ≡ m.model
Takes-model [] m m' t = ap (λ (x : Meas). x.model) (sym t)
Takes-model ((k, v, vs) ∷ es) m m' (m₁, e, t) =
    Takes-model es m₁ m' t ∙ TakesValues-model (v ∷ vs) (find_ibis_key k) 0 m m₁ e

value_idx-IsReady : (p : Parser) → IsReady p → p.state ≡ parse_values → p.value_idx ≢ 0
value_idx-IsReady p r st = elim (r.takes_key) [ inl e ↦ absurd cc | inr e ↦ e.1 ]

-- From a parser between telegrams, a telegram whose handlers all succeed is parsed with no error. It is a
-- header line, blanks or none, one line or more, and an exclamation mark with a checksum or none. The header
-- line has no slash, exclamation mark or 0, and at most 31 characters, backslashes counted twice. Each line is
-- a key and 1 to 255 values in brackets, each of at most 31 characters, and these and the checksum have no
-- blank, bracket, slash, exclamation mark or 0. The callback is called once, with the frame of the measurement
-- that the handlers make, starting from zero values but for the time, and with the header line, each
-- backslash doubled, as the name; the parser keeps that frame, and is then between telegrams again. The
-- checksum is not compared with anything, and none is an error.
pub parse_str-telegram :
    (model blanks : List ℕ) (es : List Line) (check : List ℕ) (p : Parser) (s : Log) (m' : Meas)
    → IsIdle p
    → IsTelegram model blanks es check
    → Takes (started p.meas (doubled model)) es m'
    → (p' : Parser) × (parse_str log_frame p s (telegram model blanks es check)
        ≡ some (p', s ++ (doubled model, frame_of m') ∷ [], true))
      × (p'.last_frame ≡ frame_of m')
      × IsIdle p'
parse_str-telegram model blanks es check p s m' i is t =
    let name = doubled model in
    let ending = b'!' ∷ (check ++ b'\r' ∷ b'\n' ∷ []) in
    let (t₁, slash, st, z, b) =
      parse_str_slash (model ++ b'\r' ∷ b'\n' ∷ (blanks ++ lines es ending)) p s i in
    let (p₂, header, r, same) =
      parse_str_model model blanks (lines es ending) (record p { tokenizer = t₁ }) s i.awaits_header
        st z b is.model_chars is.model_fits is.all_blank in
    let (p₃, body, r', same', st') =
      parse_str-lines es ending p₂ s m' r is.are_lines (rw same t) (inr is.some_line) in
    let (p₄, footer, i', last) =
      parse_str_footer check p₃ s r' st' (value_idx-IsReady p₃ r' st') is.check_chars in
    let named : m'.model ≡ name = Takes-model es (started p.meas name) m' t in
    let footer' = rw (same', named) at footer in
    (p₄, slash ∙ header ∙ body ∙ footer', last ∙ ap frame_of same', i')
