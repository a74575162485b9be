-- ===== src/Meter/Parser/Footer.antt =====
-- The end of a telegram: the exclamation mark, a checksum or none, and the line end.
use smartmeterreader.Prelude.{
  ℕ, ◌≡◌, ◌≢◌, ◌∙◌, refl, true, false, List, [], ◌∷◌, ◌++◌, arith, ◌==◌, if◌then◌else◌, none, some,
  ◌⊎◌, inl, inr, set, get_or, drop, ap,
}
use smartmeterreader.Prelude.Int.{pos}
use smartmeterreader.Meter.Values.{Values}
use smartmeterreader.Meter.Tokenizer
use smartmeterreader.Meter.Tokenizer.{
  Tokenizer, Token, need_more_input, frame_header, key, value, frame_footer, error,
}
use smartmeterreader.Meter.Tokenizer.Bounds.{InBounds, state-InBounds, parse_ch-InBounds}
use smartmeterreader.Meter.Tokenizer.Entry.{
  AllPlain, IsBehind, IsEnded, parse_ch_bang, parse_ch_check, parse_ch_rest, parse_ch_return,
  parse_ch_newline, parse_ch_footer,
}
use smartmeterreader.Meter.Parser.{
  Parser, Meas, parse_header, parse_values, parse_ch, parse_token_in, parse_str, handle_frame_end,
  State,
}
use smartmeterreader.Meter.Parser.Words.{parse_ch_token, parse_str_step, parse_str_more}
use smartmeterreader.Meter.Parser.Lines.{IsReady}

-- The frame of a measurement: the power of the phases, or the total on phase 1 where no line gave a
-- power by phase.
abbrev pub frame_of : Meas → Values
frame_of m = record {
  timestamp = m.timestamp;
  power_w =
      drop 1 (if m.is_lx_power_present then m.power else set m.power 1 (get_or m.power 0 (pos 0)));
  potential_mv = m.potential_mv;
  current_ma = m.current_ma;
  import_wh = m.import_wh;
  export_wh = m.export_wh;
}

-- Between two telegrams.
pub record IsIdle (p : Parser) : Type 0 where
  pub awaits_header : p.state ≡ parse_header
  pub nothing_pending : p.tokenizer.idx ≡ 0
  pub in_bounds : InBounds p.tokenizer
  pub at_rest :
      (p.tokenizer.state ≡ Tokenizer.default) ⊎ (p.tokenizer.state ≡ Tokenizer.parse_end_of_frame)

-- A callback that keeps each frame with the model name that it finds.
abbrev pub log_frame : Parser → Values → List (List ℕ × Values) → List (List ℕ × Values)
log_frame p v s = s ++ (p.meas.model, v) ∷ []

abbrev pub Log : Type 0
Log = List (List ℕ × Values)

-- Between two telegrams every token but a header is passed over.
quiet_token :
    (st : State) (p : Parser) (token : Token)
    → st ≡ parse_header
    → token ≢ frame_header
    → parse_token_in st p token ≡ some (p, true, none)
unfolding parse_token_in
quiet_token st p need_more_input h n = refl
quiet_token st p frame_header h n = absurd (n refl)
quiet_token st p key h n = rw h refl
quiet_token st p value h n = rw h refl
quiet_token st p frame_footer h n = rw h refl
quiet_token st p error h n = rw h refl

quiet_ch :
    (p : Parser) (c : ℕ)
    → p.state ≡ parse_header
    → (Tokenizer.parse_ch p.tokenizer c).1 ≢ frame_header
    → parse_ch p c
      ≡ some (record p { tokenizer = (Tokenizer.parse_ch p.tokenizer c).0 }, true, none)
quiet_ch p c h n =
    let (t, token) = Tokenizer.parse_ch p.tokenizer c in
    parse_ch_token p (record p { tokenizer = t }) c t token none refl
      (quiet_token p.state (record p { tokenizer = t }) token h n)

parse_str_quiet :
    (p : Parser) (s : Log) (c : ℕ) (rest : List ℕ)
    → p.state ≡ parse_header
    → (Tokenizer.parse_ch p.tokenizer c).1 ≢ frame_header
    → parse_str log_frame p s (c ∷ rest)
      ≡ parse_str log_frame (record p { tokenizer = (Tokenizer.parse_ch p.tokenizer c).0 }) s rest
parse_str_quiet p s c rest h n =
    parse_str_step log_frame p (record p { tokenizer = (Tokenizer.parse_ch p.tokenizer c).0 }) s c
      rest none (quiet_ch p c h n)

parse_str_newline :
    (p : Parser) (s : Log)
    → p.state ≡ parse_header
    → IsEnded p.tokenizer
    → InBounds p.tokenizer
    → (t : Tokenizer) × (parse_str log_frame p s (b'\n' ∷ [])
        ≡ some (record p { tokenizer = t }, s, true))
      × IsEnded t
      × InBounds t
unfolding parse_str
parse_str_newline p s h e b =
    let (ended, quiet) = parse_ch_newline p.tokenizer e in
    (
      (Tokenizer.parse_ch p.tokenizer b'\n').0,
      parse_str_quiet p s b'\n' [] h quiet ∙ refl,
      ended,
      parse_ch-InBounds p.tokenizer b'\n' b,
    )

-- The rest of a checksum behind the character that ended the footer.
parse_str_rest :
    (check : List ℕ) (p : Parser) (s : Log)
    → p.state ≡ parse_header
    → IsBehind p.tokenizer
    → InBounds p.tokenizer
    → AllPlain check
    → (t : Tokenizer) × (parse_str log_frame p s (check ++ b'\r' ∷ b'\n' ∷ [])
        ≡ some (record p { tokenizer = t }, s, true))
      × IsEnded t
      × InBounds t
parse_str_rest [] p s h e b a =
    let (ended, quiet) = parse_ch_return p.tokenizer e in
    let t = (Tokenizer.parse_ch p.tokenizer b'\r').0 in
    let (t', line_end, ended', b') =
      parse_str_newline (record p { tokenizer = t }) s h ended
        (parse_ch-InBounds p.tokenizer b'\r' b) in
    (t', parse_str_quiet p s b'\r' (b'\n' ∷ []) h quiet ∙ line_end, ended', b')
parse_str_rest (c ∷ check) p s h e b a =
    let (behind, quiet) = parse_ch_rest p.tokenizer c e a.0 in
    let t = (Tokenizer.parse_ch p.tokenizer c).0 in
    let (t', more, ended', b') =
      parse_str_rest check (record p { tokenizer = t }) s h behind
        (parse_ch-InBounds p.tokenizer c b) a.1 in
    (t', parse_str_quiet p s c (check ++ b'\r' ∷ b'\n' ∷ []) h quiet ∙ more, ended', b')

-- The parser that a footer leaves.
closed_with : Parser → Tokenizer → Parser
closed_with p t = handle_frame_end (record p { tokenizer = t; state = parse_header })

parse_str_close :
    (p : Parser) (s : Log) (c : ℕ) (rest : List ℕ)
    → p.state ≡ parse_values
    → p.value_idx ≢ 0
    → (Tokenizer.parse_ch p.tokenizer c).1 ≡ frame_footer
    → parse_str log_frame p s (c ∷ rest)
      ≡ parse_str log_frame
          (closed_with p (Tokenizer.parse_ch p.tokenizer c).0)
          (s ++ (p.meas.model, frame_of p.meas) ∷ [])
          rest
unfolding handle_frame_end parse_token_in closed_with
parse_str_close p s c rest h n e =
    let later : (p.value_idx == 0) ≡ false = ground arith in
    let t = (Tokenizer.parse_ch p.tokenizer c).0 in
    let p₁ = closed_with p t in
    parse_str_step log_frame p p₁ s c rest (some p₁.last_frame)
      (parse_ch_token p p₁ c t frame_footer _ (ap (λ x. (t, x)) e) (rw (h, later)))

-- A parser between telegrams, with the frame of a measurement as its last one.
record HasEnded (meas : Meas) (p : Parser) : Type 0 where
  idle : IsIdle p
  frame : p.last_frame ≡ frame_of meas

closed_with-HasEnded :
    (p : Parser) (t t' : Tokenizer)
    → IsEnded t'
    → InBounds t'
    → HasEnded p.meas (record (closed_with p t) { tokenizer = t' })
unfolding closed_with handle_frame_end
closed_with-HasEnded p t t' e b = record {
  idle = record { awaits_header = refl; nothing_pending = e.1; in_bounds = b; at_rest = e.0 };
  frame = refl;
}

state-closed_with :
    (p : Parser) (t : Tokenizer)
    → ((closed_with p t).state ≡ parse_header) × ((closed_with p t).tokenizer ≡ t)
unfolding closed_with handle_frame_end
state-closed_with p t = (refl, refl)

parse_str_check :
    (check : List ℕ) (p : Parser) (s : Log)
    → p.state ≡ parse_values
    → p.value_idx ≢ 0
    → p.tokenizer.state ≡ Tokenizer.parse_end_of_frame
    → InBounds p.tokenizer
    → AllPlain check
    → (p' : Parser) × (parse_str log_frame p s (check ++ b'\r' ∷ b'\n' ∷ [])
        ≡ some (p', s ++ (p.meas.model, frame_of p.meas) ∷ [], true))
      × HasEnded p.meas p'
parse_str_check [] p s h n st b a =
    let t = (Tokenizer.parse_ch p.tokenizer b'\r').0 in
    let (ended, quiet) = parse_ch_return p.tokenizer (inl st) in
    let at = state-closed_with p t in
    let (t', line_end, ended', b') =
      parse_str_newline (closed_with p t) (s ++ (p.meas.model, frame_of p.meas) ∷ []) at.0
        (rw at.1 ended) (rw at.1 (parse_ch-InBounds p.tokenizer b'\r' b)) in
    (
      record (closed_with p t) { tokenizer = t' },
      parse_str_close p s b'\r' (b'\n' ∷ []) h n (parse_ch_footer p.tokenizer st) ∙ line_end,
      closed_with-HasEnded p t t' ended' b',
    )
parse_str_check (c ∷ check) p s h n st b a =
    let t = (Tokenizer.parse_ch p.tokenizer c).0 in
    let b₁ = parse_ch-InBounds p.tokenizer c b in
    let rest = check ++ b'\r' ∷ b'\n' ∷ [] in
    elim (parse_ch_check p.tokenizer c st a.0) [
      | inl (more, st₁) ↦
          let (p', checked, has_ended) =
            parse_str_check check (record p { tokenizer = t }) s h n st₁ b₁ a.1 in
          (p', parse_str_more log_frame p s c t rest (ap (λ x. (t, x)) more) ∙ checked, has_ended)
      | inr (footer, behind) ↦
          let at = state-closed_with p t in
          let (t', line_end, ended, b') =
            parse_str_rest check (closed_with p t) (s ++ (p.meas.model, frame_of p.meas) ∷ []) at.0
              (rw at.1 behind) (rw at.1 b₁) a.1 in
          (
            record (closed_with p t) { tokenizer = t' },
            parse_str_close p s c rest h n footer ∙ line_end,
            closed_with-HasEnded p t t' ended b',
          )
    ]

-- From the mark on: one frame, that of the measurement, whatever the checksum says.
pub parse_str_footer :
    (check : List ℕ) (p : Parser) (s : Log)
    → IsReady p
    → p.state ≡ parse_values
    → p.value_idx ≢ 0
    → AllPlain check
    → (p' : Parser) × (parse_str log_frame p s (b'!' ∷ (check ++ b'\r' ∷ b'\n' ∷ []))
        ≡ some (p', s ++ (p.meas.model, frame_of p.meas) ∷ [], true))
      × IsIdle p'
      × (p'.last_frame ≡ frame_of p.meas)
parse_str_footer check p s r h n a =
    let t = record (p.tokenizer) { state = Tokenizer.parse_end_of_frame } in
    let b = state-InBounds p.tokenizer Tokenizer.parse_end_of_frame r.in_bounds in
    let (p', checked, has_ended) =
      parse_str_check check (record p { tokenizer = t }) s h n refl b a in
    (
      p',
      parse_str_more log_frame p s b'!' t (check ++ b'\r' ∷ b'\n' ∷ [])
            (parse_ch_bang p.tokenizer r.tokenizer_default)
          ∙ checked,
      has_ended.idle,
      has_ended.frame,
    )
