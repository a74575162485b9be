-- ===== src/Meter/Parser/Lines.antt =====
-- The parser on the lines of a telegram.
use smartmeterreader.Prelude.{
  ℕ, ◌≤◌, ◌≡◌, ◌≢◌, ◌∙◌, refl, Bool, true, false, List, [], ◌∷◌, ◌++◌, length, arith, ◌==◌, Option,
  none, some, ◌⊎◌, inl, inr, suc, ◌+◌, ◌%◌, ap, ◌<◌,
}
use smartmeterreader.Meter.Values.{Values}
use smartmeterreader.Meter.Tokenizer
use smartmeterreader.Meter.Tokenizer.{
  Tokenizer, Token, need_more_input, frame_header, key, value, frame_footer, last_token_str, accept,
  push_ch, is_blank, c_str,
}
use smartmeterreader.Meter.Tokenizer.Bounds.{
  InBounds, push_ch_state, state-InBounds, accept-InBounds,
}
use smartmeterreader.Meter.Tokenizer.Entry.{
  push_all, AllPlain, parse_ch_first, state-push_all, last_token_str-push_all, parse_ch_open,
  parse_ch_close, c_str_plain, push_all-InBounds, parse_ch_open_again,
}
use smartmeterreader.Meter.Parser.{
  Parser, Meas, Entry, parse_key, parse_values, parse_token_in, parse_str, find_ibis_key,
  run_handler, handle_value,
}
use smartmeterreader.Meter.Parser.Words.{
  parse_ch_token, parse_str_step, parse_str_more, parse_str_word, parse_str_blanks,
}

-- Where the next key may stand: no text is pending, and a frame is under way.
pub record IsReady (p : Parser) : Type 0 where
  pub tokenizer_default : p.tokenizer.state ≡ Tokenizer.default
  pub nothing_pending : p.tokenizer.idx ≡ 0
  pub in_bounds : InBounds p.tokenizer
  pub takes_key : (p.state ≡ parse_key) ⊎ ((p.state ≡ parse_values) × (p.value_idx ≢ 0))

-- What the value with index `i` of a line does to the measurement: the handler of the key runs, if there
-- is one.
abbrev pub take_value : Option Entry → ℕ → Meas → List ℕ → Option (Meas × Bool)
take_value none i m v = some (m, true)
take_value (some e) i m v = run_handler e.parser m e.phase i v

-- The handler of a line takes all of its values, from index `i` on, and leads from one measurement to the
-- other.
abbrev pub TakesValues : Option Entry → ℕ → Meas → List (List ℕ) → Meas → Type 0
TakesValues o i m [] m' = m ≡ m'
TakesValues o i m (v ∷ vs) m' =
    (m₁ : Meas) × (take_value o i m v ≡ some (m₁, true)) × TakesValues o (suc i) m₁ vs m'

-- A key or a value as it may stand in a telegram.
pub record IsWord (w : List ℕ) : Type 0 where
  pub plain : AllPlain w
  pub fits : length w ≤ 31

abbrev pub AreWords : List (List ℕ) → Type 0
AreWords [] = Unit {0}
AreWords (v ∷ vs) = IsWord v × AreWords vs

-- Values in their brackets, in front of a text.
abbrev pub values : List (List ℕ) → List ℕ → List ℕ
values [] rest = rest
values (v ∷ vs) rest = b'(' ∷ (v ++ b')' ∷ values vs rest)

key_tokenizer : Tokenizer → List ℕ → Tokenizer
key_tokenizer t k =
    accept
      (record (push_all (record t { state = Tokenizer.parse_key }) k) {
        state = Tokenizer.parse_value;
      })
      key

value_tokenizer : Tokenizer → List ℕ → Tokenizer
value_tokenizer t v = accept (record (push_all t v) { state = Tokenizer.default }) value

key_tokenizer-InBounds : (t : Tokenizer) (k : List ℕ) → InBounds t → InBounds (key_tokenizer t k)
unfolding key_tokenizer
key_tokenizer-InBounds t k b = accept-InBounds _ key (
    state-InBounds _ Tokenizer.parse_value
      (push_all-InBounds _ k (state-InBounds t Tokenizer.parse_key b)))

value_tokenizer-InBounds :
    (t : Tokenizer) (v : List ℕ) → InBounds t → InBounds (value_tokenizer t v)
unfolding value_tokenizer
value_tokenizer-InBounds t v b =
    accept-InBounds _ value (state-InBounds _ Tokenizer.default (push_all-InBounds t v b))

key_tokenizer_state :
    (t : Tokenizer) (k : List ℕ)
    → ((key_tokenizer t k).state ≡ Tokenizer.parse_value) × ((key_tokenizer t k).idx ≡ 0)
unfolding key_tokenizer accept
key_tokenizer_state t k = (refl, refl)

value_tokenizer_state :
    (t : Tokenizer) (v : List ℕ)
    → ((value_tokenizer t v).state ≡ Tokenizer.default) × ((value_tokenizer t v).idx ≡ 0)
unfolding value_tokenizer accept
value_tokenizer_state t v = (refl, refl)

-- Within a line: its handler, the index of the next value, and the measurement so far.
in_line : Parser → Tokenizer → Option Entry → ℕ → Meas → Parser
in_line p t o i m = record p {
  tokenizer = t;
  active_key = o;
  value_idx = i;
  state = parse_values;
  meas = m;
}

at_key : Parser → Tokenizer → List ℕ → Parser
unfolding in_line
at_key p t k = in_line p t (find_ibis_key k) 0 p.meas

key_token :
    (p : Parser) (t : Tokenizer) (k : List ℕ)
    → (p.state ≡ parse_key) ⊎ ((p.state ≡ parse_values) × (p.value_idx ≢ 0))
    → last_token_str t ≡ k
    → parse_token_in p.state (record p { tokenizer = t }) key ≡ some (at_key p t k, true, none)
unfolding parse_token_in at_key in_line
key_token p t k (inl s) e = rw (s, e)
key_token p t k (inr (s, n)) e =
    let later : (p.value_idx == 0) ≡ false = ground arith in rw (s, e, later)

handle_value-take_value :
    (o : Option Entry) (p : Parser) (i : ℕ) (v : List ℕ) {m : Meas}
    → i < 255
    → p.value_idx ≡ i
    → take_value o i p.meas v ≡ some (m, true)
    → handle_value o p v ≡ some (record p { meas = m; value_idx = suc i }, true, none)
unfolding handle_value
handle_value-take_value none p i v l z h =
    let next : (i + 1) % 256 ≡ suc i = omega arith in rw (z, next) (ground arith)
handle_value-take_value (some e) p i v l z h =
    let next : (i + 1) % 256 ≡ suc i = omega arith in rw (z, h, next) refl

value_token :
    (p : Parser) (t t' : Tokenizer) (o : Option Entry) (i : ℕ) (m : Meas) (v : List ℕ) {m₁ : Meas}
    → i < 255
    → last_token_str t' ≡ v
    → take_value o i m v ≡ some (m₁, true)
    → parse_token_in parse_values (record (in_line p t o i m) { tokenizer = t' }) value
      ≡ some (in_line p t' o (suc i) m₁, true, none)
unfolding parse_token_in in_line
value_token p t t' o i m v l e h = rw e (handle_value-take_value o _ i v l refl h)

module _ {S : Type 0} (on_frame : Parser → Values → S → S) where
  -- The key of a line and its bracket.
  parse_str_key :
      (c : ℕ) (k rest : List ℕ) (p : Parser) (s : S)
      → IsReady p
      → IsWord (c ∷ k)
      → parse_str on_frame p s ((c ∷ k) ++ b'(' ∷ rest)
        ≡ parse_str on_frame (at_key p (key_tokenizer p.tokenizer (c ∷ k)) (c ∷ k)) s rest
  unfolding key_tokenizer push_all at_key in_line
  parse_str_key c k rest p s r w =
      let t = record (p.tokenizer) { state = Tokenizer.parse_key } in
      let t₁ = push_ch t c in
      let t₂ = push_all t₁ k in
      let s₂ = state-push_all t₁ k ∙ push_ch_state t c in
      let text =
        last_token_str-push_all t Tokenizer.parse_value (c ∷ k) key
          (state-InBounds p.tokenizer Tokenizer.parse_key r.in_bounds) r.nothing_pending w.fits
          (c_str_plain (c ∷ k) w.plain) in
      parse_str_more on_frame p s c t₁ (k ++ b'(' ∷ rest)
        (parse_ch_first p.tokenizer c r.tokenizer_default w.plain.0)
      ∙ parse_str_word on_frame k (b'(' ∷ rest) (record p { tokenizer = t₁ }) s
          (inl (push_ch_state t c)) w.plain.1
      ∙ parse_str_step on_frame (record p { tokenizer = t₂ }) _ s b'(' rest none
          (parse_ch_token (record p { tokenizer = t₂ }) _ b'(' _ key none (parse_ch_open t₂ s₂)
            (key_token p _ (c ∷ k) r.takes_key text))

  -- A value of a line and its bracket.
  parse_str_value :
      (v rest : List ℕ) (p : Parser) (t : Tokenizer) (o : Option Entry) (i : ℕ) (m : Meas) (s : S)
      {m₁ : Meas}
      → i < 255
      → t.state ≡ Tokenizer.parse_value
      → t.idx ≡ 0
      → InBounds t
      → IsWord v
      → take_value o i m v ≡ some (m₁, true)
      → parse_str on_frame (in_line p t o i m) s (v ++ b')' ∷ rest)
        ≡ parse_str on_frame (in_line p (value_tokenizer t v) o (suc i) m₁) s rest
  unfolding value_tokenizer in_line
  parse_str_value v rest p t o i m s l st z b w h =
      let t₂ = push_all t v in
      let text =
        last_token_str-push_all t Tokenizer.default v value b z w.fits (c_str_plain v w.plain) in
      parse_str_word on_frame v (b')' ∷ rest) (in_line p t o i m) s (inr st) w.plain
      ∙ parse_str_step on_frame (in_line p t₂ o i m) _ s b')' rest none (
          parse_ch_token (in_line p t₂ o i m) _ b')' _ value none
            (parse_ch_close t₂ (state-push_all t v ∙ st)) (value_token p t₂ _ o i m v l text h))

  -- The values behind the first one.
  parse_str-values :
      (vs : List (List ℕ)) (rest : List ℕ) (p : Parser) (t : Tokenizer) (o : Option Entry) (i : ℕ)
      (m m' : Meas) (s : S)
      → i + length vs ≤ 255
      → t.state ≡ Tokenizer.default
      → t.idx ≡ 0
      → InBounds t
      → AreWords vs
      → TakesValues o i m vs m'
      → (t' : Tokenizer) × (j : ℕ) × (parse_str on_frame (in_line p t o i m) s (values vs rest)
          ≡ parse_str on_frame (in_line p t' o j m') s rest)
        × (t'.state ≡ Tokenizer.default)
        × (t'.idx ≡ 0)
        × InBounds t'
        × (i ≤ j)
  unfolding in_line
  parse_str-values [] rest p t o i m m' s l st z b w h =
      (t, i, ap (λ x. parse_str on_frame (in_line p t o i x) s rest) h, st, z, b, omega arith)
  parse_str-values (v ∷ vs) rest p t o i m m' s l st z b w (m₁, h, hs) =
      let opened = record t { state = Tokenizer.parse_value } in
      let inside = state-InBounds t Tokenizer.parse_value b in
      let t₁ = value_tokenizer opened v in
      let at_rest = value_tokenizer_state opened v in
      let (t', j, more, st', z', b', le) =
        parse_str-values vs rest p t₁ o (suc i) m₁ m' s (omega arith) at_rest.0 at_rest.1
          (value_tokenizer-InBounds opened v inside) w.1 hs in
      (
        t',
        j,
        parse_str_more on_frame (in_line p t o i m) s b'(' opened (v ++ b')' ∷ values vs rest)
              (parse_ch_open_again t st)
            ∙ parse_str_value v (values vs rest) p opened o i m s (omega arith) refl z inside w.0 h
            ∙ more,
        st',
        z',
        b',
        omega arith,
      )

  -- A whole line: the parser is ready for the next one, and the measurement is what the handler made.
  pub parse_str-line :
      (c : ℕ) (k v : List ℕ) (vs : List (List ℕ)) (rest : List ℕ) (p : Parser) (s : S) (m' : Meas)
      → IsReady p
      → IsWord (c ∷ k)
      → AreWords (v ∷ vs)
      → length (v ∷ vs) ≤ 255
      → TakesValues (find_ibis_key (c ∷ k)) 0 p.meas (v ∷ vs) m'
      → (p' : Parser) × (parse_str on_frame p s
            ((c ∷ k) ++ b'(' ∷ (v ++ b')' ∷ values vs (b'\r' ∷ b'\n' ∷ rest)))
          ≡ parse_str on_frame p' s rest)
        × IsReady p'
        × (p'.meas ≡ m')
        × (p'.state ≡ parse_values)
  unfolding at_key in_line
  parse_str-line c k v vs rest p s m' r w w' l (m₁, h, hs) =
      let o = find_ibis_key (c ∷ k) in
      let t = key_tokenizer p.tokenizer (c ∷ k) in
      let at_value = key_tokenizer_state p.tokenizer (c ∷ k) in
      let b = key_tokenizer-InBounds p.tokenizer (c ∷ k) r.in_bounds in
      let t₁ = value_tokenizer t v in
      let at_rest = value_tokenizer_state t v in
      let ends = b'\r' ∷ b'\n' ∷ rest in
      let (t₂, j, more, st, z, b₂, le) =
        parse_str-values vs ends p t₁ o 1 m₁ m' s (omega arith) at_rest.0 at_rest.1
          (value_tokenizer-InBounds t v b) w'.1 hs in
      (
        in_line p t₂ o j m',
        parse_str_key c k (v ++ b')' ∷ values vs ends) p s r w
            ∙ parse_str_value v (values vs ends) p t o 0 p.meas s (omega arith) at_value.0
                at_value.1 b w'.0 h
            ∙ more
            ∙ parse_str_blanks on_frame (b'\r' ∷ b'\n' ∷ []) rest (in_line p t₂ o j m') s st
                (refl, (refl, tt)),
        record {
          tokenizer_default = st;
          nothing_pending = z;
          in_bounds = b₂;
          takes_key = inr (refl, λ e. omega arith);
        },
        refl,
        refl,
      )
