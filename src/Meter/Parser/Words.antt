-- ===== src/Meter/Parser/Words.antt =====
-- The parser on the words and blanks of a telegram.
use smartmeterreader.Prelude.{
  ℕ, ◌≡◌, ◌∙◌, refl, Bool, true, List, [], ◌∷◌, ◌++◌, ◌==◌, Option, none, some, ◌>>=◌, ◌⊎◌, inl,
  inr, Bool-cases,
}
use smartmeterreader.Meter.Values.{Values}
use smartmeterreader.Meter.Tokenizer
use smartmeterreader.Meter.Tokenizer.{
  Tokenizer, Token, need_more_input, frame_header, key, value, frame_footer, last_token_str, accept,
  push_ch, is_blank, c_str,
}
use smartmeterreader.Meter.Tokenizer.Bounds.{push_ch_state}
use smartmeterreader.Meter.Tokenizer.Entry.{
  push_all, AllPlain, AllHeader, parse_ch_plain, parse_ch_header, parse_ch_blank, doubled,
  parse_ch_backslash,
}
use smartmeterreader.Meter.Parser.{
  Parser, State, parse_header, parse_key, parse_values, notify, parse_ch, parse_token_in, parse_str,
  back_on_error,
}

-- A character that ends no token changes the tokenizer only.
pub parse_ch_more :
    (p : Parser) (c : ℕ) (t : Tokenizer)
    → Tokenizer.parse_ch p.tokenizer c ≡ (t, need_more_input)
    → parse_ch p c ≡ some (record p { tokenizer = t }, true, none)
unfolding parse_ch
parse_ch_more p c t h = rw h (more_input p.state (record p { tokenizer = t }))
  where
    more_input :
        (st : State) (q : Parser)
        → (parse_token_in st q need_more_input >>= λ s. some (back_on_error s))
          ≡ some (q, true, none)
    more_input parse_header q = refl
    more_input parse_key q = refl
    more_input parse_values q = refl

-- A token, with no error.
pub parse_ch_token :
    (p p' : Parser) (c : ℕ) (t : Tokenizer) (token : Token) (frame : Option Values)
    → Tokenizer.parse_ch p.tokenizer c ≡ (t, token)
    → parse_token_in p.state (record p { tokenizer = t }) token ≡ some (p', true, frame)
    → parse_ch p c ≡ some (p', true, frame)
unfolding parse_ch
parse_ch_token p p' c t token frame h e = rw h (rw e)

-- Line ends, spaces and tabs.
abbrev pub AllBlank : List ℕ → Type 0
AllBlank [] = Unit {0}
AllBlank (c ∷ cs) = (is_blank c ≡ true) × AllBlank cs

module _ {S : Type 0} (on_frame : Parser → Values → S → S) where
  same_flag : (m : Option (Parser × S × Bool)) → (m >>= λ q. some (q.0, q.1, q.2)) ≡ m
  same_flag none = refl
  same_flag (some q) = refl

  pub parse_str_step :
      (p p' : Parser) (s : S) (c : ℕ) (rest : List ℕ) (frame : Option Values)
      → parse_ch p c ≡ some (p', true, frame)
      → parse_str on_frame p s (c ∷ rest) ≡ parse_str on_frame p' (notify on_frame p' frame s) rest
  unfolding parse_str
  parse_str_step p p' s c rest frame h = rw h (same_flag _)

  pub parse_str_more :
      (p : Parser) (s : S) (c : ℕ) (t : Tokenizer) (rest : List ℕ)
      → Tokenizer.parse_ch p.tokenizer c ≡ (t, need_more_input)
      → parse_str on_frame p s (c ∷ rest) ≡ parse_str on_frame (record p { tokenizer = t }) s rest
  parse_str_more p s c t rest h =
      parse_str_step p (record p { tokenizer = t }) s c rest none (parse_ch_more p c t h)

  -- The characters of a word, within a key or a value.
  pub parse_str_word :
      (cs rest : List ℕ) (p : Parser) (s : S)
      → (p.tokenizer.state ≡ Tokenizer.parse_key) ⊎ (p.tokenizer.state ≡ Tokenizer.parse_value)
      → AllPlain cs
      → parse_str on_frame p s (cs ++ rest)
        ≡ parse_str on_frame (record p { tokenizer = push_all p.tokenizer cs }) s rest
  unfolding push_all
  parse_str_word [] rest p s st a = refl
  parse_str_word (c ∷ cs) rest p s st a =
      parse_str_more p s c (push_ch p.tokenizer c) (cs ++ rest)
        (parse_ch_plain p.tokenizer c st a.0)
      ∙ parse_str_word cs rest (record p { tokenizer = push_ch p.tokenizer c }) s
          (rw (push_ch_state p.tokenizer c) st) a.1

  -- The characters of the model name, in the header line.
  pub parse_str_header :
      (cs rest : List ℕ) (p : Parser) (s : S)
      → p.tokenizer.state ≡ Tokenizer.parse_frame_header
      → AllHeader cs
      → parse_str on_frame p s (cs ++ rest)
        ≡ parse_str on_frame (record p { tokenizer = push_all p.tokenizer (doubled cs) }) s rest
  unfolding push_all
  parse_str_header [] rest p s st a = refl
  parse_str_header (c ∷ cs) rest p s st a = elim (Bool-cases (c == b'\\')) [
    | inl e ↦
        let t = push_ch (push_ch p.tokenizer c) c in
        rw e (
          parse_str_more p s c t (cs ++ rest) (parse_ch_backslash p.tokenizer c st a.0 e)
          ∙ parse_str_header cs rest (record p { tokenizer = t }) s
              (push_ch_state (push_ch p.tokenizer c) c ∙ push_ch_state p.tokenizer c ∙ st) a.1)
    | inr e ↦
        let t = push_ch p.tokenizer c in
        rw e (
          parse_str_more p s c t (cs ++ rest) (parse_ch_header p.tokenizer c st a.0 e)
          ∙ parse_str_header cs rest (record p { tokenizer = t }) s
              (push_ch_state p.tokenizer c ∙ st) a.1)
  ]

  -- Blanks in the default state are passed over.
  pub parse_str_blanks :
      (cs rest : List ℕ) (p : Parser) (s : S)
      → p.tokenizer.state ≡ Tokenizer.default
      → AllBlank cs
      → parse_str on_frame p s (cs ++ rest) ≡ parse_str on_frame p s rest
  parse_str_blanks [] rest p s st a = refl
  parse_str_blanks (c ∷ cs) rest p s st a =
      parse_str_more p s c p.tokenizer (cs ++ rest) (parse_ch_blank p.tokenizer c st a.0)
      ∙ parse_str_blanks cs rest p s st a.1
