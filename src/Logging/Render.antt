-- ===== src/Logging/Render.antt =====
-- What a log message with fitting arguments writes.
use smartmeterreader.Prelude.{
  ℕ, ◌<◌, ◌≡◌, ◌∙◌, refl, sym, ap, arith, false, ltb, ◌==◌, u8, List, [], ◌∷◌, ◌++◌, length, take,
  take-length, append_assoc, append-nil, none, some,
}
use smartmeterreader.Prelude.Int.{ℤ}
use smartmeterreader.Logging.{
  LogLevel, Config, Arg, long, int, str, in_text, convert, vlog_loop, vlog, log, write_P, prefix_of,
  is_disabled, rank, log_buf,
}

-- A conversion with its argument.
pub data Conversion : Type 0 where
  of_int of_long : ℤ → Conversion
  of_str : List ℕ → Conversion
  percent : Conversion

abbrev pub letters : Conversion → List ℕ → List ℕ
letters (of_int z) tpl = b'%' ∷ b'd' ∷ tpl
letters (of_long z) tpl = b'%' ∷ b'l' ∷ b'd' ∷ tpl
letters (of_str s) tpl = b'%' ∷ b's' ∷ tpl
letters percent tpl = b'%' ∷ b'%' ∷ tpl

abbrev pub args_before : Conversion → List Arg → List Arg
args_before (of_int z) args = int z ∷ args
args_before (of_long z) args = long z ∷ args
args_before (of_str s) args = str s ∷ args
args_before percent args = args

-- A template: texts, each with the conversion behind it, and the text at the end.
abbrev pub template : List (List ℕ × Conversion) → List ℕ → List ℕ
template [] end = end
template ((text, c) ∷ parts) end = text ++ letters c (template parts end)

abbrev pub args_of : List (List ℕ × Conversion) → List Arg
args_of [] = []
args_of ((text, c) ∷ parts) = args_before c (args_of parts)

-- A text without `%`, which is short enough for the `uint8_t` of `write_P`.
abbrev pub NoPercent : List ℕ → Type 0
NoPercent [] = Unit {0}
NoPercent (ch ∷ text) = ((ch == b'%') ≡ false) × NoPercent text

abbrev pub IsText : List ℕ → Type 0
IsText text = NoPercent text × (length text < 256)

abbrev pub AllTexts : List (List ℕ × Conversion) → Type 0
AllTexts [] = Unit {0}
AllTexts ((text, c) ∷ parts) = IsText text × AllTexts parts

module _ (print : ℤ → List ℕ) where
  -- What a reader of the template expects.
  abbrev pub shown : Conversion → List ℕ
  shown (of_int z) = print z
  shown (of_long z) = print z
  shown (of_str s) = take 255 s
  shown percent = b'%' ∷ []

  abbrev pub render : List (List ℕ × Conversion) → List ℕ → List ℕ
  render [] end = end
  render ((text, c) ∷ parts) end = text ++ (shown c ++ render parts end)

  vlog_loop_text :
      (text begin tpl : List ℕ) (args : List Arg)
      → NoPercent text
      → vlog_loop print in_text begin (text ++ tpl) args
        ≡ vlog_loop print in_text (begin ++ text) tpl args
  unfolding vlog_loop
  vlog_loop_text [] begin tpl args h = rw (append-nil begin) refl
  vlog_loop_text (ch ∷ text) begin tpl args (h, hs) = rw h (
      vlog_loop_text text (begin ++ ch ∷ []) tpl args hs
      ∙ ap (λ b. vlog_loop print in_text b tpl args) (append_assoc begin (ch ∷ []) text))

  u8-small : (n : ℕ) → n < 256 → u8 n ≡ n
  u8-small n h = omega arith

  write_P-all : (text : List ℕ) → length text < 256 → write_P text (length text) ≡ text
  unfolding write_P
  write_P-all text h = ap (λ n. take n text) (u8-small (length text) h) ∙ take-length text

  vlog_loop_conversion :
      (c : Conversion) (begin tpl : List ℕ) (args : List Arg) {out : List ℕ}
      → length begin < 256
      → vlog_loop print in_text [] tpl args ≡ some out
      → vlog_loop print in_text begin (letters c tpl) (args_before c args)
        ≡ some (begin ++ (shown c ++ out))
  unfolding vlog_loop convert
  vlog_loop_conversion (of_int z) begin tpl args l h = rw h (rw (write_P-all begin l) refl)
  vlog_loop_conversion (of_long z) begin tpl args l h = rw h (rw (write_P-all begin l) refl)
  vlog_loop_conversion (of_str s) begin tpl args l h =
      rw h (rw (write_P-all begin l) (unfold write_P in refl))
  vlog_loop_conversion percent begin tpl args l h = rw h (rw (write_P-all begin l) refl)

  ends : (end : List ℕ) → length end < 256 → vlog_loop print in_text end [] [] ≡ some end
  unfolding vlog_loop
  ends end l = rw (write_P-all end l) refl

  vlog_loop-render :
      (parts : List (List ℕ × Conversion)) (end : List ℕ)
      → AllTexts parts
      → IsText end
      → vlog_loop print in_text [] (template parts end) (args_of parts) ≡ some (render parts end)
  vlog_loop-render [] end a (n, l) =
      ap (λ t. vlog_loop print in_text [] t []) (sym (append-nil end))
      ∙ vlog_loop_text end [] [] [] n
      ∙ ends end l
  vlog_loop-render ((text, c) ∷ parts) end ((n, l), a) e =
      vlog_loop_text text [] (letters c (template parts end)) (args_before c (args_of parts)) n
      ∙ vlog_loop_conversion c text (template parts end) (args_of parts) l
          (vlog_loop-render parts end a e)

  -- A template of texts and conversions, with the arguments that these name, is written behind the level's
  -- three characters and a space, and a line end behind it: texts as they are, numbers as `Print` prints
  -- them, at most 255 characters of a string, and `%` for `%%`. No text between two conversions holds `%`,
  -- and none is longer than 255 characters.
  pub vlog-render :
      (level : LogLevel) (parts : List (List ℕ × Conversion)) (end : List ℕ)
      → AllTexts parts
      → IsText end
      → vlog print level (template parts end) (args_of parts)
        ≡ some (prefix_of level ++ b' ' ∷ render parts end ++ 13 ∷ 10 ∷ [])
  unfolding vlog
  vlog-render level parts end a e =
      rw (vlog_loop-render parts end a e)
        (ap (λ p. some (p ++ b' ' ∷ render parts end ++ 13 ∷ 10 ∷ [])) (prefix level))
    where
      prefix : (level : LogLevel) → write_P (prefix_of level) 3 ≡ prefix_of level
      prefix level = unfold write_P in ground arith

-- `log_buf` leaves out an argument, so that every call of it at a level that is written is undefined.
pub log_buf-none :
    (print : ℤ → List ℕ) (settings : Config) (level : LogLevel) (name buf : List ℕ)
    → is_disabled settings.enable_logging ≡ false
    → ltb (rank level) (rank settings.log_level) ≡ false
    → log_buf print settings level name buf ≡ none
unfolding log_buf log vlog vlog_loop convert
log_buf-none print settings level name buf h k = rw h (rw k refl)
