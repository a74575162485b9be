-- ===== src/Tests/Meter.antt =====
-- A telegram of two lines, and numbers.
use smartmeterreader.Prelude.{
  ℕ, ◌*◌, ◌^◌, ◌≡◌, inl, refl, arith, true, List, [], ◌∷◌, ◌++◌, none, some,
}
use smartmeterreader.Prelude.Int.{pos, ◌*ℤ◌, signed, pattern_of}
use smartmeterreader.Meter.Tokenizer.{Tokenizer}
use smartmeterreader.Meter.Tokenizer
use smartmeterreader.Meter.Tokenizer.Bounds.{IsValid, reset-IsValid, parse_ch-IsValid}
use smartmeterreader.Meter.Numbers.{
  parse_flt, fraction_loop, parse_potential, whole_loop, fraction, apply_sign, scale,
  str_is_substring,
}
use smartmeterreader.Meter.Numbers.Decimal.{
  decimal, parse_flt-point, fraction_loop_hangs, parse_flt_minus,
}
use smartmeterreader.Meter.Parser.{
  Parser, Meas, init, parse_str, find_ibis_key, run_handler, handle_potential, handle_frame_start,
}
use smartmeterreader.Meter.Parser.Telegram.{
  Line, telegram, IsTelegram, started, Takes, parse_str-telegram,
}
use smartmeterreader.Meter.Parser.Footer.{IsIdle, frame_of, log_frame}
use smartmeterreader.Meter.Tokenizer.Entry.{doubled}

-- "12.345*kW" in W, and "12*kW".
parse_flt-point_example :
    parse_flt (b'1' ∷ b'2' ∷ b'.' ∷ b'3' ∷ b'4' ∷ b'5' ∷ b'*' ∷ b'k' ∷ b'W' ∷ []) 3
    ≡ some (
      pos (decimal (decimal 0 (b'1' ∷ b'2' ∷ [])) (b'3' ∷ b'4' ∷ b'5' ∷ []) * 10 ^ 0),
      b'*' ∷ b'k' ∷ b'W' ∷ [],
    )
parse_flt-point_example =
    parse_flt-point (b'1' ∷ b'2' ∷ []) (b'3' ∷ b'4' ∷ b'5' ∷ []) (b'*' ∷ b'k' ∷ b'W' ∷ []) 3
      (refl, (refl, tt)) (refl, (refl, (refl, tt))) refl (omega arith)
      (unfold decimal in omega arith)

-- "1.52" in whole units with one decimal.
fraction_loop_hangs_example : fraction_loop 1000 (b'5' ∷ b'2' ∷ []) 1 1 ≡ none
fraction_loop_hangs_example = fraction_loop_hangs (b'5' ∷ []) [] b'2' 1000 1 (refl, tt) refl

parse_flt_minus_example : parse_flt (b'-' ∷ b'3' ∷ []) 3 ≡ some (pos 0, b'-' ∷ b'3' ∷ [])
parse_flt_minus_example = parse_flt_minus (b'3' ∷ []) 3

parse_ch-IsValid_example : IsValid (Tokenizer.parse_ch Tokenizer.reset b'/').0
parse_ch-IsValid_example = parse_ch-IsValid Tokenizer.reset b'/' reset-IsValid

pub init-IsIdle : IsIdle init
unfolding init Tokenizer.reset
init-IsIdle = record {
  awaits_header = refl;
  nothing_pending = refl;
  in_bounds = reset-IsValid.in_bounds;
  at_rest = inl refl;
}

-- The voltage of phase 1, and the gas meter's line of two values, which no handler takes.
abbrev pub entries : List Line
entries =
    (
      b'1' ∷ b'-' ∷ b'0' ∷ b':' ∷ b'3' ∷ b'2' ∷ b'.' ∷ b'7' ∷ b'.' ∷ b'0' ∷ [],
      b'2' ∷ b'3' ∷ b'0' ∷ b'.' ∷ b'1' ∷ b'*' ∷ b'V' ∷ [],
      [],
    )
    ∷ (
      b'0' ∷ b'-' ∷ b'1' ∷ b':' ∷ b'2' ∷ b'4' ∷ b'.' ∷ b'2' ∷ b'.' ∷ b'1' ∷ [],
      b'1' ∷ b'0' ∷ b'1' ∷ b'2' ∷ b'0' ∷ b'9' ∷ [],
      (b'1' ∷ b'2' ∷ b'.' ∷ b'7' ∷ b'8' ∷ b'5' ∷ b'*' ∷ b'm' ∷ b'3' ∷ []) ∷ [],
    )
    ∷ []

-- `K\2`
abbrev pub model : List ℕ
model = b'K' ∷ b'\\' ∷ b'2' ∷ []

abbrev pub blanks : List ℕ
blanks = b'\r' ∷ b'\n' ∷ []

-- A checksum of digits and letters.
abbrev pub check : List ℕ
check = b'1' ∷ b'4' ∷ b'E' ∷ b'5' ∷ []

abbrev pub measured : Meas
measured = record (started init.meas (doubled model)) {
  potential_mv = pos 230100 ∷ pos 0 ∷ pos 0 ∷ [];
}

pub entries_taken : Takes (started init.meas (doubled model)) entries measured
unfolding find_ibis_key run_handler handle_potential parse_potential parse_flt whole_loop fraction
    apply_sign scale str_is_substring handle_frame_start init ◌*ℤ◌ signed pattern_of
entries_taken =
    (measured, (measured, refl, refl), (measured, (measured, refl, (measured, refl, refl)), refl))

pub is_telegram : IsTelegram model blanks entries check
is_telegram = record {
  model_chars = (refl, (refl, (refl, tt)));
  model_fits = omega arith;
  all_blank = (refl, (refl, tt));
  are_lines = (
    (
      record {
        plain = (refl, (refl, (refl, (refl, (refl, (refl, (refl, (refl, (refl, (refl, tt))))))))));
        fits = omega arith;
      },
      (λ e. cc),
      (
        record {
          plain = (refl, (refl, (refl, (refl, (refl, (refl, (refl, tt)))))));
          fits = omega arith;
        },
        tt,
      ),
      omega arith,
    ),
    (
      (
        record {
          plain =
              (refl, (refl, (refl, (refl, (refl, (refl, (refl, (refl, (refl, (refl, tt))))))))));
          fits = omega arith;
        },
        (λ e. cc),
        (
          record { plain = (refl, (refl, (refl, (refl, (refl, (refl, tt)))))); fits = omega arith },
          (
            record {
              plain = (refl, (refl, (refl, (refl, (refl, (refl, (refl, (refl, (refl, tt)))))))));
              fits = omega arith;
            },
            tt,
          ),
        ),
        omega arith,
      ),
      tt,
    ),
  );
  some_line = λ e. cc;
  check_chars = (refl, (refl, (refl, (refl, tt))));
}

parse_str-telegram_example :
    (p : Parser) × (parse_str log_frame init [] (telegram model blanks entries check)
      ≡ some (p, [] ++ (doubled model, frame_of measured) ∷ [], true))
    × (p.last_frame ≡ frame_of measured)
    × IsIdle p
parse_str-telegram_example =
    parse_str-telegram model blanks entries check init [] measured init-IsIdle is_telegram
      entries_taken
