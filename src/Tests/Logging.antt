-- ===== src/Tests/Logging.antt =====
-- Messages, numbers and dumps.
use smartmeterreader.Prelude.{
  ℕ, ◌≡◌, ◌≤◌, refl, arith, List, [], ◌∷◌, ◌++◌, length, take, some, none, ◌+◌,
}
use smartmeterreader.Prelude.Int.{ℤ, pos, negsuc}
use smartmeterreader.Prelude.Text.{codes}
use smartmeterreader.Meter.Numbers.{parse_flt}
use smartmeterreader.Logging.{
  log_warn, log_error, config, vlog, log_buf, hex_loop, print_number, prefix_of, cut,
  print_magnitude, decimals, digits,
}
use smartmeterreader.Logging.Render.{
  Conversion, of_int, of_str, template, args_of, render, vlog-render, log_buf-none,
}
use smartmeterreader.Logging.Hex.{read_hex, read_hex-hex_loop}
use smartmeterreader.Logging.Digits.{print_number-parse_flt}

-- One digit, in place of `Print`.
abbrev print : ℤ → List ℕ
print (pos n) = (b'0' + n) ∷ []
print (negsuc n) = b'-' ∷ (b'1' + n) ∷ []

-- "limit %d A (%s)"
abbrev parts : List (List ℕ × Conversion)
parts = (codes "limit ", of_int (pos 6)) ∷ (codes " A (", of_str (codes "new")) ∷ []

vlog-render_example :
    vlog print log_warn (template parts (codes ")")) (args_of parts)
    ≡ some (prefix_of log_warn ++ b' ' ∷ render print parts (codes ")") ++ 13 ∷ 10 ∷ [])
vlog-render_example =
    vlog-render print log_warn parts (codes ")")
      (
        ((refl, (refl, (refl, (refl, (refl, (refl, tt)))))), omega arith),
        (((refl, (refl, (refl, (refl, tt)))), omega arith), tt),
      )
      ((refl, tt), omega arith)

log_buf-none_example : log_buf print config log_error (codes "modbus") (1 ∷ 2 ∷ []) ≡ none
log_buf-none_example = log_buf-none print config log_error (codes "modbus") (1 ∷ 2 ∷ []) refl refl

read_hex-hex_loop_example :
    (read_hex (hex_loop 0 (18 ∷ 171 ∷ [])) ≡ take 100 (18 ∷ 171 ∷ []))
    × (length (hex_loop 0 (18 ∷ 171 ∷ [])) ≤ 300)
read_hex-hex_loop_example = read_hex-hex_loop (18 ∷ 171 ∷ []) (omega arith, (omega arith, tt))

print_number-parse_flt_example :
    (text : List ℕ) × (print_number 40 (pos 2345) 2 ≡ some text)
    × (parse_flt (text ++ b'V' ∷ []) 2 ≡ some (pos 2345, b'V' ∷ []))
print_number-parse_flt_example =
    print_number-parse_flt 2345 1 40 (b'V' ∷ []) (omega arith) (omega arith) (omega arith)
      (omega arith) refl

-- -2.5, and what -32768 gives.
minus_test : print_number 40 (negsuc 24) 1 ≡ some (codes "-2.5")
unfolding print_number print_magnitude decimals digits cut
minus_test = refl

overflow_test : print_number 40 (negsuc 32767) 0 ≡ some (codes "--.)*(")
unfolding print_number print_magnitude decimals digits cut
overflow_test = refl
