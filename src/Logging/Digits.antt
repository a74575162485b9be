-- ===== src/Logging/Digits.antt =====
-- What `print_number` writes, `parse_flt` of sm_parser.c reads.
use smartmeterreader.Prelude.{
  ℕ, zero, suc, ◌+◌, ◌-◌, ◌*◌, ◌/◌, ◌%◌, ◌^◌, ◌≤◌, ◌<◌, ◌≡◌, ◌∙◌, refl, sym, ap, arith, Bool, true,
  false, leb, ltb, ◌==◌, if◌then◌else◌, List, [], ◌∷◌, ◌++◌, length, length-append, take-length,
  append_assoc, some, append-nil,
}
use smartmeterreader.Prelude.Int.{pos}
use smartmeterreader.Meter.Numbers.{parse_flt, is_digit, peek}
use smartmeterreader.Meter.Numbers.Decimal.{decimal, AllDigits, parse_flt-point}
use smartmeterreader.Logging.{digit, decimals, digits, print_magnitude, print_number, cut}

decimal-snoc :
    (xs : List ℕ) (acc c : ℕ) → decimal acc (xs ++ c ∷ []) ≡ decimal acc xs * 10 + (c - b'0')
unfolding decimal
decimal-snoc [] acc c = refl
decimal-snoc (x ∷ xs) acc c = decimal-snoc xs (acc * 10 + (x - b'0')) c

AllDigits-snoc : (xs : List ℕ) (c : ℕ) → AllDigits xs → is_digit c ≡ true → AllDigits (xs ++ c ∷ [])
AllDigits-snoc [] c a h = (h, tt)
AllDigits-snoc (x ∷ xs) c (d, a) h = (d, AllDigits-snoc xs c a h)

digit-is_digit : (v : ℕ) → is_digit (digit false v) ≡ true
digit-is_digit v = ground arith

-- Digits that say `value`, behind those that say `start`.
record Says (start value : ℕ) (ds : List ℕ) : Type 0 where
  are_digits : AllDigits ds
  says : decimal start ds ≡ value

Says-snoc :
    (start v : ℕ) (ds : List ℕ) → Says start (v / 10) ds → Says start v (ds ++ digit false v ∷ [])
Says-snoc start v ds s = record {
  are_digits = AllDigits-snoc ds (digit false v) s.are_digits (digit-is_digit v);
  says = decimal-snoc ds start (digit false v) ∙ omega (arith, s.says);
}

decimals-Says :
    (prec v : ℕ) (text : List ℕ)
    → (ds : List ℕ) × ((decimals false prec v text).1 ≡ ds ++ text)
      × (length ds ≡ prec)
      × Says (decimals false prec v text).0 v ds
unfolding decimals
decimals-Says zero v text =
    ([], refl, refl, record { are_digits = tt; says = unfold decimal in refl })
decimals-Says (suc prec) v text =
    let (ds, e, l, s) = decimals-Says prec (v / 10) (digit false v ∷ text) in
    (
      ds ++ digit false v ∷ [],
      e ∙ sym (append_assoc ds (digit false v ∷ []) text),
      omega (arith, length-append ds (digit false v ∷ []), l),
      Says-snoc _ v ds s,
    )

decimals_le : (prec v : ℕ) (text : List ℕ) → (decimals false prec v text).0 ≤ v
unfolding decimals
decimals_le zero v text = omega arith
decimals_le (suc prec) v text = omega (arith, decimals_le prec (v / 10) (digit false v ∷ text))

digits-Says :
    (fuel v : ℕ) (text : List ℕ)
    → v < 10 ^ fuel
    → (ds : List ℕ) × (digits false fuel v text ≡ ds ++ text) × (length ds ≤ fuel) × Says 0 v ds
unfolding digits
digits-Says zero v text h =
    ([], refl, omega arith, record { are_digits = tt; says = unfold decimal in omega arith })
digits-Says (suc fuel) v text h =
    let (ds, e, l, s) = digits-Says fuel (v / 10) (digit false v ∷ text) (omega (arith, h)) in
    go (v / 10 == 0) refl ds e l s
  where
    go :
        (b : Bool)
        → (v / 10 == 0) ≡ b
        → (ds : List ℕ)
        → digits false fuel (v / 10) (digit false v ∷ text) ≡ ds ++ digit false v ∷ text
        → length ds ≤ fuel
        → Says 0 (v / 10) ds
        → (ds : List ℕ) × ((if b
              then digit false v ∷ text
              else digits false fuel (v / 10) (digit false v ∷ text))
            ≡ ds ++ text)
          × (length ds ≤ suc fuel)
          × Says 0 v ds
    go true e₀ ds e l s = (
      digit false v ∷ [],
      refl,
      omega arith,
      Says-snoc 0 v [] (record { are_digits = tt; says = unfold decimal in ground arith }),
    )
    go false e₀ ds e l s = (
      ds ++ digit false v ∷ [],
      e ∙ sym (append_assoc ds (digit false v ∷ []) text),
      omega (arith, length-append ds (digit false v ∷ []), l),
      Says-snoc 0 v ds s,
    )

no_scale : (n m : ℕ) → n * 10 ^ (m - m) ≡ n
no_scale n m = let nothing : m - m ≡ 0 = omega arith in rw nothing (omega arith)

cut-all : (room : ℕ) (text : List ℕ) → length text < room → room < 256 → cut room text ≡ some text
unfolding cut
cut-all room text h k =
    let whole_room : room % 256 ≡ room = omega arith in
    let whole_length : length text % 256 ≡ length text = omega arith in
    let fits : leb room (length text) ≡ false = ground arith in
    let reads : leb (length text) (length text) ≡ true = ground arith in
    let writes : ltb (length text) room ≡ true = ground arith in
    rw (whole_room, whole_length, fits, reads, writes) (ap some (take-length text))

-- A value of `int16_t` that is not negative, printed with one to 28 decimals into a buffer of more than 34
-- and fewer than 256 bytes, is read back by `parse_flt` for as many decimals, with the text behind it, if that
-- does not begin with a digit.
pub print_number-parse_flt :
    (n prec room : ℕ) (rest : List ℕ)
    → n < 32768
    → prec < 28
    → 34 < room
    → room < 256
    → is_digit (peek rest) ≡ false
    → (text : List ℕ) × (print_number room (pos n) (suc prec) ≡ some text)
      × (parse_flt (text ++ rest) (suc prec) ≡ some (pos n, rest))
unfolding print_number print_magnitude
print_number-parse_flt n prec room rest h p r k d =
    let (fs, ef, lf, sf) = decimals-Says (suc prec) n [] in
    let whole = (decimals false (suc prec) n []).0 in
    let (ds, ed, ld, sd) =
      digits-Says 5 whole (b'.' ∷ (decimals false (suc prec) n []).1)
        (omega (arith, decimals_le (suc prec) n [])) in
    let text = ds ++ b'.' ∷ fs in
    let size : length text ≤ 34 = omega (arith, length-append ds (b'.' ∷ fs), ld, lf) in
    let value : decimal (decimal 0 ds) fs ≡ n = ap (λ w. decimal w fs) sd.says ∙ sf.says in
    let small : leb (length text) 34 ≡ true = ground (arith, size) in
    let printed : print_magnitude false n (suc prec) ≡ text =
      ed ∙ ap (λ t. ds ++ b'.' ∷ t) (ef ∙ append-nil fs) in
    let scaled : decimal (decimal 0 ds) fs * 10 ^ (suc prec - length fs) ≡ n =
      rw (lf, value) (no_scale n (suc prec)) in
    let small_value : decimal (decimal 0 ds) fs * 10 ^ (suc prec - length fs) < 2 ^ 63 =
      omega (arith, scaled, h) in
    let split : text ++ rest ≡ ds ++ b'.' ∷ (fs ++ rest) = append_assoc ds (b'.' ∷ fs) rest in
    let read =
      parse_flt-point ds fs rest (suc prec) sd.are_digits sf.are_digits d (omega (arith, lf))
        small_value in
    (
      text,
      rw printed (rw small (cut-all room text (omega (arith, size)) k)),
      ap (λ t. parse_flt t (suc prec)) split ∙ read ∙ ap (λ v. some (pos v, rest)) scaled,
    )
