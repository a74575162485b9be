-- ===== src/Meter/Numbers/Decimal.antt =====
-- What `parse_flt` reads: decimal numbers, scaled; and where it does not return.
use native.Mathlib.Nat.{pow-succ'}
use smartmeterreader.Prelude.{
  ℕ, zero, suc, ◌+◌, ◌-◌, ◌*◌, ◌^◌, ◌≤◌, ◌<◌, ◌≡◌, refl, true, false, List, [], ◌∷◌, ◌++◌, none,
  some, arith, ◌==◌, length, ◌%◌, length-append,
}
use smartmeterreader.Prelude.Int.{pos}
use smartmeterreader.Meter.Numbers.{
  is_digit, peek, push_digit, whole_loop, fraction_loop, fraction, scale, parse_flt, word64,
  apply_sign,
}

-- Every character is a digit.
abbrev pub AllDigits : List ℕ → Type 0
AllDigits [] = Unit {0}
AllDigits (c ∷ cs) = (is_digit c ≡ true) × AllDigits cs

-- The decimal number that the digits continue.
unfoldable pub decimal : ℕ → List ℕ → ℕ
decimal acc [] = acc
decimal acc (c ∷ cs) = decimal (acc * 10 + (c - b'0')) cs

decimal-ge : (ds : List ℕ) (acc : ℕ) → acc ≤ decimal acc ds
unfolding decimal
decimal-ge [] acc = omega arith
decimal-ge (c ∷ cs) acc = omega (arith, decimal-ge cs (acc * 10 + (c - b'0')))

whole_loop-decimal :
    (ds rest : List ℕ) (acc : ℕ)
    → AllDigits ds
    → is_digit (peek rest) ≡ false
    → decimal acc ds < word64
    → whole_loop (ds ++ rest) acc ≡ (decimal acc ds, rest)
unfolding whole_loop decimal
whole_loop-decimal [] [] acc a r h = refl
whole_loop-decimal [] (c ∷ cs) acc a r h = ground arith
whole_loop-decimal (c ∷ cs) rest acc a r h =
    let fits = decimal-ge cs (acc * 10 + (c - b'0')) in
    let step : push_digit acc c ≡ acc * 10 + (c - b'0') = omega arith in
    rw (a.0, step) (whole_loop-decimal cs rest (acc * 10 + (c - b'0')) a.1 r h)

fraction_loop-decimal :
    (fs rest : List ℕ) (fuel decimals acc : ℕ)
    → AllDigits fs
    → is_digit (peek rest) ≡ false
    → length fs < fuel
    → length fs ≤ decimals
    → decimal acc fs < word64
    → fraction_loop fuel (fs ++ rest) decimals acc
      ≡ some (decimal acc fs, decimals - length fs, rest)
unfolding fraction_loop decimal
fraction_loop-decimal fs rest zero n acc a r f l h = absurd (omega arith)
fraction_loop-decimal [] [] (suc fuel) n acc a r f l h = ground arith
fraction_loop-decimal [] (c ∷ cs) (suc fuel) n acc a r f l h = ground arith
fraction_loop-decimal (c ∷ cs) rest (suc fuel) n acc a r f l h =
    let fits = decimal-ge cs (acc * 10 + (c - b'0')) in
    let step : push_digit acc c ≡ acc * 10 + (c - b'0') = omega arith in
    let some_left : (n == 0) ≡ false = ground arith in
    let count : n - 1 - length cs ≡ n - suc (length cs) = omega arith in
    rw (a.0, some_left, step, ← count)
      (fraction_loop-decimal cs rest fuel (n - 1) (acc * 10 + (c - b'0')) a.1 r (omega arith)
        (omega arith) h)

-- With no decimals left, a digit keeps the loop where it is, however long it runs.
fraction_loop-stuck :
    (fuel : ℕ) (c : ℕ) (cs : List ℕ) (acc : ℕ)
    → is_digit c ≡ true
    → fraction_loop fuel (c ∷ cs) 0 acc ≡ none
unfolding fraction_loop
fraction_loop-stuck zero c cs acc d = refl
fraction_loop-stuck (suc fuel) c cs acc d = rw d (fraction_loop-stuck fuel c cs acc d)

-- A fraction with more digits than `decimals` is not read to its end, whatever the number of rounds:
-- with `decimals` digits read, the next one is neither read nor skipped.
pub fraction_loop_hangs :
    (fs rest : List ℕ) (c fuel acc : ℕ)
    → AllDigits fs
    → is_digit c ≡ true
    → fraction_loop fuel (fs ++ c ∷ rest) (length fs) acc ≡ none
unfolding fraction_loop
fraction_loop_hangs fs rest c zero acc a d = refl
fraction_loop_hangs [] rest c (suc fuel) acc a d = fraction_loop-stuck (suc fuel) c rest acc d
fraction_loop_hangs (x ∷ fs) rest c (suc fuel) acc a d =
    let pred : suc (length fs) - 1 ≡ length fs = omega arith in
    let left : (suc (length fs) == 0) ≡ false = ground arith in
    rw (a.0, pred) (rw left (fraction_loop_hangs fs rest c fuel (push_digit acc x) a.1 d))

pow_pos : (k : ℕ) → 1 ≤ 10 ^ k
pow_pos zero = omega arith
pow_pos (suc k) = rw (pow-succ' 10 k) (omega (arith, pow_pos k))

scale-pow : (k r : ℕ) → r * 10 ^ k < word64 → scale k r ≡ r * 10 ^ k
unfolding scale
scale-pow zero r h = omega arith
scale-pow (suc k) r h =
    let shifted : r * 10 ^ suc k ≡ r * 10 * 10 ^ k = rw (pow-succ' 10 k) (omega arith) in
    let grows : r * 10 ≤ r * 10 * 10 ^ k = let one = pow_pos k in grind arith in
    let fits : r * 10 % word64 ≡ r * 10 = omega arith in
    rw (shifted, fits) (scale-pow k (r * 10) (omega arith))

parse_flt_read :
    (text rest cur : List ℕ) (n whole result left : ℕ)
    → (peek text == b'-') ≡ false
    → whole_loop text 0 ≡ (whole, rest)
    → fraction rest n whole ≡ some (result, left, cur)
    → result * 10 ^ left < 2 ^ 63
    → parse_flt text n ≡ some (pos (result * 10 ^ left), cur)
unfolding parse_flt
parse_flt_read text rest cur n whole result left m w f h =
    let scaled = scale-pow left result (omega arith) in
    rw (m, w, f, scaled) (unfold apply_sign in ground arith)

peek_digits :
    (ds rest : List ℕ)
    → AllDigits ds
    → (peek rest == b'-') ≡ false
    → (peek (ds ++ rest) == b'-') ≡ false
peek_digits [] rest a h = h
peek_digits (c ∷ cs) rest a h = ground arith

scaled-ge : (r k : ℕ) → r ≤ r * 10 ^ k
scaled-ge r k = let one = pow_pos k in grind arith

-- A number with at most `decimals` digits behind its point is read as that decimal fraction, scaled by
-- `10 ^ decimals`, and the text behind it, which begins with no digit, is left, as long as the scaled
-- number is below 2 ^ 63.
pub parse_flt-point :
    (ds fs rest : List ℕ) (decimals : ℕ)
    → AllDigits ds
    → AllDigits fs
    → is_digit (peek rest) ≡ false
    → length fs ≤ decimals
    → decimal (decimal 0 ds) fs * 10 ^ (decimals - length fs) < 2 ^ 63
    → parse_flt (ds ++ b'.' ∷ (fs ++ rest)) decimals
      ≡ some (pos (decimal (decimal 0 ds) fs * 10 ^ (decimals - length fs)), rest)
parse_flt-point ds fs rest n a b r l h =
    let whole = decimal 0 ds in
    let fits = scaled-ge (decimal whole fs) (n - length fs) in
    let fits' = decimal-ge fs whole in
    parse_flt_read _ (b'.' ∷ (fs ++ rest)) rest n whole _ _ (peek_digits ds _ a refl)
      (whole_loop-decimal ds (b'.' ∷ (fs ++ rest)) 0 a refl (omega arith))
      (unfold fraction in
        fraction_loop-decimal fs rest (suc (length (fs ++ rest))) n whole b r
          (omega (arith, length-append fs rest)) l (omega arith))
      h

no_fraction :
    (rest : List ℕ) (n whole : ℕ)
    → (peek rest == b'.') ≡ false
    → fraction rest n whole ≡ some (whole, n, rest)
unfolding fraction
no_fraction [] n whole p = refl
no_fraction (c ∷ cs) n whole p = rw p refl

-- A number with no point is read, scaled by `10 ^ decimals`, and the text behind it is left, as long
-- as the scaled number is below 2 ^ 63. The text behind it begins with no digit, no point and no minus
-- sign.
pub parse_flt_whole :
    (ds rest : List ℕ) (decimals : ℕ)
    → AllDigits ds
    → is_digit (peek rest) ≡ false
    → (peek rest == b'.') ≡ false
    → (peek rest == b'-') ≡ false
    → decimal 0 ds * 10 ^ decimals < 2 ^ 63
    → parse_flt (ds ++ rest) decimals ≡ some (pos (decimal 0 ds * 10 ^ decimals), rest)
parse_flt_whole ds rest n a r p m h =
    let fits = scaled-ge (decimal 0 ds) n in
    parse_flt_read _ rest rest n (decimal 0 ds) _ _ (peek_digits ds rest a m)
      (whole_loop-decimal ds rest 0 a r (omega arith)) (no_fraction rest n (decimal 0 ds) p) h

whole_loop_passes :
    (ds rest : List ℕ) (acc : ℕ)
    → AllDigits ds
    → is_digit (peek rest) ≡ false
    → (whole : ℕ) × (whole_loop (ds ++ rest) acc ≡ (whole, rest))
unfolding whole_loop
whole_loop_passes [] [] acc a r = (acc, refl)
whole_loop_passes [] (c ∷ cs) acc a r = (acc, rw r refl)
whole_loop_passes (c ∷ cs) rest acc a r =
    rw a.0 (whole_loop_passes cs rest (push_digit acc c) a.1 r)

-- A number with more digits behind its point than `decimals` never makes `parse_flt` return.
pub parse_flt_hangs :
    (ds fs rest : List ℕ) (c decimals : ℕ)
    → AllDigits ds
    → AllDigits fs
    → is_digit c ≡ true
    → length fs ≡ decimals
    → parse_flt (ds ++ b'.' ∷ (fs ++ c ∷ rest)) decimals ≡ none
unfolding parse_flt
parse_flt_hangs ds fs rest c n a b d l =
    let (whole, e) = whole_loop_passes ds (b'.' ∷ (fs ++ c ∷ rest)) 0 a refl in
    rw (e, ← l) (unfold fraction in rw (fraction_loop_hangs fs rest c _ whole b d))

whole_loop_minus : (cs : List ℕ) → whole_loop (b'-' ∷ cs) 0 ≡ (0, b'-' ∷ cs)
unfolding whole_loop
whole_loop_minus cs = refl

scale_zero : (k : ℕ) → scale k 0 ≡ 0
unfolding scale
scale_zero zero = refl
scale_zero (suc k) = scale_zero k

-- A number with a minus sign is read as 0, and none of its text is passed over.
pub parse_flt_minus :
    (cs : List ℕ) (decimals : ℕ) → parse_flt (b'-' ∷ cs) decimals ≡ some (pos 0, b'-' ∷ cs)
unfolding parse_flt
parse_flt_minus cs n = rw (whole_loop_minus cs) (unfold fraction apply_sign in rw (scale_zero n))
