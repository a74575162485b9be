-- ===== src/Logging/Hex.antt =====
-- The dump of a buffer in hexadecimal digits.
use smartmeterreader.Prelude.{
  ℕ, zero, suc, ◌+◌, ◌-◌, ◌*◌, ◌/◌, ◌%◌, ◌≤◌, ◌<◌, ◌≡◌, refl, ap, arith, true, ltb, if◌then◌else◌,
  List, [], ◌∷◌, length, take, ◌∙◌,
}
use smartmeterreader.Logging.{to_hex, hex_loop}

-- The value of a digit, upper case.
abbrev pub of_hex : ℕ → ℕ
of_hex c = if ltb c 58 then c - b'0' else c - 55

-- The bytes that a dump shows, three characters for each.
abbrev pub read_hex : List ℕ → List ℕ
read_hex (hi ∷ lo ∷ _ ∷ text) = (16 * of_hex hi + of_hex lo) ∷ read_hex text
read_hex _ = []

abbrev pub AllBytes : List ℕ → Type 0
AllBytes [] = Unit {0}
AllBytes (b ∷ buf) = (b < 256) × AllBytes buf

of_hex-to_hex : (n : ℕ) → n < 16 → of_hex (to_hex n) ≡ n
unfolding to_hex
of_hex-to_hex n h = ground arith

byte_of_hex : (b : ℕ) → b < 256 → 16 * of_hex (to_hex (b / 16)) + of_hex (to_hex (b % 16)) ≡ b
byte_of_hex b h =
    omega (arith, of_hex-to_hex (b / 16) (omega arith), of_hex-to_hex (b % 16) (omega arith))

read_hex-from :
    (k : ℕ) (buf : List ℕ)
    → k ≤ 100
    → AllBytes buf
    → (read_hex (hex_loop (300 - 3 * k) buf) ≡ take k buf)
      × (length (hex_loop (300 - 3 * k) buf) ≤ 3 * k)
unfolding hex_loop
read_hex-from k [] h a = (take_nil k, omega arith)
  where
    take_nil : (k : ℕ) → ◌≡◌ {A = List ℕ} [] (take k [])
    take_nil zero = refl
    take_nil (suc k) = refl
read_hex-from zero (b ∷ buf) h a = (refl, omega arith)
read_hex-from (suc k) (b ∷ buf) h (ab, a) =
    let (text, size) = read_hex-from k buf (omega arith) a in
    let starts : ltb (300 - 3 * suc k) 300 ≡ true = ground arith in
    let goes : 300 - 3 * suc k + 3 ≡ 300 - 3 * k = omega arith in
    rw starts (
      rw goes (
        ap (◌∷◌ (16 * of_hex (to_hex (b / 16)) + of_hex (to_hex (b % 16)))) text
            ∙ ap (λ c. c ∷ take k buf) (byte_of_hex b ab),
        omega (arith, size),
      ))

-- The dump fits the buffer of 301 characters with its closing 0, and read back it is the first 100 bytes of
-- the buffer, which are all of it if there are no more.
pub read_hex-hex_loop :
    (buf : List ℕ)
    → AllBytes buf
    → (read_hex (hex_loop 0 buf) ≡ take 100 buf) × (length (hex_loop 0 buf) ≤ 300)
read_hex-hex_loop buf a = read_hex-from 100 buf (omega arith) a
