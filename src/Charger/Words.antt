-- ===== src/Charger/Words.antt =====
-- Words that stand in memory as the bus sends them, high byte first, on a machine that reads the low byte
-- first.
use smartmeterreader.Prelude.{ℕ, ◌+◌, ◌*◌, ◌<◌, ◌≡◌, arith}
use smartmeterreader.Charger.{swap_b16, swap_b32}

-- The number that the machine reads from two bytes, and the one that the bus means by them.
abbrev pub little_endian : ℕ → ℕ → ℕ
little_endian b0 b1 = b0 + 256 * b1

abbrev pub big_endian : ℕ → ℕ → ℕ
big_endian b0 b1 = 256 * b0 + b1

-- Of two bytes that the machine reads low byte first, `swap_b16` makes the number that the bus sends
-- high byte first, and of four bytes `swap_b32` makes the number of 32 bits.
pub swap_b32-big_endian :
    (b0 b1 b2 b3 : ℕ)
    → b0 < 256
    → b1 < 256
    → b2 < 256
    → b3 < 256
    → (swap_b16 (little_endian b0 b1) ≡ big_endian b0 b1)
      × (swap_b32 (little_endian b0 b1) (little_endian b2 b3)
          ≡ 65536 * big_endian b0 b1 + big_endian b2 b3)
unfolding swap_b16 swap_b32
swap_b32-big_endian b0 b1 b2 b3 h0 h1 h2 h3 = (omega arith, omega arith)

-- `swap_b16` is its own inverse on words of 16 bits.
pub swap_b16-swap_b16 : (v : ℕ) → v < 65536 → swap_b16 (swap_b16 v) ≡ v
unfolding swap_b16
swap_b16-swap_b16 v h = omega arith
