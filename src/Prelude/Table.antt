-- ===== src/Prelude/Table.antt =====
-- Checks of a test at every number of a small range.
use smartmeterreader.Prelude.{ℕ, zero, suc, ◌<◌, ◌≡◌, Bool, true, false, arith, if◌then◌else◌}

unfoldable pub all_below : ℕ → (ℕ → Bool) → Bool
all_below zero test = true
all_below (suc bound) test = if test bound then all_below bound test else false

pub all_below_sound :
    (bound : ℕ) (test : ℕ → Bool) (k : ℕ) → all_below bound test ≡ true → k < bound → test k ≡ true
unfolding all_below
all_below_sound zero test k passed lt = absurd (omega arith)
all_below_sound (suc bound) test k passed lt = ground (arith, all_below_sound bound test k)
