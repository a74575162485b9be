-- ===== src/Hmi/Select.antt =====
-- `select_error_to_show` ends within its rounds, and takes turns; `set_error` sets one bit.
use smartmeterreader.Prelude.{
  ℕ, ◌+◌, ◌-◌, ◌%◌, ◌≤◌, ◌<◌, ◌≡◌, ◌≢◌, refl, Bool, true, false, not, ◌&&◌, ◌||◌, Option, some,
  arith, ltb, leb, ◌==◌, min,
}
use smartmeterreader.Prelude.Table.{all_below, all_below_sound}
use smartmeterreader.Hmi.{is_active, select_loop}

-- How many other errors come between the last one shown and error `idx`, in cyclic order.
abbrev pub turns : ℕ → ℕ → ℕ
turns last idx = (idx + 5 - min last 2) % 3

-- Error `idx` is active, and no other active error would have its turn earlier.
pub record IsNext (errors last idx : ℕ) : Type 0 where
  pub in_range : idx < 3
  pub active : is_active errors idx ≡ true
  pub first : (j : ℕ) → j < 3 → is_active errors j ≡ true → turns last idx ≤ turns last j

first_test : ℕ → ℕ → ℕ → ℕ → Bool
first_test errors last idx j = not (is_active errors j) || leb (turns last idx) (turns last j)

found_test : ℕ → ℕ → Option (ℕ × Bool) → Bool
unfolding first_test
found_test errors last (some (idx, true)) =
    ltb idx 3 && (is_active errors idx && all_below 3 (first_test errors last idx))
found_test errors last _ = false

select_test : ℕ → ℕ → Bool
unfolding found_test
select_test errors last = errors == 0 || found_test errors last (select_loop 4 last errors last)

select_table : all_below 8 (λ e. all_below 4 (select_test e)) ≡ true
unfolding all_below select_test select_loop is_active
select_table = refl

select_test-true : (errors last : ℕ) → errors < 8 → last ≤ 3 → select_test errors last ≡ true
select_test-true errors last he hl =
    all_below_sound 4 (select_test errors) last
      (all_below_sound 8 (λ e. all_below 4 (select_test e)) errors select_table he) (omega arith)

found_test_sound :
    (errors last : ℕ) (r : Option (ℕ × Bool))
    → found_test errors last r ≡ true
    → (idx : ℕ) × (r ≡ some (idx, true)) × IsNext errors last idx
unfolding found_test
found_test_sound errors last (some (idx, true)) h = (
  idx,
  refl,
  record {
    in_range = ground arith;
    active = ground arith;
    first = λ j hj a. ground (arith, all_below_sound 3 (first_test errors last idx) j);
  },
)
found_test_sound errors last _ h = cc

-- With an active error the loop finds the next one in cyclic order within four rounds.
pub select_loop-IsNext :
    (errors last : ℕ)
    → errors < 8
    → last ≤ 3
    → errors ≢ 0
    → (idx : ℕ) × (select_loop 4 last errors last ≡ some (idx, true)) × IsNext errors last idx
unfolding select_test
select_loop-IsNext errors last he hl ne =
    found_test_sound errors last (select_loop 4 last errors last)
      (ground (arith, select_test-true errors last he hl))
