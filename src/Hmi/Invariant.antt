-- ===== src/Hmi/Invariant.antt =====
-- What holds of the LED controller between two calls, and what `set_error` does to the error set.
use Prim.Native.Nat.{bit_and, bit_or}
use smartmeterreader.Prelude.{
  ℕ, zero, suc, ◌+◌, ◌^◌, ◌≤◌, ◌<◌, ◌≡◌, refl, Bool, true, false, not, ◌&&◌, ◌||◌, some, arith, ltb,
  ◌==◌, if◌then◌else◌, eq_bool, ◌⊎◌, inl, inr, Bool-cases, Returns,
}
use smartmeterreader.Prelude.Table.{all_below, all_below_sound}
use smartmeterreader.Hmi.{
  HmiError, code, Hmi, pattern_on, lit, blink_count, is_active, select_error_to_show, set_error,
  new, begin, complement, set_state, show_selected, loop_in, loop, State, intra_pattern_delay,
  pattern_off, no_error_enter, no_error_off,
}
use smartmeterreader.Hmi.Select.{IsNext, select_loop-IsNext}

pub record IsValid (h : Hmi) : Type 0 where
  pub errors_in : h.active_errors < 8
  pub idx_in : h.error_idx ≤ 3
  pub blinks_in : h.blinks_remaining ≤ 3
  pub blinks_left : h.state ≡ pattern_on → 0 < h.blinks_remaining
  pub led_is : h.led ≡ lit h.state

-- The object after construction and `begin` is valid.
pub begin-IsValid : (pin : ℕ) → IsValid (begin (new pin))
unfolding begin new lit
begin-IsValid pin = ground arith

blink_count_lem : (idx : ℕ) → idx < 3 → blink_count idx ≡ idx + 1
blink_count_lem zero h = refl
blink_count_lem (suc zero) h = refl
blink_count_lem (suc (suc zero)) h = refl
blink_count_lem (suc (suc (suc idx))) h = absurd (omega arith)

-- On a valid object the selection returns: with no active error it reports that and changes nothing;
-- otherwise it moves to the error whose turn is next and loads its number of blinks, one more than its
-- index.
pub select_error_to_show_lem :
    (h : Hmi)
    → IsValid h
    → ((h.active_errors ≡ 0) × (select_error_to_show h ≡ some (h, false)))
      ⊎ ((idx : ℕ) × (select_error_to_show h
            ≡ some (record h { error_idx = idx; blinks_remaining = idx + 1 }, true))
          × IsNext h.active_errors h.error_idx idx)
unfolding select_error_to_show
select_error_to_show_lem h v = elim (Bool-cases (h.active_errors == 0)) [
  | inl e ↦ inl (ground arith, rw e)
  | inr e ↦
      let (idx, found, next) =
        select_loop-IsNext h.active_errors h.error_idx v.errors_in v.idx_in (ground arith) in
      inr (idx, rw (e, found, blink_count_lem idx next.in_range), next)
]

set_test : ℕ → ℕ → ℕ → Bool
set_test i j errors =
    eq_bool (is_active (bit_or errors (2 ^ i)) j) (i == j || is_active errors j)
    && (eq_bool (is_active (bit_and errors (complement (2 ^ i))) j)
          (not (i == j) && is_active errors j)
        && (ltb (bit_or errors (2 ^ i)) 8 && ltb (bit_and errors (complement (2 ^ i))) 8))

set_table : all_below 3 (λ i. all_below 3 (λ j. all_below 8 (set_test i j))) ≡ true
unfolding all_below set_test is_active
set_table = refl

set_test-true : (i j errors : ℕ) → i < 3 → j < 3 → errors < 8 → set_test i j errors ≡ true
set_test-true i j errors hi hj he =
    all_below_sound 8 (set_test i j) errors
      (all_below_sound 3 (λ j. all_below 8 (set_test i j)) j
        (all_below_sound 3 (λ i. all_below 3 (λ j. all_below 8 (set_test i j))) i set_table hi) hj)
      he

eq_bool-eq : (a b : Bool) → eq_bool a b ≡ true → a ≡ b
eq_bool-eq a b h = ground arith

code-lt : (e : HmiError) → code e < 3
code-lt e = ground arith

-- With an error set within its three bits, `set_error` keeps it there and gives the named error the
-- given value; it changes no other error.
pub set_error_lem :
    (h : Hmi) (e e' : HmiError) (active : Bool)
    → h.active_errors < 8
    → ((set_error h e active).active_errors < 8)
      × (is_active (set_error h e active).active_errors (code e')
          ≡ (if code e == code e' then active else is_active h.active_errors (code e')))
unfolding set_error set_test
set_error_lem h e e' active b = ground (
  arith,
  set_test-true (code e) (code e') h.active_errors (code-lt e) (code-lt e') b,
  code-lt e,
  eq_bool-eq (is_active (bit_or h.active_errors (2 ^ code e)) (code e'))
      (code e == code e' || is_active h.active_errors (code e')),
  eq_bool-eq (is_active (bit_and h.active_errors (complement (2 ^ code e))) (code e'))
      (not (code e == code e') && is_active h.active_errors (code e')),
)

-- `set_error` keeps the invariant.
pub set_error-IsValid :
    (h : Hmi) (e : HmiError) (active : Bool) → IsValid h → IsValid (set_error h e active)
unfolding set_error
set_error-IsValid h e active v = ground (arith, set_error_lem h e e active)

select-IsValid :
    (h : Hmi) (entry idx : ℕ)
    → IsValid h
    → idx < 3
    → IsValid
        (set_state (record h { error_idx = idx; blinks_remaining = idx + 1 }) pattern_on entry)
unfolding set_state lit
select-IsValid h entry idx v lt = ground arith

show_selected-IsValid : (h : Hmi) (entry : ℕ) → IsValid h → Returns IsValid (show_selected h entry)
unfolding show_selected
show_selected-IsValid h entry v = elim (select_error_to_show_lem h v) [
  | inl (none_active, e) ↦ rw e (unfold set_state lit in ground arith)
  | inr (idx, e, next) ↦ rw e (select-IsValid h entry idx v next.in_range)
]

loop_in-IsValid :
    (s : State) (h : Hmi) (now entry : ℕ)
    → h.state ≡ s
    → IsValid h
    → Returns IsValid (loop_in s h now entry)
unfolding loop_in set_state lit
loop_in-IsValid intra_pattern_delay h now entry e v =
    ground (arith, show_selected-IsValid h entry v)
loop_in-IsValid pattern_on h now entry e v = ground arith
loop_in-IsValid pattern_off h now entry e v = ground arith
loop_in-IsValid no_error_enter h now entry e v = ground (arith, show_selected-IsValid h entry v)
loop_in-IsValid no_error_off h now entry e v = ground (arith, show_selected-IsValid h entry v)

-- Each call of `loop` on a valid object returns, and keeps it valid: three bits of errors, an index of
-- at most 3, at most 3 blinks and at least one of them in `STATE_PATTERN_ON`, where the counter is
-- decremented, and the LED as the state says.
pub loop-IsValid : (h : Hmi) (now entry : ℕ) → IsValid h → Returns IsValid (loop h now entry)
unfolding loop
loop-IsValid h now entry v = loop_in-IsValid h.state h now entry refl v

show_selected-active_errors :
    (h : Hmi) (entry : ℕ)
    → IsValid h
    → Returns (λ h'. h'.active_errors ≡ h.active_errors) (show_selected h entry)
unfolding show_selected
show_selected-active_errors h entry v = elim (select_error_to_show_lem h v) [
  | inl (none_active, e) ↦ rw e (unfold set_state lit in refl)
  | inr (idx, e, next) ↦ rw e (unfold set_state lit in refl)
]

loop_in-active_errors :
    (s : State) (h : Hmi) (now entry : ℕ)
    → IsValid h
    → Returns (λ h'. h'.active_errors ≡ h.active_errors) (loop_in s h now entry)
unfolding loop_in set_state lit
loop_in-active_errors intra_pattern_delay h now entry v =
    ground (arith, show_selected-active_errors h entry v)
loop_in-active_errors pattern_on h now entry v = ground arith
loop_in-active_errors pattern_off h now entry v = ground arith
loop_in-active_errors no_error_enter h now entry v =
    ground (arith, show_selected-active_errors h entry v)
loop_in-active_errors no_error_off h now entry v =
    ground (arith, show_selected-active_errors h entry v)

-- The errors are changed by `set_error` only.
pub loop-active_errors :
    (h : Hmi) (now entry : ℕ)
    → IsValid h
    → Returns (λ h'. h'.active_errors ≡ h.active_errors) (loop h now entry)
unfolding loop
loop-active_errors h now entry v = loop_in-active_errors h.state h now entry v
