-- ===== src/Hmi/Pattern.antt =====
-- The blink code that a selected error shows, over the calls of `loop`, at whatever times they come.
use smartmeterreader.Prelude.{
  ℕ, zero, suc, ◌+◌, ◌<◌, ◌≡◌, ◌≢◌, refl, Bool, true, false, Option, some, arith, List, [], ◌∷◌,
  ◌>>=◌, sub32, ◌%◌, leb, if◌then◌else◌, Bool-cases, inl, inr, ◌==◌,
}
use smartmeterreader.Hmi.{
  Hmi, State, pattern_on, pattern_off, intra_pattern_delay, no_error_enter, no_error_off, loop_in,
  loop, set_state, lit, set_led, show_selected,
}
use smartmeterreader.Hmi.Select.{IsNext}
use smartmeterreader.Hmi.Invariant.{IsValid, select_error_to_show_lem}

abbrev is_over : State → Bool
is_over intra_pattern_delay = true
is_over pattern_on = false
is_over pattern_off = false
is_over no_error_enter = false
is_over no_error_off = false

-- The controller's state and LED after each of a sequence of calls, each with its two readings of the
-- clock, up to the call that ends the blink code.
unfoldable pub trace : Hmi → List (ℕ × ℕ) → Option (List (State × Bool))
trace h [] = some []
trace h ((now, entry) ∷ calls) = do
  h' ← loop h now entry
  let more = trace h' calls
  rest ← if is_over h'.state then some [] else more
  some ((h'.state, h'.led) ∷ rest)

-- A part of a pattern: what shows, and the least time in ms that it shows.
pub record Part : Type 0 where
  pub shows : State × Bool
  pub ms : ℕ

abbrev flash : Part
flash = record { shows = (pattern_on, true); ms = 100 }

abbrev pause : Part
pause = record { shows = (pattern_off, false); ms = 200 }

abbrev gap : Part
gap = record { shows = (intra_pattern_delay, false); ms = 1000 }

-- The blink code of `n` flashes, each with a pause behind it.
abbrev pub blink_code : ℕ → List Part
blink_code zero = gap ∷ []
blink_code (suc n) = flash ∷ pause ∷ blink_code n

-- What shows after each call while a pattern is played that is at its first part since `last`: a call
-- before the part's time is up changes nothing, the first call from then on goes on to the next part,
-- and the last part ends it.
abbrev pub play : List Part → ℕ → List (ℕ × ℕ) → List (State × Bool)
play (part ∷ next ∷ parts) last ((now, entry) ∷ calls) =
    if leb part.ms (sub32 now last)
    then next.shows ∷ play (next ∷ parts) entry calls
    else part.shows ∷ play (part ∷ next ∷ parts) last calls
play _ last calls = []

abbrev IsOn : ℕ → Hmi → Type 0
IsOn n h = (h.state ≡ pattern_on) × (h.led ≡ true) × (h.blinks_remaining ≡ suc n)

abbrev IsOff : ℕ → Hmi → Type 0
IsOff n h = (h.state ≡ pattern_off) × (h.led ≡ false) × (h.blinks_remaining ≡ n)

loop_on_early :
    (n : ℕ) (h : Hmi) (now entry : ℕ)
    → IsOn n h
    → leb 100 (sub32 now h.state_entry_time) ≡ false
    → loop h now entry ≡ some h
unfolding loop loop_in
loop_on_early n h now entry (s, l, k) e = rw (s, e) refl

loop_on_due :
    (n : ℕ) (h : Hmi) (now entry : ℕ)
    → n < 255
    → IsOn n h
    → leb 100 (sub32 now h.state_entry_time) ≡ true
    → loop h now entry ≡ some (set_state (record h { blinks_remaining = n }) pattern_off entry)
unfolding loop loop_in
loop_on_due n h now entry lt (s, l, k) e =
    let k' : (suc n + 255) % 256 ≡ n = omega arith in rw (s, e, k) (rw k' refl)

loop_off_early :
    (n : ℕ) (h : Hmi) (now entry : ℕ)
    → IsOff n h
    → leb 200 (sub32 now h.state_entry_time) ≡ false
    → loop h now entry ≡ some h
unfolding loop loop_in
loop_off_early n h now entry (s, l, k) e = rw (s, e) refl

loop_off_done :
    (h : Hmi) (now entry : ℕ)
    → IsOff 0 h
    → leb 200 (sub32 now h.state_entry_time) ≡ true
    → loop h now entry ≡ some (set_state h intra_pattern_delay entry)
unfolding loop loop_in
loop_off_done h now entry (s, l, k) e = rw (s, e, k) refl

loop_off_more :
    (n : ℕ) (h : Hmi) (now entry : ℕ)
    → IsOff (suc n) h
    → leb 200 (sub32 now h.state_entry_time) ≡ true
    → loop h now entry ≡ some (set_state h pattern_on entry)
unfolding loop loop_in
loop_off_more n h now entry (s, l, k) e =
    let more : (h.blinks_remaining == 0) ≡ false = ground arith in rw (s, e, more) refl

-- While a flash or a pause shows, the calls play what is left of the code.
abbrev Plays : List (ℕ × ℕ) → Type 0
Plays calls =
    (n : ℕ) (h : Hmi)
    → n < 255
    → (IsOn n h → trace h calls ≡ some (play (blink_code (suc n)) h.state_entry_time calls))
      × (IsOff n h → trace h calls ≡ some (play (pause ∷ blink_code n) h.state_entry_time calls))

on-Plays :
    (now entry : ℕ) (calls : List (ℕ × ℕ)) (n : ℕ) (h : Hmi)
    → Plays calls
    → n < 255
    → IsOn n h
    → trace h ((now, entry) ∷ calls)
      ≡ some (play (blink_code (suc n)) h.state_entry_time ((now, entry) ∷ calls))
unfolding trace set_state set_led lit
on-Plays now entry calls n h plays lt i =
    elim (Bool-cases (leb 100 (sub32 now h.state_entry_time))) [
      | inl due ↦
          let h₁ = set_state (record h { blinks_remaining = n }) pattern_off entry in
          rw (loop_on_due n h now entry lt i due)
            (rw (due, (plays n h₁ lt).1 (refl, refl, refl)) refl)
      | inr early ↦
          rw (loop_on_early n h now entry i early) (rw (early, (plays n h lt).0 i, i.0, i.1) refl)
    ]

off-Plays :
    (now entry : ℕ) (calls : List (ℕ × ℕ)) (n : ℕ) (h : Hmi)
    → Plays calls
    → n < 255
    → IsOff n h
    → trace h ((now, entry) ∷ calls)
      ≡ some (play (pause ∷ blink_code n) h.state_entry_time ((now, entry) ∷ calls))
unfolding trace set_state set_led lit
off-Plays now entry calls zero h plays lt i =
    elim (Bool-cases (leb 200 (sub32 now h.state_entry_time))) [
      | inl due ↦ rw (loop_off_done h now entry i due) (rw due refl)
      | inr early ↦
          rw (loop_off_early zero h now entry i early)
            (rw (early, (plays zero h lt).1 i, i.0, i.1) refl)
    ]
off-Plays now entry calls (suc n) h plays lt i =
    elim (Bool-cases (leb 200 (sub32 now h.state_entry_time))) [
      | inl due ↦
          let h₁ = set_state h pattern_on entry in
          rw (loop_off_more n h now entry i due)
            (rw (due, (plays n h₁ (omega arith)).0 (refl, refl, i.2)) refl)
      | inr early ↦
          rw (loop_off_early (suc n) h now entry i early)
            (rw (early, (plays (suc n) h lt).1 i, i.0, i.1) refl)
    ]

trace-Plays : (calls : List (ℕ × ℕ)) → Plays calls
unfolding trace
trace-Plays [] zero h lt = (λ i. refl, λ i. refl)
trace-Plays [] (suc n) h lt = (λ i. refl, λ i. refl)
trace-Plays ((now, entry) ∷ calls) n h lt =
    let plays = trace-Plays calls in
    (on-Plays now entry calls n h plays lt, off-Plays now entry calls n h plays lt)

-- On a valid object with an active error, the selection returns the next active one, in cyclic order, and
-- the calls of `loop` from then on, whenever they come, show the blink code of that error to its end: as
-- many flashes as the error's number, counted from 1, of at least 100 ms each, with a pause of at least
-- 200 ms behind each. A call before the time of a flash or a pause is up changes nothing that is seen, and
-- the first call from then on ends it.
pub show_selected-trace :
    (h : Hmi) (entry : ℕ) (calls : List (ℕ × ℕ))
    → IsValid h
    → h.active_errors ≢ 0
    → (idx : ℕ) × IsNext h.active_errors h.error_idx idx
      × ((show_selected h entry >>= λ g. trace g calls)
          ≡ some (play (blink_code (suc idx)) entry calls))
unfolding show_selected set_state set_led lit
show_selected-trace h entry calls v active = elim (select_error_to_show_lem h v) [
  | inl none_active ↦ absurd (active none_active.0)
  | inr (idx, e, next) ↦
      let g =
        set_state (record h { error_idx = idx; blinks_remaining = idx + 1 }) pattern_on entry in
      (
        idx,
        next,
        rw e ((trace-Plays calls idx g (omega (arith, next.in_range))).0 (refl, refl, omega arith)),
      )
]
