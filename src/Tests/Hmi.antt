-- ===== src/Tests/Hmi.antt =====
-- The status light with errors 0 and 2 active.
use smartmeterreader.Prelude.{
  ℕ, ◌+◌, ◌≡◌, ◌⊎◌, refl, arith, true, false, List, [], ◌∷◌, some, Returns, ◌>>=◌, suc,
}
use smartmeterreader.Hmi.{
  Hmi, HmiError, new, begin, loop, set_error, select_error_to_show, pattern_on, pattern_off,
  intra_pattern_delay, show_selected, set_led, is_active,
}
use smartmeterreader.Hmi.Invariant.{
  IsValid, begin-IsValid, set_error-IsValid, loop-IsValid, select_error_to_show_lem,
}
use smartmeterreader.Hmi.Select.{IsNext}
use smartmeterreader.Hmi.Pattern.{trace, blink_code, play, show_selected-trace}

-- After `begin` all three errors are active; the charger's is taken back.
abbrev light : Hmi
light = set_error (begin (new 5)) HmiError.no_charger_connection false

light-IsValid : IsValid light
light-IsValid =
    set_error-IsValid (begin (new 5)) HmiError.no_charger_connection false (begin-IsValid 5)

loop-IsValid_example : Returns IsValid (loop light 1500 1501)
loop-IsValid_example = loop-IsValid light 1500 1501 light-IsValid

select_error_to_show_lem_example :
    ((light.active_errors ≡ 0) × (select_error_to_show light ≡ some (light, false)))
    ⊎ ((idx : ℕ) × (select_error_to_show light
          ≡ some (record light { error_idx = idx; blinks_remaining = idx + 1 }, true))
        × IsNext light.active_errors light.error_idx idx)
select_error_to_show_lem_example = select_error_to_show_lem light light-IsValid

-- The first and the third call come before the part that shows is over.
abbrev calls : List (ℕ × ℕ)
calls = (1050, 1050) ∷ (1100, 1100) ∷ (1200, 1200) ∷ (1305, 1306) ∷ (1400, 1400) ∷ []

show_selected-trace_example :
    (idx : ℕ) × IsNext light.active_errors light.error_idx idx
    × ((show_selected light 1000 >>= λ g. trace g calls)
        ≡ some (play (blink_code (suc idx)) 1000 calls))
show_selected-trace_example =
    show_selected-trace light 1000 calls light-IsValid
      (unfold set_error begin new set_led is_active in omega arith)

show_test :
    play (blink_code 1) 1000 calls
    ≡ (pattern_on, true)
      ∷ (pattern_off, false)
      ∷ (pattern_off, false)
      ∷ (intra_pattern_delay, false)
      ∷ []
show_test = refl
