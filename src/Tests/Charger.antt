-- ===== src/Tests/Charger.antt =====
-- The charge controller behind a fuse of 25 A.
use smartmeterreader.App.Wire.{serialize_request-limit}
use smartmeterreader.App.{memory_of}
use smartmeterreader.Modbus.Frame.{serialize_request}
use smartmeterreader.Prelude.{
  ℕ, ◌+◌, ◌*◌, ◌≡◌, ◌⊎◌, refl, arith, List, [], ◌∷◌, leb, sub32, if◌then◌else◌, u8, ◌/◌, ◌%◌, ◌≤◌,
  replicate, ◌++◌,
}
use smartmeterreader.Prelude.Int.{pos, ◌+ℤ◌, ◌≤ℤ◌, ◌-ℤ◌, signed, pattern_of, ◌/ℤ◌}
use smartmeterreader.Meter.Values.{Values, zero_values}
use smartmeterreader.Modbus.Tcp.{ok}
use smartmeterreader.Charger.{
  Charger, Env, sent, set_charger_limit, new, set_state, determine_current_limit, current_of,
  swap_b16, swap_b32, smart_meter_timeout_ms, poll_interval_ms, set_max_charging_current_request,
  limit_loop, limit_by, is_any_phase_active, phase_limit, handle_modbus_request_done, loop, loop_in,
  on_smart_meter_frame, begin, enter_state, start_request, on_done, update_limit, set_charge_limit,
  charger_values,
}
use smartmeterreader.Charger.Limit.{determine_current_limit-margin, margin, IsInt32}
use smartmeterreader.Charger.Words.{little_endian, big_endian, swap_b32-big_endian}
use smartmeterreader.Charger.Invariant.{
  IsSafe, LimitIsSafe, Call, call_begin, call_loop, call_frame, call_buffer, call_done, after_all,
  reachable-IsSafe, set_state-set_charger_limit,
}

abbrev house : Values
house = record zero_values { current_ma = pos 18500 ∷ pos 3000 ∷ pos 400 ∷ [] }

abbrev charging : Values
charging = record zero_values { current_ma = pos 10000 ∷ pos 0 ∷ pos 0 ∷ [] }

abbrev controller : Charger
controller = record (new 25000) { smart_meter_meas = house; charger_meter_meas = charging }

abbrev env_at : ℕ → Env
env_at t = record { t = t; entry = t; answer = ok }

-- The charger draws 10 A from the first phase.
abbrev charging_words : List ℕ
charging_words = replicate 8 0 ++ swap_b16 10000 ∷ replicate 29 0

abbrev calls : List Call
calls =
    call_begin 100
    ∷ call_frame house 3000
    ∷ call_loop (env_at 3000)
    ∷ call_buffer charging_words
    ∷ call_done 0
    ∷ call_loop (env_at 3005)
    ∷ call_done 0
    ∷ call_loop (env_at 3010)
    ∷ call_done 0
    ∷ []

-- The charger may draw 10 A + 6.5 A; 16 A are sent high byte first.
limit_test : determine_current_limit controller ≡ pos 16500
unfolding determine_current_limit limit_loop limit_by is_any_phase_active phase_limit new ◌+ℤ◌ ◌-ℤ◌
    signed pattern_of
limit_test = refl

word_test : swap_b16 16 ≡ 4096
unfolding swap_b16
word_test = refl

reachable-IsSafe_example : IsSafe (after_all (new 25000) calls)
reachable-IsSafe_example = reachable-IsSafe 25000 calls (omega arith)

determine_current_limit-margin_example :
    (determine_current_limit controller ≡ pos 0)
    ⊎ (determine_current_limit controller +ℤ current_of house 0
        ≤ℤ pos 25000 +ℤ current_of charging 0)
unfolding new is_any_phase_active
determine_current_limit-margin_example =
    determine_current_limit-margin controller 0 (omega arith) refl in_range
  where
    in_range : IsInt32 (margin controller 0)
    in_range = unfold new ◌+ℤ◌ ◌-ℤ◌ in ground arith

controller-IsSafe : IsSafe controller
unfolding new
controller-IsSafe = record { fuse_limit = omega arith; word = omega arith; limit = refl }

set_state-set_charger_limit_example :
    ((set_state controller set_charger_limit (env_at 2500)).0.limit_ma ≡ (
      let age = sub32 2500 controller.last_smart_meter_frame_time in
      if leb smart_meter_timeout_ms age
      then pos 0
      else if leb age poll_interval_ms
      then determine_current_limit controller
      else controller.limit_ma))
    × ((set_state controller set_charger_limit (env_at 2500)).1
        ≡ sent set_max_charging_current_request ∷ [])
    × LimitIsSafe controller.fuse_limit_ma
        (set_state controller set_charger_limit (env_at 2500)).0.limit_ma
        (set_state controller set_charger_limit (env_at 2500)).0.max_charging_current_buf
set_state-set_charger_limit_example =
    set_state-set_charger_limit controller (env_at 2500) controller-IsSafe

swap_b32-big_endian_example :
    (swap_b16 (little_endian 1 2) ≡ big_endian 1 2)
    × (swap_b32 (little_endian 1 2) (little_endian 3 4) ≡ 65536 * big_endian 1 2 + big_endian 3 4)
swap_b32-big_endian_example =
    swap_b32-big_endian 1 2 3 4 (omega arith) (omega arith) (omega arith) (omega arith)

-- 25 A less the 18.5 A of the house, of which 10 A are the charger's own.
limit_set : (after_all (new 25000) calls).limit_ma ≡ pos 16500
unfolding new handle_modbus_request_done loop loop_in on_smart_meter_frame begin set_state
    enter_state start_request on_done update_limit set_charge_limit determine_current_limit
    limit_loop limit_by is_any_phase_active charger_values swap_b16 phase_limit swap_b32 pattern_of
    signed ◌+ℤ◌ ◌-ℤ◌ ◌/ℤ◌
limit_set = refl

serialize_request-limit_example :
    (serialize_request
        (memory_of (after_all (new 25000) calls))
        set_max_charging_current_request
        258
        272
      ≡ u8 (258 / 256)
        ∷ u8 258
        ∷ 0
        ∷ 0
        ∷ 0
        ∷ 9
        ∷ 1
        ∷ 16
        ∷ 19
        ∷ 140
        ∷ 0
        ∷ 1
        ∷ 2
        ∷ 16500 / 1000 / 256
        ∷ 16500 / 1000 % 256
        ∷ [])
    × (16500 ≤ (after_all (new 25000) calls).fuse_limit_ma)
serialize_request-limit_example =
    serialize_request-limit 25000 calls 16500 258 (omega arith) limit_set
