-- ===== src/Tests/NetworkLog.antt =====
-- The log with two bytes waiting.
use smartmeterreader.Prelude.{◌+◌, ◌≡◌, refl, arith, true, [], ◌∷◌, ◌++◌, Returns}
use smartmeterreader.NetworkLog.{
  NetworkLog, new, set_enable, set_frame_callback, write_buffer, loop,
}
use smartmeterreader.NetworkLog.Stream.{IsOpen, stream, write_buffer-stream}

abbrev waiting : NetworkLog
waiting = record (set_frame_callback (set_enable new true) true) {
  pending = 72 ∷ 105 ∷ [];
  frame_start_time = 100;
}

waiting-IsOpen : IsOpen waiting
unfolding new set_enable set_frame_callback
waiting-IsOpen = record { enabled = refl; connected = refl; has_room = omega arith; all_fit = tt }

write_buffer-stream_example :
    Returns
      (λ l. IsOpen l × (stream l ≡ stream waiting ++ (33 ∷ 10 ∷ [])))
      (write_buffer waiting (33 ∷ 10 ∷ []) (λ n. 100 + n))
write_buffer-stream_example =
    write_buffer-stream waiting (33 ∷ 10 ∷ []) (λ n. 100 + n) waiting-IsOpen

-- The frame is sent when it is older than 50 ms.
loop_test : (loop waiting 200).frames ≡ (72 ∷ 105 ∷ []) ∷ []
unfolding loop new set_enable set_frame_callback
loop_test = refl
