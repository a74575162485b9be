-- ===== src/Tests/SmartMeter.antt =====
-- The telegram of the parser's tests, in three readings with a read error between them.
use smartmeterreader.Prelude.{
  ℕ, ◌≡◌, refl, true, List, [], ◌∷◌, ◌++◌, Option, none, some, take, drop, Returns,
}
use smartmeterreader.Meter.Parser.Telegram.{telegram}
use smartmeterreader.Meter.Parser.Footer.{IsIdle, frame_of}
use smartmeterreader.Meter.Tokenizer.Entry.{doubled}
use smartmeterreader.SmartMeter.{SmartMeter, Env, new, set_frame_callback}
use smartmeterreader.SmartMeter.Delivery.{run, frames_of, run-telegram}
use smartmeterreader.Tests.Meter.{
  entries, model, blanks, check, measured, is_telegram, entries_taken, init-IsIdle,
}

abbrev reader : SmartMeter
reader = set_frame_callback new true

abbrev env_of : Option (List ℕ) → Env
env_of reading = record { reading = reading; frame_time = λ n. 400; t = 500 }

abbrev readings : List Env
readings =
    env_of (some (take 3 (telegram model blanks entries check)))
    ∷ env_of none
    ∷ env_of (some (take 10 (drop 3 (telegram model blanks entries check))))
    ∷ env_of (some (drop 13 (telegram model blanks entries check)))
    ∷ []

run-telegram_example :
    Returns
      (λ m'.
        IsIdle m'.parser
        × (frames_of m'.link.events
            ≡ frames_of reader.link.events ++ (doubled model, frame_of measured) ∷ []))
      (run reader readings)
unfolding new set_frame_callback
run-telegram_example =
    run-telegram model blanks entries check reader measured readings refl refl init-IsIdle
      is_telegram entries_taken
