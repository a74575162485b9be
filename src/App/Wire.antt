-- ===== src/App/Wire.antt =====
-- The current limit on its way from the charge controller through the Modbus client to the charger.
use smartmeterreader.Prelude.{ℕ, ◌/◌, ◌%◌, ◌≤◌, ◌<◌, ◌≡◌, ◌∙◌, refl, ap, arith, u8, List, [], ◌∷◌}
use smartmeterreader.Prelude.Int.{pos}
use smartmeterreader.Modbus.Frame.{serialize_request}
use smartmeterreader.Charger.{Charger, new, swap_b16, set_max_charging_current_request}
use smartmeterreader.Charger.Invariant.{IsSafe, LimitIsSafe, Call, after_all, reachable-IsSafe}
use smartmeterreader.App.{memory_of}

-- The bytes of a word whose swapped value is known.
word_bytes :
    (word amps : ℕ)
    → word < 65536
    → swap_b16 word ≡ amps
    → (word % 256 ≡ amps / 256) × (word / 256 ≡ amps % 256)
unfolding swap_b16
word_bytes word amps h e = (omega (arith, e), omega (arith, e))

abbrev frame_for : ℕ → ℕ → List ℕ
frame_for id amps =
    u8 (id / 256)
    ∷ u8 id
    ∷ 0
    ∷ 0
    ∷ 0
    ∷ 9
    ∷ 1
    ∷ 16
    ∷ 19
    ∷ 140
    ∷ 0
    ∷ 1
    ∷ 2
    ∷ amps / 256
    ∷ amps % 256
    ∷ []

serialized :
    (c : Charger) (id : ℕ)
    → serialize_request (memory_of c) set_max_charging_current_request id 272
      ≡ u8 (id / 256)
        ∷ u8 id
        ∷ 0
        ∷ 0
        ∷ 0
        ∷ 9
        ∷ 1
        ∷ 16
        ∷ 19
        ∷ 140
        ∷ 0
        ∷ 1
        ∷ 2
        ∷ c.max_charging_current_buf % 256
        ∷ c.max_charging_current_buf / 256
        ∷ []
unfolding serialize_request memory_of
serialized c id = refl

on_wire :
    (c : Charger) (l id : ℕ)
    → IsSafe c
    → c.limit_ma ≡ pos l
    → (serialize_request (memory_of c) set_max_charging_current_request id 272
        ≡ frame_for id (l / 1000))
      × (l ≤ c.fuse_limit_ma)
on_wire c l id v e =
    let safe : LimitIsSafe c.fuse_limit_ma (pos l) c.max_charging_current_buf = rw e at v.limit in
    let (low, high) = word_bytes c.max_charging_current_buf (l / 1000) v.word safe.1 in
    (
      serialized c id
          ∙ ap
              (λ w.
                u8 (id / 256)
                ∷ u8 id
                ∷ 0
                ∷ 0
                ∷ 0
                ∷ 9
                ∷ 1
                ∷ 16
                ∷ 19
                ∷ 140
                ∷ 0
                ∷ 1
                ∷ 2
                ∷ w
                ∷ c.max_charging_current_buf / 256
                ∷ [])
              low
          ∙ ap
              (λ w.
                u8 (id / 256)
                ∷ u8 id
                ∷ 0
                ∷ 0
                ∷ 0
                ∷ 9
                ∷ 1
                ∷ 16
                ∷ 19
                ∷ 140
                ∷ 0
                ∷ 1
                ∷ 2
                ∷ l / 1000 / 256
                ∷ w
                ∷ [])
              high,
      safe.0,
    )

-- After any calls of the charge controller, and any stores into the buffer of the charger's meter, that
-- have set a limit, the frame that the Modbus client makes of
-- the request to set it writes one register, 5004, of unit 1, with the limit in whole amperes, high byte
-- first, and the limit is at most the fuse's. The fuse's limit is below 65536 A.
pub serialize_request-limit :
    (fuse : ℕ) (calls : List Call) (l id : ℕ)
    → fuse < 65536000
    → (after_all (new fuse) calls).limit_ma ≡ pos l
    → (serialize_request
          (memory_of (after_all (new fuse) calls))
          set_max_charging_current_request
          id
          272
        ≡ u8 (id / 256)
          ∷ u8 id
          ∷ 0
          ∷ 0
          ∷ 0
          ∷ 9
          ∷ 1
          ∷ 16
          ∷ 19
          ∷ 140
          ∷ 0
          ∷ 1
          ∷ 2
          ∷ l / 1000 / 256
          ∷ l / 1000 % 256
          ∷ [])
      × (l ≤ (after_all (new fuse) calls).fuse_limit_ma)
serialize_request-limit fuse calls l id h e =
    on_wire (after_all (new fuse) calls) l id (reachable-IsSafe fuse calls h) e
