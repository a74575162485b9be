-- ===== src/App/Format.antt =====
-- `format_frame` of smartmeterreader.ino.
use smartmeterreader.Prelude.{ℕ, List, [], ◌∷◌, ◌++◌, take}
use smartmeterreader.Prelude.Int.{ℤ, pos}
use smartmeterreader.Prelude.Text.{codes}
use smartmeterreader.Meter.Values.{Values}

-- The variable arguments, strings without their closing 0.
pub data Arg : Type 0 where
  str : List ℕ → Arg
  int : ℤ → Arg

abbrev tpl : List ℕ
tpl =
    codes "{\n"
    ++ codes "  \"Device\": \"%s\",\n"
    ++ codes "  \"SequenceNo\": %d,\n"
    ++ codes "  \"PowerW\": [%d, %d, %d],\n"
    ++ codes "  \"CurrentMa\": [%d, %d, %d],\n"
    ++ codes "  \"PotentialMv\": [%d, %d, %d],\n"
    ++ codes "  \"EnergyWh\": [%lld, %lld],\n"
    ++ codes "  \"Timestamp\": \"%04d-%02d-%02d %02d:%02d:%02d\"\n"
    ++ codes "}\n"

abbrev ints : List ℤ → List Arg → List Arg
ints [] rest = rest
ints (z ∷ zs) rest = int z ∷ ints zs rest

-- The buffer has 256 bytes, and `snprintf` closes the text with a 0. `print` is the text that it would
-- make in a buffer that is large enough.
unfoldable pub format_frame : (List ℕ → List Arg → List ℕ) → List ℕ → ℕ → Values → List ℕ
format_frame print device_name frame_id values =
    let t = values.timestamp in
    take 255 (
      print tpl (
        str device_name
        ∷ int (pos frame_id)
        ∷ ints values.power_w (
            ints values.current_ma (
              ints values.potential_mv (
                int values.import_wh
                ∷ int values.export_wh
                ∷ int (pos t.year)
                ∷ int (pos t.month)
                ∷ int (pos t.day)
                ∷ int (pos t.hour)
                ∷ int (pos t.min)
                ∷ int (pos t.sec)
                ∷ [])))))

abbrev pub webasto_unite : List ℕ
webasto_unite = codes "Webasto Unite"
