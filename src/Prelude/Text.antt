-- ===== src/Prelude/Text.antt =====
-- Text literals as lists of character codes; every literal here is ASCII.
use Prim.Native.Char.{code}
use Prim.Native.String.{String}
use smartmeterreader.Prelude.{ℕ, List, [], ◌∷◌}

abbrev pub codes : String → List ℕ
codes String.[] = []
codes (String.◌∷◌ c s) = code c ∷ codes s
