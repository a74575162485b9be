-- ===== src/Prelude/Told.antt =====
-- What a listener knows that was told of each change of a flag.
use smartmeterreader.Prelude.{◌≡◌, refl, Bool, List, [], ◌∷◌, ◌++◌}

-- The last flag told, or what the listener knew before.
abbrev pub last_or : Bool → List Bool → Bool
last_or b [] = b
last_or b (c ∷ cs) = last_or c cs

pub last_or-append :
    (b : Bool) (xs ys : List Bool) → last_or b (xs ++ ys) ≡ last_or (last_or b xs) ys
last_or-append b [] ys = refl
last_or-append b (x ∷ xs) ys = last_or-append x xs ys
