-- ===== src/Modbus/Client/Allows.antt =====
-- What holds of the result of a call, where there is one.
use smartmeterreader.Prelude.{Option, none, some, ◌>>=◌, Bool, true, false, if◌then◌else◌}
use smartmeterreader.Modbus.Client.{World}

-- Where there is a result, it satisfies `P`.
abbrev pub Allows : (World → Type 0) → Option World → Type 0
Allows P none = Unit {0}
Allows P (some w) = P w

pub Allows-map :
    (P Q : World → Type 0) (m : Option World) → ((w : World) → P w → Q w) → Allows P m → Allows Q m
Allows-map P Q none f h = h
Allows-map P Q (some w) f h = f w h

pub Allows->>= :
    {A : Type 0} (P : World → Type 0) (m : Option A) (f : A → Option World)
    → ((a : A) → Allows P (f a))
    → Allows P (m >>= f)
Allows->>= P none f h = tt
Allows->>= P (some a) f h = h a

pub Allows-if :
    (P : World → Type 0) (b : Bool) (m n : Option World)
    → Allows P m
    → Allows P n
    → Allows P (if b then m else n)
Allows-if P true m n h k = h
Allows-if P false m n h k = k
