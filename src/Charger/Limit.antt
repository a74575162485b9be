-- ===== src/Charger/Limit.antt =====
-- The current limit that the controller sets.
use smartmeterreader.Prelude.{
  ℕ, ◌<◌, ◌≡◌, arith, Bool, true, false, not, ◌||◌, ◌⊎◌, if◌then◌else◌, inl, inr, sym, zero, suc,
}
use smartmeterreader.Prelude.Int.{
  ℤ, pos, negsuc, ◌≤ℤ◌, ◌-ℤ◌, ◌+ℤ◌, signed, pattern_of, int32, +ℤ_parts, -ℤ_parts,
}
use smartmeterreader.Charger.{
  Charger, current_of, determine_current_limit, limit_loop, limit_by, phase_limit, phases,
  is_phase_active, is_any_phase_active, min_ℤ, ltb_ℤ,
}

-- The values of an `int32_t`.
abbrev pub IsInt32 : ℤ → Type 0
IsInt32 z = (z ≤ℤ pos 2147483647) × (negsuc 2147483647 ≤ℤ z)

pub int32-id : (z : ℤ) → IsInt32 z → int32 z ≡ z
unfolding signed pattern_of
int32-id (pos n) h = ground arith
int32-id (negsuc n) h = ground arith

-- A phase counts if the charger draws more than 1 A from it, or from none.
abbrev pub Counts : Charger → ℕ → Type 0
Counts c idx = (not (is_any_phase_active c) || is_phase_active c idx) ≡ true

min_ℤ-le : (p z : ℤ) → (min_ℤ p z ≤ℤ z) × (min_ℤ p z ≤ℤ p)
min_ℤ-le p z = ground arith

choose_le :
    (b : Bool) (p z : ℤ)
    → ((if b then min_ℤ p z else z) ≤ℤ z) × (b ≡ true → (if b then min_ℤ p z else z) ≤ℤ p)
choose_le true p z = ((min_ℤ-le p z).0, λ _. (min_ℤ-le p z).1)
choose_le false p z = (omega arith, λ e. cc)

limit_by_le :
    (c : Charger) (idx : ℕ) (z : ℤ)
    → (limit_by c idx z ≤ℤ z) × (Counts c idx → limit_by c idx z ≤ℤ phase_limit c idx)
unfolding limit_by
limit_by_le c idx z =
    choose_le (not (is_any_phase_active c) || is_phase_active c idx) (phase_limit c idx) z

-- What is known of the limit before it is cut off at 0.
three_phases_le :
    (c : Charger) (z : ℤ)
    → (limit_loop c phases z ≤ℤ z)
      × ((idx : ℕ) → idx < 3 → Counts c idx → limit_loop c phases z ≤ℤ phase_limit c idx)
unfolding limit_loop
three_phases_le c z = (omega (arith, le₀.0, le₁.0, le₂.0), go)
  where
    le₀ : (limit_by c 0 z ≤ℤ z) × (Counts c 0 → limit_by c 0 z ≤ℤ phase_limit c 0)
    le₀ = limit_by_le c 0 z

    le₁ :
        (limit_by c 1 (limit_by c 0 z) ≤ℤ limit_by c 0 z)
        × (Counts c 1 → limit_by c 1 (limit_by c 0 z) ≤ℤ phase_limit c 1)
    le₁ = limit_by_le c 1 (limit_by c 0 z)

    le₂ :
        (limit_by c 2 (limit_by c 1 (limit_by c 0 z)) ≤ℤ limit_by c 1 (limit_by c 0 z))
        × (Counts c 2 → limit_by c 2 (limit_by c 1 (limit_by c 0 z)) ≤ℤ phase_limit c 2)
    le₂ = limit_by_le c 2 (limit_by c 1 (limit_by c 0 z))

    go :
        (idx : ℕ)
        → idx < 3
        → Counts c idx
        → limit_by c 2 (limit_by c 1 (limit_by c 0 z)) ≤ℤ phase_limit c idx
    go zero h k = omega (arith, le₀.1 k, le₁.0, le₂.0)
    go (suc zero) h k = omega (arith, le₁.1 k, le₂.0)
    go (suc (suc zero)) h k = le₂.1 k
    go (suc (suc (suc idx))) h k = omega arith

cut_off_le :
    (m : ℤ)
    → (pos 0 ≤ℤ (if ltb_ℤ m (pos 0) then pos 0 else m))
      × (((if ltb_ℤ m (pos 0) then pos 0 else m) ≡ m)
          ⊎ (((if ltb_ℤ m (pos 0) then pos 0 else m) ≡ pos 0) × (m ≤ℤ pos 0)))
cut_off_le m = ground arith

margin_le : (f s h m : ℤ) → m ≤ℤ f -ℤ s +ℤ h → m +ℤ s ≤ℤ f +ℤ h
margin_le f s h m k = omega (arith, +ℤ_parts m s, +ℤ_parts f h, -ℤ_parts f s, +ℤ_parts (f -ℤ s) h)

abbrev pub margin : Charger → ℕ → ℤ
margin c idx =
    pos c.fuse_limit_ma -ℤ current_of c.smart_meter_meas idx +ℤ current_of c.charger_meter_meas idx

-- The limit is never negative and never above the fuse's, where the fuse's limit is in the range of
-- `int32_t`.
pub determine_current_limit-le :
    (c : Charger)
    → c.fuse_limit_ma < 2147483648
    → (pos 0 ≤ℤ determine_current_limit c) × (determine_current_limit c ≤ℤ pos c.fuse_limit_ma)
unfolding determine_current_limit
determine_current_limit-le c h =
    let m = limit_loop c phases (int32 (pos c.fuse_limit_ma)) in
    let below = (three_phases_le c (int32 (pos c.fuse_limit_ma))).0 in
    let same = int32-id (pos c.fuse_limit_ma) (omega arith, omega arith) in
    ((cut_off_le m).0, ground (arith, cut_off_le m, below, same))

-- On a phase that counts, which each one of the three does while the charger draws from none, the draw of
-- the house with the charger's share replaced by the limit stays within the fuse, unless the limit is 0.
-- The balance of the phase is in the range of `int32_t`.
pub determine_current_limit-margin :
    (c : Charger) (idx : ℕ)
    → idx < 3
    → Counts c idx
    → IsInt32 (margin c idx)
    → (determine_current_limit c ≡ pos 0)
      ⊎ (determine_current_limit c +ℤ current_of c.smart_meter_meas idx
          ≤ℤ pos c.fuse_limit_ma +ℤ current_of c.charger_meter_meas idx)
unfolding determine_current_limit phase_limit
determine_current_limit-margin c idx h k r =
    let m = limit_loop c phases (int32 (pos c.fuse_limit_ma)) in
    let below = (three_phases_le c (int32 (pos c.fuse_limit_ma))).1 idx h k in
    let same = int32-id (margin c idx) r in
    let enough =
      margin_le (pos c.fuse_limit_ma) (current_of c.smart_meter_meas idx)
        (current_of c.charger_meter_meas idx) m (rw (sym same) below) in
    elim (cut_off_le m).1 [ inl e ↦ inr (rw e enough) | inr e ↦ inl e.0 ]
