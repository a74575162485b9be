-- ===== src/NetworkLog.antt =====
-- NetworkLog.h and NetworkLog.cpp: the log's bytes, gathered into frames of at most 4096 bytes.
pub mod Stream
use smartmeterreader.Prelude.{
  ℕ, zero, suc, ◌+◌, ◌-◌, Bool, true, false, not, ◌&&◌, ◌||◌, ltb, leb, ◌==◌, if◌then◌else◌, sub32,
  u32, List, [], ◌∷◌, ◌++◌, length, take, drop, min, Option, none, some,
}

abbrev pub buf_size : ℕ
buf_size = 4096

-- `pending` is what `_buf` holds below `_w_idx`, which is its length; the bytes behind it are not read.
-- `has_callback` is the test of `_frame_cb`, and `frames` are the frames that it was called with.
pub record NetworkLog : Type 0 where
  pub pending : List ℕ
  pub frame_start_time : ℕ
  pub is_enabled : Bool
  pub has_callback : Bool
  pub frames : List (List ℕ)

unfoldable pub new : NetworkLog
new = record {
  pending = [];
  frame_start_time = 0;
  is_enabled = false;
  has_callback = false;
  frames = [];
}

unfoldable pub set_enable : NetworkLog → Bool → NetworkLog
set_enable l is_enabled = record l { is_enabled = is_enabled }

unfoldable pub set_frame_callback : NetworkLog → Bool → NetworkLog
set_frame_callback l has_callback = record l { has_callback = has_callback }

unfoldable pub emit : NetworkLog → NetworkLog
emit l = record l {
  frames = l.frames ++ (if l.is_enabled && l.has_callback then l.pending ∷ [] else []);
  pending = [];
}

unfoldable pub loop : NetworkLog → ℕ → NetworkLog
unfolding emit
loop l t =
    if not l.is_enabled || length l.pending == 0
    then l
    else if ltb 50 (sub32 t l.frame_start_time)
    then emit l
    else l

-- `emit();` under a test of `_w_idx`.
abbrev pub emit_if : Bool → NetworkLog → NetworkLog
emit_if b l = if b then emit l else l

unfoldable pub write : NetworkLog → ℕ → NetworkLog
write l ch =
    let l' = record l { pending = l.pending ++ ch ∷ [] } in
    emit_if (leb buf_size (length l'.pending)) l'

-- One round of the loop: the object, and how many bytes the round has copied. `now` is the clock.
unfoldable pub write_round : NetworkLog → List ℕ → ℕ → NetworkLog × ℕ
write_round l bytes now =
    let start = if length l.pending == 0 then now else l.frame_start_time in
    let cpy_len = min (length bytes) (buf_size - length l.pending) in
    let l' = record l { frame_start_time = start; pending = l.pending ++ take cpy_len bytes } in
    (emit_if (length l'.pending == buf_size) l', cpy_len)

-- The loop, on fuel, with the clock as a function of the rounds to go.
unfoldable pub write_loop : ℕ → NetworkLog → List ℕ → (ℕ → ℕ) → Option NetworkLog
write_loop fuel l [] clock = some l
write_loop zero l (b ∷ bs) clock = none
write_loop (suc fuel) l (b ∷ bs) clock =
    let (l', cpy_len) = write_round l (b ∷ bs) (clock fuel) in
    write_loop fuel l' (drop cpy_len (b ∷ bs)) clock

-- Each round copies a byte at least.
unfoldable pub write_buffer : NetworkLog → List ℕ → (ℕ → ℕ) → Option NetworkLog
write_buffer l bytes clock = write_loop (length bytes) l bytes clock
