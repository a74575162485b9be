-- ===== src/NetworkLog/Stream.antt =====
-- What goes into the log comes out of it, in order and in frames of at most 4096 bytes.
use smartmeterreader.Prelude.{
  ℕ, zero, suc, ◌-◌, ◌≤◌, ◌<◌, ◌≡◌, ◌∙◌, refl, sym, ap, arith, Bool, true, false, ◌==◌, leb,
  if◌then◌else◌, List, [], ◌∷◌, ◌++◌, length, take, drop, min, append_assoc, append-nil,
  length-append, length-take, length-drop, take-append-drop, Returns, Returns-map, ltb, sub32, not,
  ◌||◌,
}
use smartmeterreader.NetworkLog.{
  NetworkLog, emit, emit_if, write, write_round, write_loop, write_buffer, buf_size, loop,
}

-- The bytes of all frames.
abbrev pub flat : List (List ℕ) → List ℕ
flat [] = []
flat (f ∷ fs) = f ++ flat fs

-- The bytes that have been written, those that are still in the buffer included.
abbrev pub stream : NetworkLog → List ℕ
stream l = flat l.frames ++ l.pending

abbrev pub AllFit : List (List ℕ) → Type 0
AllFit [] = Unit {0}
AllFit (f ∷ fs) = (length f ≤ 4096) × AllFit fs

-- The log is on and has room, and its frames were not too long.
pub record IsOpen (l : NetworkLog) : Type 0 where
  pub enabled : l.is_enabled ≡ true
  pub connected : l.has_callback ≡ true
  pub has_room : length l.pending < 4096
  pub all_fit : AllFit l.frames

flat-append : (fs : List (List ℕ)) (f : List ℕ) → flat (fs ++ f ∷ []) ≡ flat fs ++ f
flat-append [] f = append-nil f
flat-append (g ∷ fs) f = ap (λ x. g ++ x) (flat-append fs f) ∙ sym (append_assoc g (flat fs) f)

AllFit-append :
    (fs : List (List ℕ)) (f : List ℕ) → AllFit fs → length f ≤ 4096 → AllFit (fs ++ f ∷ [])
AllFit-append [] f a h = (h, tt)
AllFit-append (g ∷ fs) f a h = (a.0, AllFit-append fs f a.1 h)

-- What `emit` does to a log that is on, whether or not it is called.
emit_if-IsOpen :
    (b : Bool) (l : NetworkLog)
    → l.is_enabled ≡ true
    → l.has_callback ≡ true
    → AllFit l.frames
    → length l.pending ≤ 4096
    → (b ≡ false → length l.pending < 4096)
    → IsOpen (emit_if b l) × (stream (emit_if b l) ≡ stream l)
unfolding emit
emit_if-IsOpen false l e c a h k =
    (record { enabled = e; connected = c; has_room = k refl; all_fit = a }, refl)
emit_if-IsOpen true l e c a h k =
    rw (e, c)
      (
        record {
          enabled = refl;
          connected = refl;
          has_room = omega arith;
          all_fit = AllFit-append l.frames l.pending a h;
        },
        append-nil (flat (l.frames ++ l.pending ∷ [])) ∙ flat-append l.frames l.pending,
      )

-- On an open log, a byte written is appended to the stream, and the log stays open.
pub write-IsOpen :
    (l : NetworkLog) (ch : ℕ)
    → IsOpen l
    → IsOpen (write l ch) × (stream (write l ch) ≡ stream l ++ ch ∷ [])
unfolding write
write-IsOpen l ch o =
    let l' = record l { pending = l.pending ++ ch ∷ [] } in
    let size = length-append l.pending (ch ∷ []) in
    let (o', same) =
      emit_if-IsOpen (leb buf_size (length l'.pending)) l' o.enabled o.connected o.all_fit
        (omega (arith, size, o.has_room)) (λ e. ground (arith, size)) in
    (o', same ∙ sym (append_assoc (flat l.frames) l.pending (ch ∷ [])))

write_round-IsOpen :
    (l : NetworkLog) (bytes : List ℕ) (now : ℕ)
    → IsOpen l
    → IsOpen (write_round l bytes now).0
      × (stream (write_round l bytes now).0 ≡ stream l ++ take (write_round l bytes now).1 bytes)
unfolding write_round
write_round-IsOpen l bytes now o =
    let n = min (length bytes) (4096 - length l.pending) in
    let l' = record l {
      frame_start_time = if length l.pending == 0 then now else l.frame_start_time;
      pending = l.pending ++ take n bytes;
    } in
    let size = length-append l.pending (take n bytes) in
    let copied = length-take n bytes in
    let (o', same) =
      emit_if-IsOpen (length l'.pending == buf_size) l' o.enabled o.connected o.all_fit
        (omega (arith, size, copied, o.has_room)) (λ e. ground (arith, size, copied, o.has_room)) in
    (o', same ∙ sym (append_assoc (flat l.frames) l.pending (take n bytes)))

write_round-lt :
    (l : NetworkLog) (b : ℕ) (bs : List ℕ) (now : ℕ) → IsOpen l → 1 ≤ (write_round l (b ∷ bs) now).1
unfolding write_round
write_round-lt l b bs now o = omega (arith, o.has_room)

write_loop-stream :
    (fuel : ℕ) (l : NetworkLog) (bytes : List ℕ) (clock : ℕ → ℕ)
    → length bytes ≤ fuel
    → IsOpen l
    → Returns (λ l'. IsOpen l' × (stream l' ≡ stream l ++ bytes)) (write_loop fuel l bytes clock)
unfolding write_loop
write_loop-stream fuel l [] clock h o = (o, sym (append-nil (stream l)))
write_loop-stream zero l (b ∷ bs) clock h o = absurd (omega arith)
write_loop-stream (suc fuel) l (b ∷ bs) clock h o =
    let (l', n) = write_round l (b ∷ bs) (clock fuel) in
    let (o', step) = write_round-IsOpen l (b ∷ bs) (clock fuel) o in
    let rest =
      write_loop-stream fuel l' (drop n (b ∷ bs)) clock
        (omega (arith, h, length-drop n (b ∷ bs), write_round-lt l b bs (clock fuel) o)) o' in
    Returns-map (write_loop fuel l' (drop n (b ∷ bs)) clock)
      (λ l'' (o'', more). (
        o'',
        more
            ∙ ap (λ x. x ++ drop n (b ∷ bs)) step
            ∙ append_assoc (stream l) (take n (b ∷ bs)) (drop n (b ∷ bs))
            ∙ ap (λ x. stream l ++ x) (take-append-drop n (b ∷ bs)),
      ))
      rest

-- On an open log, the writing of a buffer returns, whatever its length and the clock; the bytes of all
-- frames, followed by those that wait, are then what they were, followed by the buffer, each frame has at
-- most 4096 bytes, and fewer bytes than that wait, so that no write leaves the array.
pub write_buffer-stream :
    (l : NetworkLog) (bytes : List ℕ) (clock : ℕ → ℕ)
    → IsOpen l
    → Returns (λ l'. IsOpen l' × (stream l' ≡ stream l ++ bytes)) (write_buffer l bytes clock)
unfolding write_buffer
write_buffer-stream l bytes clock o = write_loop-stream (length bytes) l bytes clock (omega arith) o

-- A call of `loop` neither loses nor reorders a byte of an open log, and keeps it open.
pub loop-stream :
    (l : NetworkLog) (t : ℕ) → IsOpen l → IsOpen (loop l t) × (stream (loop l t) ≡ stream l)
unfolding loop emit
loop-stream l t o = go (not l.is_enabled || length l.pending == 0)
  where
    late : Bool
    late = ltb 50 (sub32 t l.frame_start_time)

    go :
        (b : Bool)
        → IsOpen (if b then l else if late then emit l else l)
          × (stream (if b then l else if late then emit l else l) ≡ stream l)
    go true = (o, refl)
    go false =
        emit_if-IsOpen late l o.enabled o.connected o.all_fit (omega (arith, o.has_room))
          (λ e. o.has_room)
