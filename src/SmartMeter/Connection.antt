-- ===== src/SmartMeter/Connection.antt =====
-- What the connection callback is told, and the age of the last frame.
use smartmeterreader.Prelude.{
  ℕ, ◌<◌, ◌≡◌, ◌∙◌, refl, ap, arith, Bool, true, false, eq_bool, if◌then◌else◌, sub32, List, [],
  ◌∷◌, ◌++◌, append-nil, Option, none, some, >>=-eq-some, suc, ◌⊎◌, some-eq,
}
use smartmeterreader.Prelude.Told.{last_or, last_or-append}
use smartmeterreader.Meter.Values.{Values}
use smartmeterreader.Meter.Parser.{parse_str}
use smartmeterreader.Meter.Parser.Callback.{parse_str-keeps}
use smartmeterreader.SmartMeter.{
  SmartMeter, Link, Event, connection, frame, Env, loop, read, on_frame, handle_smart_meter_frame,
  set_connected, emit_frame, check_timeout,
}

-- The connection flags among the events.
abbrev pub connections : List Event → List Bool
connections [] = []
connections (connection b ∷ es) = b ∷ connections es
connections (frame n v ∷ es) = connections es

connections-append :
    (es fs : List Event) → connections (es ++ fs) ≡ connections es ++ connections fs
connections-append [] fs = refl
connections-append (connection b ∷ es) fs = ap (◌∷◌ b) (connections-append es fs)
connections-append (frame n v ∷ es) fs = connections-append es fs

-- Who was told each change since the flag was `before` knows the flag.
pub record IsTold (before : Bool) (l : Link) : Type 0 where
  pub callback : l.has_connected_callback ≡ true
  pub told : last_or before (connections l.events) ≡ l.is_connected

set_connected-IsTold :
    (before : Bool) (l : Link) (b : Bool) → IsTold before l → IsTold before (set_connected l b)
unfolding set_connected
set_connected-IsTold before l b v =
    go (eq_bool l.is_connected b) l.has_connected_callback v.callback
  where
    after : last_or before (connections (l.events ++ connection b ∷ [])) ≡ b
    after =
        ap (last_or before) (connections-append l.events (connection b ∷ []))
        ∙ last_or-append before (connections l.events) (b ∷ [])

    go :
        (same called : Bool)
        → called ≡ true
        → IsTold before (
            if same then l else record l {
              is_connected = b;
              events = l.events ++ (if called then connection b ∷ [] else []);
            })
    go true called h = v
    go false true h = record { callback = v.callback; told = after }
    go false false h = cc

emit_frame-IsTold :
    (before : Bool) (l : Link) (n : List ℕ) (values : Values)
    → IsTold before l
    → IsTold before (emit_frame l n values)
unfolding emit_frame
emit_frame-IsTold before l n values v = record {
  callback = v.callback;
  told = ap (last_or before) (none_told l.has_frame_callback) ∙ v.told;
}
  where
    none_told :
        (b : Bool)
        → connections (l.events ++ (if b then frame n values ∷ [] else [])) ≡ connections l.events
    none_told true =
        connections-append l.events (frame n values ∷ []) ∙ append-nil (connections l.events)
    none_told false = connections-append l.events [] ∙ append-nil (connections l.events)

handle-IsTold :
    (before : Bool) (l : Link) (n : List ℕ) (values : Values) (now : ℕ)
    → IsTold before l
    → IsTold before (handle_smart_meter_frame l n values now)
unfolding handle_smart_meter_frame
handle-IsTold before l n values now v =
    let l₁ = record l { last_frame_time = now; frames = suc l.frames } in
    emit_frame-IsTold before (set_connected l₁ true) n values
      (set_connected-IsTold before l₁ true (record { callback = v.callback; told = v.told }))

check_timeout-IsTold :
    (before : Bool) (l : Link) (t : ℕ) → IsTold before l → IsTold before (check_timeout l t)
unfolding check_timeout
check_timeout-IsTold before l t v = ground (arith, set_connected-IsTold before l false v)

check_timeout-fresh :
    (l : Link) (t : ℕ)
    → let l' = check_timeout l t in (l'.is_connected ≡ false) ⊎ (sub32 t l'.last_frame_time < 15000)
unfolding check_timeout set_connected
check_timeout-fresh l t = ground arith

read-IsTold :
    (before : Bool) (m : SmartMeter) (reading : Option (List ℕ)) (ft : ℕ → ℕ) {m' : SmartMeter}
    → IsTold before m.link
    → read m reading ft ≡ some m'
    → IsTold before m'.link
unfolding read
read-IsTold before m none ft v e =
    rw (← ap SmartMeter.link (some-eq e)) (set_connected-IsTold before m.link false v)
read-IsTold before m (some buf) ft v e =
    let ((p, l, ok), parsed, rest) =
      >>=-eq-some (parse_str (on_frame ft) m.parser m.link buf) _ e in
    let kept =
      parse_str-keeps (on_frame ft) (IsTold before) buf m.parser m.link
        (λ p w l h. handle-IsTold before l p.meas.model w (ft l.frames) h) v parsed in
    rw (← ap SmartMeter.link (some-eq rest)) kept

-- Where `loop` returns, whoever was told each change of the connection knows how it stands, and a connected
-- meter has sent a frame less than 15 s before. The callback is set.
pub loop-IsTold :
    (before : Bool) (m : SmartMeter) (env : Env) {m' : SmartMeter}
    → IsTold before m.link
    → loop m env ≡ some m'
    → IsTold before m'.link
      × ((m'.link.is_connected ≡ false) ⊎ (sub32 env.t m'.link.last_frame_time < 15000))
unfolding loop
loop-IsTold before m env v e =
    let (m₁, got, rest) = >>=-eq-some (read m env.reading env.frame_time) _ e in
    rw (← ap SmartMeter.link (some-eq rest)) (
      check_timeout-IsTold before m₁.link env.t
          (read-IsTold before m env.reading env.frame_time v got),
      check_timeout-fresh m₁.link env.t,
    )
