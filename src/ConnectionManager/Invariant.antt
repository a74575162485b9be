-- ===== src/ConnectionManager/Invariant.antt =====
-- What holds of a manager that the sketch has started, after any calls of its operations.
use smartmeterreader.Prelude.{
  ℕ, ◌≡◌, ◌∙◌, refl, sym, ap, arith, Bool, true, false, ◌&&◌, if◌then◌else◌, List, [], ◌∷◌, ◌++◌,
}
use smartmeterreader.Prelude.Told.{last_or, last_or-append}
use smartmeterreader.ConnectionManager.{
  ConnectionManager, State, disconnected, connecting, connected, Event, setup, disconnect_async,
  wifi_begin, connection, broadcast_to, Env, new, set_connected_handler, fire_callback,
  update_connected_state, enter_state, set_state, begin, update_wifi_status, loop_in, loop,
  broadcast,
}

-- The calls that the program makes once the handler is set, in any order, and the events of them all.
pub data Reaches : ConnectionManager → List Event → Type 0 where
  ready : Reaches (set_connected_handler new true) []
  begun :
      (c : ConnectionManager) (es : List Event) (entry : ℕ)
      → Reaches c es
      → Reaches (begin c entry).0 (es ++ (begin c entry).1)
  looped :
      (c : ConnectionManager) (es : List Event) (env : Env)
      → Reaches c es
      → Reaches (loop c env).0 (es ++ (loop c env).1)
  sent :
      (c : ConnectionManager) (es : List Event) (frame : List ℕ) (port : ℕ)
      → Reaches c es
      → Reaches c (es ++ broadcast c frame port)

abbrev pub is_state_connected : State → Bool
is_state_connected disconnected = false
is_state_connected connecting = false
is_state_connected connected = true

abbrev pub connections : List Event → List Bool
connections [] = []
connections (setup ∷ es) = connections es
connections (disconnect_async ∷ es) = connections es
connections (wifi_begin ∷ es) = connections es
connections (connection b ∷ es) = b ∷ connections es
connections (broadcast_to f p ∷ es) = connections es

-- Nothing is broadcast but between a call of the handler with true and the next one with false; `b` is
-- the last flag before the events.
abbrev pub broadcasts_connected : Bool → List Event → Bool
broadcasts_connected b [] = true
broadcasts_connected b (setup ∷ es) = broadcasts_connected b es
broadcasts_connected b (disconnect_async ∷ es) = broadcasts_connected b es
broadcasts_connected b (wifi_begin ∷ es) = broadcasts_connected b es
broadcasts_connected b (connection c ∷ es) = broadcasts_connected c es
broadcasts_connected b (broadcast_to f p ∷ es) = b && broadcasts_connected b es

connections-append :
    (es fs : List Event) → connections (es ++ fs) ≡ connections es ++ connections fs
connections-append [] fs = refl
connections-append (setup ∷ es) fs = connections-append es fs
connections-append (disconnect_async ∷ es) fs = connections-append es fs
connections-append (wifi_begin ∷ es) fs = connections-append es fs
connections-append (connection b ∷ es) fs = ap (◌∷◌ b) (connections-append es fs)
connections-append (broadcast_to f p ∷ es) fs = connections-append es fs

broadcasts_connected-append :
    (b : Bool) (es fs : List Event)
    → broadcasts_connected b es ≡ true
    → broadcasts_connected (last_or b (connections es)) fs ≡ true
    → broadcasts_connected b (es ++ fs) ≡ true
broadcasts_connected-append b [] fs h k = k
broadcasts_connected-append b (setup ∷ es) fs h k = broadcasts_connected-append b es fs h k
broadcasts_connected-append b (disconnect_async ∷ es) fs h k =
    broadcasts_connected-append b es fs h k
broadcasts_connected-append b (wifi_begin ∷ es) fs h k = broadcasts_connected-append b es fs h k
broadcasts_connected-append b (connection c ∷ es) fs h k = broadcasts_connected-append c es fs h k
broadcasts_connected-append true (broadcast_to f p ∷ es) fs h k =
    broadcasts_connected-append true es fs h k
broadcasts_connected-append false (broadcast_to f p ∷ es) fs h k = cc

-- What a call does: `es` are its events, `before` the flag that the handler was told before it.
pub record Did (before : Bool) (c : ConnectionManager) (es : List Event) : Type 0 where
  pub callback : c.has_callback ≡ true
  pub agrees : c.is_connected ≡ is_state_connected c.state
  pub told : last_or before (connections es) ≡ c.is_connected
  pub sent : broadcasts_connected before es ≡ true

update_connected_state-told :
    (c : ConnectionManager) (b : Bool)
    → c.has_callback ≡ true
    → let r = update_connected_state c b in
      (r.0.has_callback ≡ true)
      × (r.0.is_connected ≡ b)
      × (r.0.state ≡ c.state)
      × (last_or c.is_connected (connections r.1) ≡ b)
      × (broadcasts_connected c.is_connected r.1 ≡ true)
unfolding update_connected_state fire_callback
update_connected_state-told c b h = ground (arith)

set_state-Did :
    (c : ConnectionManager) (s : State) (entry : ℕ)
    → c.has_callback ≡ true
    → Did c.is_connected (set_state c s entry).0 (set_state c s entry).1
unfolding set_state enter_state
set_state-Did c disconnected entry h =
    let (k, b, s, t, u) =
      update_connected_state-told (record c { state = disconnected; state_entry_time = entry })
        false h in
    record { callback = k; agrees = b ∙ ap is_state_connected (sym s); told = t ∙ sym b; sent = u }
set_state-Did c connecting entry h =
    let (k, b, s, t, u) =
      update_connected_state-told (record c { state = connecting; state_entry_time = entry }) false
        h in
    record { callback = k; agrees = b ∙ ap is_state_connected (sym s); told = t ∙ sym b; sent = u }
set_state-Did c connected entry h =
    let (k, b, s, t, u) =
      update_connected_state-told (record c { state = connected; state_entry_time = entry }) true
        h in
    record { callback = k; agrees = b ∙ ap is_state_connected (sym s); told = t ∙ sym b; sent = u }

quiet :
    (c : ConnectionManager)
    → c.has_callback ≡ true
    → c.is_connected ≡ is_state_connected c.state
    → Did c.is_connected c []
quiet c h a = record { callback = h; agrees = a; told = refl; sent = refl }

pub loop-Did :
    (c : ConnectionManager) (env : Env)
    → c.has_callback ≡ true
    → c.is_connected ≡ is_state_connected c.state
    → Did c.is_connected (loop c env).0 (loop c env).1
unfolding loop loop_in update_wifi_status
loop-Did c env h a = go c.state refl a
  where
    c' : ConnectionManager
    c' = record c { status = env.status }

    go :
        (s : State)
        → c.state ≡ s
        → c.is_connected ≡ is_state_connected c.state
        → Did c.is_connected (loop_in s c' env).0 (loop_in s c' env).1
    go disconnected e a = ground (arith, quiet c' h a, set_state-Did c' connecting env.entry h)
    go connecting e a = ground (
      arith,
      quiet c' h a,
      set_state-Did c' disconnected env.entry h,
      set_state-Did c' connected env.entry h,
    )
    go connected e a = ground (arith, quiet c' h a, set_state-Did c' disconnected env.entry h)

pub begin-Did :
    (c : ConnectionManager) (entry : ℕ)
    → c.has_callback ≡ true
    → Did c.is_connected (begin c entry).0 (begin c entry).1
unfolding begin
begin-Did c entry h =
    let d = set_state-Did c connecting entry h in
    record { callback = d.callback; agrees = d.agrees; told = d.told; sent = d.sent }

broadcast-Did :
    (c : ConnectionManager) (frame : List ℕ) (port : ℕ)
    → c.has_callback ≡ true
    → c.is_connected ≡ is_state_connected c.state
    → Did c.is_connected c (broadcast c frame port)
unfolding broadcast
broadcast-Did c frame port h a = go c.is_connected refl
  where
    go : (b : Bool) → c.is_connected ≡ b → Did b c (if b then broadcast_to frame port ∷ [] else [])
    go true e = record { callback = h; agrees = a; told = sym e; sent = refl }
    go false e = record { callback = h; agrees = a; told = sym e; sent = refl }

-- One more call after the events `es`.
then_Did :
    (c c' : ConnectionManager) (es fs : List Event)
    → Did false c es
    → Did c.is_connected c' fs
    → Did false c' (es ++ fs)
then_Did c c' es fs d e =
    let known : last_or false (connections (es ++ fs)) ≡ last_or c.is_connected (connections fs) =
      ap (last_or false) (connections-append es fs)
      ∙ last_or-append false (connections es) (connections fs)
      ∙ ap (λ b. last_or b (connections fs)) d.told in
    record {
      callback = e.callback;
      agrees = e.agrees;
      told = known ∙ e.told;
      sent = broadcasts_connected-append false es fs d.sent (rw d.told e.sent);
    }

pub Reaches-Did : (c : ConnectionManager) (es : List Event) → Reaches c es → Did false c es
unfolding begin set_connected_handler new broadcast
Reaches-Did c es ready = record { callback = refl; agrees = refl; told = refl; sent = refl }
Reaches-Did c es (begun c₀ es₀ entry r) =
    let d = Reaches-Did c₀ es₀ r in then_Did c₀ c es₀ _ d (begin-Did c₀ entry d.callback)
Reaches-Did c es (looped c₀ es₀ env r) =
    let d = Reaches-Did c₀ es₀ r in then_Did c₀ c es₀ _ d (loop-Did c₀ env d.callback d.agrees)
Reaches-Did c es (sent c₀ es₀ frame port r) =
    let d = Reaches-Did c₀ es₀ r in
    then_Did c₀ c es₀ _ d (broadcast-Did c₀ frame port d.callback d.agrees)

-- After any calls of `begin`, `loop` and `broadcast`: the flag is set exactly in the state
-- `STATE_CONNECTED`, the handler, set before them, was last told the flag, and every broadcast came
-- between a call of the handler with true and the next one with false.
pub Reaches-told :
    (c : ConnectionManager) (es : List Event)
    → Reaches c es
    → (c.is_connected ≡ is_state_connected c.state)
      × (last_or false (connections es) ≡ c.is_connected)
      × (broadcasts_connected false es ≡ true)
Reaches-told c es r = let d = Reaches-Did c es r in (d.agrees, d.told, d.sent)
