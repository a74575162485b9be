-- ===== src/ConnectionManager/Retry.antt =====
-- How the state machine comes back to a connection.
use smartmeterreader.Prelude.{
  ℕ, ◌<◌, ◌≤◌, ◌≡◌, arith, Bool, true, false, sub32, [], ◌⊎◌, inl, inr, lt→ltb, ltb, if◌then◌else◌,
  ap,
}
use smartmeterreader.Prelude.Int.{ℤ}
use smartmeterreader.ConnectionManager.{
  ConnectionManager, State, disconnected, connecting, connected, wl_connected, other, Env, loop,
  loop_in, set_state, enter_state, update_connected_state, fire_callback, update_wifi_status,
  is_wl_connected,
}

-- Where the library has connected.
record IsUp (c : ConnectionManager) : Type 0 where
  state : c.state ≡ connected
  flag : c.is_connected ≡ true

record IsConnecting (entry : ℕ) (c : ConnectionManager) : Type 0 where
  state : c.state ≡ connecting
  since : c.state_entry_time ≡ entry

set_state-connected : (c : ConnectionManager) (entry : ℕ) → IsUp (set_state c connected entry).0
unfolding set_state enter_state update_connected_state fire_callback
set_state-connected c entry = record { state = ground (arith); flag = ground (arith) }

set_state-connecting :
    (c : ConnectionManager) (entry : ℕ) → IsConnecting entry (set_state c connecting entry).0
unfolding set_state enter_state update_connected_state fire_callback
set_state-connecting c entry = record { state = ground (arith); since = ground (arith) }

set_state-disconnected :
    (c : ConnectionManager) (entry : ℕ) → (set_state c disconnected entry).0.state ≡ disconnected
unfolding set_state enter_state update_connected_state fire_callback
set_state-disconnected c entry = ground (arith)

leaves :
    (c : ConnectionManager) (env : Env) (z : ℤ)
    → env.status ≡ other z
    → env.is_connected ≡ false
    → 10000 < sub32 env.now c.state_entry_time
    → ((loop c env).0.state ≡ disconnected) ⊎ IsConnecting env.entry (loop c env).0
unfolding loop update_wifi_status loop_in
leaves c env z s w l = go c.state
  where
    c' : ConnectionManager
    c' = record c { status = env.status }

    go :
        (s : State)
        → ((loop_in s c' env).0.state ≡ disconnected) ⊎ IsConnecting env.entry (loop_in s c' env).0
    go disconnected = rw w (inr (set_state-connecting c' env.entry))
    go connecting =
        rw (lt→ltb 10000 (sub32 env.now c.state_entry_time) l)
          (inl (set_state-disconnected c' env.entry))
    go connected = rw s (inl (set_state-disconnected (record c { status = other z }) env.entry))

restarts :
    (c : ConnectionManager) (env : Env)
    → c.state ≡ disconnected
    → env.is_connected ≡ false
    → IsConnecting env.entry (loop c env).0
unfolding loop update_wifi_status loop_in
restarts c env s w = go c.state s
  where
    c' : ConnectionManager
    c' = record c { status = env.status }

    go : (s : State) → s ≡ disconnected → IsConnecting env.entry (loop_in s c' env).0
    go disconnected e = rw w (set_state-connecting c' env.entry)
    go connecting e = cc
    go connected e = cc

in_time :
    (entry : ℕ) (c : ConnectionManager) (env : Env)
    → IsConnecting entry c
    → sub32 env.now entry ≤ 10000
    → ltb 10000 (sub32 env.now c.state_entry_time) ≡ false
in_time entry c env k n = rw k.since (ground arith)

waits :
    (entry : ℕ) (c : ConnectionManager) (env : Env)
    → IsConnecting entry c
    → sub32 env.now entry ≤ 10000
    → IsUp (loop c env).0 ⊎ IsConnecting entry (loop c env).0
unfolding loop update_wifi_status loop_in
waits entry c env k n = go c.state k.state
  where
    c' : ConnectionManager
    c' = record c { status = env.status }

    step :
        (w : Bool)
        → IsUp (if w then set_state c' connected env.entry else (c', [])).0
          ⊎ IsConnecting entry (if w then set_state c' connected env.entry else (c', [])).0
    step true = inl (set_state-connected c' env.entry)
    step false = inr (record { state = k.state; since = k.since })

    go :
        (s : State)
        → s ≡ connecting
        → IsUp (loop_in s c' env).0 ⊎ IsConnecting entry (loop_in s c' env).0
    go disconnected e = cc
    go connecting e = rw (in_time entry c env k n) (step (is_wl_connected env.status))
    go connected e = cc

connects :
    (entry : ℕ) (c : ConnectionManager) (env : Env)
    → IsConnecting entry c
    → sub32 env.now entry ≤ 10000
    → env.status ≡ wl_connected
    → IsUp (loop c env).0
unfolding loop update_wifi_status loop_in
connects entry c env k n w = go c.state k.state
  where
    c' : ConnectionManager
    c' = record c { status = env.status }

    go : (s : State) → s ≡ connecting → IsUp (loop_in s c' env).0
    go disconnected e = cc
    go connecting e =
        rw (in_time entry c env k n) (rw (ap is_wl_connected w) (set_state-connected c' env.entry))
    go connected e = cc

stays :
    (c : ConnectionManager) (env : Env) → IsUp c → env.status ≡ wl_connected → IsUp (loop c env).0
unfolding loop update_wifi_status loop_in
stays c env u w = go c.state u.state
  where
    c' : ConnectionManager
    c' = record c { status = env.status }

    go : (s : State) → s ≡ connected → IsUp (loop_in s c' env).0
    go disconnected e = cc
    go connecting e = cc
    go connected e = rw (ap is_wl_connected w) (record { state = u.state; flag = u.flag })

-- From every state three calls of `loop` lead to `STATE_CONNECTED`: the first finds WiFi unconnected, more
-- than 10 s after the state began, the second finds `WiFi.isConnected()` false, the third finds
-- `WL_CONNECTED`, and the second and the third come at most 10 s after the calls before them.
pub loop-connects :
    (c : ConnectionManager) (env₁ env₂ env₃ : Env) (z : ℤ)
    → env₁.status ≡ other z
    → env₁.is_connected ≡ false
    → 10000 < sub32 env₁.now c.state_entry_time
    → env₂.is_connected ≡ false
    → sub32 env₂.now env₁.entry ≤ 10000
    → env₃.status ≡ wl_connected
    → sub32 env₃.now env₁.entry ≤ 10000
    → sub32 env₃.now env₂.entry ≤ 10000
    → let c₃ = (loop (loop (loop c env₁).0 env₂).0 env₃).0 in
      (c₃.state ≡ connected) × (c₃.is_connected ≡ true)
unfolding loop loop_in set_state enter_state update_connected_state fire_callback update_wifi_status
loop-connects c env₁ env₂ env₃ z s₁ w₁ l w₂ n₂ s₃ n₃ m₃ =
    let c₁ = (loop c env₁).0 in
    let c₂ = (loop c₁ env₂).0 in
    elim (leaves c env₁ z s₁ w₁ l) [
      | inl d ↦
          let u = connects env₂.entry c₂ env₃ (restarts c₁ env₂ d w₂) m₃ s₃ in (u.state, u.flag)
      | inr k ↦ elim (waits env₁.entry c₁ env₂ k n₂) [
        | inl u ↦ let u' = stays c₂ env₃ u s₃ in (u'.state, u'.flag)
        | inr k' ↦ let u = connects env₁.entry c₂ env₃ k' n₃ s₃ in (u.state, u.flag)
      ]
    ]
