-- ===== src/Tests/ConnectionManager.antt =====
-- A connection that is lost and comes back.
use smartmeterreader.Prelude.{ℕ, ◌≡◌, refl, arith, true, false, List, [], ◌∷◌, ◌++◌}
use smartmeterreader.Prelude.Int.{pos}
use smartmeterreader.Prelude.Told.{last_or}
use smartmeterreader.ConnectionManager.{
  ConnectionManager, Env, Status, wl_connected, other, Event, new, set_connected_handler, begin,
  loop, broadcast, connected, set_state, enter_state, update_connected_state,
}
use smartmeterreader.ConnectionManager.Invariant.{
  Reaches, ready, begun, looped, sent, Reaches-told, is_state_connected, connections,
  broadcasts_connected,
}
use smartmeterreader.ConnectionManager.Retry.{loop-connects}

abbrev env_of : Status → ℕ → Env
env_of status now = record { status = status; is_connected = false; now = now; entry = now }

abbrev started : ConnectionManager
started = (begin (set_connected_handler new true) 1000).0

abbrev up : ConnectionManager
up = (loop started (env_of wl_connected 1500)).0

abbrev up_events : List Event
up_events =
    (begin (set_connected_handler new true) 1000).1 ++ (loop started (env_of wl_connected 1500)).1

up-Reaches : Reaches up up_events
up-Reaches = looped started _ (env_of wl_connected 1500) (begun _ [] 1000 ready)

-- One frame is broadcast, and then the connection is lost.
Reaches-told_example :
    ((loop up (env_of (other (pos 5)) 1600)).0.is_connected
      ≡ is_state_connected (loop up (env_of (other (pos 5)) 1600)).0.state)
    × (last_or false (
          connections (
            (up_events ++ broadcast up (b'a' ∷ []) 20000)
            ++ (loop up (env_of (other (pos 5)) 1600)).1))
        ≡ (loop up (env_of (other (pos 5)) 1600)).0.is_connected)
    × (broadcasts_connected false (
          (up_events ++ broadcast up (b'a' ∷ []) 20000)
          ++ (loop up (env_of (other (pos 5)) 1600)).1)
        ≡ true)
Reaches-told_example =
    Reaches-told (loop up (env_of (other (pos 5)) 1600)).0
      ((up_events ++ broadcast up (b'a' ∷ []) 20000) ++ (loop up (env_of (other (pos 5)) 1600)).1)
      (looped up _ (env_of (other (pos 5)) 1600) (sent up up_events (b'a' ∷ []) 20000 up-Reaches))

abbrev tries : Status → ℕ → ConnectionManager → ConnectionManager
tries status now c = (loop c (env_of status now)).0

loop-connects_example :
    let c₃ =
      tries wl_connected 12300
        (tries (other (pos 6)) 12200 (tries (other (pos 6)) 12100 started)) in
    (c₃.state ≡ connected) × (c₃.is_connected ≡ true)
unfolding begin set_connected_handler new set_state enter_state update_connected_state
loop-connects_example =
    loop-connects started (env_of (other (pos 6)) 12100) (env_of (other (pos 6)) 12200)
      (env_of wl_connected 12300) (pos 6) refl refl (omega arith) refl (omega arith) refl
      (omega arith) (omega arith)
