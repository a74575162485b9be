-- ===== src/Charger/Invariant.antt =====
-- What holds of the charge controller between calls.
use smartmeterreader.Prelude.{
  ℕ, ◌/◌, ◌≤◌, ◌<◌, ◌≡◌, refl, arith, Bool, true, false, List, [], ◌∷◌, if◌then◌else◌, sub32, ◌%◌,
  eq_bool, leb, not, sym,
}
use smartmeterreader.Prelude.Int.{ℤ, pos, negsuc, ◌≤ℤ◌, ◌/ℤ◌, pattern_of, eq_ℤ}
use smartmeterreader.Meter.Values.{Values}
use smartmeterreader.Modbus.Frame.{Request}
use smartmeterreader.Modbus.Tcp.{ModbusResult, ok, busy, fatal}
use smartmeterreader.Charger.{
  Charger, Env, Event, sent, connection, State, idle, read_charger_meter, set_charger_keep_alive,
  set_charger_limit, new, begin, on_smart_meter_frame, set_is_connected, set_charge_limit,
  determine_current_limit, start_request, update_limit, enter_state, set_state, finish, on_done,
  loop_in, loop, handle_in, handle_modbus_request_done, swap_b16, smart_meter_timeout_ms,
  set_max_charging_current_request, poll_interval_ms, limit_loop, limit_by, phase_limit,
  is_any_phase_active,
}
use smartmeterreader.Charger.Limit.{determine_current_limit-le}
use smartmeterreader.Charger.Words.{swap_b16-swap_b16}

-- The word that is written to the charger says, once the bytes are swapped back, the limit in whole
-- amperes, and the limit lies between 0 and the fuse's; before the first one is set, the word is 0.
abbrev pub LimitIsSafe : ℕ → ℤ → ℕ → Type 0
LimitIsSafe fuse (pos l) buf = (l ≤ fuse) × (swap_b16 buf ≡ l / 1000)
LimitIsSafe fuse (negsuc l) buf = buf ≡ 0

pub record IsSafe (c : Charger) : Type 0 where
  pub fuse_limit : c.fuse_limit_ma < 65536000
  pub word : c.max_charging_current_buf < 65536
  pub limit : LimitIsSafe c.fuse_limit_ma c.limit_ma c.max_charging_current_buf

pub new-IsSafe : (fuse : ℕ) → fuse < 65536000 → IsSafe (new fuse)
unfolding new
new-IsSafe fuse h = record { fuse_limit = h; word = omega arith; limit = refl }

swapped_limit :
    (l : ℕ) → l < 65536000 → swap_b16 (swap_b16 (pattern_of 65536 (pos l /ℤ 1000))) ≡ l / 1000
unfolding ◌/ℤ◌ pattern_of
swapped_limit l h = rw (swap_b16-swap_b16 (l / 1000 % 65536) (omega arith)) (omega arith)

if-IsSafe : (b : Bool) {c d : Charger} → IsSafe c → IsSafe d → IsSafe (if b then c else d)
if-IsSafe true v w = v
if-IsSafe false v w = w

-- The fields that the invariant is about.
pub same-IsSafe :
    (c d : Charger)
    → d.fuse_limit_ma ≡ c.fuse_limit_ma
    → d.limit_ma ≡ c.limit_ma
    → d.max_charging_current_buf ≡ c.max_charging_current_buf
    → IsSafe c
    → IsSafe d
same-IsSafe c d e f g v = record {
  fuse_limit = rw e v.fuse_limit;
  word = rw g v.word;
  limit = rw e (rw f (rw g v.limit));
}

swap_b16-lt : (v : ℕ) → swap_b16 v < 65536
unfolding swap_b16
swap_b16-lt v = omega arith

set_charge_limit-IsSafe :
    (c : Charger) (z : ℤ)
    → pos 0 ≤ℤ z
    → z ≤ℤ pos c.fuse_limit_ma
    → IsSafe c
    → IsSafe (set_charge_limit c z)
unfolding set_charge_limit
set_charge_limit-IsSafe c (negsuc n) h k v = absurd (omega arith)
set_charge_limit-IsSafe c (pos l) h k v = if-IsSafe (eq_ℤ (pos l) c.limit_ma) v (record {
  fuse_limit = v.fuse_limit;
  word = swap_b16-lt (pattern_of 65536 (pos l /ℤ 1000));
  limit = (omega arith, swapped_limit l (omega (arith, v.fuse_limit)));
})

update_limit-IsSafe : (c : Charger) → IsSafe c → IsSafe (update_limit c)
unfolding update_limit
update_limit-IsSafe c v =
    let range = determine_current_limit-le c (omega (arith, v.fuse_limit)) in
    if-IsSafe _ (set_charge_limit-IsSafe c (determine_current_limit c) range.0 range.1 v)
      (if-IsSafe _ (set_charge_limit-IsSafe c (pos 0) (omega arith) (omega arith) v) v)

start_request-IsSafe :
    (c : Charger) (req : Request) (rc : ModbusResult) → IsSafe c → IsSafe (start_request c req rc).0
unfolding start_request
start_request-IsSafe c req rc v = same-IsSafe c _ refl refl refl v

enter_state-IsSafe :
    (s : State) (c : Charger) (rc : ModbusResult) → IsSafe c → IsSafe (enter_state s c rc).0
unfolding enter_state
enter_state-IsSafe idle c rc v = v
enter_state-IsSafe read_charger_meter c rc v = start_request-IsSafe c _ rc v
enter_state-IsSafe set_charger_keep_alive c rc v = start_request-IsSafe c _ rc v
enter_state-IsSafe set_charger_limit c rc v =
    start_request-IsSafe (update_limit c) _ rc (update_limit-IsSafe c v)

set_state-IsSafe : (c : Charger) (s : State) (env : Env) → IsSafe c → IsSafe (set_state c s env).0
unfolding set_state
set_state-IsSafe c s env v = enter_state-IsSafe s _ env.answer (same-IsSafe c _ refl refl refl v)

abbrev LeavesSafe : Charger × List Event → Type 0
LeavesSafe r = IsSafe r.0

set_is_connected-IsSafe : (c : Charger) (b : Bool) → IsSafe c → IsSafe (set_is_connected c b).0
unfolding set_is_connected
set_is_connected-IsSafe c b v = go (eq_bool b c.is_connected)
  where
    go :
        (same : Bool)
        → LeavesSafe (
            if same then (c, []) else (
              record c { is_connected = b },
              if c.has_connected_callback then connection b ∷ [] else [],
            ))
    go true = v
    go false = same-IsSafe c _ refl refl refl v

finish-IsSafe : (c : Charger) (b : Bool) (env : Env) → IsSafe c → IsSafe (finish c b env).0
unfolding finish
finish-IsSafe c b env v =
    set_state-IsSafe (set_is_connected c b).0 idle env (set_is_connected-IsSafe c b v)

on_done-IsSafe :
    (c : Charger) (env : Env) (next : Charger × List Event)
    → IsSafe c
    → IsSafe next.0
    → IsSafe (on_done c env next).0
unfolding on_done
on_done-IsSafe c env next v w = go c.is_request_done c.modbus_rc
  where
    go :
        (b : Bool) (rc : ModbusResult)
        → LeavesSafe (
            if not b then (c, []) else elim rc [
              | ok ↦ next
              | busy ↦ set_state c c.state env
              | fatal ↦ finish c false env
            ])
    go false rc = v
    go true ok = w
    go true busy = set_state-IsSafe c c.state env v
    go true fatal = finish-IsSafe c false env v

loop_in-IsSafe : (s : State) (c : Charger) (env : Env) → IsSafe c → IsSafe (loop_in s c env).0
unfolding loop_in
loop_in-IsSafe idle c env v = go (leb 3000 (sub32 env.t c.last_poll_time))
  where
    go :
        (b : Bool)
        → LeavesSafe (
            if b
            then set_state (record c { last_poll_time = env.t }) read_charger_meter env
            else (c, []))
    go true = set_state-IsSafe _ read_charger_meter env (same-IsSafe c _ refl refl refl v)
    go false = v
loop_in-IsSafe read_charger_meter c env v =
    on_done-IsSafe c env _ v (set_state-IsSafe c set_charger_keep_alive env v)
loop_in-IsSafe set_charger_keep_alive c env v =
    on_done-IsSafe c env _ v (set_state-IsSafe c set_charger_limit env v)
loop_in-IsSafe set_charger_limit c env v = on_done-IsSafe c env _ v (finish-IsSafe c true env v)

handle_in-IsSafe : (s : State) (c : Charger) (b : Bool) → IsSafe c → IsSafe (handle_in s c b).0
handle_in-IsSafe idle c b v = v
handle_in-IsSafe read_charger_meter c true v = same-IsSafe c _ refl refl refl v
handle_in-IsSafe read_charger_meter c false v = same-IsSafe c _ refl refl refl v
handle_in-IsSafe set_charger_keep_alive c b v = same-IsSafe c _ refl refl refl v
handle_in-IsSafe set_charger_limit c b v = same-IsSafe c _ refl refl refl v

-- Calls of the controller, and stores of the Modbus client into the buffer of the charger's meter, whose
-- address the request hands out, in any order.
pub data Call : Type 0 where
  call_begin : ℕ → Call
  call_loop : Env → Call
  call_frame : Values → ℕ → Call
  call_buffer : List ℕ → Call
  call_done : ℕ → Call

abbrev pub after : Charger → Call → Charger
after c (call_begin now) = begin c now
after c (call_loop env) = (loop c env).0
after c (call_frame values now) = on_smart_meter_frame c values now
after c (call_buffer words) = record c { charger_meter_buf = words }
after c (call_done code) = (handle_modbus_request_done c code).0

abbrev pub after_all : Charger → List Call → Charger
after_all c [] = c
after_all c (call ∷ calls) = after_all (after c call) calls

pub after-IsSafe : (c : Charger) (call : Call) → IsSafe c → IsSafe (after c call)
unfolding begin loop on_smart_meter_frame handle_modbus_request_done
after-IsSafe c (call_begin now) v = same-IsSafe c _ refl refl refl v
after-IsSafe c (call_loop env) v = loop_in-IsSafe c.state c env v
after-IsSafe c (call_frame values now) v = same-IsSafe c _ refl refl refl v
after-IsSafe c (call_buffer words) v = same-IsSafe c _ refl refl refl v
after-IsSafe c (call_done code) v = handle_in-IsSafe c.state c _ v

after_all-IsSafe : (c : Charger) (calls : List Call) → IsSafe c → IsSafe (after_all c calls)
after_all-IsSafe c [] v = v
after_all-IsSafe c (call ∷ calls) v = after_all-IsSafe (after c call) calls (after-IsSafe c call v)

-- After any sequence of calls on the new object, and of stores of any words into the buffer that the
-- charger's measurements are read from, in whatever order and with whatever measurements of the house, the
-- word that goes to the charger is 0 until a limit is set, and from then on says the limit in whole
-- amperes, which lies between 0 and the fuse's. The fuse's limit is below 65536 A.
pub reachable-IsSafe :
    (fuse : ℕ) (calls : List Call) → fuse < 65536000 → IsSafe (after_all (new fuse) calls)
reachable-IsSafe fuse calls h = after_all-IsSafe (new fuse) calls (new-IsSafe fuse h)

eq_ℤ-eq : (a b : ℤ) → eq_ℤ a b ≡ true → a ≡ b
eq_ℤ-eq a b h = ground arith

set_charge_limit-limit_ma : (c : Charger) (z : ℤ) → (set_charge_limit c z).limit_ma ≡ z
unfolding set_charge_limit
set_charge_limit-limit_ma c z = go (eq_ℤ z c.limit_ma) (eq_ℤ-eq z c.limit_ma)
  where
    go :
        (b : Bool)
        → (b ≡ true → z ≡ c.limit_ma)
        → (if b then c else record c {
          limit_ma = z;
          max_charging_current_buf = swap_b16 (pattern_of 65536 (z /ℤ 1000));
        }).limit_ma
          ≡ z
    go true h = sym (h refl)
    go false h = refl

fuse_limit_ma-set_state :
    (c : Charger) (env : Env)
    → (set_state c set_charger_limit env).0.fuse_limit_ma ≡ c.fuse_limit_ma
unfolding set_state enter_state start_request update_limit set_charge_limit
fuse_limit_ma-set_state c env = ground arith

-- When the controller enters the state that sets the limit, it sends the request once, with the limit 0
-- if the meter has sent no frame for 10 s or more, with the limit worked out from the last frame if that
-- at most 3 s old, and with the limit as it was in between. If the object is safe before, the word that
-- the request writes, once the bytes are swapped back, is that limit in whole amperes, and the limit lies
-- between 0 and the fuse's; it is 0 as long as no limit is set.
pub set_state-set_charger_limit :
    (c : Charger) (env : Env)
    → IsSafe c
    → ((set_state c set_charger_limit env).0.limit_ma ≡ (
        let age = sub32 env.entry c.last_smart_meter_frame_time in
        if leb smart_meter_timeout_ms age
        then pos 0
        else if leb age poll_interval_ms
        then determine_current_limit c
        else c.limit_ma))
      × ((set_state c set_charger_limit env).1 ≡ sent set_max_charging_current_request ∷ [])
      × LimitIsSafe c.fuse_limit_ma
          (set_state c set_charger_limit env).0.limit_ma
          (set_state c set_charger_limit env).0.max_charging_current_buf
unfolding set_state enter_state update_limit start_request determine_current_limit limit_loop
    limit_by phase_limit is_any_phase_active
set_state-set_charger_limit c env v = (
  go (leb smart_meter_timeout_ms age) (leb age poll_interval_ms) (λ h k. exclusive age h k),
  refl,
  rw (fuse_limit_ma-set_state c env) at (set_state-IsSafe c set_charger_limit env v).limit,
)
  where
    c' : Charger
    c' = record c { state = set_charger_limit; state_entry_time = env.entry }

    age : ℕ
    age = sub32 env.entry c.last_smart_meter_frame_time

    exclusive : (n : ℕ) → leb 10000 n ≡ true → leb n 3000 ≡ true → ⊥
    exclusive n h k = ground arith

    go :
        (stale fresh : Bool)
        → (stale ≡ true → fresh ≡ true → ⊥)
        → (if fresh
            then set_charge_limit c' (determine_current_limit c')
            else if stale
            then set_charge_limit c' (pos 0)
            else c').limit_ma
          ≡ (if stale then pos 0 else if fresh then determine_current_limit c else c.limit_ma)
    go true true h = absurd (h refl refl)
    go true false h = set_charge_limit-limit_ma c' (pos 0)
    go false true h = set_charge_limit-limit_ma c' (determine_current_limit c')
    go false false h = refl
