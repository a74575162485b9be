-- ===== src/App/Requests.antt =====
-- The later parts of `loop`: the Modbus client, the charge controller, which sends its requests, and the
-- network log.
use smartmeterreader.Modbus.Client.Start.{send_request-IsConsistent}
use smartmeterreader.Modbus.Frame.{Request, payload_size_of}
use smartmeterreader.Modbus.Tcp.{ModbusResult, ok}
use smartmeterreader.Prelude.{
  ℕ, ◌≡◌, ◌∙◌, refl, arith, List, [], Option, some, ◌>>=◌, Returns, ◌≤◌, ◌<◌, length,
}
use smartmeterreader.Charger
use smartmeterreader.Charger.Calls
use smartmeterreader.Charger.Invariant.{after-IsSafe, same-IsSafe, call_loop}
use smartmeterreader.Modbus.Client
use smartmeterreader.Modbus.Client.Invariant.{IsConsistent}
use smartmeterreader.App.Format.{Arg}
use smartmeterreader.App.{App}
use smartmeterreader.NetworkLog
use smartmeterreader.Prelude.{Returns->>=}
use smartmeterreader.Modbus.Client.Invariant.{Answers, loop-IsConsistent}
use smartmeterreader.App.{
  Env, words_of, modbus_turn, charger_turn, charger_env, answer_to, log_turn, memory_of,
}
use smartmeterreader.App.Dispatch.{from_charger-Holds, from_modbus-Holds, emit_log_frames-Holds}
use smartmeterreader.App.Turns.{flags, IsRunning, settle}

loop-is_enabled :
    (l : NetworkLog.NetworkLog) (t : ℕ) → (NetworkLog.loop l t).is_enabled ≡ l.is_enabled
unfolding NetworkLog.loop NetworkLog.emit
loop-is_enabled l t = ground (arith)

module _ (print : List ℕ → List Arg → List ℕ) (a : App) (r : IsRunning a) where
  pub modbus_turn-IsRunning :
      (env : Env)
      → Answers a.modbus.state a.modbus env.modbus.io
      → Returns IsRunning (modbus_turn print a env)
  unfolding modbus_turn
  modbus_turn-IsRunning env p =
      let h = r.holds in
      let w : Client.World = record {
        client = a.modbus;
        memory = memory_of a.charger;
        events = [];
      } in
      Returns->>= (λ w'. IsConsistent w'.client) IsRunning (Client.loop w env.modbus) _
        (loop-IsConsistent w env.modbus h.client p)
        (λ w' v.
          let c = record (a.charger) {
            charger_meter_buf = words_of (w'.memory Charger.charger_meter_address);
          } in
          let f = record (flags a) { modbus = w'.client } in
          (settle _ _ _ f _
            (from_modbus-Holds print f a.network.is_connected a.meter.link.is_connected
              a.charger.is_connected (record a { modbus = w'.client; charger = c }) w'.events
              (record {
                light = h.light;
                log = h.log;
                network = h.network;
                client = v;
                limit = same-IsSafe a.charger c refl refl refl h.limit;
                callback = h.callback;
                wifi = refl;
                charger = refl;
                meter = refl;
                modbus = refl;
              }))
            refl refl refl r.told).running)

  pub log_turn-IsRunning : (env : Env) → IsRunning (log_turn print a env)
  unfolding log_turn
  log_turn-IsRunning env =
      let h = r.holds in
      let l = NetworkLog.loop (record (a.log) { frames = [] }) env.log_now in
      (settle _ _ _ (flags a) _
        (emit_log_frames-Holds print (flags a) env.behind_log a.network.is_connected
          a.meter.link.is_connected a.charger.is_connected (record a { log = l }) l.frames
          (record {
            light = h.light;
            log = loop-is_enabled (record (a.log) { frames = [] }) env.log_now ∙ h.log;
            network = h.network;
            client = h.client;
            limit = h.limit;
            callback = h.callback;
            wifi = refl;
            charger = refl;
            meter = refl;
            modbus = refl;
          }))
        refl refl refl r.told).running

  sent_with :
      (c : Charger.Charger) (req : Request) (env : Client.Env)
      → req.count < 65536
      → payload_size_of req ≤ length (memory_of c req.buf)
      → Returns
          (λ (p : Client.Client × ModbusResult). IsConsistent p.0)
          (Client.send_request
              (record { client = a.modbus; memory = memory_of c; events = [] })
              req
              (some 0)
              env
            >>= λ x. some (x.0.client, x.1))
  sent_with c req env h k =
      let w : Client.World = record { client = a.modbus; memory = memory_of c; events = [] } in
      Returns->>= (λ (p : Client.World × ModbusResult). IsConsistent p.0.client)
        (λ (p : Client.Client × ModbusResult). IsConsistent p.0)
        (Client.send_request w req (some 0) env) _
        (send_request-IsConsistent w req (some 0) env r.holds.client h k) (λ p v. v)

  answer_to-IsConsistent :
      (env : Env) (c : Charger.Charger) {req : Option Request}
      → Calls.IsOurs req
      → Returns (λ (p : Client.Client × ModbusResult). IsConsistent p.0) (answer_to a env c req)
  unfolding answer_to
  answer_to-IsConsistent env c Calls.no_request = r.holds.client
  answer_to-IsConsistent env c Calls.reads_meter =
      sent_with c Charger.charger_meter_request env.sending (omega arith) (omega arith)
  answer_to-IsConsistent env c Calls.keeps_alive =
      sent_with c Charger.keep_alive_request env.sending (omega arith)
        (unfold memory_of in omega arith)
  answer_to-IsConsistent env c Calls.sets_limit =
      sent_with c Charger.set_max_charging_current_request env.sending (omega arith)
        (unfold memory_of in omega arith)

  pub charger_turn-IsRunning : (env : Env) → Returns IsRunning (charger_turn print a env)
  unfolding charger_turn
  charger_turn-IsRunning env =
      let h = r.holds in
      let (c₁, es₁) = Charger.loop a.charger (charger_env env ok) in
      Returns->>= (λ p. IsConsistent p.0) IsRunning (answer_to a env c₁ (Calls.request_of es₁)) _
        (answer_to-IsConsistent env c₁
          (Calls.loop-Tells a.charger (charger_env env ok) h.callback).request)
        (λ p v.
          let next = Charger.loop a.charger (charger_env env p.1) in
          let t = Calls.loop-Tells a.charger (charger_env env p.1) h.callback in
          let f = record (flags a) { modbus = p.0; charger = next.0.is_connected } in
          (settle _ _ _ f _
            (from_charger-Holds print f a.network.is_connected a.meter.link.is_connected
              a.charger.is_connected (record a { modbus = p.0; charger = next.0 }) next.1
              (record {
                light = h.light;
                log = h.log;
                network = h.network;
                client = v;
                limit = after-IsSafe a.charger (call_loop (charger_env env p.1)) h.limit;
                callback = t.callback;
                wifi = refl;
                charger = refl;
                meter = refl;
                modbus = refl;
              }))
            refl refl t.told r.told).running)
