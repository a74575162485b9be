-- ===== src/App/Handshake.antt =====
-- The charge controller and the Modbus client agree on whether a request is under way.
use smartmeterreader.App.Running.{Promises, Runs, set_up, looped, Runs-IsRunning, same_answers}
use smartmeterreader.Prelude.{
  ℕ, ◌≡◌, ◌∙◌, refl, Bool, true, false, ltb, sub32, if◌then◌else◌, List, some, >>=-eq-some,
}
use smartmeterreader.Hmi
use smartmeterreader.ConnectionManager
use smartmeterreader.SmartMeter
use smartmeterreader.Charger
use smartmeterreader.Charger.Asks.{waits}
use smartmeterreader.Modbus.Client
use smartmeterreader.Modbus.Client.Invariant.{IsConsistent}
use smartmeterreader.Modbus.Client.Phases.{phase}
use smartmeterreader.Prelude.{some-eq}
use smartmeterreader.App.Format.{Arg}
use smartmeterreader.App.{
  App, Env, network_turn, after_network, hmi_turn, meter_turn, modbus_turn, charger_turn, log_turn,
  loop, quiet_meter, setup, new,
}
use smartmeterreader.App.Waiting.{Has, from_network-Has, from_meter-Has, emit_log_frames-Has}
use smartmeterreader.App.Exchange.{
  is_pending, InStep, in_step, modbus_turn-InStep, charger_turn-InStep,
}

module _ (print : List ℕ → List Arg → List ℕ) (a : App) (env : Env) where
  network_turn-Has : Has (waits a.charger) a.modbus (network_turn print a env)
  unfolding network_turn after_network
  network_turn-Has = go a.start_network (ltb 1000 (sub32 env.now a.start_time))
    where
      looped :
          Has
            (waits a.charger)
            a.modbus
            (after_network print a (ConnectionManager.loop a.network env.network))
      looped =
          from_network-Has print (waits a.charger) a.modbus _ _
            (record { waiting = refl; client = refl })

      begun : Has (waits a.charger) a.modbus (
          after_network print
            (record a { start_network = true })
            (ConnectionManager.begin a.network env.network.entry))
      begun =
          from_network-Has print (waits a.charger) a.modbus _ _
            (record { waiting = refl; client = refl })

      go :
          (started late : Bool)
          → Has (waits a.charger) a.modbus (
              if started
              then after_network print a (ConnectionManager.loop a.network env.network)
              else if late
              then after_network print
                  (record a { start_network = true })
                  (ConnectionManager.begin a.network env.network.entry)
              else a)
      go true late = looped
      go false true = begun
      go false false = record { waiting = refl; client = refl }

  hmi_turn-Has : {a' : App} → hmi_turn a env ≡ some a' → Has (waits a.charger) a.modbus a'
  unfolding hmi_turn
  hmi_turn-Has {a'} e =
      let (h, _, done) = >>=-eq-some (Hmi.loop a.hmi env.hmi_now env.hmi_entry) _ e in
      rw (← some-eq done) (record { waiting = refl; client = refl })

  meter_turn-Has : {a' : App} → meter_turn print a env ≡ some a' → Has (waits a.charger) a.modbus a'
  unfolding meter_turn
  meter_turn-Has {a'} e =
      let (m, _, done) = >>=-eq-some (SmartMeter.loop (quiet_meter a.meter) env.meter) _ e in
      rw (← some-eq done) (
        from_meter-Has print (waits a.charger) a.modbus env.frame_time (record a { meter = m })
          m.link.events (record { waiting = refl; client = refl }))

  log_turn-Has : Has (waits a.charger) a.modbus (log_turn print a env)
  unfolding log_turn
  log_turn-Has =
      emit_log_frames-Has print (waits a.charger) a.modbus env.behind_log _ _
        (record { waiting = refl; client = refl })

same-IsConsistent : (c d : Client.Client) → d ≡ c → IsConsistent c → IsConsistent d
same-IsConsistent c d e v = rw e v

keeps_step : (b a : App) → Has (waits a.charger) a.modbus b → InStep a → InStep b
keeps_step b a h i = in_step (waits a.charger) a.modbus b h i.waiting i.handled

loop-InStep :
    (print : List ℕ → List Arg → List ℕ) (a : App) (env : Env) {a' : App}
    → IsConsistent a.modbus
    → Promises a env
    → InStep a
    → loop print a env ≡ some a'
    → InStep a'
unfolding loop
loop-InStep print a env {a'} v p i e =
    let a₀ = network_turn print a env in
    let h₀ = network_turn-Has print a env in
    let i₀ = keeps_step a₀ a h₀ i in
    let (a₁, e₁, r₁) = >>=-eq-some (hmi_turn a₀ env) _ e in
    let h₁ = hmi_turn-Has print a₀ env e₁ in
    let i₁ = keeps_step a₁ a₀ h₁ i₀ in
    let (a₂, e₂, r₂) = >>=-eq-some (meter_turn print a₁ env) _ r₁ in
    let h₂ = meter_turn-Has print a₁ env e₂ in
    let i₂ = keeps_step a₂ a₁ h₂ i₁ in
    let same = h₂.client ∙ h₁.client ∙ h₀.client in
    let (a₃, e₃, r₃) = >>=-eq-some (modbus_turn print a₂ env) _ r₂ in
    let i₃ =
      modbus_turn-InStep print a₂ env (same-IsConsistent a.modbus a₂.modbus same v)
        (same_answers a₂.modbus a.modbus env.modbus.io same p.answers) i₂ e₃ in
    let (a₄, e₄, r₄) = >>=-eq-some (charger_turn print a₃ env) _ r₃ in
    let i₄ = charger_turn-InStep print a₃ env i₃ e₄ in
    rw (← some-eq r₄) (keeps_step (log_turn print a₄ env) a₄ (log_turn-Has print a₄ env) i₄)

setup-InStep :
    (pin fuse modbus_now charger_now start_now : ℕ)
    → InStep (setup (new pin fuse) modbus_now charger_now start_now)
unfolding setup new Client.begin Client.new Charger.begin Charger.set_frame_callback
    Charger.set_connected_callback Charger.new
setup-InStep pin fuse modbus_now charger_now start_now = record {
  waiting = refl;
  handled = λ req e. cc;
}

Runs-InStep : (print : List ℕ → List Arg → List ℕ) (a : App) → Runs print a → InStep a
Runs-InStep print a (set_up pin fuse modbus_now charger_now start_now h) =
    setup-InStep pin fuse modbus_now charger_now start_now
Runs-InStep print a (looped a₀ a₁ env r p e) =
    loop-InStep print a₀ env (Runs-IsRunning print a₀ r).holds.client p (Runs-InStep print a₀ r) e

-- After `setup` and any calls of `loop` that return, where `read` and `write` of the socket give no more
-- bytes than they are asked for: the charge controller waits for an answer exactly while the Modbus client is
-- at work on a request, so that no answer is lost and none comes that is not waited for.
pub Runs-waits :
    (print : List ℕ → List Arg → List ℕ) (a : App)
    → Runs print a
    → waits a.charger ≡ is_pending (phase a.modbus)
Runs-waits print a r = (Runs-InStep print a r).waiting
