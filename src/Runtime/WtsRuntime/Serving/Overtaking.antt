-- ===== src/Runtime/WtsRuntime/Serving/Overtaking.antt =====
-- A close of another thread inside of `readOnce`.
use rdp_ext.Common.{◌≡◌, refl, ap, ◌∙◌, ℕ, suc, true, false, [], ◌∷◌, ◌++◌, arith}
use rdp_ext.Common.Except.{returned}
use rdp_ext.Protocol.Message.{telemetry_start}
use rdp_ext.Protocol.Serializer.{Archive, Buffer, deserialize}
use rdp_ext.Telemetry.Sampler.{Sampler}
use rdp_ext.Telemetry.Timer
use rdp_ext.Telemetry.Timer.Chains.{scheduled}
use rdp_ext.Logic.Base.{Ambient, disconnected}
use rdp_ext.Logic.Server
use rdp_ext.Logic.Server.Controller.{
  step_disconnected, step_bytes, on_disconnected, on_bytes, run_task, step, handle_effects,
}
use rdp_ext.Logic.Server.Reporting.{Process, runs, advance, run_first}
use rdp_ext.Transport.ChannelHandle.{OsCall, valid, close_channel as close_handle}
use rdp_ext.Transport.Wts.{
  WtsTransport, connected, os, call_disconnected, call_bytes, close_channel,
}
use rdp_ext.Transport.Wts.Reading.{read_begin, deliver, got}
use rdp_ext.Runtime.WtsRuntime.Serving.{hear}

-- The calls of the handlers: the disconnection comes first.
read_overtaken :
    (t : WtsTransport) (b : ℕ) (bs : Buffer)
    → t.state ≡ connected
    → t.has_disconnected_handler ≡ true
    → t.has_bytes_handler ≡ true
    → read_begin t ≡ true
    → let (closed, closing) = close_channel t in
      (valid closed.channel ≡ false)
      × (closing ++ (deliver closed (got (b ∷ bs))).1
          ≡ os (close_handle (t.channel.channel)) ∷ call_disconnected ∷ call_bytes (b ∷ bs) ∷ [])
unfolding close_channel deliver read_begin valid
read_overtaken t b bs s d h r = ground arith

module _ (sampler : Sampler) (archive : Archive) where
  -- The disconnection is handled.
  disconnection_runs :
      (p : Process sampler) (bytes : Buffer) (a : Ambient) (input : sampler.Input)
      → p.strand ≡ step_disconnected ∷ step_bytes bytes ∷ []
      → let q = advance sampler archive p (runs a input) in
        (q.strand ≡ step_bytes bytes ∷ [])
        × (q.machine.connection_state ≡ disconnected)
        × (q.timer ≡ Timer.stop sampler p.timer)
        × (q.callbacks ≡ p.callbacks)
  unfolding advance run_first run_task step handle_effects Server.do_step
  disconnection_runs p bytes a input s = rw s (refl, refl, refl, omega arith)

  -- A timer that does not run starts where its sampler can be reset.
  start_lem :
      (t : Timer.TimerControl sampler) (input : sampler.Input)
      → t.running ≡ false
      → (sampler.reset t.sampler_state input).1 ≡ returned tt
      → let begun = Timer.start sampler t input in
        (begun.result ≡ returned tt) × (begun.timer.running ≡ true) × (scheduled begun.calls ≡ 1)
  unfolding Timer.start
  start_lem t input n r = rw (r, n) (refl, refl, refl)

  -- The request behind it starts the timer.
  request_runs :
      (p : Process sampler) (bytes : Buffer) (a : Ambient) (input : sampler.Input)
      → p.strand ≡ step_bytes bytes ∷ []
      → deserialize archive bytes ≡ returned telemetry_start
      → p.timer.running ≡ false
      → (sampler.reset p.timer.sampler_state input).1 ≡ returned tt
      → let q = advance sampler archive p (runs a input) in
        (q.machine.connection_state ≡ p.machine.connection_state)
        × (q.machine.telemetry_enabled ≡ true)
        × (q.timer.running ≡ true)
        × (q.callbacks ≡ suc p.callbacks)
  unfolding advance run_first run_task step handle_effects Server.do_step
  request_runs p bytes a input s e n r =
      let (done, running, one) = start_lem p.timer input n r in
      rw (s, run_task, e, done) (refl, refl, running, rw one (omega arith))

  -- What the handlers post.
  overtaken_posts :
      (p : Process sampler) (c : OsCall) (bytes : Buffer)
      → p.strand ≡ []
      → let q = hear sampler archive p (os c ∷ call_disconnected ∷ call_bytes bytes ∷ []) in
        (q.strand ≡ step_disconnected ∷ step_bytes bytes ∷ [])
        × (q.timer ≡ p.timer)
        × (q.callbacks ≡ p.callbacks)
  unfolding hear advance on_disconnected on_bytes
  overtaken_posts p c bytes s = rw s (refl, refl, refl)

  -- A close overtakes a read. Let the server's transport be connected with its handlers set, and let
  -- the section of `readOnce` go on to read. Another thread closes the channel, and then the read ends
  -- with bytes, not none, that read as TelemetryStart. The disconnected handler is called first and
  -- that of the bytes behind it. Where no task waited on the strand, the two tasks of these calls leave
  -- the channel closed and the machine Disconnected, but with telemetry enabled and, where the sampler
  -- can be reset, with a running timer and one more callback.
  pub close_overtakes_read :
      (t : WtsTransport) (p : Process sampler) (b : ℕ) (bs : Buffer) (a₁ a₂ : Ambient)
      (i₁ i₂ : sampler.Input)
      → t.state ≡ connected
      → t.has_disconnected_handler ≡ true
      → t.has_bytes_handler ≡ true
      → read_begin t ≡ true
      → deserialize archive (b ∷ bs) ≡ returned telemetry_start
      → p.strand ≡ []
      → (sampler.reset p.timer.sampler_state i₂).1 ≡ returned tt
      → let (closed, closing) = close_channel t in
        let (_, calls) = deliver closed (got (b ∷ bs)) in
        let heard = hear sampler archive p (closing ++ calls) in
        let q = advance sampler archive (advance sampler archive heard (runs a₁ i₁)) (runs a₂ i₂) in
        (closing ++ calls
          ≡ os (close_handle t.channel.channel) ∷ call_disconnected ∷ call_bytes (b ∷ bs) ∷ [])
        × (valid closed.channel ≡ false)
        × (q.machine.connection_state ≡ disconnected)
        × (q.machine.telemetry_enabled ≡ true)
        × (q.timer.running ≡ true)
        × (q.callbacks ≡ suc p.callbacks)
  unfolding Timer.stop
  close_overtakes_read t p b bs a₁ a₂ i₁ i₂ s d h r e n reset =
      let (closed, calls) = read_overtaken t b bs s d h r in
      let heard =
        hear sampler archive p
          (os (close_handle t.channel.channel) ∷ call_disconnected ∷ call_bytes (b ∷ bs) ∷ []) in
      let (strand, timer, callbacks) =
        overtaken_posts p (close_handle t.channel.channel) (b ∷ bs) n in
      let (strand₁, state₁, timer₁, callbacks₁) = disconnection_runs heard (b ∷ bs) a₁ i₁ strand in
      let q₁ = advance sampler archive heard (runs a₁ i₁) in
      let stopped : q₁.timer ≡ Timer.stop sampler p.timer =
        timer₁ ∙ ap (Timer.stop sampler) timer in
      let (state, enabled, running, more) =
        request_runs q₁ (b ∷ bs) a₂ i₂ strand₁ e (ap (λ t. t.running) stopped)
          (ap (λ t. (sampler.reset t.sampler_state i₂).1) stopped ∙ reset) in
      (
        calls,
        closed,
        rw calls (state ∙ state₁),
        rw calls enabled,
        rw calls running,
        rw calls (more ∙ ap suc (callbacks₁ ∙ callbacks)),
      )
