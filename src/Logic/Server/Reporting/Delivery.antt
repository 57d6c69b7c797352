-- ===== src/Logic/Server/Reporting/Delivery.antt =====
-- A sample on its way from a callback of the timer to the transport.
use rdp_ext.Common.{◌<◌, ◌^◌, ◌≡◌, ap, ◌∙◌, true, [], ◌∷◌, ◌++◌, arith}
use mathlib.Core.List.{append-nil}
use rdp_ext.Common.Except.{returned}
use rdp_ext.Protocol.Factory.{make_cpu_sample}
use rdp_ext.Protocol.Bounds.{make_cpu_sample-IsWire}
use rdp_ext.Protocol.Serializer.{Archive, IsLawful, Buffer, serialize, deserialize}
use rdp_ext.Protocol.RoundTrip.{serialize-deserialize}
use rdp_ext.Telemetry.Sample.{CpuSample}
use rdp_ext.Telemetry.Sampler.{Sampler}
use rdp_ext.Telemetry.Timer.{TimerControl, post_sample}
use rdp_ext.Common.Text.{text}
use rdp_ext.Logging.{log_info}
use rdp_ext.Protocol.Message.{Float32}
use rdp_ext.Logic.Base.{Ambient, PercentText}
use rdp_ext.Logic.Client.{ClientState}
use rdp_ext.Logic.Client
use rdp_ext.Logic.Server.{ServerState, do_step}
use rdp_ext.Logic.Server.Controller.{step_sample, send_bytes, on_sample, run_task, handle_effects}
use rdp_ext.Logic.Server.Reporting.{Process, runs, fires, advance}

module _ (sampler : Sampler) (archive : Archive) where
  fire_posts :
      (p : Process sampler) (input : sampler.Input) (sample : CpuSample)
      → p.strand ≡ []
      → 0 < p.callbacks
      → p.timer.running ≡ true
      → p.timer.has_sample_handler ≡ true
      → (sampler.read_sample p.timer.sampler_state input).1 ≡ returned sample
      → let q = advance sampler archive p (fires input) in
        (q.strand ≡ step_sample sample ∷ [])
        × (q.callbacks ≡ p.callbacks)
        × (q.machine ≡ p.machine)
        × (q.delivered ≡ p.delivered)
        × (q.timer.running ≡ true)
  unfolding advance post_sample on_sample
  fire_posts p input sample s c r h e = ground arith

  step_posts :
      (p : Process sampler) (input : sampler.Input) (a : Ambient) (sample : CpuSample)
      (bytes : Buffer)
      → p.strand ≡ step_sample sample ∷ []
      → p.machine.telemetry_enabled ≡ true
      → p.machine.handshake_state.handshake_completed ≡ true
      → serialize archive (make_cpu_sample sample.cpu_load) ≡ returned bytes
      → let q = advance sampler archive p (runs a input) in
        (q.strand ≡ send_bytes bytes ∷ [])
        × (q.callbacks ≡ p.callbacks)
        × (q.machine ≡ p.machine)
        × (q.delivered ≡ p.delivered)
        × (q.timer ≡ p.timer)
  unfolding advance run_task handle_effects do_step
  step_posts p input a sample bytes s d known out = ground (arith, append-nil p.delivered)

  send_gives :
      (p : Process sampler) (input : sampler.Input) (a : Ambient) (bytes : Buffer)
      → p.strand ≡ send_bytes bytes ∷ []
      → let q = advance sampler archive p (runs a input) in
        (q.strand ≡ [])
        × (q.callbacks ≡ p.callbacks)
        × (q.machine ≡ p.machine)
        × (q.delivered ≡ p.delivered ++ bytes ∷ [])
        × (q.timer ≡ p.timer)
  unfolding advance run_task
  send_gives p input a bytes s = ground arith

  -- A client that receives a load logs it, whatever its state.
  load_logged :
      (percent : PercentText) (a : Ambient) (client : ClientState) (load : Float32) (bytes : Buffer)
      → deserialize archive bytes ≡ returned (make_cpu_sample load)
      → Client.Controller.run_task percent archive a client (Client.Controller.step_bytes bytes)
        ≡ record {
          state = client;
          calls = [];
          logs = log_info Client.logger (text "Server CPU load " ++ percent load ++ text "%") ∷ [];
          result = returned tt;
        }
  unfolding Client.Controller.run_task Client.Controller.handle_effects Client.do_step
      make_cpu_sample
  load_logged percent a client load bytes e = ground arith

  -- A sample reaches the client's log. Let a callback be pending in a process that has no task, whose timer
  -- runs with a handler, whose machine has telemetry enabled and the handshake completed, and whose sampler
  -- reads a load of 32 bits; the archive is lawful. Then the callback and the two tasks that come of it give
  -- the transport one buffer more; no task is left, a callback is pending again, the machine is as it was and
  -- the timer runs. A client's controller that handles that buffer in any state logs the load, makes no call
  -- and stays in its state.
  pub sample_delivered :
      (percent : PercentText) (client : ClientState) (p : Process sampler)
      (input i₁ i₂ : sampler.Input) (a a₁ a₂ : Ambient) (sample : CpuSample)
      → IsLawful archive
      → sample.cpu_load < 2 ^ 32
      → p.strand ≡ []
      → 0 < p.callbacks
      → p.timer.running ≡ true
      → p.timer.has_sample_handler ≡ true
      → p.machine.telemetry_enabled ≡ true
      → p.machine.handshake_state.handshake_completed ≡ true
      → (sampler.read_sample p.timer.sampler_state input).1 ≡ returned sample
      → let q =
          advance sampler archive
            (advance sampler archive (advance sampler archive p (fires input)) (runs a₁ i₁))
            (runs a₂ i₂) in
        (bytes : Buffer) × (q.delivered ≡ p.delivered ++ bytes ∷ [])
        × (q.strand ≡ [])
        × (q.callbacks ≡ p.callbacks)
        × (q.machine ≡ p.machine)
        × (q.timer.running ≡ true)
        × (Client.Controller.run_task percent archive a client (Client.Controller.step_bytes bytes)
            ≡ record {
              state = client;
              calls = [];
              logs =
                  log_info Client.logger
                    (text "Server CPU load " ++ percent sample.cpu_load ++ text "%")
                  ∷ [];
              result = returned tt;
            })
  sample_delivered percent client p input i₁ i₂ a a₁ a₂ sample lawful w s c r h d known e =
      let (bytes, out, _, back) =
        serialize-deserialize archive lawful _ [] (make_cpu_sample-IsWire sample.cpu_load w) in
      let fired = advance sampler archive p (fires input) in
      let stepped = advance sampler archive fired (runs a₁ i₁) in
      let (strand₁, callbacks₁, machine₁, delivered₁, on) = fire_posts p input sample s c r h e in
      let (strand₂, callbacks₂, machine₂, delivered₂, timer₂) =
        step_posts fired i₁ a₁ sample bytes strand₁
          (ap (λ (m : ServerState). m.telemetry_enabled) machine₁ ∙ d)
          (ap (λ (m : ServerState). m.handshake_state.handshake_completed) machine₁ ∙ known) out in
      let (strand₃, callbacks₃, machine₃, delivered₃, timer₃) =
        send_gives stepped i₂ a₂ bytes strand₂ in
      (
        bytes,
        delivered₃ ∙ ap (λ ds. ds ++ bytes ∷ []) (delivered₂ ∙ delivered₁),
        strand₃,
        callbacks₃ ∙ callbacks₂ ∙ callbacks₁,
        machine₃ ∙ machine₂ ∙ machine₁,
        ap (λ (t : TimerControl sampler). t.running) (timer₃ ∙ timer₂) ∙ on,
        load_logged percent a client sample.cpu_load bytes back,
      )
