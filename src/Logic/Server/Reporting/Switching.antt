-- ===== src/Logic/Server/Reporting/Switching.antt =====
-- When the telemetry timer of the server's process runs.
use rdp_ext.Common.{ℕ, zero, suc, Bool, ◌≡◌, ◌⊎◌, inl, inr, refl, true, false, List, [], ◌∷◌, arith}
use rdp_ext.Common.Except.{returned, Except-cases}
use rdp_ext.Protocol.Message.{
  InstanceId, IsWireId, error, hello, capability_set, telemetry_start, cpu_sample, ping, pong,
}
use rdp_ext.Protocol.Factory.{make_hello}
use rdp_ext.Protocol.Bounds.{make_hello-IsWire}
use rdp_ext.Protocol.Serializer.{Archive, IsLawful, Buffer, serialize, deserialize}
use rdp_ext.Protocol.RoundTrip.{serialize-deserialize}
use rdp_ext.Telemetry.Sampler.{Sampler}
use rdp_ext.Telemetry.Timer.{TimerControl, start, stop, post_sample}
use rdp_ext.Logic.Base.{Ambient}
use rdp_ext.Logic.Server.{
  ServerState, ServerEvent, transport_connected, transport_disconnected, message_received,
  cpu_sample_ready, do_step,
}
use rdp_ext.Logic.Server.Invariant.{Inv, do_step-Inv, initial-Inv}
use rdp_ext.Logic.Server.Controller.{
  handle_effects, Task, step_connected, step_disconnected, step_bytes, step_sample, send_bytes,
  close, step, run_task,
}
use rdp_ext.Logic.Server.Reporting.{
  drive, Process, after_task, run_first, fire, Event, runs, fires, advance, new,
}
use rdp_ext.Logic.Server.Reporting

module _ (sampler : Sampler) (archive : Archive) (lawful : IsLawful archive) where
  -- The timer runs only while the machine has telemetry enabled.
  abbrev IsOff : TimerControl sampler → ServerState → Type 0
  IsOff t s = (t.running ≡ false) ⊎ (s.telemetry_enabled ≡ true)

  hello_written :
      (i : InstanceId)
      → IsWireId i
      → (bytes : Buffer) × (serialize archive (make_hello i) ≡ returned bytes)
  hello_written i w =
      let (bytes, out, _, _) = serialize-deserialize archive lawful _ [] (make_hello-IsWire i w) in
      (bytes, out)

  drive-IsOff :
      (a : Ambient) (s : ServerState) (e : ServerEvent) (t : TimerControl sampler)
      (input : sampler.Input)
      → Inv s
      → IsOff t s
      → let calls =
          (handle_effects archive (start sampler t input).result (do_step a s e).effects).0 in
        IsOff (drive sampler input t calls).0 (do_step a s e).state
  unfolding do_step handle_effects drive start stop
  drive-IsOff a s transport_connected t input v o = ground arith
  drive-IsOff a s transport_disconnected t input v o = ground arith
  drive-IsOff a s (message_received (error m)) t input v o = ground arith
  drive-IsOff a s (message_received (hello m)) t input v o =
      let (bytes, out) = hello_written s.instance_id v.own_id in ground arith
  drive-IsOff a s (message_received (capability_set m)) t input v o = ground arith
  drive-IsOff a s (message_received telemetry_start) t input v o = ground arith
  drive-IsOff a s (message_received (cpu_sample m)) t input v o = ground arith
  drive-IsOff a s (message_received (ping m)) t input v o = ground arith
  drive-IsOff a s (message_received (pong m)) t input v o = ground arith
  drive-IsOff a s (cpu_sample_ready sample) t input v o = ground arith

  drive_follows :
      (a : Ambient) (s : ServerState) (e : ServerEvent) (t : TimerControl sampler)
      (input : sampler.Input)
      → (sampler.reset t.sampler_state input).1 ≡ returned tt
      → Inv s
      → t.running ≡ s.telemetry_enabled
      → let calls =
          (handle_effects archive (start sampler t input).result (do_step a s e).effects).0 in
        (drive sampler input t calls).0.running ≡ (do_step a s e).state.telemetry_enabled
  unfolding do_step handle_effects drive start stop
  drive_follows a s transport_connected t input n v o = ground arith
  drive_follows a s transport_disconnected t input n v o = ground arith
  drive_follows a s (message_received (error m)) t input n v o = ground arith
  drive_follows a s (message_received (hello m)) t input n v o =
      let (bytes, out) = hello_written s.instance_id v.own_id in ground arith
  drive_follows a s (message_received (capability_set m)) t input n v o = ground arith
  drive_follows a s (message_received telemetry_start) t input n v o = ground arith
  drive_follows a s (message_received (cpu_sample m)) t input n v o = ground arith
  drive_follows a s (message_received (ping m)) t input n v o = ground arith
  drive_follows a s (message_received (pong m)) t input n v o = ground arith
  drive_follows a s (cpu_sample_ready sample) t input n v o = ground arith

-- What the flag of the timer and that of the machine have to do with one another, kept by every step of
-- the machine, is kept by every event of the process.
module _ (sampler : Sampler) (archive : Archive) (P : Bool → Bool → Type 0)
    (keeps : (a : Ambient) (s : ServerState) (e : ServerEvent) (t : TimerControl sampler)
        (input : sampler.Input)
      → Inv s
      → P t.running s.telemetry_enabled
      → let calls =
          (handle_effects archive (start sampler t input).result (do_step a s e).effects).0 in
        P (drive sampler input t calls).0.running (do_step a s e).state.telemetry_enabled) where
  record Guarded (p : Process sampler) : Type 0 where
    machine_inv : Inv p.machine
    flags : P p.timer.running p.machine.telemetry_enabled

  abbrev after : Process sampler → List Task → Ambient → sampler.Input → Task → Process sampler
  after p rest a input task =
      after_task sampler p rest input
        (run_task archive (start sampler p.timer input).result a p.machine task)

  event-Guarded :
      (p : Process sampler) (e : ServerEvent) (a : Ambient) (input : sampler.Input)
      (rest : List Task)
      → Guarded p
      → Guarded (
          after_task sampler p rest input
            (step archive (start sampler p.timer input).result a p.machine e))
  unfolding after_task step
  event-Guarded p e a input rest g = record {
    machine_inv = do_step-Inv a p.machine e g.machine_inv;
    flags = keeps a p.machine e p.timer input g.machine_inv g.flags;
  }

  task-Guarded :
      (p : Process sampler) (task : Task) (rest : List Task) (a : Ambient) (input : sampler.Input)
      → Guarded p
      → Guarded (after p rest a input task)
  unfolding after_task run_task
  task-Guarded p step_connected rest a input g = event-Guarded p transport_connected a input rest g
  task-Guarded p step_disconnected rest a input g =
      event-Guarded p transport_disconnected a input rest g
  task-Guarded p (step_sample sample) rest a input g =
      event-Guarded p (cpu_sample_ready sample) a input rest g
  task-Guarded p (send_bytes bytes) rest a input g = record {
    machine_inv = g.machine_inv;
    flags = g.flags;
  }
  task-Guarded p close rest a input g = record { machine_inv = g.machine_inv; flags = g.flags }
  task-Guarded p (step_bytes bytes) rest a input g =
      elim (Except-cases (deserialize archive bytes)) [
        | inl (m, e) ↦ rw (e, run_task) (event-Guarded p (message_received m) a input rest g)
        | inr (what, e) ↦ rw (e, run_task) (record { machine_inv = g.machine_inv; flags = g.flags })
      ]

  fired-running :
      (t : TimerControl sampler) (input : sampler.Input)
      → (post_sample sampler t input).timer.running ≡ t.running
  unfolding post_sample
  fired-running t input = ground arith

  first-Guarded :
      (p : Process sampler) (strand : List Task) (a : Ambient) (input : sampler.Input)
      → Guarded p
      → Guarded (run_first sampler archive p strand a input)
  unfolding run_first
  first-Guarded p [] a input g = g
  first-Guarded p (task ∷ rest) a input g = task-Guarded p task rest a input g

  fire-Guarded :
      (p : Process sampler) (callbacks : ℕ) (input : sampler.Input)
      → Guarded p
      → Guarded (fire sampler archive p callbacks input)
  unfolding fire
  fire-Guarded p zero input g = g
  fire-Guarded p (suc left) input g = record {
    machine_inv = g.machine_inv;
    flags = rw fired-running g.flags;
  }

  advance-Guarded :
      (p : Process sampler) (e : Event sampler) → Guarded p → Guarded (advance sampler archive p e)
  unfolding advance
  advance-Guarded p (runs a input) g = first-Guarded p p.strand a input g
  advance-Guarded p (fires input) g = fire-Guarded p p.callbacks input g
  advance-Guarded p _ g = record { machine_inv = g.machine_inv; flags = g.flags }

  run-Guarded :
      (p : Process sampler) (es : List (Event sampler))
      → Guarded p
      → Guarded (Reporting.run sampler archive p es)
  unfolding Reporting.run
  run-Guarded p [] g = g
  run-Guarded p (e ∷ es) g = run-Guarded (advance sampler archive p e) es (advance-Guarded p e g)

module _ (sampler : Sampler) (archive : Archive) (lawful : IsLawful archive) where
  -- The timer of a process runs only while its machine has telemetry enabled, whatever tasks, transport
  -- and callbacks do from the start on, in any order, whatever arrives, and also where the sampler throws.
  pub running_enabled :
      (es : List (Event sampler))
      → let p = Reporting.run sampler archive (new sampler) es in
        (p.timer.running ≡ false) ⊎ (p.machine.telemetry_enabled ≡ true)
  running_enabled es =
      (run-Guarded sampler archive (λ r e. (r ≡ false) ⊎ (e ≡ true))
        (drive-IsOff sampler archive lawful) (new sampler) es
        (record { machine_inv = initial-Inv; flags = inl refl })).flags

  -- Where no reset of the sampler throws, it runs exactly while telemetry is enabled.
  pub running-eq-enabled :
      (es : List (Event sampler))
      → ((s : sampler.State) (i : sampler.Input) → (sampler.reset s i).1 ≡ returned tt)
      → let p = Reporting.run sampler archive (new sampler) es in
        p.timer.running ≡ p.machine.telemetry_enabled
  running-eq-enabled es never =
      (run-Guarded sampler archive (λ r e. r ≡ e)
        (λ a s e t i. drive_follows sampler archive lawful a s e t i (never t.sampler_state i))
        (new sampler) es (record { machine_inv = initial-Inv; flags = refl })).flags
