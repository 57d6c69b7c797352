-- ===== src/Tests/Reporting.antt =====
-- The server's process with the sampler of Linux, by evaluation.
use rdp_ext.Common.{◌<◌, map, All, ◌^◌, ◌≡◌, ◌⊎◌, refl, true, false, List, [], ◌∷◌, ◌++◌, arith}
use rdp_ext.Common.Except.{returned}
use rdp_ext.Protocol.Message.{id_eq, Message, IsWire}
use rdp_ext.Telemetry.Sample.{CpuSample}
use rdp_ext.Protocol.Factory.{make_hello, make_cpu_sample}
use rdp_ext.Protocol.Serializer.{Buffer, serialize, deserialize}
use rdp_ext.Telemetry.LinuxSampler.{linux_sampler, reset, read_sample}
use rdp_ext.Telemetry.Timer.{post_sample}
use rdp_ext.Telemetry.Timer
use rdp_ext.Common.Text.{decimal, text}
use rdp_ext.Logging.{log_info}
use rdp_ext.Logic.Client
use rdp_ext.Logic.Base.{Ambient, generate_random_value}
use rdp_ext.Logic.Server.{do_step, generate_random_instance_id}
use rdp_ext.Logic.Server.Controller.{
  on_connected, on_disconnected, on_bytes, on_sample, handle_effects, run_task, step_bytes,
  step_disconnected, step_connected,
}
use rdp_ext.Logic.Server.Reporting.{
  Process, Event, runs, connects, receives, fires, advance, run, new,
}
use rdp_ext.Logic.Server.Reporting.Switching.{running_enabled, running-eq-enabled}
use rdp_ext.Logic.Server.Reporting.Readable.{readable}
use rdp_ext.Logic.Server.Reporting.Refinement.{IsFitEvent, received, taken, process_refines}
use rdp_ext.Logic.Server.{ServerEvent, initial}
use rdp_ext.Logic.Server.Invariant.{run_server, initial-Inv}
use rdp_ext.Logic.Server.Samples.{loads, sent_along}
use rdp_ext.Logic.Server.History.{heard, sampled}
use rdp_ext.Logic.Server.Controller.Strand.{inputs, outputs, waiting}
use rdp_ext.Logic.Server.Reporting.Crossing.{answer_crosses}
use rdp_ext.Logic.Server.Reporting.Delivery.{sample_delivered}
use rdp_ext.Tests.Codec.{codec, codec-IsLawful}

abbrev ambient : Ambient
ambient = record { now = 1000; draw = 77 }

abbrev hello_bytes : Buffer
hello_bytes = 1 ∷ 0x0103 ∷ 5 ∷ 6 ∷ []

abbrev work : Event linux_sampler
work = runs ambient tt

-- A client connects, completes its handshake and asks for telemetry.
abbrev events : List (Event linux_sampler)
events =
    connects
    ∷ work
    ∷ work
    ∷ receives hello_bytes
    ∷ receives hello_bytes
    ∷ work
    ∷ work
    ∷ work
    ∷ work
    ∷ receives (3 ∷ [])
    ∷ work
    ∷ []

-- Its line is what a run computes with.
reporting : Process linux_sampler
unfolding run advance on_connected on_disconnected on_bytes on_sample handle_effects run_task
    do_step serialize deserialize reset read_sample post_sample make_hello make_cpu_sample id_eq
    generate_random_instance_id generate_random_value Timer.start Timer.stop
reporting = run linux_sampler codec (new linux_sampler) events

reporting_runs : reporting.timer.running ≡ true
unfolding reporting
reporting_runs = refl

running_enabled_example :
    (reporting.timer.running ≡ false) ⊎ (reporting.machine.telemetry_enabled ≡ true)
unfolding reporting
running_enabled_example = running_enabled linux_sampler codec codec-IsLawful events

running-eq-enabled_example : reporting.timer.running ≡ reporting.machine.telemetry_enabled
unfolding reporting
running-eq-enabled_example =
    running-eq-enabled linux_sampler codec codec-IsLawful events (λ s i. refl)

sample_delivered_example :
    let q =
      advance linux_sampler codec
        (advance linux_sampler codec
          (advance linux_sampler codec reporting (fires tt))
          (runs ambient tt))
        (runs ambient tt) in
    (bytes : Buffer) × (q.delivered ≡ reporting.delivered ++ bytes ∷ [])
    × (q.strand ≡ [])
    × (q.callbacks ≡ reporting.callbacks)
    × (q.machine ≡ reporting.machine)
    × (q.timer.running ≡ true)
    × (Client.Controller.run_task decimal codec ambient Client.initial
          (Client.Controller.step_bytes bytes)
        ≡ record {
          state = Client.initial;
          calls = [];
          logs = log_info Client.logger (text "Server CPU load 0%") ∷ [];
          result = returned tt;
        })
unfolding reporting text decimal
sample_delivered_example =
    sample_delivered linux_sampler codec decimal Client.initial reporting tt tt tt ambient ambient
      ambient (record { cpu_load = 0 }) codec-IsLawful (omega arith) refl (omega arith) refl refl
      refl refl refl

hello_bytes-IsWire : (m : Message) → deserialize codec hello_bytes ≡ returned m → IsWire m
unfolding deserialize
hello_bytes-IsWire m e = ground arith

request-IsWire : (m : Message) → deserialize codec (3 ∷ []) ≡ returned m → IsWire m
unfolding deserialize
request-IsWire m e = ground arith

load-lt :
    (s : Unit {0}) (sample : CpuSample)
    → (read_sample s tt).1 ≡ returned sample
    → sample.cpu_load < 2 ^ 32
unfolding read_sample
load-lt s sample e = ground arith

-- Then the timer's callback runs, and the sample gets to the transport.
abbrev with_sample : List (Event linux_sampler)
with_sample = events ++ fires tt ∷ work ∷ work ∷ []

with_sample-loads :
    loads (readable codec (run linux_sampler codec (new linux_sampler) with_sample).delivered)
    ≡ 0 ∷ []
unfolding run advance on_connected on_disconnected on_bytes on_sample handle_effects run_task
    do_step serialize deserialize reset read_sample post_sample make_hello make_cpu_sample id_eq
    generate_random_instance_id generate_random_value Timer.start Timer.stop
with_sample-loads = refl

with_sample-IsFitEvent : All (IsFitEvent linux_sampler codec) with_sample
with_sample-IsFitEvent = (
  tt,
  (
    tt,
    (
      tt,
      (
        hello_bytes-IsWire,
        (
          hello_bytes-IsWire,
          (tt, (tt, (tt, (tt, (request-IsWire, (tt, (load-lt, (tt, (tt, tt))))))))),
        ),
      ),
    ),
  ),
)

process_refines_example :
    let p = run linux_sampler codec (new linux_sampler) with_sample in
    (history : List (Ambient × ServerEvent)) × (run_server initial history ≡ p.machine)
    × (heard history ++ readable codec (inputs p.strand)
        ≡ readable codec (received linux_sampler with_sample))
    × (map (deserialize codec) (p.delivered ++ outputs p.strand)
        ≡ map returned (sent_along initial history))
    × (sampled history ++ waiting p.strand
        ≡ taken linux_sampler codec (new linux_sampler) with_sample)
process_refines_example =
    process_refines linux_sampler codec codec-IsLawful with_sample with_sample-IsFitEvent

-- A hello arrives, and the client connects anew before the strand runs.
abbrev reconnecting : Process linux_sampler
reconnecting = record (new linux_sampler) {
  strand = step_bytes hello_bytes ∷ step_disconnected ∷ step_connected ∷ [];
}

answer_crosses_example :
    let q =
      advance linux_sampler codec
        (advance linux_sampler codec (advance linux_sampler codec reconnecting work) work)
        work in
    (q.delivered ≡ [])
    × (inputs q.strand ≡ [])
    × (map (deserialize codec) (outputs q.strand)
        ≡ map returned (
            make_hello (record { timestamp = 0; id = 0 })
            ∷ make_hello (record { timestamp = 1000; id = 77 })
            ∷ []))
unfolding do_step generate_random_instance_id generate_random_value deserialize make_hello
answer_crosses_example =
    answer_crosses linux_sampler codec codec-IsLawful reconnecting ambient ambient ambient tt tt tt
      hello_bytes (make_hello (record { timestamp = 5; id = 6 })) initial-Inv (omega arith) refl
      refl
