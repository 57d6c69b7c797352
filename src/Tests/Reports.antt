-- ===== src/Tests/Reports.antt =====
-- What a client's process makes a server's do, and the other way, by evaluation.
use rdp_ext.Common.{◌<◌, ◌^◌, ◌≡◌, refl, List, [], ◌∷◌, ◌++◌, map, All, arith}
use rdp_ext.Common.Except.{returned}
use rdp_ext.Common.Text.{decimal}
use rdp_ext.Protocol.Serializer.{Buffer, serialize, deserialize}
use rdp_ext.Logic.Base.{Ambient, generate_random_value}
use rdp_ext.Protocol.Readable.{readable}
use rdp_ext.Telemetry.LinuxSampler.{linux_sampler, reset, read_sample}
use rdp_ext.Telemetry.Timer.{post_sample}
use rdp_ext.Telemetry.Timer
use rdp_ext.Telemetry.Sample.{CpuSample}
use rdp_ext.Protocol.Message.{id_eq, Message, IsWire, Float32}
use rdp_ext.Protocol.Factory.{make_hello, make_cpu_sample, make_telemetry_start}
use rdp_ext.Logic.Server.{do_step, generate_random_instance_id}
use rdp_ext.Logic.Server.Controller.{on_connected, on_bytes, on_sample, handle_effects, run_task}
use rdp_ext.Logic.Client
use rdp_ext.Logic.Client.Controller
use rdp_ext.Logic.Client.{ClientEvent, initial}
use rdp_ext.Logic.Client.Invariant.{run_client}
use rdp_ext.Logic.Client.Controller.Strand.{inputs}
use rdp_ext.Logic.Client.History.{heard}
use rdp_ext.Logic.Client.Process.Refinement
use rdp_ext.Logic.Client.Process.Refinement.{received}
use rdp_ext.Protocol.Loads.{loads}
use rdp_ext.Logic.Server.Reporting
use rdp_ext.Logic.Server.Reporting.Refinement.{IsFitEvent, taken}
use rdp_ext.Logic.Server.Reporting.Refinement as Server
use rdp_ext.Logic.Reports.{Asks, loads_need_client}
use rdp_ext.Logic.Client.Process.{advance, Event, runs, connects, receives, new, run}
use mathlib.Core.List.{Sublist}
use rdp_ext.Logic.Client.Lines.{lines_with, load_start, load_line}
use rdp_ext.Logic.Server.Sampled.{loads_of}
use rdp_ext.Logic.Reports.Sampling.{logged_loads_sampled}
use rdp_ext.Tests.Codec.{codec, codec-IsLawful}
use rdp_ext.Tests.Process.{ambient, ds, client}

abbrev pub hello_bytes : Buffer
hello_bytes = 1 ∷ 0x0103 ∷ 5 ∷ 6 ∷ []

abbrev serves : Reporting.Event linux_sampler
serves = Reporting.runs ambient tt

-- What the client sent arrives, and a sample is taken.
abbrev es : List (Reporting.Event linux_sampler)
es =
    Reporting.connects
    ∷ serves
    ∷ serves
    ∷ Reporting.receives hello_bytes
    ∷ Reporting.receives hello_bytes
    ∷ Reporting.receives hello_bytes
    ∷ serves
    ∷ serves
    ∷ serves
    ∷ serves
    ∷ Reporting.receives (3 ∷ [])
    ∷ serves
    ∷ serves
    ∷ Reporting.fires tt
    ∷ serves
    ∷ serves
    ∷ []

pub hello_bytes-IsWire : (m : Message) → deserialize codec hello_bytes ≡ returned m → IsWire m
unfolding deserialize
hello_bytes-IsWire m e = ground arith

pub request-IsWire : (m : Message) → deserialize codec (3 ∷ []) ≡ returned m → IsWire m
unfolding deserialize
request-IsWire m e = ground arith

pub load-lt :
    (s : Unit {0}) (sample : CpuSample)
    → (read_sample s tt).1 ≡ returned sample
    → sample.cpu_load < 2 ^ 32
unfolding read_sample
load-lt s sample e = ground arith

es-IsFitEvent : All (IsFitEvent linux_sampler codec) es
es-IsFitEvent = (
  tt,
  (
    tt,
    (
      tt,
      (
        hello_bytes-IsWire,
        (
          hello_bytes-IsWire,
          (
            hello_bytes-IsWire,
            (tt, (tt, (tt, (tt, (request-IsWire, (tt, (tt, (load-lt, (tt, (tt, tt)))))))))),
          ),
        ),
      ),
    ),
  ),
)

channel : client.delivered ≡ Server.received linux_sampler es
unfolding run advance Client.Controller.on_connected Client.Controller.on_bytes
    Client.Controller.run_task Client.Controller.handle_effects Client.do_step serialize deserialize
    make_hello make_telemetry_start id_eq Client.generate_random_instance_id generate_random_value
channel = refl

one_load :
    loads (
      readable codec (Reporting.run linux_sampler codec (Reporting.new linux_sampler) es).delivered)
    ≡ 0 ∷ []
unfolding Reporting.run Reporting.advance on_connected on_bytes on_sample handle_effects run_task
    do_step serialize deserialize reset read_sample post_sample make_hello make_cpu_sample id_eq
    generate_random_instance_id generate_random_value Timer.start Timer.stop
one_load = refl

loads_need_client_example :
    (history : List (Ambient × ClientEvent)) × (run_client decimal initial history ≡ client.machine)
    × (heard history ++ readable codec (inputs client.strand) ≡ readable codec (received ds))
    × Asks decimal initial history
loads_need_client_example =
    loads_need_client decimal linux_sampler codec codec-IsLawful ds es [] es-IsFitEvent channel
      (rw one_load (omega arith))

-- What the server's process sent arrives at a client.
abbrev watching : List Event
watching =
    connects
    ∷ runs ambient
    ∷ receives hello_bytes
    ∷ receives hello_bytes
    ∷ receives hello_bytes
    ∷ receives (4 ∷ 0 ∷ [])
    ∷ runs ambient
    ∷ runs ambient
    ∷ runs ambient
    ∷ runs ambient
    ∷ runs ambient
    ∷ runs ambient
    ∷ runs ambient
    ∷ []

back :
    (Reporting.run linux_sampler codec (Reporting.new linux_sampler) es).delivered
    ≡ Refinement.received watching ++ []
unfolding Reporting.run Reporting.advance on_connected on_bytes on_sample handle_effects run_task
    do_step serialize deserialize reset read_sample post_sample make_hello make_cpu_sample id_eq
    generate_random_instance_id generate_random_value Timer.start Timer.stop
back = refl

logged_loads_sampled_example :
    (seen : List Float32) × (lines_with load_start (run decimal codec new watching).logs
      ≡ map (load_line decimal) seen)
    × Sublist seen (loads_of (taken linux_sampler codec (Reporting.new linux_sampler) es))
logged_loads_sampled_example =
    logged_loads_sampled decimal linux_sampler codec codec-IsLawful watching es [] es-IsFitEvent
      back
