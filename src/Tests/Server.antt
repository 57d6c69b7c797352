-- ===== src/Tests/Server.antt =====
-- src/logic/server at concrete inputs.
use rdp_ext.Common.{◌≡◌, refl, List, [], ◌∷◌, All, arith}
use rdp_ext.Protocol.Message.{InstanceId, IsWire, telemetry_start, id_eq}
use rdp_ext.Protocol.Factory.{make_hello, make_cpu_sample}
use rdp_ext.Telemetry.Sample.{CpuSample}
use rdp_ext.Logic.Base.{Ambient}
use rdp_ext.Logic.Server.{
  ServerState, ServerEvent, transport_connected, message_received, cpu_sample_ready, initial,
  do_step,
}
use rdp_ext.Logic.Server.Invariant.{run_server, run_server-Inv}
use rdp_ext.Logic.Server.Wire.{sends, server_sends-IsWire}
use rdp_ext.Logic.Server.Samples.{loads, sent_along}

abbrev ambient : Ambient
ambient = record { now = 1000; draw = 77 }

abbrev remote : InstanceId
remote = record { timestamp = 5; id = 6 }

abbrev greeting : ServerEvent
greeting = message_received (make_hello remote)

abbrev sample : CpuSample
sample = record { cpu_load = 0x3f000000 }

abbrev events : List (Ambient × ServerEvent)
events =
    (ambient, transport_connected)
    ∷ (ambient, greeting)
    ∷ (ambient, greeting)
    ∷ (ambient, message_received telemetry_start)
    ∷ (ambient, cpu_sample_ready sample)
    ∷ []

reporting : ServerState
reporting = run_server initial events

events_report : loads (sent_along initial events) ≡ 0x3f000000 ∷ []
unfolding sent_along do_step make_hello make_cpu_sample id_eq
events_report = refl

server_sends-IsWire_example : All IsWire (sends (do_step ambient reporting greeting).effects)
unfolding reporting make_hello
server_sends-IsWire_example =
    server_sends-IsWire ambient reporting greeting (run_server-Inv events) (omega arith)
