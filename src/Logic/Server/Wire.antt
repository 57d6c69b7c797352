-- ===== src/Logic/Server/Wire.antt =====
-- What a server sends fits the wire.
use rdp_ext.Common.{◌<◌, ◌^◌, List, [], ◌∷◌, All, arith}
use rdp_ext.Common.Text.{text}
use rdp_ext.Protocol.Message.{
  Message, IsWire, protocol_version, error, hello, capability_set, telemetry_start, cpu_sample,
  ping, pong,
}
use rdp_ext.Protocol.Factory.{make_unsupported_message_type_error}
use rdp_ext.Protocol.Bounds.{
  make_hello-IsWire, make_cpu_sample-IsWire, make_pong-IsWire,
  make_wrong_protocol_version_error-IsWire, make_unsupported_message_type_error-IsWire,
}
use rdp_ext.Logic.Base.{Ambient}
use rdp_ext.Logic.Server.{
  ServerState, ServerEvent, transport_connected, transport_disconnected, message_received,
  cpu_sample_ready, ServerEffect, send_message, do_step, generate_random_instance_id,
}
use rdp_ext.Logic.Server.Invariant.{Inv, generated}

-- The messages that some effects send, in order.
abbrev pub sends : List ServerEffect → List Message
sends [] = []
sends (send_message m ∷ es) = m ∷ sends es
sends (_ ∷ es) = sends es

-- What arrives fits the types that it was read into.
abbrev pub IsWireEvent : ServerEvent → Type 0
IsWireEvent (message_received m) = IsWire m
IsWireEvent (cpu_sample_ready sample) = sample.cpu_load < 2 ^ 32
IsWireEvent _ = Unit

cpu_sample-IsWire : IsWire (make_unsupported_message_type_error (text "CpuSampleMessage"))
unfolding text
cpu_sample-IsWire = make_unsupported_message_type_error-IsWire _ (omega arith)

pong-IsWire : IsWire (make_unsupported_message_type_error (text "PongMessage"))
unfolding text
pong-IsWire = make_unsupported_message_type_error-IsWire _ (omega arith)

-- In a state that satisfies the invariant, and at an event whose fields fit their types, a server sends
-- only messages whose fields fit their types.
pub server_sends-IsWire :
    (a : Ambient) (s : ServerState) (e : ServerEvent)
    → Inv s
    → IsWireEvent e
    → All IsWire (sends (do_step a s e).effects)
unfolding do_step
server_sends-IsWire a s transport_connected v w =
    ground (arith, make_hello-IsWire (generate_random_instance_id a) (generated a))
server_sends-IsWire a s transport_disconnected v w = tt
server_sends-IsWire a s (message_received (error m)) v w = tt
server_sends-IsWire a s (message_received (hello m)) v w = ground (
  arith,
  make_hello-IsWire s.instance_id v.own_id,
  make_wrong_protocol_version_error-IsWire protocol_version,
)
server_sends-IsWire a s (message_received (capability_set m)) v w = tt
server_sends-IsWire a s (message_received telemetry_start) v w = tt
server_sends-IsWire a s (message_received (cpu_sample m)) v w = (cpu_sample-IsWire, tt)
server_sends-IsWire a s (message_received (ping m)) v w = (make_pong-IsWire m.id w, tt)
server_sends-IsWire a s (message_received (pong m)) v w = (pong-IsWire, tt)
server_sends-IsWire a s (cpu_sample_ready sample) v w =
    ground (arith, make_cpu_sample-IsWire sample.cpu_load w)
