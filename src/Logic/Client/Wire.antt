-- ===== src/Logic/Client/Wire.antt =====
-- What a client sends fits the wire.
use rdp_ext.Common.{List, [], ◌∷◌, All, arith}
use rdp_ext.Common.Text.{text}
use rdp_ext.Protocol.Message.{Message, IsWire, protocol_version}
use rdp_ext.Protocol.Bounds.{
  make_hello-IsWire, make_telemetry_start-IsWire, make_ping-IsWire,
  make_wrong_protocol_version_error-IsWire, make_unsupported_message_type_error-IsWire,
}
use rdp_ext.Protocol.Factory.{make_unsupported_message_type_error}
use rdp_ext.Logic.Base.{Ambient, PercentText, generate_random_value, generate_random_value-lt}
use rdp_ext.Logic.Client.{
  ClientState, ClientEvent, ClientEffect, send_message, do_step, generate_random_instance_id,
}
use rdp_ext.Logic.Client.Invariant.{Inv, generated}

-- The messages that some effects send, in order.
abbrev pub sends : List ClientEffect → List Message
sends [] = []
sends (send_message m ∷ es) = m ∷ sends es
sends (_ ∷ es) = sends es

capability_set-IsWire : IsWire (make_unsupported_message_type_error (text "CapabilitySetMessage"))
unfolding text
capability_set-IsWire = make_unsupported_message_type_error-IsWire _ (omega arith)

telemetry_start-IsWire : IsWire (make_unsupported_message_type_error (text "TelemetryStartMessage"))
unfolding text
telemetry_start-IsWire = make_unsupported_message_type_error-IsWire _ (omega arith)

ping-IsWire : IsWire (make_unsupported_message_type_error (text "PingMessage"))
unfolding text
ping-IsWire = make_unsupported_message_type_error-IsWire _ (omega arith)

-- In a state that satisfies the invariant a client sends only messages whose fields fit their types,
-- whatever arrives.
pub client_sends-IsWire :
    (percent : PercentText) (a : Ambient) (s : ClientState) (e : ClientEvent)
    → Inv s
    → All IsWire (sends (do_step percent a s e).effects)
unfolding do_step
client_sends-IsWire percent a s e v = ground (
  arith,
  make_hello-IsWire (generate_random_instance_id a) (generated a),
  make_hello-IsWire s.instance_id v.own_id,
  make_telemetry_start-IsWire,
  make_ping-IsWire (generate_random_value a) (generate_random_value-lt a),
  make_wrong_protocol_version_error-IsWire protocol_version,
  capability_set-IsWire,
  telemetry_start-IsWire,
  ping-IsWire,
)
