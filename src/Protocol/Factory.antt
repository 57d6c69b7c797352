-- ===== src/Protocol/Factory.antt =====
-- src/core/protocol/message_factory.cpp.
use rdp_ext.Common.{ℕ, Bool, ◌++◌}
use rdp_ext.Common.Text.{Text, text, hex4}
use rdp_ext.Protocol.ErrorCode
use rdp_ext.Protocol.ErrorCode.{ErrorCode}
use rdp_ext.Protocol.Message.{
  InstanceId, Float32, Message, error, hello, capability_set, telemetry_start, cpu_sample, ping,
  pong, protocol_version,
}

unfoldable pub make_hello : InstanceId → Message
make_hello instance_id =
    hello (record { protocol_version = protocol_version; instance_id = instance_id })

unfoldable pub make_capability_set : Bool → Bool → Message
make_capability_set is_ping_supported is_telemetry_supported = capability_set (record {
  is_ping_supported = is_ping_supported;
  is_telemetry_supported = is_telemetry_supported;
})

unfoldable pub make_telemetry_start : Message
make_telemetry_start = telemetry_start

unfoldable pub make_cpu_sample : Float32 → Message
make_cpu_sample cpu_load = cpu_sample (record { cpu_load = cpu_load })

unfoldable pub make_ping : ℕ → Message
make_ping id = ping (record { id = id })

unfoldable pub make_pong : ℕ → Message
make_pong id = pong (record { id = id })

unfoldable pub make_error : ErrorCode → Text → Message
make_error code message = error (record { code = code; message = message })

unfoldable pub make_internal_error : Text → Message
unfolding make_error
make_internal_error message =
    make_error ErrorCode.internal_error (text "Internal error: " ++ message)

unfoldable pub make_wrong_protocol_version_error : ℕ → Message
unfolding make_error
make_wrong_protocol_version_error version =
    make_error ErrorCode.wrong_protocol_version
      (text "Unsupported protocol version, required version 0x" ++ hex4 version)

unfoldable pub make_handshake_required_error : Message
unfolding make_error
make_handshake_required_error =
    make_error ErrorCode.handshake_required (text "No handshake was made")

-- The code is that of an internal error, as in the source.
unfoldable pub make_invalid_state_error : Text → Message
unfolding make_error
make_invalid_state_error message =
    make_error ErrorCode.internal_error (text "Invalid state: " ++ message)

unfoldable pub make_unsupported_message_type_error : Text → Message
unfolding make_error
make_unsupported_message_type_error message_type =
    make_error ErrorCode.unsupported_message_type (text "UnsupportedMessageType: " ++ message_type)
