-- ===== src/Protocol/Bounds.antt =====
-- The messages of the factory fit the types of message.h.
use rdp_ext.Common.{ℕ, ◌<◌, ◌^◌, ◌++◌, All, All-append, length, length-append, arith}
use rdp_ext.Common.Text.{Text, text, hex4}
use rdp_ext.Protocol.Message.{InstanceId, IsWire, IsWireId, IsWireText, Float32}
use rdp_ext.Protocol.Factory.{
  make_hello, make_telemetry_start, make_cpu_sample, make_ping, make_pong,
  make_wrong_protocol_version_error, make_unsupported_message_type_error,
}

abbrev IsShort : Text → Type 0
IsShort t = All (λ c. c < 256) t × (length t < 100)

IsShort-append : (s t : Text) → IsShort s → IsShort t → IsWireText (s ++ t)
IsShort-append s t h k =
    (All-append (λ c. c < 256) s t h.0 k.0, omega (arith, length-append s t, h.1, k.1))

hex4-IsShort : (v : ℕ) → IsShort (hex4 v)
unfolding hex4
hex4-IsShort v = ground arith

pub make_hello-IsWire : (i : InstanceId) → IsWireId i → IsWire (make_hello i)
unfolding make_hello
make_hello-IsWire i h = (omega arith, h)

pub make_telemetry_start-IsWire : IsWire make_telemetry_start
unfolding make_telemetry_start
make_telemetry_start-IsWire = tt

pub make_cpu_sample-IsWire : (f : Float32) → f < 2 ^ 32 → IsWire (make_cpu_sample f)
unfolding make_cpu_sample
make_cpu_sample-IsWire f h = h

pub make_ping-IsWire : (id : ℕ) → id < 2 ^ 32 → IsWire (make_ping id)
unfolding make_ping
make_ping-IsWire id h = h

pub make_pong-IsWire : (id : ℕ) → id < 2 ^ 32 → IsWire (make_pong id)
unfolding make_pong
make_pong-IsWire id h = h

pub make_wrong_protocol_version_error-IsWire :
    (v : ℕ) → IsWire (make_wrong_protocol_version_error v)
unfolding make_wrong_protocol_version_error text
make_wrong_protocol_version_error-IsWire v = (
  omega arith,
  IsShort-append (text "Unsupported protocol version, required version 0x") (hex4 v) (omega arith)
      (hex4-IsShort v),
)

pub make_unsupported_message_type_error-IsWire :
    (t : Text) → IsShort t → IsWire (make_unsupported_message_type_error t)
unfolding make_unsupported_message_type_error text
make_unsupported_message_type_error-IsWire t h =
    (omega arith, IsShort-append (text "UnsupportedMessageType: ") t (omega arith) h)
