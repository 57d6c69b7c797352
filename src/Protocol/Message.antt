-- ===== src/Protocol/Message.antt =====
-- src/core/protocol/message.h. A `float` is the bit pattern of an IEEE single, which the protocol only
-- copies; a fixed-width number is a natural number, and `IsWire` states its range.
use rdp_ext.Common.{ℕ, ◌<◌, ◌^◌, ◌≡◌, refl, Bool, true, ◌&&◌, ◌==◌, ◌↔◌, All, arith, length}
use rdp_ext.Common.Text.{Text}
use rdp_ext.Protocol.ErrorCode.{ErrorCode}

abbrev pub protocol_version : ℕ
protocol_version = 0x0103

abbrev pub Float32 : Type 0
Float32 = ℕ

pub record InstanceId : Type 0 where
  pub timestamp : ℕ
  pub id : ℕ

-- The defaulted `operator==`.
unfoldable pub id_eq : InstanceId → InstanceId → Bool
id_eq a b = a.timestamp == b.timestamp && a.id == b.id

pub record HelloMessage : Type 0 where
  pub protocol_version : ℕ
  pub instance_id : InstanceId

pub record ErrorMessage : Type 0 where
  pub code : ErrorCode
  pub message : Text

pub record CapabilitySetMessage : Type 0 where
  pub is_ping_supported : Bool
  pub is_telemetry_supported : Bool

pub record CpuSampleMessage : Type 0 where
  pub cpu_load : Float32

pub record PingMessage : Type 0 where
  pub id : ℕ

pub record PongMessage : Type 0 where
  pub id : ℕ

-- `std::variant`, in the order of its alternatives.
pub data Message : Type 0 where
  error : ErrorMessage → Message
  hello : HelloMessage → Message
  capability_set : CapabilitySetMessage → Message
  telemetry_start : Message
  cpu_sample : CpuSampleMessage → Message
  ping : PingMessage → Message
  pong : PongMessage → Message

pub id_eq_iff : (a b : InstanceId) → (id_eq a b ≡ true) ↔ (a ≡ b)
unfolding id_eq
id_eq_iff a b = ground arith

pub id_eq_self : (a : InstanceId) → id_eq a a ≡ true
id_eq_self a = (id_eq_iff a a).1 refl

-- The fields fit their C++ types.
abbrev pub IsWireId : InstanceId → Type 0
IsWireId i = (i.timestamp < 2 ^ 64) × (i.id < 2 ^ 32)

abbrev pub IsWireText : Text → Type 0
IsWireText t = All (λ c. c < 256) t × (length t < 2 ^ 32)

abbrev pub IsWire : Message → Type 0
IsWire (error m) = (m.code < 2 ^ 16) × IsWireText m.message
IsWire (hello m) = (m.protocol_version < 2 ^ 16) × IsWireId m.instance_id
IsWire (capability_set m) = Unit
IsWire telemetry_start = Unit
IsWire (cpu_sample m) = m.cpu_load < 2 ^ 32
IsWire (ping m) = m.id < 2 ^ 32
IsWire (pong m) = m.id < 2 ^ 32
