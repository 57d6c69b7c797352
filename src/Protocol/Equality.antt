-- ===== src/Protocol/Equality.antt =====
-- src/core/protocol/message.h, the defaulted comparisons of messages. Floats are compared as the platform does;
-- that is a parameter.
use rdp_ext.Common.{◌==◌, ◌≡◌, ◌↔◌, Bool, true, false, ◌&&◌, [], ◌∷◌, refl, arith}
use rdp_ext.Common.Text.{Text}
use rdp_ext.Protocol.Message.{
  Float32, id_eq, HelloMessage, ErrorMessage, CapabilitySetMessage, CpuSampleMessage, PingMessage,
  PongMessage, Message, error, hello, capability_set, telemetry_start, cpu_sample, ping, pong,
}

-- `std::string`
text_eq : Text → Text → Bool
text_eq [] [] = true
text_eq (a ∷ s) (b ∷ t) = let rest = text_eq s t in a == b && rest
text_eq _ _ = false

abbrev bool_eq : Bool → Bool → Bool
bool_eq true b = b
bool_eq false true = false
bool_eq false false = true

unfoldable pub hello_eq : HelloMessage → HelloMessage → Bool
unfolding id_eq
hello_eq a b = a.protocol_version == b.protocol_version && id_eq a.instance_id b.instance_id

unfoldable pub error_eq : ErrorMessage → ErrorMessage → Bool
unfolding text_eq
error_eq a b = a.code == b.code && text_eq a.message b.message

unfoldable pub capability_set_eq : CapabilitySetMessage → CapabilitySetMessage → Bool
capability_set_eq a b =
    bool_eq a.is_ping_supported b.is_ping_supported
    && bool_eq a.is_telemetry_supported b.is_telemetry_supported

unfoldable pub ping_eq : PingMessage → PingMessage → Bool
ping_eq a b = a.id == b.id

unfoldable pub pong_eq : PongMessage → PongMessage → Bool
pong_eq a b = a.id == b.id

text_eq_sound : (s t : Text) → text_eq s t ≡ true → s ≡ t
unfolding text_eq
text_eq_sound [] [] h = refl
text_eq_sound (a ∷ s) (b ∷ t) h = ground (arith, text_eq_sound s t)
text_eq_sound [] (b ∷ t) h = cc
text_eq_sound (a ∷ s) [] h = cc

text_eq_self : (s : Text) → text_eq s s ≡ true
unfolding text_eq
text_eq_self [] = refl
text_eq_self (a ∷ s) = ground (arith, text_eq_self s)

module _ (float_eq : Float32 → Float32 → Bool) where
  unfoldable pub cpu_sample_eq : CpuSampleMessage → CpuSampleMessage → Bool
  cpu_sample_eq a b = float_eq a.cpu_load b.cpu_load

  -- That of `std::variant`.
  unfoldable pub message_eq : Message → Message → Bool
  unfolding hello_eq error_eq capability_set_eq cpu_sample_eq ping_eq pong_eq
  message_eq (error a) (error b) = error_eq a b
  message_eq (hello a) (hello b) = hello_eq a b
  message_eq (capability_set a) (capability_set b) = capability_set_eq a b
  message_eq telemetry_start telemetry_start = true
  message_eq (cpu_sample a) (cpu_sample b) = cpu_sample_eq a b
  message_eq (ping a) (ping b) = ping_eq a b
  message_eq (pong a) (pong b) = pong_eq a b
  message_eq _ _ = false

  -- What the operator decides: the same message, or two loads that compare as equal.
  abbrev IsSame : Message → Message → Type 0
  IsSame (cpu_sample a) (cpu_sample b) = float_eq a.cpu_load b.cpu_load ≡ true
  IsSame m n = m ≡ n

  message_eq-IsSame : (m n : Message) → message_eq m n ≡ true → IsSame m n
  unfolding message_eq
  message_eq-IsSame (error a) (error b) h = ground (arith, text_eq_sound a.message b.message)
  message_eq-IsSame (hello a) (hello b) h = ground arith
  message_eq-IsSame (capability_set a) (capability_set b) h = ground arith
  message_eq-IsSame telemetry_start telemetry_start h = refl
  message_eq-IsSame (cpu_sample a) (cpu_sample b) h = h
  message_eq-IsSame (ping a) (ping b) h = ground arith
  message_eq-IsSame (pong a) (pong b) h = ground arith
  message_eq-IsSame m n h = ground arith

  IsSame-message_eq : (m n : Message) → IsSame m n → message_eq m n ≡ true
  unfolding message_eq
  IsSame-message_eq (error a) (error b) h = ground (arith, text_eq_self a.message)
  IsSame-message_eq (hello a) (hello b) h = ground arith
  IsSame-message_eq (capability_set a) (capability_set b) h = ground arith
  IsSame-message_eq telemetry_start telemetry_start h = refl
  IsSame-message_eq (cpu_sample a) (cpu_sample b) h = h
  IsSame-message_eq (ping a) (ping b) h = ground arith
  IsSame-message_eq (pong a) (pong b) h = ground arith
  IsSame-message_eq m n h = ground arith

  -- The comparison of two messages holds exactly where they are one and the same message, of the same
  -- alternative and with the same fields, except that two samples are compared by their loads as floats.
  message_eq_iff : (m n : Message) → (message_eq m n ≡ true) ↔ IsSame m n
  message_eq_iff m n = (message_eq-IsSame m n, IsSame-message_eq m n)
