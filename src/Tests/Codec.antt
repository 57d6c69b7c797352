-- ===== src/Tests/Codec.antt =====
-- An archive that meets the law of `Protocol.Serializer.IsLawful`: each message is a tag and its fields. It
-- stands in for zpp_bits in the tests, and is not its format.
use rdp_ext.Common.{
  arith, ℕ, ◌==◌, ◌≡◌, refl, Bool, true, false, List, [], ◌∷◌, ◌++◌, none, if◌then◌else◌,
}
use rdp_ext.Common.Text.{decimal}
use rdp_ext.Protocol.Message.{
  Message, error, hello, capability_set, telemetry_start, cpu_sample, ping, pong,
}
use rdp_ext.Protocol.Serializer.{Archive, IsLawful, Read, failed, done}

abbrev of_bool : Bool → ℕ
of_bool true = 1
of_bool false = 0

abbrev encode : Message → List ℕ
encode (error m) = 0 ∷ m.code ∷ m.message
encode (hello m) = 1 ∷ m.protocol_version ∷ m.instance_id.timestamp ∷ m.instance_id.id ∷ []
encode (capability_set m) = 2 ∷ of_bool m.is_ping_supported ∷ of_bool m.is_telemetry_supported ∷ []
encode telemetry_start = 3 ∷ []
encode (cpu_sample m) = 4 ∷ m.cpu_load ∷ []
encode (ping m) = 5 ∷ m.id ∷ []
encode (pong m) = 6 ∷ m.id ∷ []

abbrev decode_error : List ℕ → Read
decode_error [] = failed 1
decode_error (code ∷ message) = done (error (record { code = code; message = message }))

abbrev decode_hello : List ℕ → Read
decode_hello (version ∷ timestamp ∷ id ∷ []) = done (
    hello (record {
      protocol_version = version;
      instance_id = record { timestamp = timestamp; id = id };
    }))
decode_hello _ = failed 1

abbrev decode_capability_set : List ℕ → Read
decode_capability_set (a ∷ b ∷ []) =
    done (capability_set (record { is_ping_supported = a == 1; is_telemetry_supported = b == 1 }))
decode_capability_set _ = failed 1

abbrev decode_telemetry_start : List ℕ → Read
decode_telemetry_start [] = done telemetry_start
decode_telemetry_start _ = failed 1

abbrev decode_one : (ℕ → Message) → List ℕ → Read
decode_one make (a ∷ []) = done (make a)
decode_one make _ = failed 1

abbrev decode_body : ℕ → List ℕ → Read
decode_body tag rest =
    if tag == 0
    then decode_error rest
    else (if tag == 1
        then decode_hello rest
        else (if tag == 2
            then decode_capability_set rest
            else (if tag == 3
                then decode_telemetry_start rest
                else (if tag == 4
                    then decode_one (λ x. cpu_sample (record { cpu_load = x })) rest
                    else (if tag == 5
                        then decode_one (λ x. ping (record { id = x })) rest
                        else (if tag == 6
                            then decode_one (λ x. pong (record { id = x })) rest
                            else failed 2))))))

abbrev decode : List ℕ → Read
decode [] = failed 1
decode (tag ∷ rest) = decode_body tag rest

abbrev pub codec : Archive
codec = record { out = λ buffer m. (buffer ++ encode m, none); read = decode; error_text = decimal }

decode-encode : (m : Message) → decode (encode m) ≡ done m
decode-encode (error m) = refl
decode-encode (hello m) = refl
decode-encode (capability_set m) = ground arith
decode-encode telemetry_start = refl
decode-encode (cpu_sample m) = refl
decode-encode (ping m) = refl
decode-encode (pong m) = refl

pub codec-IsLawful : IsLawful codec
codec-IsLawful = record { writes = λ m w. refl; reads = λ m w. decode-encode m }
