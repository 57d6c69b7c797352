-- ===== src/Protocol/Serializer.antt =====
-- src/core/protocol/serializer.cpp. The library zpp_bits is the parameter `Archive`, and what the code
-- relies on is `IsLawful`; the failures of the library become the exception SerializationError.
use rdp_ext.Common.{ℕ, ◌≡◌, List, [], ◌++◌, Option, none, some}
use rdp_ext.Common.Text.{Text, text}
use rdp_ext.Common.Except.{Except, returned, thrown}
use rdp_ext.Protocol.Message.{Message, IsWire}

-- `std::vector<std::byte>`.
abbrev pub Buffer : Type 0
Buffer = List ℕ

-- What `zpp::bits::in` gives.
pub data Read : Type 0 where
  failed : ℕ → Read
  done : Message → Read

-- `out buffer message` is the buffer and the error of an output archive over `buffer` that is given
-- `message`; `data_out()` is such an archive over a new vector.
pub record Archive : Type 0 where
  pub out : List ℕ → Message → List ℕ × Option ℕ
  pub read : List ℕ → Read
  pub error_text : ℕ → Text

-- Into an empty vector a message is written without an error, and read back.
pub record IsLawful (archive : Archive) : Type 0 where
  pub writes : (m : Message) → IsWire m → (archive.out [] m).1 ≡ none
  pub reads : (m : Message) → IsWire m → archive.read (archive.out [] m).0 ≡ done m

module _ (archive : Archive) where
  unfoldable pub serialize : Message → Except Buffer
  serialize message =
      let (bytes, failure) = archive.out [] message in
      elim failure [
        | none ↦ returned bytes
        | some e ↦ thrown (text "Serialization failed: " ++ archive.error_text e)
      ]

  -- The buffer that the caller passed, as the call leaves it, and whether it threw.
  unfoldable pub serialize_into : Message → Buffer → Buffer × Except (Unit {0})
  serialize_into message buffer =
      let cleared : Buffer = [] in
      let (bytes, failure) = archive.out cleared message in
      (
        bytes,
        elim failure [
          | none ↦ returned tt
          | some e ↦ thrown (text "Serialization failed: " ++ archive.error_text e)
        ],
      )

  unfoldable pub deserialize : Buffer → Except Message
  deserialize bytes = elim (archive.read bytes) [
    | failed e ↦ thrown (text "Deserialization failed: " ++ archive.error_text e)
    | done message ↦ returned message
  ]
