-- ===== src/Protocol/RoundTrip.antt =====
-- What the two overloads of `serialize` and `deserialize` promise together.
use rdp_ext.Common.{◌≡◌, ◌⊎◌, [], arith}
use rdp_ext.Common.Text.{Text}
use rdp_ext.Common.Except.{returned, thrown}
use rdp_ext.Protocol.Message.{Message, IsWire}
use rdp_ext.Protocol.Serializer.{Archive, IsLawful, Buffer, serialize, serialize_into, deserialize}

module _ (archive : Archive) where
  -- `serialize` into a buffer behaves as the overload that returns a vector, whatever the buffer held:
  -- either both succeed and the buffer holds the returned bytes, or both throw the same text.
  serialize_into-serialize :
      (m : Message) (old : Buffer)
      → let (buffer, result) = serialize_into archive m old in
        ((serialize archive m ≡ returned buffer) × (result ≡ returned tt))
        ⊎ ((what : Text) × (serialize archive m ≡ thrown what) × (result ≡ thrown what))
  unfolding serialize serialize_into
  serialize_into-serialize m old = ground arith

  -- Over a lawful archive each message in range is serialized without an exception, by both overloads
  -- and over any old content of the buffer, and the bytes are read back as the message.
  pub serialize-deserialize :
      IsLawful archive
      → (m : Message) (old : Buffer) → IsWire m
      → (bytes : Buffer) × (serialize archive m ≡ returned bytes)
        × (serialize_into archive m old ≡ (bytes, returned tt))
        × (deserialize archive bytes ≡ returned m)
  unfolding serialize serialize_into deserialize
  serialize-deserialize lawful m old wire =
      let w = lawful.writes m wire in
      let r = lawful.reads m wire in
      ((archive.out [] m).0, ground arith, ground arith, ground arith)
