-- ===== src/Logic/Network/Lane.antt =====
-- The way of a buffer from the posted task that sends it, over the channel, to the posted task that reads it.
use rdp_ext.Common.{
  ◌+◌, ◌≡◌, refl, ap, ◌∙◌, List, [], ◌∷◌, ◌++◌, map, map-append_eq, length, length-append,
  length-map, arith,
}
use rdp_ext.Common.Except.{Except, returned}
use rdp_ext.Protocol.Message.{Message}
use rdp_ext.Protocol.Serializer.{Archive, Buffer, deserialize}
use mathlib.Core.List.{append_assoc}

heads :
    (x : Except Message) (xs : List (Except Message)) (messages : List Message)
    → x ∷ xs ≡ map returned messages
    → (m : Message) × (rest : List Message) × (messages ≡ m ∷ rest)
      × (x ≡ returned m)
      × (xs ≡ map returned rest)
heads x xs [] e = absurd (cc)
heads x xs (m ∷ rest) e = (m, rest, refl, cc, cc)

module _ (archive : Archive) where
  -- What waits to be read, is in the channel and waits to be sent reads as these messages, in order.
  pub record Lane (ins channel outs : List Buffer) (messages : List Message) : Type 0 where
    pub reads : map (deserialize archive) (ins ++ (channel ++ outs)) ≡ map returned messages

module _ {archive : Archive} {ins channel outs : List Buffer} {messages : List Message} where
  -- The first buffer that waits to be read is that of the first message.
  pub Lane-take :
      {bytes : Buffer}
      → Lane archive (bytes ∷ ins) channel outs messages
      → (m : Message) × (rest : List Message) × (messages ≡ m ∷ rest)
        × (deserialize archive bytes ≡ returned m)
        × Lane archive ins channel outs rest
  Lane-take lane =
      let (m, rest, e, back, left) = heads _ _ messages lane.reads in
      (m, rest, e, back, record { reads = left })

  -- Buffers that are posted for sending come last.
  pub Lane-put :
      (new : List Buffer) (more : List Message)
      → Lane archive ins channel outs messages
      → map (deserialize archive) new ≡ map returned more
      → Lane archive ins channel (outs ++ new) (messages ++ more)
  Lane-put new more lane f =
      let regrouped : ins ++ (channel ++ (outs ++ new)) ≡ (ins ++ (channel ++ outs)) ++ new =
        simp append_assoc in
      record {
        reads =
            ap (map (deserialize archive)) regrouped
            ∙ map-append_eq (deserialize archive) returned _ new messages more lane.reads f;
      }

  pub Lane-send :
      {bytes : Buffer}
      → Lane archive ins channel (bytes ∷ outs) messages
      → Lane archive ins (channel ++ bytes ∷ []) outs messages
  Lane-send lane = record { reads = simp append_assoc (lane.reads) }

  pub Lane-deliver :
      {bytes : Buffer}
      → Lane archive ins (bytes ∷ channel) outs messages
      → Lane archive (ins ++ bytes ∷ []) channel outs messages
  Lane-deliver lane = record { reads = simp append_assoc (lane.reads) }

  pub Lane-length :
      Lane archive ins channel outs messages
      → length ins + (length channel + length outs) ≡ length messages
  Lane-length lane = omega (
    arith,
    ap length lane.reads,
    length-map (deserialize archive) (ins ++ (channel ++ outs)),
    length-map returned messages,
    length-append ins (channel ++ outs),
    length-append channel outs,
  )
