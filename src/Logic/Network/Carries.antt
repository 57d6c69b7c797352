-- ===== src/Logic/Network/Carries.antt =====
-- The messages on their way in a network, and which steps leave them as they are.
use rdp_ext.Common.{ℕ, ◌+◌, ◌*◌, List, All, length}
use rdp_ext.Protocol.Message.{Message, IsWire}
use rdp_ext.Protocol.Serializer.{Archive}
use rdp_ext.Logic.Client
use rdp_ext.Logic.Server
use rdp_ext.Logic.Network.{Network}
use rdp_ext.Logic.Network.Lane.{Lane}

-- How far the buffers on their way have come: one for each in a channel, two for each behind it.
abbrev pub progress : Network → ℕ
progress n =
    2 * length (Client.Controller.Strand.inputs n.client_strand)
    + length n.to_client
    + (2 * length (Server.Controller.Strand.inputs n.server_strand) + length n.to_server)

module _ (archive : Archive) where
  -- The buffers for the client in the server's strand, in the channel and in the client's strand read as
  -- the messages `to_client`, those for the server as `to_server`; nothing else is in the strands.
  pub record Carries (n : Network) (to_client to_server : List Message) : Type 0 where
    pub client_lane :
        Lane archive
          (Client.Controller.Strand.inputs n.client_strand)
          n.to_client
          (Server.Controller.Strand.outputs n.server_strand)
          to_client
    pub server_lane :
        Lane archive
          (Server.Controller.Strand.inputs n.server_strand)
          n.to_server
          (Client.Controller.Strand.outputs n.client_strand)
          to_server
    pub client_bytes : All Client.Controller.Strand.IsBytes n.client_strand
    pub server_bytes : All Server.Controller.Strand.IsBytes n.server_strand
    pub client_inv : Client.Invariant.Inv n.client
    pub server_inv : Server.Invariant.Inv n.server
    pub client_wire : All IsWire to_client
    pub server_wire : All IsWire to_server
