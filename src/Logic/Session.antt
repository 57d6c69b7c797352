-- ===== src/Logic/Session.antt =====
-- A client and a server that talk over two reliable channels: what each sends is delivered to the
-- other in order, at any time. The state machines are those of src/logic/client and src/logic/server.
pub mod Phases
pub mod Convergence
pub mod Restart
use rdp_ext.Common.{ℕ, suc, ◌≡◌, List, [], ◌∷◌, ◌++◌}
use rdp_ext.Protocol.Message.{Message}
use rdp_ext.Logic.Base.{Ambient, PercentText}
use rdp_ext.Logic.Client.{ClientState}
use rdp_ext.Logic.Client
use rdp_ext.Logic.Server.{ServerState}
use rdp_ext.Logic.Server

pub record World : Type 0 where
  pub client : ClientState
  pub server : ServerState
  pub to_client : List Message
  pub to_server : List Message

module _ (percent : PercentText) where
  -- Both transports report a connection, whatever the machines did before.
  unfoldable pub connect : Ambient → Ambient → ClientState → ServerState → World
  connect a b client server =
      let c = Client.do_step percent a client Client.transport_connected in
      let s = Server.do_step b server Server.transport_connected in
      record {
        client = c.state;
        server = s.state;
        to_client = Server.Wire.sends s.effects;
        to_server = Client.Wire.sends c.effects;
      }

  -- The server's transport reports a connection while the client's keeps its own.
  unfoldable pub connect_server : Ambient → ClientState → ServerState → World
  connect_server b client server =
      let s = Server.do_step b server Server.transport_connected in
      record {
        client = client;
        server = s.state;
        to_client = Server.Wire.sends s.effects;
        to_server = [];
      }

  -- The client handles a message; `rest` stays in its channel.
  unfoldable pub client_receives : Ambient → World → Message → List Message → World
  client_receives a w m rest =
      let c = Client.do_step percent a w.client (Client.message_received m) in
      record {
        client = c.state;
        server = w.server;
        to_client = rest;
        to_server = w.to_server ++ Client.Wire.sends c.effects;
      }

  unfoldable pub server_receives : Ambient → World → Message → List Message → World
  server_receives a w m rest =
      let s = Server.do_step a w.server (Server.message_received m) in
      record {
        client = w.client;
        server = s.state;
        to_client = w.to_client ++ Server.Wire.sends s.effects;
        to_server = rest;
      }

  pub data Step (w v : World) : Type 0 where
    to_client :
        (a : Ambient) (m : Message) (rest : List Message)
        → w.to_client ≡ m ∷ rest
        → v ≡ client_receives a w m rest
        → Step w v
    to_server :
        (a : Ambient) (m : Message) (rest : List Message)
        → w.to_server ≡ m ∷ rest
        → v ≡ server_receives a w m rest
        → Step w v

  -- The worlds that n deliveries reach, in any order of the two channels.
  pub data Reach (w : World) : ℕ → World → Type 0 where
    here : Reach w 0 w
    next : {n : ℕ} {u v : World} → Reach w n u → Step u v → Reach w (suc n) v
