-- ===== src/Logic/Network.antt =====
-- Both ends of the extension: the controllers of src/logic/client/controller.h and
-- src/logic/server/controller.h, each with the strand of its executor (src/runtime/executor.cpp), and a
-- virtual channel that hands over each buffer whole and in order. The strand runs its tasks one at a time
-- and in the order of the posts; an exception of a task is caught there, behind the calls that the task made.
pub mod Lane
pub mod Carries
pub mod ClientMoves
pub mod ServerMoves
pub mod Refinement
pub mod Rest
pub mod Completion
pub mod Restart
use rdp_ext.Common.{ℕ, suc, ◌≡◌, List, [], ◌∷◌, ◌++◌}
use rdp_ext.Common.Except.{returned}
use rdp_ext.Protocol.Serializer.{Archive, Buffer}
use rdp_ext.Logic.Base.{Ambient, PercentText}
use rdp_ext.Logic.Client.{ClientState}
use rdp_ext.Logic.Client
use rdp_ext.Logic.Server.{ServerState}
use rdp_ext.Logic.Server

pub record Network : Type 0 where
  pub client : ClientState
  pub server : ServerState
  pub client_strand : List Client.Controller.Task
  pub server_strand : List Server.Controller.Task
  pub to_client : List Buffer
  pub to_server : List Buffer

-- An end behind a task: what the task posted stands last in the strand, behind `rest`.
unfoldable pub client_after :
    Network → List Client.Controller.Task → Client.Controller.TaskOutcome → Network
client_after n rest r = record n {
  client = r.state;
  client_strand = rest ++ Client.Controller.Strand.posts r.calls;
  to_server = n.to_server ++ Client.Controller.Strand.sent r.calls;
}

unfoldable pub server_after :
    Network → List Server.Controller.Task → Server.Controller.TaskOutcome → Network
server_after n rest r = record n {
  server = r.state;
  server_strand = rest ++ Server.Controller.Strand.posts r.calls;
  to_client = n.to_client ++ Server.Controller.Strand.sent r.calls;
}

-- The transport of an end hands a buffer to its controller; `rest` stays in the channel.
unfoldable pub client_hears : Network → Buffer → List Buffer → Network
unfolding Client.Controller.on_bytes
client_hears n bytes rest = record n {
  to_client = rest;
  client_strand =
      n.client_strand ++ Client.Controller.Strand.posts (Client.Controller.on_bytes bytes);
}

unfoldable pub server_hears : Network → Buffer → List Buffer → Network
unfolding Server.Controller.on_bytes
server_hears n bytes rest = record n {
  to_server = rest;
  server_strand =
      n.server_strand ++ Server.Controller.Strand.posts (Server.Controller.on_bytes bytes);
}

-- The telemetry starts without an exception.
unfoldable pub server_runs :
    Archive → Ambient → Network → Server.Controller.Task → List Server.Controller.Task → Network
unfolding server_after
server_runs archive a n task rest =
    server_after n rest (Server.Controller.run_task archive (returned tt) a n.server task)

module _ (percent : PercentText) (archive : Archive) where
  unfoldable pub client_runs :
      Ambient → Network → Client.Controller.Task → List Client.Controller.Task → Network
  unfolding client_after
  client_runs a n task rest =
      client_after n rest (Client.Controller.run_task percent archive a n.client task)

  pub data Step (n v : Network) : Type 0 where
    client_task :
        (a : Ambient) (task : Client.Controller.Task) (rest : List Client.Controller.Task)
        → n.client_strand ≡ task ∷ rest
        → v ≡ client_runs a n task rest
        → Step n v
    server_task :
        (a : Ambient) (task : Server.Controller.Task) (rest : List Server.Controller.Task)
        → n.server_strand ≡ task ∷ rest
        → v ≡ server_runs archive a n task rest
        → Step n v
    client_delivery :
        (bytes : Buffer) (rest : List Buffer)
        → n.to_client ≡ bytes ∷ rest
        → v ≡ client_hears n bytes rest
        → Step n v
    server_delivery :
        (bytes : Buffer) (rest : List Buffer)
        → n.to_server ≡ bytes ∷ rest
        → v ≡ server_hears n bytes rest
        → Step n v

  -- What k steps reach, in any order.
  pub data Reach (n : Network) : ℕ → Network → Type 0 where
    here : Reach n 0 n
    next : {k : ℕ} {u v : Network} → Reach n k u → Step u v → Reach n (suc k) v

  -- Both transports reported a connection, and both controllers ran the task of it, whatever their
  -- machines did before.
  unfoldable pub connected : Ambient → Ambient → ClientState → ServerState → Network
  unfolding client_runs server_runs
  connected a b client server =
      let fresh : Network = record {
        client = client;
        server = server;
        client_strand = [];
        server_strand = [];
        to_client = [];
        to_server = [];
      } in
      server_runs archive b (client_runs a fresh Client.Controller.step_connected [])
        Server.Controller.step_connected []

  -- The server's transport reported a connection, and its controller ran the task of it; the client keeps its own.
  unfoldable pub server_connected : Ambient → ClientState → ServerState → Network
  unfolding server_runs
  server_connected b client server =
      let fresh : Network = record {
        client = client;
        server = server;
        client_strand = [];
        server_strand = [];
        to_client = [];
        to_server = [];
      } in
      server_runs archive b fresh Server.Controller.step_connected []
