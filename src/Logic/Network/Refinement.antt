-- ===== src/Logic/Network/Refinement.antt =====
-- The network of controllers refines the session of the two state machines.
use rdp_ext.Common.{ℕ, suc, ◌+◌, ◌*◌, ◌≡◌, refl, ap, List, ◌∷◌, All, length, arith}
use rdp_ext.Protocol.Message.{Message}
use rdp_ext.Protocol.Serializer.{Archive, IsLawful, Buffer}
use rdp_ext.Logic.Base.{Ambient, PercentText}
use rdp_ext.Logic.Client.{ClientState}
use rdp_ext.Logic.Client
use rdp_ext.Logic.Server.{ServerState}
use rdp_ext.Logic.Server
use rdp_ext.Logic.Session.{World, client_receives, server_receives}
use rdp_ext.Logic.Session
use rdp_ext.Logic.Network.{
  Network, client_after, server_after, client_runs, server_runs, client_hears, server_hears, Step,
  client_task, server_task, client_delivery, server_delivery, Reach, here, next, connected,
}
use rdp_ext.Logic.Network.Carries.{progress, Carries}
use rdp_ext.Logic.Network.ClientMoves.{client_reads, client_writes, client_gets}
use rdp_ext.Logic.Network.ServerMoves.{server_reads, server_writes, server_gets}

-- The session that a network stands for, with the messages on their way.
abbrev pub view : Network → List Message → List Message → World
view n cs ss = record { client = n.client; server = n.server; to_client = cs; to_server = ss }

module _ (percent : PercentText) (archive : Archive) (lawful : IsLawful archive)
    (start : World) where
  -- A network after k steps, j of them tasks that read a message.
  pub record Mirrors (k : ℕ) (n : Network) : Type 0 where
    pub read : ℕ
    pub to_client : List Message
    pub to_server : List Message
    pub reached : Session.Reach percent start read (view n to_client to_server)
    pub carries : Carries archive n to_client to_server
    pub paced : k ≡ 3 * read + progress n

  client_task-Mirrors :
      (k : ℕ) (n : Network) (a : Ambient) (task : Client.Controller.Task)
      (rest : List Client.Controller.Task)
      → n.client_strand ≡ task ∷ rest
      → Mirrors k n
      → Mirrors (suc k) (client_runs percent archive a n task rest)
  unfolding client_runs client_after client_receives Client.Controller.run_task
  client_task-Mirrors k n a (Client.Controller.step_bytes bytes) rest e v =
      let (m, ms, em, pace, moved, c) =
        client_reads percent archive lawful a n bytes rest e v.carries in
      record {
        read = suc v.read;
        to_client = ms;
        to_server = _;
        reached = Session.next v.reached (Session.to_client a m ms em (cc));
        carries = c;
        paced = omega (arith, pace, v.paced);
      }
  client_task-Mirrors k n a (Client.Controller.send_bytes bytes) rest e v =
      let (pace, c) = client_writes percent archive a n bytes rest e v.carries in
      record {
        read = v.read;
        to_client = v.to_client;
        to_server = v.to_server;
        reached = v.reached;
        carries = c;
        paced = omega (arith, pace, v.paced);
      }
  client_task-Mirrors k n a task rest e v =
      let both : All Client.Controller.Strand.IsBytes (task ∷ rest) =
        rw e at v.carries.client_bytes in
      absurd both.0

  client_delivery-Mirrors :
      (k : ℕ) (n : Network) (bytes : Buffer) (rest : List Buffer)
      → n.to_client ≡ bytes ∷ rest
      → Mirrors k n
      → Mirrors (suc k) (client_hears n bytes rest)
  unfolding client_hears
  client_delivery-Mirrors k n bytes rest e v =
      let (pace, c) = client_gets percent archive n bytes rest e v.carries in
      record {
        read = v.read;
        to_client = v.to_client;
        to_server = v.to_server;
        reached = v.reached;
        carries = c;
        paced = omega (arith, pace, v.paced);
      }

  server_task-Mirrors :
      (k : ℕ) (n : Network) (a : Ambient) (task : Server.Controller.Task)
      (rest : List Server.Controller.Task)
      → n.server_strand ≡ task ∷ rest
      → Mirrors k n
      → Mirrors (suc k) (server_runs archive a n task rest)
  unfolding server_runs server_after server_receives Server.Controller.run_task
  server_task-Mirrors k n a (Server.Controller.step_bytes bytes) rest e v =
      let (m, ms, em, pace, moved, c) = server_reads archive lawful a n bytes rest e v.carries in
      record {
        read = suc v.read;
        to_server = ms;
        to_client = _;
        reached = Session.next v.reached (Session.to_server a m ms em (cc));
        carries = c;
        paced = omega (arith, pace, v.paced);
      }
  server_task-Mirrors k n a (Server.Controller.send_bytes bytes) rest e v =
      let (pace, c) = server_writes archive a n bytes rest e v.carries in
      record {
        read = v.read;
        to_client = v.to_client;
        to_server = v.to_server;
        reached = v.reached;
        carries = c;
        paced = omega (arith, pace, v.paced);
      }
  server_task-Mirrors k n a task rest e v =
      let both : All Server.Controller.Strand.IsBytes (task ∷ rest) =
        rw e at v.carries.server_bytes in
      absurd both.0

  server_delivery-Mirrors :
      (k : ℕ) (n : Network) (bytes : Buffer) (rest : List Buffer)
      → n.to_server ≡ bytes ∷ rest
      → Mirrors k n
      → Mirrors (suc k) (server_hears n bytes rest)
  unfolding server_hears
  server_delivery-Mirrors k n bytes rest e v =
      let (pace, c) = server_gets archive n bytes rest e v.carries in
      record {
        read = v.read;
        to_client = v.to_client;
        to_server = v.to_server;
        reached = v.reached;
        carries = c;
        paced = omega (arith, pace, v.paced);
      }

  Step-Mirrors :
      (k : ℕ) {n v : Network} → Step percent archive n v → Mirrors k n → Mirrors (suc k) v
  Step-Mirrors k {n = n} (client_task a task rest e f) m =
      rw f (client_task-Mirrors k n a task rest e m)
  Step-Mirrors k {n = n} (server_task a task rest e f) m =
      rw f (server_task-Mirrors k n a task rest e m)
  Step-Mirrors k {n = n} (client_delivery bytes rest e f) m =
      rw f (client_delivery-Mirrors k n bytes rest e m)
  Step-Mirrors k {n = n} (server_delivery bytes rest e f) m =
      rw f (server_delivery-Mirrors k n bytes rest e m)

  pub Reach-Mirrors :
      {n : Network} {k : ℕ} {v : Network} → Mirrors 0 n → Reach percent archive n k v → Mirrors k v
  Reach-Mirrors m here = m
  Reach-Mirrors m (next r st) = Step-Mirrors _ st (Reach-Mirrors m r)

module _ (percent : PercentText) (archive : Archive) (lawful : IsLawful archive) where
  connected-Mirrors :
      (a b : Ambient) (client : ClientState) (server : ServerState)
      → Client.Invariant.Inv client
      → Server.Invariant.Inv server
      → Mirrors percent archive lawful
          (Session.connect percent a b client server)
          0
          (connected percent archive a b client server)
  unfolding connected client_after server_after Client.Controller.run_task
      Server.Controller.run_task Session.connect
  connected-Mirrors a b client server v w =
      let (moved, i, o, t, bs) =
        Client.Controller.Strand.step-Steps percent archive lawful a client
          Client.transport_connected v in
      let (moved', i', o', t', bs') =
        Server.Controller.Strand.step-Steps archive lawful b server Server.transport_connected w
          tt in
      record {
        read = 0;
        to_client = Server.Wire.sends (Server.do_step b server Server.transport_connected).effects;
        to_server =
            Client.Wire.sends (Client.do_step percent a client Client.transport_connected).effects;
        reached = Session.here;
        carries = record {
          client_lane = rw (i, t') (record { reads = o' });
          server_lane = rw (i', t) (record { reads = o });
          client_bytes = bs;
          server_bytes = bs';
          client_inv = Client.Invariant.do_step-Inv percent a client Client.transport_connected v;
          server_inv = Server.Invariant.do_step-Inv b server Server.transport_connected w;
          client_wire = Server.Wire.server_sends-IsWire b server Server.transport_connected w tt;
          server_wire =
              Client.Wire.client_sends-IsWire percent a client Client.transport_connected v;
        };
        paced = omega (arith, ap length i, ap length i', ap length t, ap length t');
      }

  pub mirrors :
      (a b : Ambient) (client : ClientState) (server : ServerState) {k : ℕ} {n : Network}
      → Client.Invariant.Inv client
      → Server.Invariant.Inv server
      → Reach percent archive (connected percent archive a b client server) k n
      → Mirrors percent archive lawful (Session.connect percent a b client server) k n
  mirrors a b client server v w r =
      Reach-Mirrors percent archive lawful _ (connected-Mirrors a b client server v w) r

  -- Two controllers over byte channels are two state machines over message channels. Over a lawful archive,
  -- and from machines that satisfy their invariants, let both controllers handle a connection, and then
  -- let the executors run tasks and the channel deliver buffers k times in any order. Some j deliveries of
  -- the session of the state machines lead to the same two states; the buffers in the strands and the
  -- channel read, in order, as the messages on their way there, each buffer in one of three places, and k
  -- counts three steps for each delivery besides the steps of those buffers.
  pub network_refines :
      (a b : Ambient) (client : ClientState) (server : ServerState) {k : ℕ} {n : Network}
      → Client.Invariant.Inv client
      → Server.Invariant.Inv server
      → Reach percent archive (connected percent archive a b client server) k n
      → (j : ℕ) × (w : World) × Session.Reach percent
          (Session.connect percent a b client server)
          j
          w
        × (n.client ≡ w.client)
        × (n.server ≡ w.server)
        × Carries archive n w.to_client w.to_server
        × (k ≡ 3 * j + progress n)
  network_refines a b client server {n = n} v w r =
      let m = mirrors a b client server v w r in
      (m.read, view n m.to_client m.to_server, m.reached, refl, refl, m.carries, m.paced)
