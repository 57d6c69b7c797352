-- ===== src/Logic/Network/Restart.antt =====
-- A server that starts anew, or whose channel opens anew, while the client's channel stays open: the controllers over
-- byte channels.
use rdp_ext.Common.{ℕ, ◌+◌, ◌≤◌, ◌≡◌, refl, ap, [], length, arith}
use rdp_ext.Protocol.Serializer.{Archive, IsLawful}
use rdp_ext.Logic.Base.{Ambient, PercentText}
use rdp_ext.Logic.Client.{ClientState}
use rdp_ext.Logic.Client
use rdp_ext.Logic.Server.{ServerState}
use rdp_ext.Logic.Server
use rdp_ext.Logic.Session
use rdp_ext.Logic.Session.Convergence.{Agreed}
use rdp_ext.Logic.Session.Restart.{IsStale}
use rdp_ext.Logic.Session.Restart.Convergence.{restart_bounded, restart_converges}
use rdp_ext.Logic.Network.{Network, server_after, Reach, server_connected}
use rdp_ext.Logic.Network.Refinement.{Mirrors, Reach-Mirrors}
use rdp_ext.Logic.Network.Rest.{Quiet, Mirrors-le, Quiet-Mirrors, completes}

module _ (percent : PercentText) (archive : Archive) (b : Ambient) (client : ClientState)
    (server : ServerState) (lawful : IsLawful archive) (client_inv : Client.Invariant.Inv client)
    (server_inv : Server.Invariant.Inv server)
    (stale : IsStale client (Server.generate_random_instance_id b)) where
  server_connected-Mirrors :
      Mirrors percent archive lawful
        (Session.connect_server percent b client server)
        0
        (server_connected percent archive b client server)
  unfolding server_connected server_after Server.Controller.run_task Session.connect_server
  server_connected-Mirrors =
      let (moved, i, o, t, bs) =
        Server.Controller.Strand.step-Steps archive lawful b server Server.transport_connected
          server_inv tt in
      record {
        read = 0;
        to_client = Server.Wire.sends (Server.do_step b server Server.transport_connected).effects;
        to_server = [];
        reached = Session.here;
        carries = record {
          client_lane = rw t (record { reads = o });
          server_lane = rw i (record { reads = refl });
          client_bytes = tt;
          server_bytes = bs;
          client_inv = client_inv;
          server_inv = Server.Invariant.do_step-Inv b server Server.transport_connected server_inv;
          client_wire =
              Server.Wire.server_sends-IsWire b server Server.transport_connected server_inv tt;
          server_wire = tt;
        };
        paced = omega (arith, ap length i, ap length t);
      }

  mirrors :
      {k : ℕ} {n : Network}
      → Reach percent archive (server_connected percent archive b client server) k n
      → Mirrors percent archive lawful (Session.connect_server percent b client server) k n
  mirrors r = Reach-Mirrors percent archive lawful _ server_connected-Mirrors r

  bounded :
      (k : ℕ) (n : Network)
      → Reach percent archive (server_connected percent archive b client server) k n
      → k ≤ 18
  bounded k n r =
      let m = mirrors r in
      Mirrors-le percent archive lawful _ 6 m
        (restart_bounded percent b client server stale m.reached)

  settles :
      (k : ℕ) (n : Network)
      → Reach percent archive (server_connected percent archive b client server) k n
      → Quiet n
      → (k ≡ 18) × Agreed n.client n.server
  settles k n r quiet =
      let m = mirrors r in
      let (x, y, steps) = Quiet-Mirrors percent archive lawful _ m quiet in
      let (six, agreed) = restart_converges percent b client server stale m.reached x y in
      (omega (arith, steps, six), agreed)

  -- A server that connects anew is agreed with again. Over a lawful archive, and from machines that satisfy their
  -- invariants, let the server's controller alone handle a connection, while the client waits or is past a handshake
  -- with another instance, and no task and no buffer waits; the telemetry starts without an exception. However tasks
  -- ran and buffers arrived until now, going on leads to a network where none of them waits, both handshakes are
  -- completed with the other's identifier, that of the new instance, and telemetry is requested and enabled; 18
  -- steps are made in all.
  pub restart_completes :
      {k : ℕ} {n : Network}
      → Reach percent archive (server_connected percent archive b client server) k n
      → (rest : ℕ) × (last : Network) × Reach percent archive n rest last
        × Quiet last
        × Agreed last.client last.server
        × (k + rest ≡ 18)
  restart_completes r =
      completes percent archive b (server_connected percent archive b client server) 18
        (λ v. Agreed v.client v.server) bounded settles r
