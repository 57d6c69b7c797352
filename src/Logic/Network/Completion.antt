-- ===== src/Logic/Network/Completion.antt =====
-- The handshake between the two controllers: it ends, in whatever order tasks run and buffers arrive.
use rdp_ext.Common.{ℕ, ◌+◌, ◌≤◌, ◌≡◌, arith}
use rdp_ext.Protocol.Serializer.{Archive, IsLawful}
use rdp_ext.Logic.Base.{Ambient, PercentText}
use rdp_ext.Logic.Client.{ClientState}
use rdp_ext.Logic.Client
use rdp_ext.Logic.Server.{ServerState}
use rdp_ext.Logic.Server
use rdp_ext.Logic.Session.Convergence.{Agreed, handshake_bounded, handshake_converges}
use rdp_ext.Logic.Network.{Network, Reach, connected}
use rdp_ext.Logic.Network.Refinement.{mirrors}
use rdp_ext.Logic.Network.Rest.{Quiet, Mirrors-le, Quiet-Mirrors, completes}

module _ (percent : PercentText) (archive : Archive) (a b : Ambient) (client : ClientState)
    (server : ServerState) (lawful : IsLawful archive) (client_inv : Client.Invariant.Inv client)
    (server_inv : Server.Invariant.Inv server) where
  -- A bound on the steps of a handshake: two for each of seven messages on its way, and one that reads it.
  network_bounded :
      (k : ℕ) (n : Network)
      → Reach percent archive (connected percent archive a b client server) k n
      → k ≤ 21
  network_bounded k n r =
      let m = mirrors percent archive lawful a b client server client_inv server_inv r in
      Mirrors-le percent archive lawful _ 7 m
        (handshake_bounded percent a b client server m.reached)

  -- The controllers agree wherever they come to rest. Over a lawful archive, and from machines that satisfy
  -- their invariants, let both controllers handle a connection, and let tasks run and buffers arrive in any
  -- order, the telemetry starting without an exception. Where no task and no buffer waits any more, 21 steps
  -- were made, both handshakes are completed with the other's identifier, and telemetry is requested and
  -- enabled.
  pub network_settles :
      {k : ℕ} {n : Network}
      → Reach percent archive (connected percent archive a b client server) k n
      → Quiet n
      → (k ≡ 21) × Agreed n.client n.server
  network_settles r quiet =
      let m = mirrors percent archive lawful a b client server client_inv server_inv r in
      let (x, y, steps) = Quiet-Mirrors percent archive lawful _ m quiet in
      let (seven, agreed) = handshake_converges percent a b client server m.reached x y in
      (omega (arith, steps, seven), agreed)

  -- A handshake between the controllers always completes. Over a lawful archive, and from machines that
  -- satisfy their invariants, let both controllers handle a connection, the telemetry starting without an
  -- exception. However tasks ran and buffers arrived until now, going on leads to a network where none of
  -- them waits, both handshakes are completed with the other's identifier, and telemetry is requested and
  -- enabled; 21 steps are made in all.
  pub network_completes :
      {k : ℕ} {n : Network}
      → Reach percent archive (connected percent archive a b client server) k n
      → (rest : ℕ) × (last : Network) × Reach percent archive n rest last
        × Quiet last
        × Agreed last.client last.server
        × (k + rest ≡ 21)
  network_completes r =
      completes percent archive a (connected percent archive a b client server) 21
        (λ v. Agreed v.client v.server) network_bounded (λ k n. network_settles {k = k} {n = n}) r
