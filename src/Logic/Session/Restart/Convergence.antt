-- ===== src/Logic/Session/Restart/Convergence.antt =====
-- A server that connects anew to a client that keeps its connection: every order of deliveries ends, in both machines'
-- completed handshakes.
use rdp_ext.Common.{ℕ, suc, ◌+◌, ◌≤◌, ◌≡◌, refl, sym, ap, ◌∙◌, true, [], length, arith}
use rdp_ext.Protocol.Message.{InstanceId}
use rdp_ext.Logic.Base.{Ambient, PercentText}
use rdp_ext.Logic.Client.{ClientState}
use rdp_ext.Logic.Server.{ServerState}
use rdp_ext.Logic.Server
use rdp_ext.Logic.Session.Phases.{ClientPhase, ServerPhase, c0, c3, s0, s4, after_hello}
use rdp_ext.Logic.Session.Convergence.{Agreed}
use rdp_ext.Logic.Session.{
  World, connect_server, client_receives, server_receives, Step, to_client, to_server, Reach, here,
  next,
}
use rdp_ext.Logic.Session.Restart.{
  IsStale, after_input, feasible, client_count, server_count, in_flight_to_server,
  in_flight_to_client, world_at, client_moves, server_moves, client_delivery, server_delivery,
}

module _ (client : ClientState) (server_id : InstanceId) (stale : IsStale client server_id) where
  -- A world that n deliveries reach is that of two phases.
  abbrev InPhases : ℕ → World → Type 0
  InPhases n w =
      (p : ClientPhase) × (q : ServerPhase) × (feasible p q ≡ true)
      × (client_count p + server_count q ≡ n)
      × (w ≡ world_at client server_id stale p q)

  Step-InPhases :
      (percent : PercentText) {n : ℕ} {w v : World}
      → InPhases n w
      → Step percent w v
      → InPhases (suc n) v
  unfolding client_receives server_receives
  Step-InPhases percent {w = w} (p, q, f, k, e) (to_client a m rest d v) =
      let (em, er, es, ef, ec) =
        client_delivery client server_id stale p q f
          (ap (λ (u : World). u.to_client) (sym e) ∙ d) in
      let (state, sent) = client_moves client server_id stale percent a p in
      (after_hello p, q, ef, omega (arith, ec, k), v ∙ rw (e, em) (ground arith))
  Step-InPhases percent {w = w} (p, q, f, k, e) (to_server a m rest d v) =
      let (reads, live, em, er, es, ef, ec) =
        server_delivery client server_id stale p q f
          (ap (λ (u : World). u.to_server) (sym e) ∙ d) in
      let (state, sent) = server_moves client server_id stale a q reads live in
      (p, after_input q, ef, omega (arith, ec, k), v ∙ rw (e, em) (ground arith))

  pub Reach-InPhases :
      (percent : PercentText) {w : World} {n : ℕ} {v : World}
      → InPhases 0 w
      → Reach percent w n v
      → InPhases n v
  Reach-InPhases percent i here = i
  Reach-InPhases percent i (next r st) = Step-InPhases percent (Reach-InPhases percent i r) st

  counts :
      (p : ClientPhase) (q : ServerPhase)
      → feasible p q ≡ true
      → client_count p
          + server_count q
          + (length (in_flight_to_client client server_id stale p q)
              + length (in_flight_to_server client server_id stale p q))
        ≤ 6
  counts p q f = ground arith

  settled :
      (p : ClientPhase) (q : ServerPhase)
      → in_flight_to_client client server_id stale p q ≡ []
      → in_flight_to_server client server_id stale p q ≡ []
      → feasible p q ≡ true
      → (p ≡ c3) × (q ≡ s4)
  settled p q x y f = ground arith

module _ (percent : PercentText) (b : Ambient) (client : ClientState) (server : ServerState)
    (stale : IsStale client (Server.generate_random_instance_id b)) where
  starts :
      InPhases client
        (Server.generate_random_instance_id b)
        stale
        0
        (connect_server percent b client server)
  unfolding connect_server Server.do_step
  starts = (c0, s0, refl, refl, ground arith)

  -- At most six messages are exchanged: those that were delivered and those on their way are never more.
  pub restart_bounded :
      {n : ℕ} {w : World}
      → Reach percent (connect_server percent b client server) n w
      → n + (length w.to_client + length w.to_server) ≤ 6
  restart_bounded r =
      let id = Server.generate_random_instance_id b in
      let (p, q, f, k, e) = Reach-InPhases client id stale percent starts r in
      rw e (omega (arith, counts client id stale p q f, k))

  -- Where nothing is on its way any more, six messages were delivered, both handshakes are completed with the
  -- other's identifier, and telemetry is requested and enabled.
  pub restart_converges :
      {n : ℕ} {w : World}
      → Reach percent (connect_server percent b client server) n w
      → w.to_client ≡ []
      → w.to_server ≡ []
      → (n ≡ 6) × Agreed w.client w.server
  restart_converges r x y =
      let id = Server.generate_random_instance_id b in
      let (p, q, f, k, e) = Reach-InPhases client id stale percent starts r in
      let (third, fourth) =
        settled client id stale p q (ap (λ (u : World). u.to_client) (sym e) ∙ x)
          (ap (λ (u : World). u.to_server) (sym e) ∙ y) f in
      ground arith
