-- ===== src/Logic/Session/Convergence.antt =====
-- From two fresh connections every order of deliveries ends, in both machines' completed handshakes.
use rdp_ext.Common.{
  ℕ, suc, ◌+◌, ◌≤◌, ◌≡◌, ◌≢◌, refl, sym, ap, ◌∙◌, some, Bool, true, false, List, [], ◌∷◌, ◌++◌,
  length, arith,
}
use rdp_ext.Protocol.Message.{InstanceId, Message}
use rdp_ext.Protocol.Factory.{make_hello, make_telemetry_start}
use rdp_ext.Logic.Base.{Ambient, PercentText}
use rdp_ext.Logic.Client.{ClientState}
use rdp_ext.Logic.Client
use rdp_ext.Logic.Server.{ServerState}
use rdp_ext.Logic.Server
use rdp_ext.Logic.Session.Phases.{
  ClientPhase, ServerPhase, c0, c1, c2, c3, s0, s1, s2, s3, s4, after_hello, client_at, server_at,
  client_answer, client_hello, server_after, server_input, server_answer, server_hello,
}
use rdp_ext.Logic.Session.{
  World, connect, client_receives, server_receives, Step, to_client, to_server, Reach, here, next,
}

-- Both handshakes are completed with the other's identifier; telemetry is requested and enabled.
abbrev pub Agreed : ClientState → ServerState → Type 0
Agreed client server =
    (client.handshake_state.handshake_completed ≡ true)
    × (server.handshake_state.handshake_completed ≡ true)
    × (client.handshake_state.remote_instance_id ≡ some server.instance_id)
    × (server.handshake_state.remote_instance_id ≡ some client.instance_id)
    × (client.telemetry_requested ≡ true)
    × (server.telemetry_enabled ≡ true)

-- The phases that can stand together: neither side handled more than the other sent.
abbrev feasible : ClientPhase → ServerPhase → Bool
feasible c0 s0 = true
feasible c0 s1 = true
feasible c1 s0 = true
feasible c1 s1 = true
feasible c1 s2 = true
feasible c2 s0 = false
feasible c2 _ = true
feasible c3 s2 = true
feasible c3 s3 = true
feasible c3 s4 = true
feasible _ _ = false

abbrev client_count : ClientPhase → ℕ
client_count c0 = 0
client_count c1 = 1
client_count c2 = 2
client_count c3 = 3

abbrev server_count : ServerPhase → ℕ
server_count s0 = 0
server_count s1 = 1
server_count s2 = 2
server_count s3 = 3
server_count s4 = 4

module _ (client_id server_id : InstanceId) where
  abbrev hello_client : Message
  hello_client = make_hello client_id

  abbrev hello_server : Message
  hello_server = make_hello server_id

  -- What the client sent and the server has not handled yet.
  abbrev in_flight_to_server : ClientPhase → ServerPhase → List Message
  in_flight_to_server c0 s0 = hello_client ∷ []
  in_flight_to_server c1 s0 = hello_client ∷ hello_client ∷ []
  in_flight_to_server c1 s1 = hello_client ∷ []
  in_flight_to_server c2 s1 = hello_client ∷ hello_client ∷ make_telemetry_start ∷ []
  in_flight_to_server c2 s2 = hello_client ∷ make_telemetry_start ∷ []
  in_flight_to_server c2 s3 = make_telemetry_start ∷ []
  in_flight_to_server c3 s2 = hello_client ∷ make_telemetry_start ∷ []
  in_flight_to_server c3 s3 = make_telemetry_start ∷ []
  in_flight_to_server _ _ = []

  abbrev in_flight_to_client : ClientPhase → ServerPhase → List Message
  in_flight_to_client c0 s0 = hello_server ∷ []
  in_flight_to_client c0 s1 = hello_server ∷ hello_server ∷ []
  in_flight_to_client c1 s1 = hello_server ∷ []
  in_flight_to_client c1 s2 = hello_server ∷ hello_server ∷ []
  in_flight_to_client c2 s2 = hello_server ∷ []
  in_flight_to_client c2 s3 = hello_server ∷ []
  in_flight_to_client c2 s4 = hello_server ∷ []
  in_flight_to_client _ _ = []

  abbrev world_at : ClientPhase → ServerPhase → World
  world_at p q = record {
    client = client_at client_id server_id p;
    server = server_at client_id server_id q;
    to_client = in_flight_to_client p q;
    to_server = in_flight_to_server p q;
  }

  client_delivery :
      (p : ClientPhase) (q : ServerPhase) {m : Message} {rest : List Message}
      → feasible p q ≡ true
      → in_flight_to_client p q ≡ m ∷ rest
      → (m ≡ hello_server)
        × (rest ≡ in_flight_to_client (after_hello p) q)
        × (in_flight_to_server p q ++ client_answer client_id server_id p
            ≡ in_flight_to_server (after_hello p) q)
        × (feasible (after_hello p) q ≡ true)
        × (client_count (after_hello p) ≡ suc (client_count p))
  client_delivery p q f e = ground arith

  server_delivery :
      (p : ClientPhase) (q : ServerPhase) {m : Message} {rest : List Message}
      → feasible p q ≡ true
      → in_flight_to_server p q ≡ m ∷ rest
      → (q ≢ s4)
        × (m ≡ server_input client_id server_id q)
        × (rest ≡ in_flight_to_server p (server_after client_id server_id q))
        × (in_flight_to_client p q ++ server_answer client_id server_id q
            ≡ in_flight_to_client p (server_after client_id server_id q))
        × (feasible p (server_after client_id server_id q) ≡ true)
        × (server_count (server_after client_id server_id q) ≡ suc (server_count q))
  server_delivery p q f e = ground arith

  -- A world that n deliveries reach is that of two phases.
  abbrev InPhases : ℕ → World → Type 0
  InPhases n w =
      (p : ClientPhase) × (q : ServerPhase) × (feasible p q ≡ true)
      × (client_count p + server_count q ≡ n)
      × (w ≡ world_at p q)

  Step-InPhases :
      (percent : PercentText) {n : ℕ} {w v : World}
      → InPhases n w
      → Step percent w v
      → InPhases (suc n) v
  unfolding client_receives server_receives
  Step-InPhases percent {w = w} (p, q, f, k, e) (to_client a m rest d v) =
      let (em, er, es, ef, ec) =
        client_delivery p q f (ap (λ (u : World). u.to_client) (sym e) ∙ d) in
      let (state, sent) = client_hello client_id server_id percent a p in
      (after_hello p, q, ef, omega (arith, ec, k), v ∙ rw (e, em) (ground arith))
  Step-InPhases percent {w = w} (p, q, f, k, e) (to_server a m rest d v) =
      let (live, em, er, es, ef, ec) =
        server_delivery p q f (ap (λ (u : World). u.to_server) (sym e) ∙ d) in
      let (state, sent) = server_hello client_id server_id a q live in
      (
        p,
        server_after client_id server_id q,
        ef,
        omega (arith, ec, k),
        v ∙ rw (e, em) (ground arith),
      )

  Reach-InPhases :
      (percent : PercentText) {w : World} {n : ℕ} {v : World}
      → InPhases 0 w
      → Reach percent w n v
      → InPhases n v
  Reach-InPhases percent i here = i
  Reach-InPhases percent i (next r st) = Step-InPhases percent (Reach-InPhases percent i r) st

  counts :
      (p : ClientPhase) (q : ServerPhase)
      → feasible p q ≡ true
      → client_count p
          + server_count q
          + (length (in_flight_to_client p q) + length (in_flight_to_server p q))
        ≤ 7
  counts p q f = ground arith

  settled :
      (p : ClientPhase) (q : ServerPhase)
      → in_flight_to_client p q ≡ []
      → in_flight_to_server p q ≡ []
      → feasible p q ≡ true
      → (p ≡ c3) × (q ≡ s4)
  settled p q x y f = ground arith

connect-InPhases :
    (percent : PercentText) (a b : Ambient) (client : ClientState) (server : ServerState)
    → InPhases
        (Client.generate_random_instance_id a)
        (Server.generate_random_instance_id b)
        0
        (connect percent a b client server)
unfolding connect Client.do_step Server.do_step
connect-InPhases percent a b client server = (c0, s0, refl, refl, ground arith)

module _ (percent : PercentText) (a b : Ambient) (client : ClientState) (server : ServerState) where
  reached :
      {n : ℕ} {w : World}
      → Reach percent (connect percent a b client server) n w
      → InPhases (Client.generate_random_instance_id a) (Server.generate_random_instance_id b) n w
  reached r = Reach-InPhases _ _ percent (connect-InPhases percent a b client server) r

  -- A client and a server whose transports connect, whatever they did before, exchange at most seven
  -- messages, in any order of delivery: those that were delivered and those on their way are never more.
  pub handshake_bounded :
      {n : ℕ} {w : World}
      → Reach percent (connect percent a b client server) n w
      → n + (length w.to_client + length w.to_server) ≤ 7
  handshake_bounded r =
      let client_id = Client.generate_random_instance_id a in
      let server_id = Server.generate_random_instance_id b in
      let (p, q, f, k, e) = reached r in rw e (omega (arith, counts client_id server_id p q f, k))

  -- Where nothing is on its way any more, in whatever order it was delivered, seven messages were, both
  -- handshakes are completed with the other's identifier, and telemetry is requested and enabled.
  pub handshake_converges :
      {n : ℕ} {w : World}
      → Reach percent (connect percent a b client server) n w
      → w.to_client ≡ []
      → w.to_server ≡ []
      → (n ≡ 7) × Agreed w.client w.server
  handshake_converges r x y =
      let client_id = Client.generate_random_instance_id a in
      let server_id = Server.generate_random_instance_id b in
      let (p, q, f, k, e) = reached r in
      let (third, fourth) =
        settled client_id server_id p q (ap (λ (u : World). u.to_client) (sym e) ∙ x)
          (ap (λ (u : World). u.to_server) (sym e) ∙ y) f in
      ground arith
