-- ===== src/Logic/Session/Restart.antt =====
-- A server that connects anew to a client that keeps its connection (src/logic): how far their new handshake has gone.
pub mod Convergence
use rdp_ext.Common.{
  refl, Option, none, some, ℕ, suc, ◌+◌, ◌≤◌, ◌≡◌, ◌≢◌, refl, sym, ap, ◌∙◌, Bool, true, false, List,
  [], ◌∷◌, ◌++◌, length, arith,
}
use rdp_ext.Protocol.Message.{InstanceId, Message, id_eq}
use rdp_ext.Protocol.Factory.{make_hello, make_telemetry_start}
use rdp_ext.Logic.Base.{Ambient, PercentText, awaiting_handshake}
use rdp_ext.Logic.Handshake.{same_remote}
use rdp_ext.Logic.Client.{ClientState}
use rdp_ext.Logic.Client
use rdp_ext.Logic.Server.{ServerState}
use rdp_ext.Logic.Server
use rdp_ext.Logic.Session.Phases.{
  ClientPhase, ServerPhase, c0, c1, c2, c3, s0, s1, s2, s3, s4, after_hello, client_at, server_at,
  client_hello, server_input, server_answer, server_hello,
}
use rdp_ext.Logic.Session.Convergence.{Agreed}
use rdp_ext.Logic.Session.{
  World, connect_server, client_receives, server_receives, Step, to_client, to_server, Reach, here,
  next,
}

-- The phases of a server that reads one hello less: behind the second it reads the request.
abbrev pub after_input : ServerPhase → ServerPhase
after_input s0 = s1
after_input s1 = s3
after_input _ = s4

abbrev pub feasible : ClientPhase → ServerPhase → Bool
feasible c0 s0 = true
feasible c1 s0 = true
feasible c1 s1 = true
feasible c2 s1 = true
feasible c2 s3 = true
feasible c2 s4 = true
feasible c3 s3 = true
feasible c3 s4 = true
feasible _ _ = false

abbrev pub client_count : ClientPhase → ℕ
client_count c0 = 0
client_count c1 = 1
client_count c2 = 2
client_count c3 = 3

abbrev pub server_count : ServerPhase → ℕ
server_count s0 = 0
server_count s1 = 1
server_count s2 = 2
server_count s3 = 2
server_count s4 = 3

same_remote_lem :
    (known : Option InstanceId) (id : InstanceId) → known ≢ some id → same_remote known id ≡ false
unfolding same_remote id_eq
same_remote_lem none id h = refl
same_remote_lem (some known) id h = ground arith

-- A client that keeps its connection and does not know the server's instance.
pub record IsStale (client : ClientState) (server_id : InstanceId) : Type 0 where
  pub awaiting : client.connection_state ≡ awaiting_handshake
  pub unknown : client.handshake_state.remote_instance_id ≢ some server_id

module _ (client : ClientState) (server_id : InstanceId) (stale : IsStale client server_id) where
  abbrev hello_client : Message
  hello_client = make_hello client.instance_id

  abbrev hello_server : Message
  hello_server = make_hello server_id

  abbrev pub in_flight_to_server : ClientPhase → ServerPhase → List Message
  in_flight_to_server c1 s0 = hello_client ∷ []
  in_flight_to_server c2 s1 = hello_client ∷ make_telemetry_start ∷ []
  in_flight_to_server c2 s3 = make_telemetry_start ∷ []
  in_flight_to_server c3 s3 = make_telemetry_start ∷ []
  in_flight_to_server _ _ = []

  abbrev pub in_flight_to_client : ClientPhase → ServerPhase → List Message
  in_flight_to_client c0 s0 = hello_server ∷ []
  in_flight_to_client c1 s1 = hello_server ∷ []
  in_flight_to_client c2 s3 = hello_server ∷ []
  in_flight_to_client c2 s4 = hello_server ∷ []
  in_flight_to_client _ _ = []

  abbrev pub client_in : ClientPhase → ClientState
  client_in c0 = client
  client_in p = client_at client.instance_id server_id p

  abbrev pub answer : ClientPhase → List Message
  answer c0 = hello_client ∷ []
  answer c1 = hello_client ∷ make_telemetry_start ∷ []
  answer _ = []

  -- A client that is told of a new instance starts over, whatever it agreed on before.
  stale_hello :
      (percent : PercentText) (a : Ambient)
      → let r = Client.do_step percent a client (Client.message_received hello_server) in
        (r.state ≡ client_in c1) × (Client.Wire.sends r.effects ≡ answer c0)
  unfolding Client.do_step make_hello
  stale_hello percent a = ground (
    arith,
    stale.awaiting,
    same_remote_lem client.handshake_state.remote_instance_id server_id stale.unknown,
  )

  pub client_moves :
      (percent : PercentText) (a : Ambient) (p : ClientPhase)
      → let r = Client.do_step percent a (client_in p) (Client.message_received hello_server) in
        (r.state ≡ client_in (after_hello p)) × (Client.Wire.sends r.effects ≡ answer p)
  client_moves percent a c0 = stale_hello percent a
  client_moves percent a c1 = client_hello client.instance_id server_id percent a c1
  client_moves percent a c2 = client_hello client.instance_id server_id percent a c2
  client_moves percent a c3 = client_hello client.instance_id server_id percent a c3

  abbrev input : ServerPhase → Message
  input q = server_input client.instance_id server_id q

  abbrev pub server_in : ServerPhase → ServerState
  server_in q = server_at client.instance_id server_id q

  pub server_moves :
      (a : Ambient) (q : ServerPhase)
      → q ≢ s2
      → q ≢ s4
      → let r = Server.do_step a (server_in q) (Server.message_received (input q)) in
        (r.state ≡ server_in (after_input q))
        × (Server.Wire.sends r.effects ≡ server_answer client.instance_id server_id q)
  server_moves a s0 h l = server_hello client.instance_id server_id a s0 l
  server_moves a s1 h l = server_hello client.instance_id server_id a s1 l
  server_moves a s2 h l = absurd (h refl)
  server_moves a s3 h l = server_hello client.instance_id server_id a s3 l
  server_moves a s4 h l = absurd (l refl)

  abbrev pub world_at : ClientPhase → ServerPhase → World
  world_at p q = record {
    client = client_in p;
    server = server_in q;
    to_client = in_flight_to_client p q;
    to_server = in_flight_to_server p q;
  }

  pub client_delivery :
      (p : ClientPhase) (q : ServerPhase) {m : Message} {rest : List Message}
      → feasible p q ≡ true
      → in_flight_to_client p q ≡ m ∷ rest
      → (m ≡ hello_server)
        × (rest ≡ in_flight_to_client (after_hello p) q)
        × (in_flight_to_server p q ++ answer p ≡ in_flight_to_server (after_hello p) q)
        × (feasible (after_hello p) q ≡ true)
        × (client_count (after_hello p) ≡ suc (client_count p))
  client_delivery p q f e = ground arith

  pub server_delivery :
      (p : ClientPhase) (q : ServerPhase) {m : Message} {rest : List Message}
      → feasible p q ≡ true
      → in_flight_to_server p q ≡ m ∷ rest
      → (q ≢ s2)
        × (q ≢ s4)
        × (m ≡ input q)
        × (rest ≡ in_flight_to_server p (after_input q))
        × (in_flight_to_client p q ++ server_answer client.instance_id server_id q
            ≡ in_flight_to_client p (after_input q))
        × (feasible p (after_input q) ≡ true)
        × (server_count (after_input q) ≡ suc (server_count q))
  server_delivery p q f e = ground arith
