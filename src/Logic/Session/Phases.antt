-- ===== src/Logic/Session/Phases.antt =====
-- How far a handshake between two machines has gone: what each machine is after it handled some
-- messages of the other, and what is still on its way.
use rdp_ext.Common.{◌≡◌, ◌≢◌, true, false, List, [], ◌∷◌, none, some, arith}
use rdp_ext.Protocol.Message.{InstanceId, Message, id_eq_self}
use rdp_ext.Protocol.Factory.{make_hello, make_telemetry_start}
use rdp_ext.Logic.Base.{Ambient, PercentText, awaiting_handshake}
use rdp_ext.Logic.Handshake.{HandshakeState}
use rdp_ext.Logic.Client.{ClientState}
use rdp_ext.Logic.Client
use rdp_ext.Logic.Server.{ServerState}
use rdp_ext.Logic.Server

-- How many hellos of the server the client handled.
pub data ClientPhase : Type 0 where
  c0 c1 c2 c3 : ClientPhase

-- How many hellos of the client the server handled, and then the request for telemetry.
pub data ServerPhase : Type 0 where
  s0 s1 s2 s3 s4 : ServerPhase

abbrev pub after_hello : ClientPhase → ClientPhase
after_hello c0 = c1
after_hello c1 = c2
after_hello _ = c3

module _ (client_id server_id : InstanceId) where
  abbrev handshake : InstanceId → HandshakeState
  handshake id = record {
    remote_instance_id = some id;
    local_hello_needed = false;
    handshake_completed = true;
  }

  abbrev pub client_at : ClientPhase → ClientState
  client_at c0 = record {
    connection_state = awaiting_handshake;
    instance_id = client_id;
    telemetry_requested = false;
    handshake_state = record {
      remote_instance_id = none;
      local_hello_needed = false;
      handshake_completed = false;
    };
  }
  client_at c1 = record {
    connection_state = awaiting_handshake;
    instance_id = client_id;
    telemetry_requested = false;
    handshake_state = record {
      remote_instance_id = some server_id;
      local_hello_needed = false;
      handshake_completed = false;
    };
  }
  client_at _ = record {
    connection_state = awaiting_handshake;
    instance_id = client_id;
    telemetry_requested = true;
    handshake_state = handshake server_id;
  }

  abbrev pub server_at : ServerPhase → ServerState
  server_at s0 = record {
    connection_state = awaiting_handshake;
    instance_id = server_id;
    telemetry_enabled = false;
    handshake_state = record {
      remote_instance_id = none;
      local_hello_needed = false;
      handshake_completed = false;
    };
  }
  server_at s1 = record {
    connection_state = awaiting_handshake;
    instance_id = server_id;
    telemetry_enabled = false;
    handshake_state = record {
      remote_instance_id = some client_id;
      local_hello_needed = false;
      handshake_completed = false;
    };
  }
  server_at s4 = record {
    connection_state = awaiting_handshake;
    instance_id = server_id;
    telemetry_enabled = true;
    handshake_state = handshake client_id;
  }
  server_at _ = record {
    connection_state = awaiting_handshake;
    instance_id = server_id;
    telemetry_enabled = false;
    handshake_state = handshake client_id;
  }

  -- The answers of a client to a hello of the server.
  abbrev pub client_answer : ClientPhase → List Message
  client_answer c0 = make_hello client_id ∷ []
  client_answer c1 = make_hello client_id ∷ make_telemetry_start ∷ []
  client_answer _ = []

  pub client_hello :
      (percent : PercentText) (a : Ambient) (p : ClientPhase)
      → let r =
          Client.do_step percent a (client_at p) (Client.message_received (make_hello server_id)) in
        (r.state ≡ client_at (after_hello p)) × (Client.Wire.sends r.effects ≡ client_answer p)
  unfolding Client.do_step make_hello make_telemetry_start
  client_hello percent a p = ground (arith, id_eq_self server_id)

  abbrev pub server_after : ServerPhase → ServerPhase
  server_after s0 = s1
  server_after s1 = s2
  server_after s2 = s3
  server_after _ = s4

  -- What the server handles next, and its answer.
  abbrev pub server_input : ServerPhase → Message
  server_input s3 = make_telemetry_start
  server_input _ = make_hello client_id

  abbrev pub server_answer : ServerPhase → List Message
  server_answer s0 = make_hello server_id ∷ []
  server_answer s1 = make_hello server_id ∷ []
  server_answer _ = []

  pub server_hello :
      (a : Ambient) (q : ServerPhase)
      → q ≢ s4
      → let r = Server.do_step a (server_at q) (Server.message_received (server_input q)) in
        (r.state ≡ server_at (server_after q)) × (Server.Wire.sends r.effects ≡ server_answer q)
  unfolding Server.do_step make_hello make_telemetry_start
  server_hello a q h = ground (arith, id_eq_self client_id)
