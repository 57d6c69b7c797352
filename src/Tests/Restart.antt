-- ===== src/Tests/Restart.antt =====
-- A server that starts anew while the client's channel stays open, by evaluation.
use rdp_ext.Common.{arith, true, false, some, ℕ, ◌+◌, ◌≡◌, refl}
use rdp_ext.Common.Text.{decimal}
use rdp_ext.Protocol.Message.{id_eq}
use rdp_ext.Protocol.Factory.{make_hello, make_telemetry_start}
use rdp_ext.Protocol.Serializer.{serialize, deserialize}
use rdp_ext.Logic.Base.{awaiting_handshake, generate_random_value}
use rdp_ext.Logic.Client
use rdp_ext.Logic.Server
use rdp_ext.Logic.Session.Convergence.{Agreed}
use rdp_ext.Logic.Network.{
  Network, client_runs, server_runs, client_hears, server_hears, Reach, here,
}
use rdp_ext.Logic.Network.Rest.{Quiet}
use rdp_ext.Tests.Codec.{codec, codec-IsLawful}
use rdp_ext.Logic.Client.{ClientState}
use rdp_ext.Logic.Network.{server_connected}
use rdp_ext.Logic.Network.Restart.{restart_completes}
use rdp_ext.Logic.Session.Restart.{IsStale}
use rdp_ext.Tests.Runs.{there_now, Run, take_turns, round}

-- A client that agreed with an earlier instance, and asked it for telemetry.
abbrev veteran : ClientState
veteran = record {
  connection_state = awaiting_handshake;
  telemetry_requested = true;
  instance_id = record { timestamp = 1000; id = 77 };
  handshake_state = record {
    remote_instance_id = some (record { timestamp = 1500; id = 5 });
    local_hello_needed = false;
    handshake_completed = true;
  };
}

veteran-Inv : Client.Invariant.Inv veteran
veteran-Inv = ground arith

veteran-IsStale : IsStale veteran (Server.generate_random_instance_id there_now)
unfolding Server.generate_random_instance_id generate_random_value
veteran-IsStale = ground arith

start : Network
unfolding server_connected client_runs server_runs client_hears server_hears
    Client.Controller.run_task Server.Controller.run_task serialize deserialize Client.do_step
    Server.do_step make_hello make_telemetry_start Client.generate_random_instance_id
    Server.generate_random_instance_id generate_random_value id_eq Client.Controller.handle_effects
    Server.Controller.handle_effects
start = server_connected decimal codec there_now veteran Server.initial

begun : Run start
unfolding take_turns
begun = take_turns (take_turns (record { count = 0; last = start; reach = here }) round) round

begun_count : begun.count ≡ 3
unfolding begun start
begun_count = refl

restart_completes_example :
    (rest : ℕ) × (last : Network) × Reach decimal codec begun.last rest last
    × Quiet last
    × Agreed last.client last.server
    × (begun.count + rest ≡ 18)
unfolding start
restart_completes_example =
    restart_completes decimal codec there_now veteran Server.initial codec-IsLawful veteran-Inv
      Server.Invariant.initial-Inv veteran-IsStale begun.reach
