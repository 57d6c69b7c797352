-- ===== src/Tests/Network.antt =====
-- Both controllers over the channel, by evaluation: part of a handshake, and all of it.
use rdp_ext.Common.{ℕ, ◌+◌, ◌*◌, ◌≡◌, refl}
use rdp_ext.Common.Text.{decimal}
use rdp_ext.Protocol.Message.{id_eq}
use rdp_ext.Protocol.Factory.{make_hello, make_telemetry_start}
use rdp_ext.Protocol.Serializer.{serialize, deserialize}
use rdp_ext.Logic.Base.{PercentText, generate_random_value}
use rdp_ext.Logic.Client
use rdp_ext.Logic.Server
use rdp_ext.Logic.Session.{World}
use rdp_ext.Logic.Session
use rdp_ext.Logic.Session.Convergence.{Agreed}
use rdp_ext.Logic.Network.{
  Network, client_runs, server_runs, client_hears, server_hears, Reach, here, connected,
}
use rdp_ext.Logic.Network.Carries.{Carries, progress}
use rdp_ext.Logic.Network.Refinement.{network_refines}
use rdp_ext.Logic.Network.Completion.{network_settles, network_completes}
use rdp_ext.Logic.Network.Rest.{Quiet}
use rdp_ext.Tests.Runs.{here_now, there_now, Run, take_turns, round}
use rdp_ext.Tests.Codec.{codec, codec-IsLawful}

abbrev percent : PercentText
percent = decimal

-- Its line is what a run computes with.
start : Network
unfolding connected client_runs server_runs client_hears server_hears Client.Controller.run_task
    Server.Controller.run_task serialize deserialize Client.do_step Server.do_step make_hello
    make_telemetry_start Client.generate_random_instance_id Server.generate_random_instance_id
    generate_random_value id_eq Client.Controller.handle_effects Server.Controller.handle_effects
start = connected percent codec here_now there_now Client.initial Server.initial

begun : Run start
unfolding take_turns
begun = take_turns (record { count = 0; last = start; reach = here }) round

finished : Run start
unfolding take_turns
finished =
    take_turns
      (take_turns
        (take_turns
          (take_turns
            (take_turns (take_turns (take_turns (take_turns begun round) round) round) round) round)
          round)
        round)
      round

finished_count : finished.count ≡ 21
unfolding finished begun start
finished_count = refl

network_refines_example :
    (j : ℕ) × (w : World) × Session.Reach percent
      (Session.connect percent here_now there_now Client.initial Server.initial)
      j
      w
    × (begun.last.client ≡ w.client)
    × (begun.last.server ≡ w.server)
    × Carries codec begun.last w.to_client w.to_server
    × (begun.count ≡ 3 * j + progress begun.last)
unfolding start
network_refines_example =
    network_refines percent codec codec-IsLawful here_now there_now Client.initial Server.initial
      Client.Invariant.initial-Inv Server.Invariant.initial-Inv begun.reach

network_completes_example :
    (rest : ℕ) × (last : Network) × Reach percent codec begun.last rest last
    × Quiet last
    × Agreed last.client last.server
    × (begun.count + rest ≡ 21)
unfolding start
network_completes_example =
    network_completes percent codec here_now there_now Client.initial Server.initial codec-IsLawful
      Client.Invariant.initial-Inv Server.Invariant.initial-Inv begun.reach

network_settles_example : (finished.count ≡ 21) × Agreed finished.last.client finished.last.server
unfolding finished begun start
network_settles_example =
    network_settles percent codec here_now there_now Client.initial Server.initial codec-IsLawful
      Client.Invariant.initial-Inv Server.Invariant.initial-Inv finished.reach
      (refl, refl, refl, refl)
