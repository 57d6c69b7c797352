-- ===== src/Tests/Serving.antt =====
-- The server as a whole, with the sampler of Linux: a client connects, its hello arrives, and the channel is
-- closed.
use rdp_ext.Common.{◌≡◌, refl, true, false, List, [], ◌∷◌, ◌++◌, some}
use rdp_ext.Telemetry.LinuxSampler.{linux_sampler}
use rdp_ext.Telemetry.LinuxSampler
use rdp_ext.Logic.Base.{Ambient}
use rdp_ext.Protocol.Serializer.{serialize, deserialize}
use rdp_ext.Logic.Server.{do_step}
use rdp_ext.Logic.Server.Controller
use rdp_ext.Logic.Server.Reporting.{advance}
use rdp_ext.Transport.ChannelHandle
use rdp_ext.Transport.Wts.Reading
use rdp_ext.Runtime.WtsRuntime.Serving
use rdp_ext.Transport.ChannelHandle.{OpenAnswer, handle}
use rdp_ext.Transport.Wts.Reading.{Answer, got, quiet, closes}
use rdp_ext.Runtime.WtsRuntime.Serving.{Server, Event, turns, task, serve_all, beginning}
use rdp_ext.Runtime.WtsRuntime.Serving.Idle.{Serves, serving_follows}
use rdp_ext.Runtime.WtsRuntime.Serving.Settling.{each, serving_settles}
use rdp_ext.Transport.Wts.{
  WtsTransport, initial, connected, os, call_disconnected, call_bytes, close_channel,
}
use rdp_ext.Transport.Wts.Reading.{deliver, read_begin}
use rdp_ext.Transport.ChannelHandle.{valid, close_channel as close_handle}
use rdp_ext.Logic.Base.{disconnected}
use rdp_ext.Logic.Server.Reporting.{Process, new, runs}
use rdp_ext.Runtime.WtsRuntime.Serving.{hear}
use rdp_ext.Runtime.WtsRuntime.Serving.Overtaking.{close_overtakes_read}
use rdp_ext.Tests.Codec.{codec, codec-IsLawful}

abbrev ambient : Ambient
ambient = record { now = 1000; draw = 77 }

abbrev granted : OpenAnswer
granted = record {
  channel = handle 1;
  query = record { ok = true; buffer = some (handle 2); bytes_returned = 8 };
}

abbrev hello : Answer
hello = record { to_open = granted; to_read = got (1 ∷ 0x0103 ∷ 5 ∷ 6 ∷ []) }

abbrev work : Event linux_sampler codec
work = task ambient tt

abbrev connects : List (Event linux_sampler codec)
connects = turns quiet hello ∷ turns quiet hello ∷ work ∷ work ∷ work ∷ []

serving_follows_example :
    Serves linux_sampler codec
      (serve_all linux_sampler codec (beginning linux_sampler codec) connects)
unfolding serve_all Serving.serve advance Reading.turn beginning Reading.interfere
    ChannelHandle.valid Controller.on_connected Controller.on_bytes Controller.run_task
    Controller.handle_effects do_step serialize deserialize
serving_follows_example = serving_follows linux_sampler codec codec-IsLawful connects refl

abbrev left : Server linux_sampler codec
left =
    serve_all linux_sampler codec (beginning linux_sampler codec)
      (turns quiet hello ∷ turns closes hello ∷ [])

serving_settles_example :
    let v =
      serve_all linux_sampler codec left
        (each linux_sampler codec left.process.strand ambient tt) in
    (v.transport ≡ left.transport) × Serves linux_sampler codec v
serving_settles_example =
    serving_settles linux_sampler codec codec-IsLawful (turns quiet hello ∷ turns closes hello ∷ [])
      ambient tt

abbrev open_transport : WtsTransport
open_transport = record initial {
  has_disconnected_handler = true;
  has_bytes_handler = true;
  running = true;
  channel = record { channel = handle 1; file = handle 2 };
  state = connected;
}

abbrev unstarted : Process linux_sampler
unstarted = new linux_sampler

close_overtakes_read_example :
    let (closed, closing) = close_channel open_transport in
    let (_, calls) = deliver closed (got (3 ∷ [])) in
    let heard = hear linux_sampler codec unstarted (closing ++ calls) in
    let q =
      advance linux_sampler codec
        (advance linux_sampler codec heard (runs ambient tt))
        (runs ambient tt) in
    (closing ++ calls ≡ os (close_handle (handle 1)) ∷ call_disconnected ∷ call_bytes (3 ∷ []) ∷ [])
    × (valid closed.channel ≡ false)
    × (q.machine.connection_state ≡ disconnected)
    × (q.machine.telemetry_enabled ≡ true)
    × (q.timer.running ≡ true)
    × (q.callbacks ≡ 1)
unfolding read_begin valid deserialize LinuxSampler.reset
close_overtakes_read_example =
    close_overtakes_read linux_sampler codec open_transport unstarted 3 [] ambient ambient tt tt
      refl refl refl refl refl refl refl
