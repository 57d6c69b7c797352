-- ===== src/Runtime/WtsRuntime/Serving.antt =====
-- The server as a whole, as src/runtime/wts_runtime.h puts it together: the loop of the transport
-- (src/transport/wts_transport.cpp) calls the handlers of the controller in the process of
-- `Logic.Server.Reporting`. Tasks and callbacks run between the turns of the loop, in any order. A write of the
-- worker that fails closes the channel, as another thread does before a turn. A turn is whole: no stop and no
-- close of another thread falls inside of `tryOpenChannel` or `readOnce`. `Transport.Wts.Ownership` takes the
-- sections of `tryOpenChannel` apart, and `Overtaking` those of `readOnce`.
pub mod Link
pub mod Moves
pub mod Idle
pub mod Settling
pub mod Overtaking
use rdp_ext.Common.{true, List, [], ◌∷◌}
use rdp_ext.Protocol.Serializer.{Archive}
use rdp_ext.Telemetry.Sampler.{Sampler}
use rdp_ext.Logic.Base.{Ambient}
use rdp_ext.Logic.Server.Reporting.{Process, connects, disconnects, receives, fires, runs, advance}
use rdp_ext.Logic.Server.Reporting
use rdp_ext.Transport.Wts.{WtsTransport, call_connected, call_disconnected, call_bytes}
use rdp_ext.Transport.Wts
use rdp_ext.Transport.Wts.Reading.{Answer, Interference, Phase, opening, interfere, turn}
use rdp_ext.Runtime.WtsRuntime

module _ (sampler : Sampler) (archive : Archive) where
  pub record Server : Type 0 where
    pub transport : WtsTransport
    pub phase : Phase
    pub process : Process sampler

  -- The handlers that the transport's calls are of.
  unfoldable pub hear : Process sampler → List Wts.Call → Process sampler
  hear p [] = p
  hear p (call_connected ∷ cs) = hear (advance sampler archive p connects) cs
  hear p (call_disconnected ∷ cs) = hear (advance sampler archive p disconnects) cs
  hear p (call_bytes bytes ∷ cs) = hear (advance sampler archive p (receives bytes)) cs
  hear p (_ ∷ cs) = hear p cs

  pub data Event : Type 0 where
    -- a turn of the loop, and what another thread does to the transport before it
    turns : Interference → Answer → Event
    -- the strand runs its first task
    task : Ambient → sampler.Input → Event
    -- a callback of the timer runs
    callback : sampler.Input → Event

  unfoldable pub serve : Server → Event → Server
  unfolding hear
  serve u (turns i answer) =
      let (disturbed, before) = interfere u.transport i in
      let (after, next, calls) = turn disturbed u.phase answer in
      record { transport = after; phase = next; process = hear (hear u.process before) calls }
  serve u (task a input) = record u { process = advance sampler archive u.process (runs a input) }
  serve u (callback input) = record u { process = advance sampler archive u.process (fires input) }

  unfoldable pub serve_all : Server → List Event → Server
  serve_all u [] = u
  serve_all u (e ∷ es) = serve_all (serve u e) es

  -- Where `run` enters the transport's loop.
  unfoldable pub beginning : Server
  unfolding WtsRuntime.make
  beginning = record {
    transport = record (WtsRuntime.make.transport) { running = true };
    phase = opening;
    process = Reporting.new sampler;
  }
