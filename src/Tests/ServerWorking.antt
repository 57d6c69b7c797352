-- ===== src/Tests/ServerWorking.antt =====
-- The server's process on its executor, with a stop among the events, by evaluation.
use rdp_ext.Common.{◌≡◌, ◌⊎◌, true, false, List, [], ◌∷◌, All}
use rdp_ext.Telemetry.LinuxSampler.{linux_sampler}
use rdp_ext.Logic.Server.Reporting.{run, new}
use rdp_ext.Logic.Server.Reporting
use rdp_ext.Logic.Server.Reporting.Refinement.{IsFitEvent, received}
use rdp_ext.Runtime.WtsRuntime.Working.{
  Worker, Event, works, connects, receives, expires, stops, serve_all, started,
}
use rdp_ext.Runtime.WtsRuntime.Working.Moves.{seen}
use rdp_ext.Runtime.WtsRuntime.Working.Turns.{arrived, has_stop, IsFitWork}
use rdp_ext.Runtime.WtsRuntime.Working.Refinement.{server_worker_follows}
use rdp_ext.Tests.Codec.{codec}
use rdp_ext.Tests.Process.{ambient}
use rdp_ext.Tests.Reports.{hello_bytes, hello_bytes-IsWire, request-IsWire, load-lt}

abbrev turn : Event linux_sampler
turn = works ambient tt 40

-- A handshake, a request for telemetry and one sample, and then a stop with another timer waiting.
abbrev es : List (Event linux_sampler)
es =
    connects
    ∷ receives hello_bytes
    ∷ receives hello_bytes
    ∷ receives (3 ∷ [])
    ∷ turn
    ∷ turn
    ∷ turn
    ∷ turn
    ∷ turn
    ∷ turn
    ∷ expires 0 false
    ∷ turn
    ∷ turn
    ∷ stops false
    ∷ turn
    ∷ []

es-IsFitWork : All (IsFitWork linux_sampler codec) es
es-IsFitWork = (
  tt,
  (
    hello_bytes-IsWire,
    (
      hello_bytes-IsWire,
      (
        request-IsWire,
        (
          load-lt,
          (
            load-lt,
            (
              load-lt,
              (load-lt, (load-lt, (load-lt, (tt, (load-lt, (load-lt, (tt, (load-lt, tt)))))))),
            ),
          ),
        ),
      ),
    ),
  ),
)

abbrev stopped : Worker linux_sampler
stopped = serve_all linux_sampler codec (started linux_sampler) es

server_worker_follows_example :
    (history : List (Reporting.Event linux_sampler)) × (stopped.machine
      ≡ (run linux_sampler codec (new linux_sampler) history).machine)
    × (stopped.timer ≡ (run linux_sampler codec (new linux_sampler) history).timer)
    × (stopped.delivered ≡ (run linux_sampler codec (new linux_sampler) history).delivered)
    × ((has_stop linux_sampler es ≡ true)
        ⊎ (seen linux_sampler codec stopped ≡ run linux_sampler codec (new linux_sampler) history))
    × (received linux_sampler history ≡ arrived linux_sampler es)
    × All (IsFitEvent linux_sampler codec) history
server_worker_follows_example = server_worker_follows linux_sampler codec es es-IsFitWork
