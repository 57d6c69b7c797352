-- ===== src/Tests/Working.antt =====
-- The client's process on its executor, with a stop among the events, by evaluation.
use rdp_ext.Common.{◌≡◌, ◌⊎◌, true, false, List, [], ◌∷◌, map}
use rdp_ext.Common.Text.{decimal}
use rdp_ext.Runtime.Executor.Queue.{posted}
use rdp_ext.Logic.Client.Process.{Process, new, run}
use rdp_ext.Runtime.MstscRuntime.Working.{
  Worker, Event, works, connects, receives, stops, serve_all, started,
}
use rdp_ext.Runtime.MstscRuntime.Working.Equivalence.{until_stop, has_stop, worker_follows}
use rdp_ext.Tests.Codec.{codec}
use rdp_ext.Tests.Process.{ambient, server_hello}

-- The client's hello is sent, a server's is handled, and the answer to it is still posted at the stop.
abbrev es : List Event
es =
    connects
    ∷ works ambient
    ∷ works ambient
    ∷ receives server_hello
    ∷ works ambient
    ∷ stops false
    ∷ works ambient
    ∷ receives server_hello
    ∷ works ambient
    ∷ []

abbrev stopped : Worker
stopped = serve_all decimal codec started es

abbrev process : Process
process = run decimal codec new (until_stop es)

worker_follows_example :
    (stopped.machine ≡ process.machine)
    × (stopped.delivered ≡ process.delivered)
    × (stopped.logs ≡ process.logs)
    × ((has_stop es ≡ true) ⊎ (stopped.queue ≡ map posted process.strand))
worker_follows_example = worker_follows decimal codec es
