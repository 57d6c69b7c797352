-- ===== src/Tests/Process.antt =====
-- The client's process, by evaluation.
use rdp_ext.Common.{◌≡◌, List, [], ◌∷◌, ◌++◌, map}
use rdp_ext.Common.Text.{decimal}
use rdp_ext.Protocol.Serializer.{Buffer}
use rdp_ext.Logic.Base.{Ambient}
use rdp_ext.Protocol.Readable.{readable, refused}
use rdp_ext.Logic.Client.Controller.Strand.{inputs}
use rdp_ext.Logic.Client.Process.Refinement.{received}
use rdp_ext.Protocol.Loads.{loads}
use rdp_ext.Logic.Client.Lines.{lines_with, load_start, failure_start, load_line, failure_line}
use rdp_ext.Logic.Client.Process.Logs.{loads_logged, bad_buffers_logged}
use rdp_ext.Logic.Client.Process.{Process, Event, runs, connects, receives, new, run}
use rdp_ext.Tests.Codec.{codec, codec-IsLawful}

abbrev pub ambient : Ambient
ambient = record { now = 5; draw = 6 }

abbrev work : Event
work = runs ambient

abbrev pub server_hello : Buffer
server_hello = 1 ∷ 0x0103 ∷ 1000 ∷ 77 ∷ []

-- The client connects, and the hello of a server arrives twice.
abbrev pub ds : List Event
ds =
    connects
    ∷ work
    ∷ work
    ∷ receives server_hello
    ∷ receives server_hello
    ∷ work
    ∷ work
    ∷ work
    ∷ work
    ∷ work
    ∷ []

abbrev pub client : Process
client = run decimal codec new ds

-- A load arrives, a buffer that is no message, and one more load.
abbrev mixed : List Event
mixed =
    connects
    ∷ work
    ∷ receives (4 ∷ 17 ∷ [])
    ∷ receives (9 ∷ [])
    ∷ receives (4 ∷ 42 ∷ [])
    ∷ work
    ∷ work
    ∷ work
    ∷ []

abbrev watcher : Process
watcher = run decimal codec new mixed

loads_logged_example :
    lines_with load_start watcher.logs
      ++ map (load_line decimal) (loads (readable codec (inputs watcher.strand)))
    ≡ map (load_line decimal) (loads (readable codec (received mixed)))
loads_logged_example = loads_logged decimal codec codec-IsLawful mixed

bad_buffers_logged_example :
    lines_with failure_start watcher.logs
      ++ map failure_line (refused codec (inputs watcher.strand))
    ≡ map failure_line (refused codec (received mixed))
bad_buffers_logged_example = bad_buffers_logged decimal codec codec-IsLawful mixed
