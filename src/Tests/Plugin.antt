-- ===== src/Tests/Plugin.antt =====
-- The client's end behind FreeRDP's calls, by evaluation.
use rdp_ext.Common.{◌≡◌, List, [], ◌∷◌, ◌++◌, map}
use rdp_ext.Common.Except.{returned}
use rdp_ext.Common.Text.{decimal, Text}
use rdp_ext.Protocol.Serializer.{deserialize}
use rdp_ext.Protocol.Readable.{readable}
use rdp_ext.Logic.Base.{Ambient}
use rdp_ext.Logic.Client.{ClientEvent, initial}
use rdp_ext.Logic.Client.Invariant.{run_client}
use rdp_ext.Logic.Client.History.{heard, sent_along}
use rdp_ext.Logic.Client.Controller.Strand.{inputs, outputs}
use rdp_ext.Transport.Mstsc.{
  event_connected, event_disconnected, OpenAnswer, data_received, write_complete, channel_rc_ok,
}
use rdp_ext.Runtime.MstscRuntime.Serving.{
  Client, Event, init_event, open_event, task, beginning, serve_all,
}
use rdp_ext.Runtime.MstscRuntime.Serving.Refinement.{last_chunks, plugin_refines}
use rdp_ext.Tests.Codec.{codec, codec-IsLawful}

abbrev name : Text
name = 84 ∷ 69 ∷ []

abbrev opened : OpenAnswer
opened = record { handle = 7; rc = channel_rc_ok }

abbrev work : Event
work = task (record { now = 5; draw = 6 }) 90 channel_rc_ok

-- The channel opens, the client's hello is written, and a server's hello arrives, behind a chunk that ends
-- no message.
abbrev es : List Event
es =
    init_event event_connected opened
    ∷ work
    ∷ work
    ∷ open_event (data_received (1 ∷ []) 1)
    ∷ open_event (data_received (1 ∷ 0x0103 ∷ 1000 ∷ 77 ∷ []) 3)
    ∷ work
    ∷ open_event (write_complete 90)
    ∷ work
    ∷ init_event event_disconnected opened
    ∷ []

abbrev plugin : Client
plugin = serve_all decimal codec 64 (beginning name) es

plugin_refines_example :
    (history : List (Ambient × ClientEvent)) × (run_client decimal initial history
      ≡ plugin.process.machine)
    × (heard history ++ readable codec (inputs plugin.process.strand)
        ≡ readable codec (last_chunks es))
    × (map (deserialize codec) (plugin.writes ++ outputs plugin.process.strand)
        ≡ map returned (sent_along decimal initial history))
plugin_refines_example = plugin_refines decimal codec codec-IsLawful 64 name es
