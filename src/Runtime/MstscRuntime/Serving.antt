-- ===== src/Runtime/MstscRuntime/Serving.antt =====
-- The client as a whole, as src/runtime/mstsc_runtime.h puts it together: FreeRDP calls the transport
-- (src/transport/mstsc_transport.cpp), which calls the handlers of the controller in the process of
-- `Logic.Client.Process`; its tasks give buffers to the transport, which writes them.
pub mod Refinement
use rdp_ext.Common.{ℕ, ◌≡◌, refl, arith, List, [], ◌∷◌, ◌++◌}
use rdp_ext.Common.Text.{Text}
use rdp_ext.Protocol.Serializer.{Archive, Buffer}
use rdp_ext.Logic.Base.{Ambient, PercentText}
use rdp_ext.Logic.Client.Process.{Process, connects, disconnects, receives, runs, advance}
use rdp_ext.Logic.Client.Process
use rdp_ext.Logic.Client.Process.Runs.{given}
use rdp_ext.Transport.Mstsc.{
  MstscTransport, Call, channel_write, call_connected, call_disconnected, call_bytes, InitEvent,
  OpenAnswer, OpenEvent,
}
use rdp_ext.Transport.Mstsc.Registry.{Instances, no_instances}
use rdp_ext.Transport.Mstsc.Freerdp.{on_init_event_ex, on_open_event_ex, send_ex}
use rdp_ext.Runtime.MstscRuntime.{make}

pub record Client : Type 0 where
  pub transport : MstscTransport
  pub instances : Instances
  pub process : Process
  -- the buffers that were given to `pVirtualChannelWriteEx`
  pub writes : List Buffer

-- Behind the constructor of the runtime.
abbrev pub beginning : Text → Client
beginning channel_name = record {
  transport = (make channel_name).transport;
  instances = no_instances;
  process = Process.new;
  writes = [];
}

-- The handlers that the transport's calls are of.
abbrev pub events_of : List Call → List Process.Event
events_of [] = []
events_of (call_connected ∷ cs) = connects ∷ events_of cs
events_of (call_disconnected ∷ cs) = disconnects ∷ events_of cs
events_of (call_bytes bytes ∷ cs) = receives bytes ∷ events_of cs
events_of (_ ∷ cs) = events_of cs

abbrev pub written : List Call → List Buffer
written [] = []
written (channel_write handle bytes user_data ∷ cs) = bytes ∷ written cs
written (_ ∷ cs) = written cs

pub written-append : (cs ds : List Call) → written (cs ++ ds) ≡ written cs ++ written ds
written-append [] ds = refl
written-append (c ∷ cs) ds = ground (arith, written-append cs ds)

-- The calls of `send`, one after the other; `address` and `rv` are those of each.
unfoldable pub send_all : MstscTransport → List Buffer → ℕ → ℕ → MstscTransport × List Call
send_all t [] address rv = (t, [])
send_all t (bytes ∷ rest) address rv =
    let (first, calls) = send_ex t address bytes rv in
    let (last, more) = send_all first rest address rv in (last, calls ++ more)

pub data Event : Type 0 where
  -- `onInitEventEx` and `onOpenEventEx`
  init_event : InitEvent → OpenAnswer → Event
  open_event : OpenEvent → Event
  -- the strand runs its first task; the address of a buffer and the result of a write, where it sends
  task : Ambient → ℕ → ℕ → Event

module _ (percent : PercentText) (archive : Archive) (this : ℕ) where
  unfoldable pub serve : Client → Event → Client
  serve u (init_event event answer) =
      let (t, instances, calls) = on_init_event_ex this u.transport u.instances event answer in
      record u {
        transport = t;
        instances = instances;
        process = Process.run percent archive u.process (events_of calls);
      }
  serve u (open_event event) =
      let (t, calls) = on_open_event_ex u.transport event in
      record u { transport = t; process = Process.run percent archive u.process (events_of calls) }
  serve u (task a address rv) =
      let (t, calls) =
        send_all u.transport (given percent archive u.process.machine u.process.strand a) address
          rv in
      record u {
        transport = t;
        process = advance percent archive u.process (runs a);
        writes = u.writes ++ written calls;
      }

  unfoldable pub serve_all : Client → List Event → Client
  serve_all u [] = u
  serve_all u (e ∷ es) = serve_all (serve u e) es
