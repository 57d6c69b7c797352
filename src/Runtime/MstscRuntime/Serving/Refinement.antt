-- ===== src/Runtime/MstscRuntime/Serving/Refinement.antt =====
-- That the client as a whole (src/runtime/mstsc_runtime.h) does what its state machine does: from FreeRDP's calls of
-- the transport to the buffers that the transport writes.
use rdp_ext.Common.{
  ℕ, ◌≡◌, refl, sym, ap, ◌∙◌, true, List, [], ◌∷◌, ◌++◌, map, if◌then◌else◌, arith,
}
use mathlib.Core.List.{append-nil, append_assoc}
use rdp_ext.Common.Text.{Text}
use rdp_ext.Common.Except.{returned}
use rdp_ext.Protocol.Serializer.{Archive, IsLawful, Buffer, deserialize}
use rdp_ext.Protocol.Readable.{readable}
use rdp_ext.Logic.Base.{Ambient, PercentText}
use rdp_ext.Logic.Client.{ClientEvent, initial}
use rdp_ext.Logic.Client.Invariant.{run_client}
use rdp_ext.Logic.Client.History.{heard, sent_along}
use rdp_ext.Logic.Client.Controller.Strand.{inputs, outputs}
use rdp_ext.Logic.Client.Process.{Process, connects, disconnects, receives, runs, new, advance, run}
use rdp_ext.Logic.Client.Process
use rdp_ext.Logic.Client.Process.Refinement.{received, client_refines}
use rdp_ext.Logic.Client.Process.Runs.{received-append, run-append, given, runs-given}
use rdp_ext.Transport.Mstsc.{
  MstscTransport, Call, channel_write, channel_init, call_connected, call_disconnected, call_bytes,
  report, InitEvent, OpenAnswer, OpenEvent, data_received, is_last, receive, notify_connected,
  set_connected_handler, set_disconnected_handler, set_bytes_handler,
}
use rdp_ext.Transport.Mstsc.Registry.{Instances}
use rdp_ext.Transport.Mstsc.Freerdp.{on_init_event_ex, on_open_event_ex, send_ex}
use rdp_ext.Runtime.MstscRuntime.{make, link_handlers}
use rdp_ext.Runtime.MstscRuntime.Serving.{
  Client, beginning, events_of, written, written-append, send_all, Event, init_event, open_event,
  task, serve, serve_all,
}

-- The chunks that end a message: `data_flags` has `CHANNEL_FLAG_LAST`.
abbrev pub last_chunk : Event → List Buffer
last_chunk (open_event (data_received chunk data_flags)) =
    if is_last data_flags then chunk ∷ [] else []
last_chunk _ = []

abbrev pub last_chunks : List Event → List Buffer
last_chunks [] = []
last_chunks (e ∷ es) = last_chunk e ++ last_chunks es

IsLinked : MstscTransport → Type 0
IsLinked t =
    (t.has_connected_handler ≡ true)
    × (t.has_disconnected_handler ≡ true)
    × (t.has_bytes_handler ≡ true)

init_event-IsLinked :
    (this : ℕ) (t : MstscTransport) (instances : Instances) (e : InitEvent) (answer : OpenAnswer)
    → IsLinked t
    → IsLinked (on_init_event_ex this t instances e answer).0
      × (received (events_of (on_init_event_ex this t instances e answer).2) ≡ [])
unfolding on_init_event_ex notify_connected IsLinked
init_event-IsLinked this t instances e answer l = ground arith

open_event-IsLinked :
    (t : MstscTransport) (e : OpenEvent)
    → IsLinked t
    → IsLinked (on_open_event_ex t e).0
      × (received (events_of (on_open_event_ex t e).1) ≡ last_chunk (open_event e))
unfolding on_open_event_ex receive IsLinked
open_event-IsLinked t e l = ground arith

send_ex-IsLinked :
    (t : MstscTransport) (address : ℕ) (bytes : Buffer) (rv : ℕ)
    → IsLinked t
    → IsLinked (send_ex t address bytes rv).0
      × (written (send_ex t address bytes rv).1 ≡ bytes ∷ [])
unfolding send_ex IsLinked
send_ex-IsLinked t address bytes rv l = ground arith

send_all-IsLinked :
    (t : MstscTransport) (bs : List Buffer) (address rv : ℕ)
    → IsLinked t
    → IsLinked (send_all t bs address rv).0 × (written (send_all t bs address rv).1 ≡ bs)
unfolding send_all
send_all-IsLinked t [] address rv l = (l, refl)
send_all-IsLinked t (bytes ∷ rest) address rv l =
    let (first, calls) = send_ex t address bytes rv in
    let (linked, wrote) = send_ex-IsLinked t address bytes rv l in
    let (last, all) = send_all-IsLinked first rest address rv linked in
    (
      last,
      written-append calls (send_all first rest address rv).1
          ∙ ap (λ bs. bs ++ written (send_all first rest address rv).1) wrote
          ∙ ap (λ bs. bytes ∷ bs) all,
    )

module _ (percent : PercentText) (archive : Archive) where
  -- A client that received some buffers, as a run of its process along the events of `history`.
  record Followed (u : Client) (got : List Buffer) : Type 0 where
    history : List Process.Event
    follows : run percent archive new history ≡ u.process
    arrived : received history ≡ got
    wrote : u.writes ≡ u.process.delivered
    linked : IsLinked u.transport

  -- No handler writes.
  events_of-delivered :
      (p : Process) (cs : List Call)
      → (run percent archive p (events_of cs)).delivered ≡ p.delivered
  unfolding run advance
  events_of-delivered p [] = refl
  events_of-delivered p (call_connected ∷ cs) =
      events_of-delivered (advance percent archive p connects) cs
  events_of-delivered p (call_disconnected ∷ cs) =
      events_of-delivered (advance percent archive p disconnects) cs
  events_of-delivered p (call_bytes bytes ∷ cs) =
      events_of-delivered (advance percent archive p (receives bytes)) cs
  events_of-delivered p (channel_write handle bytes user_data ∷ cs) = events_of-delivered p cs
  events_of-delivered p (channel_init name ∷ cs) = events_of-delivered p cs
  events_of-delivered p (report ∷ cs) = events_of-delivered p cs

  calls-Followed :
      (u : Client) (got more : List Buffer) (t : MstscTransport) (instances : Instances)
      (cs : List Call)
      → IsLinked t × (received (events_of cs) ≡ more)
      → Followed u got
      → Followed
          (record {
            transport = t;
            instances = instances;
            process = run percent archive u.process (events_of cs);
            writes = u.writes;
          })
          (got ++ more)
  calls-Followed u got more t instances cs (l, r) f = record {
    history = f.history ++ events_of cs;
    follows =
        run-append percent archive new f.history (events_of cs)
        ∙ ap (λ p. run percent archive p (events_of cs)) f.follows;
    arrived = received-append f.history (events_of cs) ∙ rw (f.arrived, r) refl;
    wrote = f.wrote ∙ sym (events_of-delivered u.process cs);
    linked = l;
  }

  serve-Followed :
      (this : ℕ) (u : Client) (got : List Buffer) (e : Event)
      → Followed u got
      → Followed (serve percent archive this u e) (got ++ last_chunk e)
  unfolding serve run
  serve-Followed this u got (init_event event answer) f =
      calls-Followed u got [] _ _ (on_init_event_ex this u.transport u.instances event answer).2
        (init_event-IsLinked this u.transport u.instances event answer f.linked) f
  serve-Followed this u got (open_event event) f =
      calls-Followed u got _ _ _ (on_open_event_ex u.transport event).1
        (open_event-IsLinked u.transport event f.linked) f
  serve-Followed this u got (task a address rv) f =
      let given_now = given percent archive u.process.machine u.process.strand a in
      let (l, w) = send_all-IsLinked u.transport given_now address rv f.linked in
      record {
        history = f.history ++ runs a ∷ [];
        follows =
            run-append percent archive new f.history (runs a ∷ [])
            ∙ ap (λ p. advance percent archive p (runs a)) f.follows;
        arrived = received-append f.history (runs a ∷ []) ∙ ap (λ bs. bs ++ []) f.arrived;
        wrote = rw (w, f.wrote) (sym (runs-given percent archive u.process a));
        linked = l;
      }

  serve_all-Followed :
      (this : ℕ) (u : Client) (got : List Buffer) (es : List Event)
      → Followed u got
      → Followed (serve_all percent archive this u es) (got ++ last_chunks es)
  unfolding serve_all
  serve_all-Followed this u got [] f = rw (append-nil got) f
  serve_all-Followed this u got (e ∷ es) f =
      rw (sym (append_assoc got (last_chunk e) (last_chunks es))) (
        serve_all-Followed this (serve percent archive this u e) (got ++ last_chunk e) es
          (serve-Followed this u got e f))

beginning-IsLinked : (channel_name : Text) → IsLinked (beginning channel_name).transport
unfolding IsLinked make link_handlers set_connected_handler set_disconnected_handler
    set_bytes_handler
beginning-IsLinked channel_name = (refl, refl, refl)

-- The client as a whole refines its state machine, from FreeRDP's calls of the transport to the transport's
-- writes. Over a lawful archive, let the calls for the plugin's init and open events and the tasks of the strand
-- come in any order behind the runtime's constructor, whatever they bring and whatever an open or a write answers.
-- The machine is where some list of events leads: the messages of these events, and then those that wait on the
-- strand, are the readable ones among the chunks that came with `CHANNEL_FLAG_LAST`, in order, and what was
-- given to `pVirtualChannelWriteEx`, and then what waits on the strand for it, reads as the messages that the
-- machine sends along the events, in order.
pub plugin_refines :
    (percent : PercentText) (archive : Archive)
    → IsLawful archive
    → (this : ℕ) (channel_name : Text) (es : List Event)
    → let u = serve_all percent archive this (beginning channel_name) es in
      (history : List (Ambient × ClientEvent)) × (run_client percent initial history
        ≡ u.process.machine)
      × (heard history ++ readable archive (inputs u.process.strand)
          ≡ readable archive (last_chunks es))
      × (map (deserialize archive) (u.writes ++ outputs u.process.strand)
          ≡ map returned (sent_along percent initial history))
unfolding run
plugin_refines percent archive lawful this channel_name es =
    let f : Followed percent archive (serve_all percent archive this (beginning channel_name) es)
        (last_chunks es) =
      serve_all-Followed percent archive this (beginning channel_name) [] es (record {
        history = [];
        follows = refl;
        arrived = refl;
        wrote = refl;
        linked = beginning-IsLinked channel_name;
      }) in
    rw (f.wrote, sym f.follows, sym f.arrived) (client_refines percent archive lawful f.history)
