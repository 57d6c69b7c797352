-- ===== src/Logic/Client/Process/Refinement.antt =====
-- The client's process as a run of its state machine: what it reads, and what it gives to the transport.
use rdp_ext.Common.{◌≡◌, refl, sym, ap, ◌∙◌, List, [], ◌∷◌, ◌++◌, map}
use mathlib.Core.List.{append-nil, append_assoc}
use rdp_ext.Common.Except.{returned}
use rdp_ext.Protocol.Serializer.{Archive, IsLawful, Buffer, deserialize}
use rdp_ext.Protocol.Readable.{readable, readable-append}
use rdp_ext.Logic.Base.{Ambient, PercentText}
use rdp_ext.Logic.Client.{ClientEvent, initial}
use rdp_ext.Logic.Client.Invariant.{run_client}
use rdp_ext.Logic.Client.Controller.{Task, on_connected, on_disconnected, on_bytes}
use rdp_ext.Logic.Client.Controller.Strand.{inputs, outputs, inputs-append, outputs-append}
use rdp_ext.Logic.Client.Process.{
  Process, Event, runs, connects, disconnects, receives, new, run_first, advance, run,
}
use rdp_ext.Logic.Client.History.{heard, sent_along}
use rdp_ext.Logic.Client.Process.Traces.{Traced, IsTraced, task-Traced}

abbrev pub brought : Event → List Buffer
brought (receives bytes) = bytes ∷ []
brought _ = []

-- The buffers that the transport hands over along some events.
abbrev pub received : List Event → List Buffer
received [] = []
received (e ∷ es) = brought e ++ received es

module _ (percent : PercentText) (archive : Archive) (lawful : IsLawful archive) where
  post-Traced :
      (p : Process) (got more : List Buffer) (tasks : List Task)
      → inputs tasks ≡ more
      → outputs tasks ≡ []
      → IsTraced percent archive lawful p got
      → Traced percent archive lawful p.machine (p.strand ++ tasks) p.delivered (got ++ more)
  post-Traced p got more tasks i o t = record {
    history = t.history;
    machine = t.machine;
    reads =
        rw
          (
            inputs-append p.strand tasks,
            i,
            readable-append archive (inputs p.strand) more,
            readable-append archive got more,
          )
          (sym (append_assoc (heard t.history) _ _)
            ∙ ap (λ ms. ms ++ readable archive more) t.reads);
    gives = rw (outputs-append p.strand tasks, o, append-nil (outputs p.strand)) t.gives;
  }

  first-Traced :
      (p : Process) (got : List Buffer) (strand : List Task) (a : Ambient)
      → p.strand ≡ strand
      → IsTraced percent archive lawful p got
      → IsTraced percent archive lawful (run_first percent archive p strand a) got
  unfolding run_first
  first-Traced p got [] a e t = t
  first-Traced p got (task ∷ rest) a e t =
      task-Traced percent archive lawful p got task a rest (rw e at t)

  advance-Traced :
      (p : Process) (got : List Buffer) (e : Event)
      → IsTraced percent archive lawful p got
      → IsTraced percent archive lawful (advance percent archive p e) (got ++ brought e)
  unfolding advance on_connected on_disconnected on_bytes
  advance-Traced p got (runs a) t = rw (append-nil got) (first-Traced p got p.strand a refl t)
  advance-Traced p got connects t = post-Traced p got [] _ refl refl t
  advance-Traced p got disconnects t = post-Traced p got [] _ refl refl t
  advance-Traced p got (receives bytes) t = post-Traced p got (bytes ∷ []) _ refl refl t

  run-Traced :
      (p : Process) (got : List Buffer) (es : List Event)
      → IsTraced percent archive lawful p got
      → IsTraced percent archive lawful (run percent archive p es) (got ++ received es)
  unfolding run
  run-Traced p got [] t = rw (append-nil got) t
  run-Traced p got (e ∷ es) t =
      rw (sym (append_assoc got (brought e) (received es)))
        (run-Traced (advance percent archive p e) (got ++ brought e) es (advance-Traced p got e t))

  -- The client's process refines its state machine. Over a lawful archive, let tasks and transport run in any
  -- order from the start, whatever arrives. The machine is where some list of events leads: the messages of
  -- these events, and then those that wait on the strand, are the readable ones of all buffers that arrived,
  -- in order, and what the transport was given, and then what waits on the strand for it, reads as the messages
  -- that the machine sends along the events, in order.
  pub client_refines :
      (es : List Event)
      → let p = run percent archive new es in
        (history : List (Ambient × ClientEvent)) × (run_client percent initial history ≡ p.machine)
        × (heard history ++ readable archive (inputs p.strand) ≡ readable archive (received es))
        × (map (deserialize archive) (p.delivered ++ outputs p.strand)
            ≡ map returned (sent_along percent initial history))
  unfolding run_client sent_along
  client_refines es =
      let t : IsTraced percent archive lawful (run percent archive new es) (received es) =
        run-Traced new [] es
          (record { history = []; machine = refl; reads = refl; gives = refl }) in
      (t.history, t.machine, t.reads, t.gives)
