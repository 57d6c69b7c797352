-- ===== src/Logic/Server/Reporting/Crossing.antt =====
-- Answers that outlive their connection: the server's process between a disconnection and the next connection.
use rdp_ext.Common.{◌≡◌, refl, sym, ap, ◌∙◌, List, [], ◌∷◌, ◌++◌, map, map-append_eq}
use mathlib.Core.Path.{subst}
use mathlib.Core.List.{append-nil}
use rdp_ext.Common.Except.{Except, returned}
use rdp_ext.Protocol.Message.{Message, IsWire}
use rdp_ext.Protocol.Factory.{make_hello}
use rdp_ext.Protocol.Serializer.{Archive, IsLawful, Buffer, deserialize}
use rdp_ext.Telemetry.Sampler.{Sampler}
use rdp_ext.Telemetry.Timer
use rdp_ext.Logic.Base.{Ambient}
use rdp_ext.Logic.Server.{
  ServerState, ServerEvent, message_received, transport_connected, transport_disconnected, do_step,
  generate_random_instance_id,
}
use rdp_ext.Logic.Server.Invariant.{Inv, do_step-Inv}
use rdp_ext.Logic.Server.Wire.{IsWireEvent, sends}
use rdp_ext.Logic.Server.Controller.{
  Task, step_bytes, step_connected, step_disconnected, step, run_task,
}
use rdp_ext.Logic.Server.Controller.Strand.{
  inputs, outputs, step-Steps, inputs-append, outputs-append,
}
use rdp_ext.Logic.Server.Reporting.{Process, run_first, after_task, runs, advance}
use rdp_ext.Logic.Server.Reporting.Readable.{calls_anyway}

module _ (sampler : Sampler) (archive : Archive) (lawful : IsLawful archive) where
  -- A process behind a step of its machine: its answers stand last in the strand.
  record Stepped (p q : Process sampler) (rest : List Task) (s : ServerState)
      (messages : List Message) : Type 0 where
    added : List Task
    strand : q.strand ≡ rest ++ added
    machine : q.machine ≡ s
    reads : inputs added ≡ []
    gives : map (deserialize archive) (outputs added) ≡ map returned messages
    delivered : q.delivered ≡ p.delivered

  event-Stepped :
      (p : Process sampler) (e : ServerEvent) (a : Ambient) (input : sampler.Input)
      (rest : List Task) (started : Except (Unit {0}))
      → Inv p.machine
      → IsWireEvent e
      → let outcome = do_step a p.machine e in
        Stepped p
          (after_task sampler p rest input (step archive started a p.machine e))
          rest
          outcome.state
          (sends outcome.effects)
  unfolding after_task step
  event-Stepped p e a input rest started v w =
      let same = calls_anyway archive started a p.machine e in
      let (moved, i, o, t, b) = step-Steps archive lawful a p.machine e v w in
      record {
        added = _;
        strand = refl;
        machine = refl;
        reads = rw same i;
        gives = rw same o;
        delivered = rw (same, t) (append-nil p.delivered);
      }

  -- The strand runs a task that steps the machine.
  run-Stepped :
      (p : Process sampler) (e : ServerEvent) (a : Ambient) (input : sampler.Input) (task : Task)
      (rest : List Task)
      → p.strand ≡ task ∷ rest
      → ((started : Except (Unit {0}))
          → run_task archive started a p.machine task ≡ step archive started a p.machine e)
      → Inv p.machine
      → IsWireEvent e
      → let outcome = do_step a p.machine e in
        Stepped p
          (advance sampler archive p (runs a input))
          rest
          outcome.state
          (sends outcome.effects)
  unfolding advance run_first
  run-Stepped p e a input task rest s same v w =
      let outcome = do_step a p.machine e in
      let started = (Timer.start sampler p.timer input).result in
      let stepped : Stepped p
          (after_task sampler p rest input (run_task archive started a p.machine task)) rest
          outcome.state (sends outcome.effects) =
        rw (same started) (event-Stepped p e a input rest started v w) in
      subst
        (λ l.
          Stepped p (run_first sampler archive p l a input) rest outcome.state
            (sends outcome.effects))
        (sym s) stepped

  read_is_step :
      (bytes : Buffer) (m : Message) (a : Ambient) (s : ServerState)
      → deserialize archive bytes ≡ returned m
      → (started : Except (Unit {0}))
      → run_task archive started a s (step_bytes bytes)
        ≡ step archive started a s (message_received m)
  unfolding run_task
  read_is_step bytes m a s e started = rw (e, run_task) refl

  -- An answer outlives its connection. Let the archive be lawful and the machine satisfy its invariant, and let
  -- the strand hold a buffer that reads as a message in range, then a disconnection, then a new connection, and
  -- no more. When it has run these three, the transport was given nothing yet, and the strand holds for it,
  -- in this order, the answers to the message of the old connection and the hello of the new one.
  pub answer_crosses :
      (p : Process sampler) (a₁ a₂ a₃ : Ambient) (i₁ i₂ i₃ : sampler.Input) (bytes : Buffer)
      (m : Message)
      → Inv p.machine
      → IsWire m
      → deserialize archive bytes ≡ returned m
      → p.strand ≡ step_bytes bytes ∷ step_disconnected ∷ step_connected ∷ []
      → let answers = sends (do_step a₁ p.machine (message_received m)).effects in
        let q =
          advance sampler archive
            (advance sampler archive (advance sampler archive p (runs a₁ i₁)) (runs a₂ i₂))
            (runs a₃ i₃) in
        (q.delivered ≡ p.delivered)
        × (inputs q.strand ≡ [])
        × (map (deserialize archive) (outputs q.strand)
            ≡ map returned (answers ++ make_hello (generate_random_instance_id a₃) ∷ []))
  unfolding do_step run_task
  answer_crosses p a₁ a₂ a₃ i₁ i₂ i₃ bytes m v w e s =
      let x =
        run-Stepped p (message_received m) a₁ i₁ (step_bytes bytes)
          (step_disconnected ∷ step_connected ∷ []) s (read_is_step bytes m a₁ p.machine e) v w in
      let p₁ = advance sampler archive p (runs a₁ i₁) in
      let v₁ : Inv p₁.machine = rw x.machine (do_step-Inv a₁ p.machine (message_received m) v) in
      let y =
        run-Stepped p₁ transport_disconnected a₂ i₂ step_disconnected (step_connected ∷ x.added)
          x.strand (λ started. refl) v₁ tt in
      let p₂ = advance sampler archive p₁ (runs a₂ i₂) in
      let v₂ : Inv p₂.machine =
        rw y.machine (do_step-Inv a₂ p₁.machine transport_disconnected v₁) in
      let z =
        run-Stepped p₂ transport_connected a₃ i₃ step_connected (x.added ++ y.added) y.strand
          (λ started. refl) v₂ tt in
      let answers = sends (do_step a₁ p.machine (message_received m)).effects in
      let quiet =
        map-append_eq (deserialize archive) returned (outputs x.added) (outputs y.added) answers []
          x.gives y.gives
        ∙ ap (map returned) (append-nil answers) in
      (
        z.delivered ∙ y.delivered ∙ x.delivered,
        rw
            (
              z.strand,
              inputs-append (x.added ++ y.added) z.added,
              inputs-append x.added y.added,
              x.reads,
              y.reads,
            )
            z.reads,
        rw (z.strand, outputs-append (x.added ++ y.added) z.added, outputs-append x.added y.added)
            (map-append_eq (deserialize archive) returned _ (outputs z.added) _
              (make_hello (generate_random_instance_id a₃) ∷ []) quiet z.gives),
      )
