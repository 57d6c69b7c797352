-- ===== src/Logic/Server/Reporting/Traces.antt =====
-- The tasks of the server's process, as steps of its state machine.
use rdp_ext.Common.{
  ◌≡◌, sym, ap, ◌∙◌, inl, inr, List, [], ◌∷◌, ◌++◌, map, All, All-append, map-append_eq,
}
use mathlib.Core.List.{append-nil, append_assoc}
use rdp_ext.Common.Except.{Except, returned, Except-cases}
use rdp_ext.Protocol.Serializer.{Archive, IsLawful, Buffer, deserialize}
use rdp_ext.Telemetry.Sample.{CpuSample}
use rdp_ext.Telemetry.Sampler.{Sampler}
use rdp_ext.Logic.Base.{Ambient}
use rdp_ext.Logic.Server.{
  ServerState, ServerEvent, message_received, transport_connected, transport_disconnected,
  cpu_sample_ready, do_step, initial,
}
use rdp_ext.Logic.Server.Invariant.{run_server, run_server-Inv}
use rdp_ext.Logic.Server.Wire.{IsWireEvent}
use rdp_ext.Logic.Server.Samples.{sent_along}
use rdp_ext.Logic.Server.History.{
  heard, message_of, heard-append, sample_of, sampled, sampled-append, run_server-append,
  sent_along-append,
}
use rdp_ext.Logic.Server.Controller.{
  handle_effects, Task, step_bytes, step_sample, step_connected, step_disconnected, send_bytes,
  close, step, run_task,
}
use rdp_ext.Logic.Server.Controller.Strand.{
  posts, inputs, outputs, waiting, waiting-append, waiting-IsBytes, step-Steps, inputs-append,
  outputs-append,
}
use rdp_ext.Logic.Server.Reporting.{Process, after_task}
use rdp_ext.Logic.Server.Reporting.Readable.{
  readable, IsFit, kept, handle_effects-IsFit, calls_anyway,
}

module _ (sampler : Sampler) (archive : Archive) (lawful : IsLawful archive) where
  -- A process that received some buffers, as a run of the machine along the events of `history`.
  pub record Traced (now : ServerState) (strand : List Task) (delivered got : List Buffer)
      (taken : List CpuSample) : Type 0 where
    pub history : List (Ambient × ServerEvent)
    pub machine : run_server initial history ≡ now
    pub reads : heard history ++ readable archive (inputs strand) ≡ readable archive got
    pub gives :
        map (deserialize archive) (delivered ++ outputs strand)
        ≡ map returned (sent_along initial history)
    pub samples : sampled history ++ waiting strand ≡ taken
    pub fits : All (IsFit archive) strand

  abbrev pub IsTraced : Process sampler → List Buffer → List CpuSample → Type 0
  IsTraced p got taken = Traced p.machine p.strand p.delivered got taken

  event-Traced :
      (p : Process sampler) (got : List Buffer) (taken : List CpuSample) (e : ServerEvent)
      (a : Ambient) (input : sampler.Input) (rest : List Task) (started : Except (Unit {0}))
      (history : List (Ambient × ServerEvent))
      → run_server initial history ≡ p.machine
      → heard history ++ (message_of e ++ readable archive (inputs rest)) ≡ readable archive got
      → map (deserialize archive) (p.delivered ++ outputs rest)
        ≡ map returned (sent_along initial history)
      → sampled history ++ (sample_of e ++ waiting rest) ≡ taken
      → All (IsFit archive) rest
      → IsWireEvent e
      → IsTraced (after_task sampler p rest input (step archive started a p.machine e)) got taken
  unfolding after_task step
  event-Traced p got taken e a input rest started history same r g s f w =
      let same_calls = calls_anyway archive started a p.machine e in
      let (moved, i, o, t, b) =
        step-Steps archive lawful a p.machine e (rw (sym same) (run_server-Inv history)) w in
      record {
        history = history ++ (a, e) ∷ [];
        machine = run_server-append initial history a e ∙ ap (λ m. (do_step a m e).state) same;
        reads =
            rw
              (
                heard-append history a e,
                same_calls,
                inputs-append rest _,
                i,
                append-nil (inputs rest),
              )
              (simp append_assoc r);
        gives =
            rw
              (
                same_calls,
                t,
                append-nil p.delivered,
                outputs-append rest _,
                sent_along-append initial history a e,
                same,
              )
              (ap (map (deserialize archive)) (sym (append_assoc p.delivered (outputs rest) _))
                ∙ map-append_eq (deserialize archive) returned (p.delivered ++ outputs rest) _ _ _ g
                    o);
        samples =
            rw
              (
                sampled-append history a e,
                same_calls,
                waiting-append rest _,
                waiting-IsBytes
                    (posts (handle_effects archive (returned tt) (do_step a p.machine e).effects).0)
                    b,
                append-nil (waiting rest),
              )
              (simp append_assoc s);
        fits = All-append (IsFit archive) rest _ f (handle_effects-IsFit archive started _);
      }

  pub task-Traced :
      (p : Process sampler) (got : List Buffer) (taken : List CpuSample) (task : Task) (a : Ambient)
      (input : sampler.Input) (rest : List Task) (started : Except (Unit {0}))
      → Traced p.machine (task ∷ rest) p.delivered got taken
      → IsTraced
          (after_task sampler p rest input (run_task archive started a p.machine task))
          got
          taken
  unfolding after_task run_task
  task-Traced p got taken step_connected a input rest started t =
      event-Traced p got taken transport_connected a input rest started t.history t.machine t.reads
        t.gives t.samples t.fits.1 tt
  task-Traced p got taken step_disconnected a input rest started t =
      event-Traced p got taken transport_disconnected a input rest started t.history t.machine
        t.reads t.gives t.samples t.fits.1 tt
  task-Traced p got taken (step_sample sample) a input rest started t =
      event-Traced p got taken (cpu_sample_ready sample) a input rest started t.history t.machine
        t.reads t.gives t.samples t.fits.1 t.fits.0
  task-Traced p got taken (step_bytes bytes) a input rest started t =
      elim (Except-cases (deserialize archive bytes)) [
        | inl (m, e) ↦
            let same_reads : heard t.history ++ (m ∷ readable archive (inputs rest))
                ≡ readable archive got =
              rw (ap (kept archive) e) at t.reads in
            rw (e, run_task)
              (event-Traced p got taken (message_received m) a input rest started t.history
                t.machine same_reads t.gives t.samples t.fits.1 (t.fits.0 m e))
        | inr (what, e) ↦
            let same_reads : heard t.history ++ readable archive (inputs rest)
                ≡ readable archive got =
              rw (ap (kept archive) e) at t.reads in
            rw (e, run_task, append-nil rest, append-nil p.delivered)
              (record {
                history = t.history;
                machine = t.machine;
                reads = same_reads;
                gives = t.gives;
                samples = t.samples;
                fits = t.fits.1;
              })
      ]
  task-Traced p got taken (send_bytes bytes) a input rest started t = rw (append-nil rest) (record {
    history = t.history;
    machine = t.machine;
    reads = t.reads;
    gives = rw (append_assoc p.delivered (bytes ∷ []) (outputs rest)) t.gives;
    samples = t.samples;
    fits = t.fits.1;
  })
  task-Traced p got taken close a input rest started t =
      rw (append-nil rest, append-nil p.delivered)
        (record {
          history = t.history;
          machine = t.machine;
          reads = t.reads;
          gives = t.gives;
          samples = t.samples;
          fits = t.fits.1;
        })
