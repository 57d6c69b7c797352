-- ===== src/Logic/Server/Reporting/Refinement.antt =====
-- The server's process as a run of its state machine: what it reads, and what it gives to the transport.
use rdp_ext.Common.{
  ℕ, zero, suc, ◌<◌, ◌^◌, ◌≡◌, refl, sym, ap, ◌∙◌, inl, inr, List, [], ◌∷◌, ◌++◌, map, All,
  All-append, arith,
}
use mathlib.Core.List.{append-nil, append_assoc}
use rdp_ext.Common.Except.{returned, Except-cases}
use rdp_ext.Protocol.Message.{Message, IsWire}
use rdp_ext.Protocol.Serializer.{Archive, IsLawful, Buffer, deserialize}
use rdp_ext.Telemetry.Sample.{CpuSample}
use rdp_ext.Telemetry.Sampler.{Sampler}
use rdp_ext.Telemetry.Timer.{TimerControl, handle_sample, schedule_post_sample}
use rdp_ext.Telemetry.Timer
use rdp_ext.Logic.Base.{Ambient}
use rdp_ext.Logic.Server.{ServerEvent, initial}
use rdp_ext.Logic.Server.Invariant.{run_server}
use rdp_ext.Logic.Server.Samples.{sent_along}
use rdp_ext.Logic.Server.History.{heard, sampled}
use rdp_ext.Logic.Server.Controller.{Task, on_sample, on_connected, on_disconnected, on_bytes}
use rdp_ext.Logic.Server.Controller.Strand.{
  waiting, waiting-append, inputs, outputs, inputs-append, outputs-append,
}
use rdp_ext.Logic.Server.Reporting.{
  Process, advance, run, new, run_first, fire, sample_posts, Event, runs, connects, disconnects,
  receives, fires,
}
use rdp_ext.Logic.Server.Reporting.Readable.{readable, readable-append, IsFit}
use rdp_ext.Logic.Server.Reporting.Traces.{Traced, IsTraced, task-Traced}

-- The samples that the timer's calls give to the handler.
abbrev handed : List Timer.Call → List CpuSample
handed [] = []
handed (handle_sample sample ∷ cs) = sample ∷ handed cs
handed (schedule_post_sample delay ∷ cs) = handed cs

module _ (sampler : Sampler) where
  abbrev brought : Event sampler → List Buffer
  brought (receives bytes) = bytes ∷ []
  brought _ = []

  -- The buffers that the transport hands over along some events.
  abbrev pub received : List (Event sampler) → List Buffer
  received [] = []
  received (e ∷ es) = brought e ++ received es

  -- What an event of the process brings fits its types.
  abbrev pub IsFitEvent : Archive → Event sampler → Type 0
  IsFitEvent archive (receives bytes) =
      (m : Message) → deserialize archive bytes ≡ returned m → IsWire m
  IsFitEvent archive (fires input) =
      (s : sampler.State) (sample : CpuSample)
      → (sampler.read_sample s input).1 ≡ returned sample
      → sample.cpu_load < 2 ^ 32
  IsFitEvent archive _ = Unit

  -- The samples that the timer hands over at an event.
  abbrev fired_samples : Process sampler → ℕ → sampler.Input → List CpuSample
  fired_samples p zero input = []
  fired_samples p (suc left) input = handed (Timer.post_sample sampler p.timer input).calls

  abbrev taken_by : Process sampler → Event sampler → List CpuSample
  taken_by p (fires input) = fired_samples p p.callbacks input
  taken_by p _ = []

  -- The samples that the timer hands over along some events.
  unfoldable pub taken : Archive → Process sampler → List (Event sampler) → List CpuSample
  taken archive p [] = []
  taken archive p (e ∷ es) = taken_by p e ++ taken archive (advance sampler archive p e) es

module _ (sampler : Sampler) (archive : Archive) (lawful : IsLawful archive) where
  -- A task that brings no buffer is posted.
  post-Traced :
      (p : Process sampler) (got more : List Buffer) (taken new_samples : List CpuSample)
      (tasks : List Task)
      → inputs tasks ≡ more
      → outputs tasks ≡ []
      → waiting tasks ≡ new_samples
      → All (IsFit archive) tasks
      → IsTraced sampler archive lawful p got taken
      → Traced sampler archive lawful p.machine
          (p.strand ++ tasks)
          p.delivered
          (got ++ more)
          (taken ++ new_samples)
  post-Traced p got more taken new_samples tasks i o s f t = record {
    history = t.history;
    machine = t.machine;
    reads =
        rw
          (
            inputs-append p.strand tasks,
            i,
            readable-append archive (inputs p.strand) more,
            readable-append archive got more,
          )
          (sym (append_assoc (heard t.history) _ _)
            ∙ ap (λ ms. ms ++ readable archive more) t.reads);
    gives = rw (outputs-append p.strand tasks, o, append-nil (outputs p.strand)) t.gives;
    samples =
        rw (waiting-append p.strand tasks, s)
          (sym (append_assoc (sampled t.history) _ _) ∙ ap (λ ss. ss ++ new_samples) t.samples);
    fits = All-append (IsFit archive) p.strand tasks t.fits f;
  }

  -- A callback posts samples that fit.
  fired-IsFit :
      (t : TimerControl sampler) (input : sampler.Input)
      → IsFitEvent sampler archive (fires input)
      → let tasks = sample_posts (Timer.post_sample sampler t input).calls in
        (inputs tasks ≡ [])
        × (outputs tasks ≡ [])
        × (waiting tasks ≡ handed (Timer.post_sample sampler t input).calls)
        × All (IsFit archive) tasks
  unfolding Timer.post_sample on_sample
  fired-IsFit t input f = elim (Except-cases (sampler.read_sample t.sampler_state input).1) [
    | inl (sample, e) ↦ ground (arith, f t.sampler_state sample e)
    | inr (what, e) ↦ ground arith
  ]

  first-Traced :
      (p : Process sampler) (got : List Buffer) (ss : List CpuSample) (strand : List Task)
      (a : Ambient) (input : sampler.Input)
      → p.strand ≡ strand
      → IsTraced sampler archive lawful p got ss
      → IsTraced sampler archive lawful (run_first sampler archive p strand a input) got ss
  unfolding run_first
  first-Traced p got ss [] a input e t = t
  first-Traced p got ss (task ∷ rest) a input e t =
      task-Traced sampler archive lawful p got ss task a input rest _ (rw e at t)

  fire-Traced :
      (p : Process sampler) (got : List Buffer) (ss : List CpuSample) (callbacks : ℕ)
      (input : sampler.Input)
      → IsFitEvent sampler archive (fires input)
      → IsTraced sampler archive lawful p got ss
      → IsTraced sampler archive lawful
          (fire sampler archive p callbacks input)
          (got ++ [])
          (ss ++ fired_samples sampler p callbacks input)
  unfolding fire
  fire-Traced p got ss zero input f t = rw (append-nil got, append-nil ss) t
  fire-Traced p got ss (suc left) input f t =
      let (i, o, s, g) = fired-IsFit p.timer input f in post-Traced p got [] ss _ _ i o s g t

  advance-Traced :
      (p : Process sampler) (got : List Buffer) (ss : List CpuSample) (e : Event sampler)
      → IsFitEvent sampler archive e
      → IsTraced sampler archive lawful p got ss
      → IsTraced sampler archive lawful
          (advance sampler archive p e)
          (got ++ brought sampler e)
          (ss ++ taken_by sampler p e)
  unfolding advance on_connected on_disconnected on_bytes
  advance-Traced p got ss (runs a input) f t =
      rw (append-nil got, append-nil ss) (first-Traced p got ss p.strand a input refl t)
  advance-Traced p got ss connects f t = post-Traced p got [] ss [] _ refl refl refl (tt, tt) t
  advance-Traced p got ss disconnects f t = post-Traced p got [] ss [] _ refl refl refl (tt, tt) t
  advance-Traced p got ss (receives bytes) f t =
      post-Traced p got (bytes ∷ []) ss [] _ refl refl refl (f, tt) t
  advance-Traced p got ss (fires input) f t = fire-Traced p got ss p.callbacks input f t

  run-Traced :
      (p : Process sampler) (got : List Buffer) (ss : List CpuSample) (es : List (Event sampler))
      → All (IsFitEvent sampler archive) es
      → IsTraced sampler archive lawful p got ss
      → IsTraced sampler archive lawful
          (run sampler archive p es)
          (got ++ received sampler es)
          (ss ++ taken sampler archive p es)
  unfolding run taken
  run-Traced p got ss [] f t = rw (append-nil got, append-nil ss) t
  run-Traced p got ss (e ∷ es) f t =
      rw
        (
          sym (append_assoc got (brought sampler e) (received sampler es)),
          sym (
              append_assoc ss (taken_by sampler p e)
                (taken sampler archive (advance sampler archive p e) es)),
        )
        (run-Traced (advance sampler archive p e) (got ++ brought sampler e)
          (ss ++ taken_by sampler p e) es f.1 (advance-Traced p got ss e f.0 t))

  -- The server's process refines its state machine. Over a lawful archive, where the buffers that arrive and
  -- the samples that are read fit their types, let tasks, transport and callbacks run in any order from the
  -- start, also where the sampler throws. The machine is where some list of events leads: the messages of
  -- these events, and then those that wait on the strand, are the readable ones of all buffers that arrived,
  -- in order, and what the transport was given, and then what waits on the strand for it, reads as the
  -- messages that the machine sends along the events, in order. The samples of these events, and then those
  -- that wait on the strand, are the ones that the timer hands over, in order.
  pub process_refines :
      (es : List (Event sampler))
      → All (IsFitEvent sampler archive) es
      → let p = run sampler archive (new sampler) es in
        (history : List (Ambient × ServerEvent)) × (run_server initial history ≡ p.machine)
        × (heard history ++ readable archive (inputs p.strand)
            ≡ readable archive (received sampler es))
        × (map (deserialize archive) (p.delivered ++ outputs p.strand)
            ≡ map returned (sent_along initial history))
        × (sampled history ++ waiting p.strand ≡ taken sampler archive (new sampler) es)
  unfolding run_server sent_along
  process_refines es f =
      let t : IsTraced sampler archive lawful (run sampler archive (new sampler) es)
          (received sampler es) (taken sampler archive (new sampler) es) =
        run-Traced (new sampler) [] [] es f (record {
          history = [];
          machine = refl;
          reads = refl;
          gives = refl;
          samples = refl;
          fits = tt;
        }) in
      (t.history, t.machine, t.reads, t.gives, t.samples)
