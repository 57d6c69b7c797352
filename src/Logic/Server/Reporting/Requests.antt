-- ===== src/Logic/Server/Reporting/Requests.antt =====
-- What has to arrive at the server's process (src/runtime/wts_runtime.h) before it reports a load.
use rdp_ext.Common.{◌≤◌, ◌<◌, sym, ap, ◌∙◌, List, ◌++◌, All, length, arith}
use rdp_ext.Protocol.Serializer.{Archive, IsLawful}
use rdp_ext.Telemetry.Sampler.{Sampler}
use rdp_ext.Logic.Server.{initial}
use rdp_ext.Logic.Server.Samples.{loads, length-loads-append, samples_need_request, sent_along}
use rdp_ext.Logic.Server.History.{
  heard, start_requests, greetings, start_requests-heard, greetings-heard, start_requests-append,
  greetings-append,
}
use rdp_ext.Logic.Server.Controller.Strand.{inputs, outputs}
use rdp_ext.Logic.Server.Reporting.{run, new, Event}
use rdp_ext.Logic.Server.Reporting.Refinement.{IsFitEvent, received, process_refines}
use rdp_ext.Logic.Server.Reporting.Readable.{readable, readable-append, readable-map}

module _ (sampler : Sampler) (archive : Archive) (lawful : IsLawful archive) where
  -- A load gets to the transport only after a request. Over a lawful archive, where the buffers that arrive
  -- and the samples that are read fit their types, and in any order of tasks, transport and callbacks from
  -- the start: once a load was given to the transport, a TelemetryStart and two hellos had arrived.
  pub loads_need_request :
      (es : List (Event sampler))
      → All (IsFitEvent sampler archive) es
      → 0 < length (loads (readable archive (run sampler archive (new sampler) es).delivered))
      → (1 ≤ start_requests (readable archive (received sampler es)))
        × (2 ≤ greetings (readable archive (received sampler es)))
  loads_need_request es f h =
      let p = run sampler archive (new sampler) es in
      let (history, machine, reads, gives, samples) = process_refines sampler archive lawful es f in
      let all = readable-map archive (p.delivered ++ outputs p.strand) _ gives in
      let some_load : 0 < length (loads (sent_along initial history)) = omega (
        arith,
        h,
        ap (λ ms. length (loads ms))
            (sym (readable-append archive p.delivered (outputs p.strand)) ∙ all),
        length-loads-append (readable archive p.delivered) (readable archive (outputs p.strand)),
      ) in
      let (starts, hellos) = samples_need_request history some_load in
      (
        omega (
          arith,
          starts,
          start_requests-heard history,
          start_requests-append (heard history) (readable archive (inputs p.strand)),
          ap start_requests reads,
        ),
        omega (
          arith,
          hellos,
          greetings-heard history,
          greetings-append (heard history) (readable archive (inputs p.strand)),
          ap greetings reads,
        ),
      )
