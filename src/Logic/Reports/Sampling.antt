-- ===== src/Logic/Reports/Sampling.antt =====
-- From the samples that the server's timer takes (src/core/telemetry/timer_control.h) to the loads that the client
-- logs (src/logic/client/state_machine.cpp).
use rdp_ext.Common.{◌≡◌, sym, List, ◌++◌, map, map-left, All}
use mathlib.Core.Path.{subst}
use mathlib.Core.List.{Sublist, map-append, sublist-append_left}
use mathlib.Core.List.Sublist
use rdp_ext.Protocol.Message.{Float32}
use rdp_ext.Protocol.Loads.{loads, loads-append}
use rdp_ext.Protocol.Serializer.{Archive, IsLawful, Buffer}
use rdp_ext.Protocol.Readable.{readable, readable-append, readable-map}
use rdp_ext.Telemetry.Sample.{CpuSample}
use rdp_ext.Telemetry.Sampler.{Sampler}
use rdp_ext.Logic.Base.{PercentText}
use rdp_ext.Logic.Client.Lines.{lines_with, load_start, load_line}
use rdp_ext.Logic.Client.Process
use rdp_ext.Logic.Client.Process.Refinement
use rdp_ext.Logic.Client.Process.Logs.{loads_logged}
use rdp_ext.Logic.Server.{initial}
use rdp_ext.Logic.Server.Sampled.{loads_of, sent-reports}
use rdp_ext.Logic.Server.History.{sampled}
use rdp_ext.Logic.Server.Controller.Strand.{outputs, waiting}
use rdp_ext.Logic.Server.Reporting.{Event, new, run}
use rdp_ext.Logic.Server.Reporting.Refinement.{IsFitEvent, taken, process_refines}

-- The first buffers of some report the first loads of all.
loads-left :
    (archive : Archive) (xs ys : List Buffer)
    → Sublist (loads (readable archive xs)) (loads (readable archive (xs ++ ys)))
loads-left archive xs ys =
    rw (readable-append archive xs ys, loads-append (readable archive xs) (readable archive ys))
      (sublist-append_left (loads (readable archive xs)) (loads (readable archive ys)))

-- The loads that a server gave to its transport are among the samples that its timer took.
delivered-Sublist :
    (sampler : Sampler) (archive : Archive)
    → IsLawful archive
    → (es : List (Event sampler)) → All (IsFitEvent sampler archive) es
    → Sublist
        (loads (readable archive (run sampler archive (new sampler) es).delivered))
        (loads_of (taken sampler archive (new sampler) es))
delivered-Sublist sampler archive lawful es f =
    let p = run sampler archive (new sampler) es in
    let (history, machine, reads, gives, samples) = process_refines sampler archive lawful es f in
    let all = readable-map archive (p.delivered ++ outputs p.strand) _ gives in
    let handled : Sublist (loads_of (sampled history))
        (loads_of (taken sampler archive (new sampler) es)) =
      subst (λ ss. Sublist (loads_of (sampled history)) (loads_of ss)) samples
        (rw (map-append (λ (s : CpuSample). s.cpu_load) (sampled history) (waiting p.strand))
          (sublist-append_left (loads_of (sampled history)) (loads_of (waiting p.strand)))) in
    Sublist.trans
      (subst (λ ms. Sublist (loads (readable archive p.delivered)) (loads ms)) all
        (loads-left archive p.delivered (outputs p.strand)))
      (Sublist.trans (sent-reports initial history) handled)

-- What a client logs as the server's load was sampled. Let any tasks, callbacks and calls of the transports make up a
-- client's process and a server's, each from its start, over a lawful archive, where the buffers that arrive at the
-- server and the samples that are read fit their types; and let the buffers that arrived at the client be the first
-- ones of those that the server's transport was given. Then the lines of the client's log that begin as a report of a
-- load are those of some loads, which the server's timer handed over as samples in the same order, each of them at
-- most once.
pub logged_loads_sampled :
    (percent : PercentText) (sampler : Sampler) (archive : Archive)
    → IsLawful archive
    → (ds : List Process.Event) (es : List (Event sampler)) (on_the_way : List Buffer)
    → All (IsFitEvent sampler archive) es
    → (run sampler archive (new sampler) es).delivered ≡ Refinement.received ds ++ on_the_way
    → (seen : List Float32) × (lines_with load_start
          (Process.run percent archive Process.new ds).logs
        ≡ map (load_line percent) seen)
      × Sublist seen (loads_of (taken sampler archive (new sampler) es))
logged_loads_sampled percent sampler archive lawful ds es on_the_way f channel =
    let (seen, later, splits, lines) =
      map-left (load_line percent) _ _ _ (loads_logged percent archive lawful ds) in
    let arrived : Sublist seen (loads (readable archive (Refinement.received ds))) =
      subst (λ ls. Sublist seen ls) (sym splits) (sublist-append_left seen later) in
    let gave =
      subst
        (λ bs.
          Sublist (loads (readable archive (Refinement.received ds))) (loads (readable archive bs)))
        (sym channel) (loads-left archive (Refinement.received ds) on_the_way) in
    (
      seen,
      lines,
      Sublist.trans arrived (Sublist.trans gave (delivered-Sublist sampler archive lawful es f)),
    )
