-- ===== src/Logic/Reports.antt =====
-- From the client's request to the server's report: the process of a client (src/logic/client) and that of a server
-- (src/logic/server) behind a channel.
pub mod Sampling
use rdp_ext.Common.{
  ◌≤◌, ◌<◌, ◌≡◌, refl, ap, ◌∙◌, inl, inr, true, false, not, ◌&&◌, if◌then◌else◌, Bool-cases, List,
  [], ◌∷◌, ◌++◌, All, length, arith,
}
use rdp_ext.Protocol.Serializer.{Archive, IsLawful, Buffer}
use rdp_ext.Protocol.Readable.{readable, readable-append, readable-map}
use rdp_ext.Telemetry.Sampler.{Sampler}
use rdp_ext.Logic.Base.{Ambient, PercentText}
use rdp_ext.Logic.Client.{ClientState, ClientEvent, ClientEffect, do_step, initial}
use rdp_ext.Logic.Client.Invariant.{run_client}
use rdp_ext.Logic.Client.Requests.{requests, requests-do_step}
use rdp_ext.Logic.Client.Wire.{sends}
use rdp_ext.Logic.Client.Process
use rdp_ext.Logic.Client.History.{sent_along, heard}
use rdp_ext.Logic.Client.Process.Refinement.{client_refines}
use rdp_ext.Logic.Client.Process.Refinement
use rdp_ext.Logic.Client.Controller.Strand.{inputs, outputs}
use rdp_ext.Logic.Server.History.{start_requests, start_requests-append}
use rdp_ext.Logic.Server.Samples.{loads}
use rdp_ext.Logic.Server.Reporting.{Event, new, run}
use rdp_ext.Logic.Server.Reporting.Refinement.{IsFitEvent, received}
use rdp_ext.Logic.Server.Reporting.Requests.{loads_need_request}

requests-sends : (effects : List ClientEffect) → start_requests (sends effects) ≡ requests effects
requests-sends [] = refl
requests-sends (effect ∷ effects) = ground (arith, requests-sends effects)

-- A step of a client's history in which it asks for telemetry: the flag rises, with the handshake completed.
pub record Asks (percent : PercentText) (s : ClientState) (history : List (Ambient × ClientEvent))
    : Type 0 where
  pub before : List (Ambient × ClientEvent)
  pub after : List (Ambient × ClientEvent)
  pub ambient : Ambient
  pub event : ClientEvent
  pub splits : history ≡ before ++ (ambient, event) ∷ after
  pub unasked : (run_client percent s before).telemetry_requested ≡ false
  pub asked :
      (do_step percent ambient (run_client percent s before) event).state.telemetry_requested ≡ true
  pub agreed :
      (do_step percent ambient
        (run_client percent s before)
        event).state.handshake_state.handshake_completed
      ≡ true

-- A TelemetryStart among the messages of a history was sent in such a step.
requests_Asks :
    (percent : PercentText) (s : ClientState) (history : List (Ambient × ClientEvent))
    → 1 ≤ start_requests (sent_along percent s history)
    → Asks percent s history
unfolding sent_along run_client
requests_Asks percent s [] h = absurd (omega (arith, h))
requests_Asks percent s ((a, e) ∷ rest) h =
    let r = do_step percent a s e in
    let (rises, done) = requests-do_step percent a s e in
    let both = start_requests-append (sends r.effects) (sent_along percent r.state rest) in
    elim (Bool-cases (not s.telemetry_requested && r.state.telemetry_requested)) [
      | inl up ↦ record {
        before = [];
        after = rest;
        ambient = a;
        event = e;
        splits = refl;
        unasked = ground (arith, up);
        asked = ground (arith, up);
        agreed = ground (arith, up, rises, done);
      }
      | inr same ↦
          let later = requests_Asks percent r.state rest (
            omega (
              arith,
              h,
              both,
              requests-sends r.effects,
              rises ∙ ap (λ b. if b then 1 else 0) same,
            )) in
          record {
            before = (a, e) ∷ later.before;
            after = later.after;
            ambient = later.ambient;
            event = later.event;
            splits = ap (λ es. (a, e) ∷ es) later.splits;
            unasked = later.unasked;
            asked = later.asked;
            agreed = later.agreed;
          }
    ]

-- A load leaves the server only because the client asked. Let any tasks, callbacks and calls of the transports
-- make up a client's process and a server's, each from its start, over a lawful archive, where the buffers that
-- arrive at the server and the samples that are read fit their types; and let the buffers that arrived at the
-- server be the first ones of those that the client's transport was given. Once a load was given to the server's
-- transport, the client's machine is where a history of events leads, whose messages had arrived at the client,
-- and in one step of that history its flag rose, so that it asked for telemetry, with the handshake completed.
pub loads_need_client :
    (percent : PercentText) (sampler : Sampler) (archive : Archive)
    → IsLawful archive
    → (ds : List Process.Event) (es : List (Event sampler)) (on_the_way : List Buffer)
    → All (IsFitEvent sampler archive) es
    → (Process.run percent archive Process.new ds).delivered ≡ received sampler es ++ on_the_way
    → 0 < length (loads (readable archive (run sampler archive (new sampler) es).delivered))
    → (history : List (Ambient × ClientEvent)) × (run_client percent initial history
        ≡ (Process.run percent archive Process.new ds).machine)
      × (heard history
            ++ readable archive (inputs (Process.run percent archive Process.new ds).strand)
          ≡ readable archive (Refinement.received ds))
      × Asks percent initial history
loads_need_client percent sampler archive lawful ds es on_the_way f channel h =
    let p = Process.run percent archive Process.new ds in
    let (history, machine, reads, gives) = client_refines percent archive lawful ds in
    let (start, hellos) = loads_need_request sampler archive lawful es f h in
    let all = readable-map archive (p.delivered ++ outputs p.strand) _ gives in
    let asked : 1 ≤ start_requests (sent_along percent initial history) = omega (
      arith,
      start,
      ap start_requests all,
      ap start_requests (readable-append archive p.delivered (outputs p.strand)),
      start_requests-append (readable archive p.delivered) (readable archive (outputs p.strand)),
      ap (λ bs. start_requests (readable archive bs)) channel,
      ap start_requests (readable-append archive (received sampler es) on_the_way),
      start_requests-append (readable archive (received sampler es)) (readable archive on_the_way),
    ) in
    (history, machine, reads, requests_Asks percent initial history asked)
