-- ===== src/Logic/Server/Sampled.antt =====
-- The loads that a server's machine reports (src/logic/server/state_machine.cpp), among the samples that it handles.
use rdp_ext.Common.{ap, inl, inr, List, [], ◌∷◌, map}
use mathlib.Core.List.{Sublist, map-append, sublist-append_left}
use mathlib.Core.List.Sublist
use rdp_ext.Protocol.Message.{Float32}
use rdp_ext.Protocol.Loads.{loads, loads-append}
use rdp_ext.Telemetry.Sample.{CpuSample}
use rdp_ext.Logic.Base.{Ambient}
use rdp_ext.Logic.Server.{ServerState, ServerEvent, do_step}
use rdp_ext.Logic.Server.Wire.{sends}
use rdp_ext.Logic.Server.Samples.{do_step-loads, sent_along}
use rdp_ext.Logic.Server.History.{sample_of, sampled}

abbrev pub loads_of : List CpuSample → List Float32
loads_of samples = map (λ (s : CpuSample). s.cpu_load) samples

step-reports :
    (a : Ambient) (s : ServerState) (e : ServerEvent)
    → Sublist (loads (sends (do_step a s e).effects)) (loads_of (sample_of e))
step-reports a s e = elim (do_step-loads a s e) [
  | inl quiet ↦ rw (quiet) (sublist-append_left [] (loads_of (sample_of e)))
  | inr (sample, same, enabled, completed, one) ↦
      rw (one, ap (λ x. loads_of (sample_of x)) same) (Sublist.refl (sample.cpu_load ∷ []))
]

-- The loads in the messages that a machine sends are among those of the samples that it handles, in their order.
pub sent-reports :
    (s : ServerState) (es : List (Ambient × ServerEvent))
    → Sublist (loads (sent_along s es)) (loads_of (sampled es))
unfolding sent_along
sent-reports s [] = Sublist.refl []
sent-reports s ((a, e) ∷ es) =
    rw
      (
        loads-append (sends (do_step a s e).effects) _,
        map-append (λ (x : CpuSample). x.cpu_load) (sample_of e) (sampled es),
      )
      (Sublist.append (step-reports a s e) (sent-reports (do_step a s e).state es))
