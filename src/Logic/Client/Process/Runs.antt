-- ===== src/Logic/Client/Process/Runs.antt =====
-- Runs of the client's process (src/runtime/mstsc_runtime.h), and what one task gives to the transport.
use rdp_ext.Common.{◌≡◌, refl, sym, ap, ◌∙◌, List, [], ◌∷◌, ◌++◌}
use mathlib.Core.List.{append-nil, append_assoc}
use rdp_ext.Protocol.Serializer.{Archive, Buffer}
use rdp_ext.Logic.Base.{Ambient, PercentText}
use rdp_ext.Logic.Client.{ClientState}
use rdp_ext.Logic.Client.Controller.{Task, run_task}
use rdp_ext.Logic.Client.Controller.Strand.{sent}
use rdp_ext.Logic.Client.Process.{Process, Event, runs, after_task, run_first, advance, run}
use rdp_ext.Logic.Client.Process.Refinement.{brought, received}

pub received-append : (es fs : List Event) → received (es ++ fs) ≡ received es ++ received fs
received-append [] fs = refl
received-append (e ∷ es) fs =
    ap (λ bs. brought e ++ bs) (received-append es fs)
    ∙ sym (append_assoc (brought e) (received es) (received fs))

module _ (percent : PercentText) (archive : Archive) where
  pub run-append :
      (p : Process) (es fs : List Event)
      → run percent archive p (es ++ fs) ≡ run percent archive (run percent archive p es) fs
  unfolding run
  run-append p [] fs = refl
  run-append p (e ∷ es) fs = run-append (advance percent archive p e) es fs

  -- What the first task gives to the transport.
  unfoldable pub given : ClientState → List Task → Ambient → List Buffer
  given s [] a = []
  given s (first ∷ rest) a = sent (run_task percent archive a s first).calls

  run_first-given :
      (p : Process) (strand : List Task) (a : Ambient)
      → (run_first percent archive p strand a).delivered ≡ p.delivered ++ given p.machine strand a
  unfolding run_first after_task given
  run_first-given p [] a = sym (append-nil p.delivered)
  run_first-given p (first ∷ rest) a = refl

  pub runs-given :
      (p : Process) (a : Ambient)
      → (advance percent archive p (runs a)).delivered ≡ p.delivered ++ given p.machine p.strand a
  unfolding advance
  runs-given p a = run_first-given p p.strand a
