-- ===== src/Logic/Server/Controller/Strand.antt =====
-- The tasks that a controller's calls leave on its strand (src/logic/server/controller.h), and the buffers in them.
use rdp_ext.Common.{◌≡◌, refl, ap, ◌∙◌, map, List, [], ◌∷◌, ◌++◌, All, arith}
use rdp_ext.Common.Except.{returned}
use rdp_ext.Protocol.Message.{Message, IsWire}
use rdp_ext.Protocol.Serializer.{Archive, IsLawful, Buffer, deserialize}
use rdp_ext.Telemetry.Sample.{CpuSample}
use rdp_ext.Logic.Base.{Ambient}
use rdp_ext.Logic.Server.{
  ServerState, ServerEvent, ServerEffect, ServerOutcome, message_received, close_transport, do_step,
}
use rdp_ext.Logic.Server.Invariant.{Inv}
use rdp_ext.Logic.Server.Wire.{sends, server_sends-IsWire, IsWireEvent}
use rdp_ext.Logic.Server.Controller.{
  Call, Task, step_bytes, step_sample, send_bytes, post, transport_send, handle_effects, step,
  run_task, TaskOutcome,
}
use rdp_ext.Logic.Server.Controller.Sending.{posted, handle_effects-Posts}

-- The tasks that are posted, and the buffers that the transport is given.
abbrev pub posts : List Call → List Task
posts [] = []
posts (post task ∷ cs) = task ∷ posts cs
posts (_ ∷ cs) = posts cs

abbrev pub sent : List Call → List Buffer
sent [] = []
sent (transport_send bytes ∷ cs) = bytes ∷ sent cs
sent (_ ∷ cs) = sent cs

-- The buffers that wait on the strand for a step, or for the transport.
abbrev pub inputs : List Task → List Buffer
inputs [] = []
inputs (step_bytes bytes ∷ ts) = bytes ∷ inputs ts
inputs (_ ∷ ts) = inputs ts

abbrev pub outputs : List Task → List Buffer
outputs [] = []
outputs (send_bytes bytes ∷ ts) = bytes ∷ outputs ts
outputs (_ ∷ ts) = outputs ts

abbrev pub IsBytes : Task → Type 0
IsBytes (step_bytes bytes) = Unit
IsBytes (send_bytes bytes) = Unit
IsBytes _ = ⊥

pub inputs-append : (xs ys : List Task) → inputs (xs ++ ys) ≡ inputs xs ++ inputs ys
inputs-append [] ys = refl
inputs-append (x ∷ xs) ys = ground (arith, inputs-append xs ys)

pub outputs-append : (xs ys : List Task) → outputs (xs ++ ys) ≡ outputs xs ++ outputs ys
outputs-append [] ys = refl
outputs-append (x ∷ xs) ys = ground (arith, outputs-append xs ys)

-- The samples that wait on the strand for a step.
abbrev pub waiting : List Task → List CpuSample
waiting [] = []
waiting (step_sample sample ∷ ts) = sample ∷ waiting ts
waiting (_ ∷ ts) = waiting ts

pub waiting-append : (xs ys : List Task) → waiting (xs ++ ys) ≡ waiting xs ++ waiting ys
waiting-append [] ys = refl
waiting-append (x ∷ xs) ys = ground (arith, waiting-append xs ys)

pub waiting-IsBytes : (ts : List Task) → All IsBytes ts → waiting ts ≡ []
waiting-IsBytes [] h = refl
waiting-IsBytes (t ∷ ts) h = ground (arith, waiting-IsBytes ts h.1)

abbrev IsStaying : ServerEffect → Type 0
IsStaying close_transport = ⊥
IsStaying _ = Unit

do_step-IsStaying :
    (a : Ambient) (s : ServerState) (e : ServerEvent) → All IsStaying (do_step a s e).effects
unfolding do_step
do_step-IsStaying a s e = ground arith

-- Of some calls only buffers to be sent get to the strand, and the transport is called later.
abbrev pub Queued : List Call → Type 0
Queued cs =
    (inputs (posts cs) ≡ [])
    × (outputs (posts cs) ≡ posted cs)
    × (sent cs ≡ [])
    × All IsBytes (posts cs)

module _ (archive : Archive) where
  handle_effects-Queued :
      (effects : List ServerEffect)
      → All IsStaying effects
      → Queued (handle_effects archive (returned tt) effects).0
  unfolding handle_effects
  handle_effects-Queued [] h = ground arith
  handle_effects-Queued (effect ∷ effects) h = ground (arith, handle_effects-Queued effects h.1)

  -- The machine moves as the outcome says, and its messages are posted for sending, in order.
  abbrev pub Steps : TaskOutcome → ServerOutcome → Type 0
  Steps r outcome =
      (r.state ≡ outcome.state)
      × (inputs (posts r.calls) ≡ [])
      × (map (deserialize archive) (outputs (posts r.calls)) ≡ map returned (sends outcome.effects))
      × (sent r.calls ≡ [])
      × All IsBytes (posts r.calls)

  pub step-Steps :
      IsLawful archive
      → (a : Ambient) (s : ServerState) (e : ServerEvent) → Inv s
      → IsWireEvent e
      → Steps (step archive (returned tt) a s e) (do_step a s e)
  unfolding step
  step-Steps lawful a s e v w =
      let (i, o, t, b) = handle_effects-Queued _ (do_step-IsStaying a s e) in
      let (ok, same) =
        handle_effects-Posts archive lawful (do_step a s e).effects
          (server_sends-IsWire a s e v w) in
      (refl, i, ap (map (deserialize archive)) o ∙ same, t, b)

  pub step_bytes-Steps :
      IsLawful archive
      → (a : Ambient) (s : ServerState) (bytes : Buffer) (m : Message) → Inv s
      → IsWire m
      → deserialize archive bytes ≡ returned m
      → Steps
          (run_task archive (returned tt) a s (step_bytes bytes))
          (do_step a s (message_received m))
  unfolding run_task
  step_bytes-Steps lawful a s bytes m v w e =
      rw (e, run_task) (step-Steps lawful a s (message_received m) v w)
