-- ===== src/Logic/Client/Controller/Strand.antt =====
-- The tasks that a controller's calls leave on its strand (src/logic/client/controller.h), and the buffers in them.
use rdp_ext.Common.{◌≡◌, refl, ap, ◌∙◌, map, List, [], ◌∷◌, ◌++◌, All, arith}
use rdp_ext.Common.Except.{returned}
use rdp_ext.Protocol.Message.{Message}
use rdp_ext.Protocol.Serializer.{Archive, IsLawful, Buffer, deserialize}
use rdp_ext.Logic.Base.{Ambient, PercentText}
use rdp_ext.Logic.Client.{
  ClientState, ClientEvent, ClientEffect, ClientOutcome, message_received, close_transport, do_step,
}
use rdp_ext.Logic.Client.Invariant.{Inv}
use rdp_ext.Logic.Client.Wire.{sends, client_sends-IsWire}
use rdp_ext.Logic.Client.Controller.{
  Call, Task, step_bytes, send_bytes, post, transport_send, handle_effects, step, run_task,
  TaskOutcome,
}
use rdp_ext.Logic.Client.Controller.Sending.{posted, handle_effects-Posts}

-- The tasks that are posted, and the buffers that the transport is given.
abbrev pub posts : List Call → List Task
posts [] = []
posts (post task ∷ cs) = task ∷ posts cs
posts (_ ∷ cs) = posts cs

abbrev pub sent : List Call → List Buffer
sent [] = []
sent (transport_send bytes ∷ cs) = bytes ∷ sent cs
sent (_ ∷ cs) = sent cs

-- The buffers that wait on the strand for a step, or for the transport.
abbrev pub inputs : List Task → List Buffer
inputs [] = []
inputs (step_bytes bytes ∷ ts) = bytes ∷ inputs ts
inputs (_ ∷ ts) = inputs ts

abbrev pub outputs : List Task → List Buffer
outputs [] = []
outputs (send_bytes bytes ∷ ts) = bytes ∷ outputs ts
outputs (_ ∷ ts) = outputs ts

abbrev pub IsBytes : Task → Type 0
IsBytes (step_bytes bytes) = Unit
IsBytes (send_bytes bytes) = Unit
IsBytes _ = ⊥

pub inputs-append : (xs ys : List Task) → inputs (xs ++ ys) ≡ inputs xs ++ inputs ys
inputs-append [] ys = refl
inputs-append (x ∷ xs) ys = ground (arith, inputs-append xs ys)

pub outputs-append : (xs ys : List Task) → outputs (xs ++ ys) ≡ outputs xs ++ outputs ys
outputs-append [] ys = refl
outputs-append (x ∷ xs) ys = ground (arith, outputs-append xs ys)

abbrev IsStaying : ClientEffect → Type 0
IsStaying close_transport = ⊥
IsStaying _ = Unit

do_step-IsStaying :
    (percent : PercentText) (a : Ambient) (s : ClientState) (e : ClientEvent)
    → All IsStaying (do_step percent a s e).effects
unfolding do_step
do_step-IsStaying percent a s e = ground arith

-- Of some calls only buffers to be sent get to the strand, and the transport is called later.
abbrev pub Queued : List Call → Type 0
Queued cs =
    (inputs (posts cs) ≡ [])
    × (outputs (posts cs) ≡ posted cs)
    × (sent cs ≡ [])
    × All IsBytes (posts cs)

module _ (percent : PercentText) (archive : Archive) where
  handle_effects-Queued :
      (effects : List ClientEffect)
      → All IsStaying effects
      → Queued (handle_effects percent archive effects).0
  unfolding handle_effects
  handle_effects-Queued [] h = ground arith
  handle_effects-Queued (effect ∷ effects) h = ground (arith, handle_effects-Queued effects h.1)

  -- The machine moves as the outcome says, and its messages are posted for sending, in order.
  abbrev pub Steps : TaskOutcome → ClientOutcome → Type 0
  Steps r outcome =
      (r.state ≡ outcome.state)
      × (inputs (posts r.calls) ≡ [])
      × (map (deserialize archive) (outputs (posts r.calls)) ≡ map returned (sends outcome.effects))
      × (sent r.calls ≡ [])
      × All IsBytes (posts r.calls)

  pub step-Steps :
      IsLawful archive
      → (a : Ambient) (s : ClientState) (e : ClientEvent) → Inv s
      → Steps (step percent archive a s e) (do_step percent a s e)
  unfolding step
  step-Steps lawful a s e v =
      let (i, o, t, b) = handle_effects-Queued _ (do_step-IsStaying percent a s e) in
      let (ok, same) =
        handle_effects-Posts percent archive lawful (do_step percent a s e).effects
          (client_sends-IsWire percent a s e v) in
      (refl, i, ap (map (deserialize archive)) o ∙ same, t, b)

  pub step_bytes-Steps :
      IsLawful archive
      → (a : Ambient) (s : ClientState) (bytes : Buffer) (m : Message) → Inv s
      → deserialize archive bytes ≡ returned m
      → Steps
          (run_task percent archive a s (step_bytes bytes))
          (do_step percent a s (message_received m))
  unfolding run_task
  step_bytes-Steps lawful a s bytes m v e =
      rw (e, run_task) (step-Steps lawful a s (message_received m) v)

  -- No step throws.
  pub step-returns :
      IsLawful archive
      → (a : Ambient) (s : ClientState) (e : ClientEvent) → Inv s
      → (step percent archive a s e).result ≡ returned tt
  unfolding step
  step-returns lawful a s e v =
      (handle_effects-Posts percent archive lawful (do_step percent a s e).effects
        (client_sends-IsWire percent a s e v)).0
