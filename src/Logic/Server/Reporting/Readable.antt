-- ===== src/Logic/Server/Reporting/Readable.antt =====
-- The buffers that wait in the server's process (src/runtime/wts_runtime.h), and the messages that they read as.
use rdp_ext.Common.{◌<◌, ◌^◌, ◌≡◌, List, [], ◌∷◌, All, arith}
use rdp_ext.Common.Except.{Except, returned}
use rdp_ext.Protocol.Message.{Message, IsWire}
use rdp_ext.Protocol.Serializer.{Archive, deserialize}
pub use rdp_ext.Protocol.Readable.{kept, readable, readable-append, readable-map}
use rdp_ext.Logic.Base.{Ambient}
use rdp_ext.Logic.Server.{ServerState, ServerEvent, ServerEffect, do_step}
use rdp_ext.Logic.Server.Controller.{Task, step_bytes, step_sample, handle_effects}
use rdp_ext.Logic.Server.Controller.Strand.{posts}

module _ (archive : Archive) where
  -- What waits on the strand fits its types.
  abbrev pub IsFit : Task → Type 0
  IsFit (step_bytes bytes) = (m : Message) → deserialize archive bytes ≡ returned m → IsWire m
  IsFit (step_sample sample) = sample.cpu_load < 2 ^ 32
  IsFit _ = Unit

  pub handle_effects-IsFit :
      (started : Except (Unit {0})) (effects : List ServerEffect)
      → All IsFit (posts (handle_effects archive started effects).0)
  unfolding handle_effects
  handle_effects-IsFit started [] = tt
  handle_effects-IsFit started (effect ∷ effects) =
      ground (arith, handle_effects-IsFit started effects)

  -- An exception of the telemetry's start comes behind every call of its step.
  pub calls_anyway :
      (started : Except (Unit {0})) (a : Ambient) (s : ServerState) (e : ServerEvent)
      → (handle_effects archive started (do_step a s e).effects).0
        ≡ (handle_effects archive (returned tt) (do_step a s e).effects).0
  unfolding do_step handle_effects
  calls_anyway started a s e = ground arith
