-- ===== src/Logic/Server/Controller/Sending.antt =====
-- What a controller posts for the effects of its machine.
use rdp_ext.Common.{◌≡◌, refl, List, [], ◌∷◌, map, All, arith}
use rdp_ext.Common.Except.{Except, returned}
use rdp_ext.Protocol.Message.{IsWire}
use rdp_ext.Protocol.Serializer.{Archive, IsLawful, Buffer, deserialize}
use rdp_ext.Protocol.RoundTrip.{serialize-deserialize}
use rdp_ext.Logic.Server.{
  ServerEffect, send_message, start_telemetry_timer, stop_telemetry_timer, close_transport,
}
use rdp_ext.Logic.Server.Wire.{sends}
use rdp_ext.Logic.Server.Controller.{Call, send_bytes, post, handle_effects}

-- The buffers that posted tasks will send, in order.
abbrev pub posted : List Call → List Buffer
posted [] = []
posted (post (send_bytes bytes) ∷ cs) = bytes ∷ posted cs
posted (_ ∷ cs) = posted cs

module _ (archive : Archive) where
  -- The calls of a loop without an exception: each buffer reads back as its message.
  abbrev pub Posts : List ServerEffect → List Call × Except (Unit {0}) → Type 0
  Posts effects r =
      (r.1 ≡ returned tt) × (map (deserialize archive) (posted r.0) ≡ map returned (sends effects))

  pub handle_effects-Posts :
      IsLawful archive
      → (effects : List ServerEffect) → All IsWire (sends effects)
      → Posts effects (handle_effects archive (returned tt) effects)
  unfolding handle_effects
  handle_effects-Posts lawful [] w = (refl, refl)
  handle_effects-Posts lawful (send_message m ∷ es) w =
      let (bytes, out, _, back) = serialize-deserialize archive lawful m [] w.0 in
      ground (arith, handle_effects-Posts lawful es w.1)
  handle_effects-Posts lawful (start_telemetry_timer ∷ es) w =
      ground (arith, handle_effects-Posts lawful es w)
  handle_effects-Posts lawful (stop_telemetry_timer ∷ es) w =
      ground (arith, handle_effects-Posts lawful es w)
  handle_effects-Posts lawful (close_transport ∷ es) w =
      ground (arith, handle_effects-Posts lawful es w)
