-- ===== src/Logic/Client/Requests.antt =====
-- How often a client asks for telemetry.
use rdp_ext.Common.{
  ℕ, suc, ◌≡◌, ◌⊎◌, Bool, true, false, not, ◌&&◌, List, [], ◌∷◌, if◌then◌else◌, arith,
}
use rdp_ext.Protocol.Message.{Message, telemetry_start}
use rdp_ext.Protocol.Factory.{
  make_hello, make_telemetry_start, make_ping, make_wrong_protocol_version_error,
  make_unsupported_message_type_error,
}
use rdp_ext.Logic.Base.{Ambient, PercentText}
use rdp_ext.Logic.Client.{ClientState, ClientEvent, ClientEffect, send_message, do_step}

abbrev is_telemetry_start : Message → Bool
is_telemetry_start telemetry_start = true
is_telemetry_start _ = false

-- The TelemetryStart messages among some effects.
abbrev pub requests : List ClientEffect → ℕ
requests [] = 0
requests (send_message m ∷ es) = if is_telemetry_start m then suc (requests es) else requests es
requests (_ ∷ es) = requests es

-- A client asks for telemetry in the very step in which its flag rises, once, and in no other; where it
-- asks, the handshake is completed.
pub requests-do_step :
    (percent : PercentText) (a : Ambient) (s : ClientState) (e : ClientEvent)
    → let r = do_step percent a s e in
      (requests r.effects
        ≡ (if not s.telemetry_requested && r.state.telemetry_requested then 1 else 0))
      × ((requests r.effects ≡ 0) ⊎ (r.state.handshake_state.handshake_completed ≡ true))
unfolding do_step make_hello make_telemetry_start make_ping make_wrong_protocol_version_error
    make_unsupported_message_type_error
requests-do_step percent a s e = ground arith
