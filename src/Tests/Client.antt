-- ===== src/Tests/Client.antt =====
-- src/logic/client and the handshake at concrete inputs.
use rdp_ext.Common.{ℕ, ◌≡◌, refl, true, List, [], ◌∷◌, All}
use rdp_ext.Common.Text.{decimal}
use rdp_ext.Protocol.Message.{InstanceId, IsWire, id_eq}
use rdp_ext.Protocol.Factory.{make_hello}
use rdp_ext.Logic.Base.{Ambient, PercentText}
use rdp_ext.Logic.Handshake.{reset}
use rdp_ext.Logic.Handshake
use rdp_ext.Logic.Handshake.Completion.{
  Call, received, sent, calls, remotes, last, last_two_agree, calls-reset,
}
use rdp_ext.Logic.Client.{
  ClientState, ClientEvent, transport_connected, message_received, initial, do_step,
}
use rdp_ext.Logic.Client.Invariant.{Inv, run_client, run_client-Inv}
use rdp_ext.Logic.Client.Wire.{sends, client_sends-IsWire}

abbrev percent : PercentText
percent = decimal

abbrev ambient : Ambient
ambient = record { now = 1000; draw = 77 }

abbrev remote : InstanceId
remote = record { timestamp = 0x1234567890123456; id = 0x87654321 }

abbrev hello_bytes : List ℕ
hello_bytes = 1 ∷ 0x0103 ∷ 0x1234567890123456 ∷ 0x87654321 ∷ []

abbrev handshake_calls : List Call
handshake_calls = sent ∷ received remote ∷ sent ∷ received remote ∷ sent ∷ []

calls-reset_example :
    ((calls (reset Handshake.initial) handshake_calls).handshake_completed
      ≡ last_two_agree (remotes handshake_calls))
    × ((calls (reset Handshake.initial) handshake_calls).remote_instance_id
        ≡ last (remotes handshake_calls))
calls-reset_example = calls-reset Handshake.initial handshake_calls

handshake_calls_complete : last_two_agree (remotes handshake_calls) ≡ true
unfolding id_eq
handshake_calls_complete = refl

abbrev greeting : ClientEvent
greeting = message_received (make_hello remote)

abbrev events : List (Ambient × ClientEvent)
events = (ambient, transport_connected) ∷ (ambient, greeting) ∷ (ambient, greeting) ∷ []

greeted : ClientState
greeted = run_client percent initial events

run_client-Inv_example : Inv (run_client percent initial events)
run_client-Inv_example = run_client-Inv percent events

greeted_completes : greeted.handshake_state.handshake_completed ≡ true
unfolding greeted run_client do_step make_hello id_eq
greeted_completes = refl

client_sends-IsWire_example : All IsWire (sends (do_step percent ambient greeted greeting).effects)
unfolding greeted
client_sends-IsWire_example =
    client_sends-IsWire percent ambient greeted greeting (run_client-Inv percent events)
