-- ===== src/Logic/Client/Invariant.antt =====
-- What holds of a client's state between two events.
use rdp_ext.Common.{◌≡◌, ◌≢◌, ◌⊎◌, true, false, List, [], ◌∷◌, none, arith}
use rdp_ext.Protocol.Message.{IsWireId}
use rdp_ext.Logic.Base.{
  Ambient, PercentText, disconnected, awaiting_handshake, generate_random_value-lt,
}
use rdp_ext.Logic.Client.{ClientState, ClientEvent, do_step, initial, generate_random_instance_id}

pub record Inv (s : ClientState) : Type 0 where
  pub waiting : (s.connection_state ≡ disconnected) ⊎ (s.connection_state ≡ awaiting_handshake)
  pub answered :
      (s.handshake_state.handshake_completed ≡ false)
      ⊎ (s.handshake_state.local_hello_needed ≡ false)
  pub known :
      (s.handshake_state.handshake_completed ≡ false)
      ⊎ (s.handshake_state.remote_instance_id ≢ none)
  pub requested :
      (s.telemetry_requested ≡ false)
      ⊎ (s.handshake_state.handshake_completed ≡ true)
      ⊎ (s.handshake_state.remote_instance_id ≡ none)
  pub own_id : IsWireId s.instance_id

unfoldable pub run_client : PercentText → ClientState → List (Ambient × ClientEvent) → ClientState
run_client percent s [] = s
run_client percent s ((a, e) ∷ es) = run_client percent (do_step percent a s e).state es

pub initial-Inv : Inv initial
initial-Inv = ground arith

pub generated : (a : Ambient) → IsWireId (generate_random_instance_id a)
unfolding generate_random_instance_id
generated a = omega (arith, generate_random_value-lt a)

-- Every event keeps the invariant.
pub do_step-Inv :
    (percent : PercentText) (a : Ambient) (s : ClientState) (e : ClientEvent)
    → Inv s
    → Inv (do_step percent a s e).state
unfolding do_step
do_step-Inv percent a s e v = ground (arith, generated a)

run_from-Inv :
    (percent : PercentText) (s : ClientState) (es : List (Ambient × ClientEvent))
    → Inv s
    → Inv (run_client percent s es)
unfolding run_client
run_from-Inv percent s [] v = v
run_from-Inv percent s ((a, e) ∷ es) v =
    run_from-Inv percent (do_step percent a s e).state es (do_step-Inv percent a s e v)

-- A new client after any events: the connection state is Disconnected or AwaitingHandshake; a completed
-- handshake owes no local hello and knows its remote; a request for telemetry stands only while the
-- handshake is completed or after a reset; the own identifier fits its types.
pub run_client-Inv :
    (percent : PercentText) (es : List (Ambient × ClientEvent))
    → Inv (run_client percent initial es)
run_client-Inv percent es = run_from-Inv percent initial es initial-Inv
