-- ===== src/Logic/Server/Invariant.antt =====
-- What holds of a server's state between two events.
use rdp_ext.Common.{◌≡◌, ◌≢◌, ◌⊎◌, false, List, [], ◌∷◌, none, arith}
use rdp_ext.Protocol.Message.{IsWireId}
use rdp_ext.Logic.Base.{Ambient, disconnected, awaiting_handshake, generate_random_value-lt}
use rdp_ext.Logic.Server.{ServerState, ServerEvent, do_step, initial, generate_random_instance_id}

pub record Inv (s : ServerState) : Type 0 where
  pub waiting : (s.connection_state ≡ disconnected) ⊎ (s.connection_state ≡ awaiting_handshake)
  pub answered :
      (s.handshake_state.handshake_completed ≡ false)
      ⊎ (s.handshake_state.local_hello_needed ≡ false)
  pub known :
      (s.handshake_state.handshake_completed ≡ false)
      ⊎ (s.handshake_state.remote_instance_id ≢ none)
  pub own_id : IsWireId s.instance_id

unfoldable pub run_server : ServerState → List (Ambient × ServerEvent) → ServerState
run_server s [] = s
run_server s ((a, e) ∷ es) = run_server (do_step a s e).state es

pub initial-Inv : Inv initial
initial-Inv = ground arith

pub generated : (a : Ambient) → IsWireId (generate_random_instance_id a)
unfolding generate_random_instance_id
generated a = omega (arith, generate_random_value-lt a)

-- Every event keeps the invariant.
pub do_step-Inv :
    (a : Ambient) (s : ServerState) (e : ServerEvent) → Inv s → Inv (do_step a s e).state
unfolding do_step
do_step-Inv a s e v = ground (arith, generated a)

run_from-Inv : (s : ServerState) (es : List (Ambient × ServerEvent)) → Inv s → Inv (run_server s es)
unfolding run_server
run_from-Inv s [] v = v
run_from-Inv s ((a, e) ∷ es) v = run_from-Inv (do_step a s e).state es (do_step-Inv a s e v)

-- A new server after any events: the connection state is Disconnected or AwaitingHandshake; a completed
-- handshake owes no local hello and knows its remote; the own identifier fits its types.
pub run_server-Inv : (es : List (Ambient × ServerEvent)) → Inv (run_server initial es)
run_server-Inv es = run_from-Inv initial es initial-Inv
