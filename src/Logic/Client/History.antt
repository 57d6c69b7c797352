-- ===== src/Logic/Client/History.antt =====
-- A client's machine along a growing list of events (src/logic/client/state_machine.cpp).
use rdp_ext.Common.{◌≡◌, refl, ap, List, [], ◌∷◌, ◌++◌}
use mathlib.Core.List.{append-nil, append_assoc}
use rdp_ext.Protocol.Message.{Message}
use rdp_ext.Logic.Base.{Ambient, PercentText}
use rdp_ext.Logic.Client.{ClientState, ClientEvent, message_received, do_step}
use rdp_ext.Logic.Client.Invariant.{run_client}
use rdp_ext.Logic.Client.Wire.{sends}

-- The message that an event brings.
abbrev pub message_of : ClientEvent → List Message
message_of (message_received m) = m ∷ []
message_of _ = []

abbrev pub heard : List (Ambient × ClientEvent) → List Message
heard [] = []
heard ((a, e) ∷ es) = message_of e ++ heard es

pub heard-append :
    (es : List (Ambient × ClientEvent)) (a : Ambient) (e : ClientEvent)
    → heard (es ++ (a, e) ∷ []) ≡ heard es ++ message_of e
heard-append [] a e = append-nil (message_of e)
heard-append ((b, f) ∷ es) a e =
    simp append_assoc (ap (λ ms. message_of f ++ ms) (heard-append es a e))

module _ (percent : PercentText) where
  -- The messages that the machine sends along some events.
  unfoldable pub sent_along : ClientState → List (Ambient × ClientEvent) → List Message
  sent_along s [] = []
  sent_along s ((a, e) ∷ es) =
      let outcome = do_step percent a s e in sends outcome.effects ++ sent_along outcome.state es

  pub run_client-append :
      (s : ClientState) (es : List (Ambient × ClientEvent)) (a : Ambient) (e : ClientEvent)
      → run_client percent s (es ++ (a, e) ∷ [])
        ≡ (do_step percent a (run_client percent s es) e).state
  unfolding run_client
  run_client-append s [] a e = refl
  run_client-append s ((b, f) ∷ es) a e = run_client-append (do_step percent b s f).state es a e

  pub sent_along-append :
      (s : ClientState) (es : List (Ambient × ClientEvent)) (a : Ambient) (e : ClientEvent)
      → sent_along s (es ++ (a, e) ∷ [])
        ≡ sent_along s es ++ sends (do_step percent a (run_client percent s es) e).effects
  unfolding sent_along run_client
  sent_along-append s [] a e = append-nil (sends (do_step percent a s e).effects)
  sent_along-append s ((b, f) ∷ es) a e = simp append_assoc (
      ap (λ ms. sends (do_step percent b s f).effects ++ ms)
        (sent_along-append (do_step percent b s f).state es a e))
