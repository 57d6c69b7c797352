-- ===== src/Logic/Client/Controller.antt =====
-- src/logic/client/controller.h. The controller's calls of its transport and its executor are the entries of
-- `calls`; a closure that it posts is a `Task`, and `run_task` is its body.
pub mod Sending
pub mod Strand
use rdp_ext.Common.{List, [], ◌∷◌, ◌++◌}
use rdp_ext.Common.Except.{Except, returned, thrown}
use rdp_ext.Logging.{LogRecord}
use rdp_ext.Protocol.Serializer.{Archive, Buffer, serialize, deserialize}
use rdp_ext.Logic.Base.{Ambient, PercentText}
use rdp_ext.Logic.Client.{
  ClientState, ClientEvent, ClientEffect, transport_connected, transport_disconnected,
  message_received, send_message, start_ping, stop_ping, close_transport, do_step,
}

pub data Task : Type 0 where
  step_connected step_disconnected : Task
  step_bytes : Buffer → Task
  send_bytes : Buffer → Task
  close : Task

pub data Call : Type 0 where
  -- `executor_.post(task)`
  post : Task → Call
  transport_send : Buffer → Call
  transport_close : Call

-- The handlers that `linkHandlers` gives to the transport.
unfoldable pub on_connected : List Call
on_connected = post step_connected ∷ []

unfoldable pub on_disconnected : List Call
on_disconnected = post step_disconnected ∷ []

unfoldable pub on_bytes : Buffer → List Call
on_bytes bytes = post (step_bytes bytes) ∷ []

-- The machine after a task, the calls that it made, its log, and whether it threw.
pub record TaskOutcome : Type 0 where
  pub state : ClientState
  pub calls : List Call
  pub logs : List LogRecord
  pub result : Except (Unit {0})

module _ (percent : PercentText) (archive : Archive) where
  post_serialized : Except Buffer → List Call × Except (Unit {0})
  post_serialized (returned bytes) = (post (send_bytes bytes) ∷ [], returned tt)
  post_serialized (thrown what) = ([], thrown what)

  unfoldable pub handle_effect : ClientEffect → List Call × Except (Unit {0})
  unfolding post_serialized
  handle_effect (send_message message) = post_serialized (serialize archive message)
  handle_effect start_ping = ([], returned tt)
  handle_effect stop_ping = ([], returned tt)
  handle_effect close_transport = (post close ∷ [], returned tt)

  -- An exception ends the loop, behind the calls that were made.
  unfoldable pub handle_effects : List ClientEffect → List Call × Except (Unit {0})
  unfolding handle_effect
  handle_effects [] = ([], returned tt)
  handle_effects (effect ∷ effects) =
      let (calls, result) = handle_effect effect in
      let rest = handle_effects effects in
      elim result [ returned _ ↦ (calls ++ rest.0, rest.1) | thrown what ↦ (calls, thrown what) ]

  unfoldable pub step : Ambient → ClientState → ClientEvent → TaskOutcome
  step ambient s event =
      let outcome = do_step percent ambient s event in
      let (calls, result) = handle_effects outcome.effects in
      record { state = outcome.state; calls = calls; logs = outcome.logs; result = result }

  unfoldable pub run_task : Ambient → ClientState → Task → TaskOutcome
  unfolding step
  run_task ambient s step_connected = step ambient s transport_connected
  run_task ambient s step_disconnected = step ambient s transport_disconnected
  run_task ambient s (step_bytes bytes) = elim (deserialize archive bytes) [
    | returned message ↦ step ambient s (message_received message)
    | thrown what ↦ record { state = s; calls = []; logs = []; result = thrown what }
  ]
  run_task ambient s (send_bytes bytes) = record {
    state = s;
    calls = transport_send bytes ∷ [];
    logs = [];
    result = returned tt;
  }
  run_task ambient s close = record {
    state = s;
    calls = transport_close ∷ [];
    logs = [];
    result = returned tt;
  }
