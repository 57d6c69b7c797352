-- ===== src/Logic/Server/Controller.antt =====
-- src/logic/server/controller.h. The controller's calls of its transport, its telemetry and its executor are the entries of
-- `calls`; a closure that it posts is a `Task`, and `run_task` is its body.
pub mod Sending
pub mod Strand
use rdp_ext.Common.{List, [], ◌∷◌, ◌++◌}
use rdp_ext.Common.Except.{Except, returned, thrown}
use rdp_ext.Logging.{LogRecord}
use rdp_ext.Protocol.Serializer.{Archive, Buffer, serialize, deserialize}
use rdp_ext.Telemetry.Sample.{CpuSample}
use rdp_ext.Logic.Base.{Ambient}
use rdp_ext.Logic.Server.{
  ServerState, ServerEvent, ServerEffect, transport_connected, transport_disconnected,
  message_received, cpu_sample_ready, send_message, start_telemetry_timer, stop_telemetry_timer,
  close_transport, do_step,
}

pub data Task : Type 0 where
  step_connected step_disconnected : Task
  step_bytes : Buffer → Task
  step_sample : CpuSample → Task
  send_bytes : Buffer → Task
  close : Task

pub data Call : Type 0 where
  -- `executor_.post(task)`
  post : Task → Call
  transport_send : Buffer → Call
  transport_close : Call
  telemetry_start telemetry_stop : Call

-- The handlers that `linkHandlers` gives to the telemetry and the transport.
unfoldable pub on_sample : CpuSample → List Call
on_sample sample = post (step_sample sample) ∷ []

unfoldable pub on_connected : List Call
on_connected = post step_connected ∷ []

unfoldable pub on_disconnected : List Call
on_disconnected = post step_disconnected ∷ []

unfoldable pub on_bytes : Buffer → List Call
on_bytes bytes = post (step_bytes bytes) ∷ []

-- The machine after a task, the calls that it made, its log, and whether it threw.
pub record TaskOutcome : Type 0 where
  pub state : ServerState
  pub calls : List Call
  pub logs : List LogRecord
  pub result : Except (Unit {0})

module _ (archive : Archive) where
  post_serialized : Except Buffer → List Call × Except (Unit {0})
  post_serialized (returned bytes) = (post (send_bytes bytes) ∷ [], returned tt)
  post_serialized (thrown what) = ([], thrown what)

  -- `telemetry_.start()` may throw: what it does is the parameter `started`.
  unfoldable pub handle_effect : Except (Unit {0}) → ServerEffect → List Call × Except (Unit {0})
  unfolding post_serialized
  handle_effect started (send_message message) = post_serialized (serialize archive message)
  handle_effect started start_telemetry_timer = (telemetry_start ∷ [], started)
  handle_effect started stop_telemetry_timer = (telemetry_stop ∷ [], returned tt)
  handle_effect started close_transport = (post close ∷ [], returned tt)

  -- An exception ends the loop, behind the calls that were made.
  unfoldable pub handle_effects :
      Except (Unit {0}) → List ServerEffect → List Call × Except (Unit {0})
  unfolding handle_effect
  handle_effects started [] = ([], returned tt)
  handle_effects started (effect ∷ effects) =
      let (calls, result) = handle_effect started effect in
      let rest = handle_effects started effects in
      elim result [ returned _ ↦ (calls ++ rest.0, rest.1) | thrown what ↦ (calls, thrown what) ]

  unfoldable pub step : Except (Unit {0}) → Ambient → ServerState → ServerEvent → TaskOutcome
  step started ambient s event =
      let outcome = do_step ambient s event in
      let (calls, result) = handle_effects started outcome.effects in
      record { state = outcome.state; calls = calls; logs = outcome.logs; result = result }

  unfoldable pub run_task : Except (Unit {0}) → Ambient → ServerState → Task → TaskOutcome
  unfolding step
  run_task started ambient s step_connected = step started ambient s transport_connected
  run_task started ambient s step_disconnected = step started ambient s transport_disconnected
  run_task started ambient s (step_bytes bytes) = elim (deserialize archive bytes) [
    | returned message ↦ step started ambient s (message_received message)
    | thrown what ↦ record { state = s; calls = []; logs = []; result = thrown what }
  ]
  run_task started ambient s (step_sample sample) = step started ambient s (cpu_sample_ready sample)
  run_task started ambient s (send_bytes bytes) = record {
    state = s;
    calls = transport_send bytes ∷ [];
    logs = [];
    result = returned tt;
  }
  run_task started ambient s close = record {
    state = s;
    calls = transport_close ∷ [];
    logs = [];
    result = returned tt;
  }
