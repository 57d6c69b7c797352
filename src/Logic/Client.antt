-- ===== src/Logic/Client.antt =====
-- src/logic/client/state_machine.cpp. Each handler returns the machine's state, the effects and the log.
pub mod Invariant
pub mod Wire
pub mod Requests
pub mod Controller
pub mod History
pub mod Lines
pub mod Process
use rdp_ext.Common.{◌%◌, ◌^◌, ◌==◌, Bool, true, false, not, List, [], ◌∷◌, ◌++◌, if◌then◌else◌}
use rdp_ext.Common.Text.{Text, text, decimal}
use rdp_ext.Logging.{Logger, make_logger, log_info, log_error}
use rdp_ext.Protocol.Message.{
  PingMessage, PongMessage, InstanceId, Message, HelloMessage, ErrorMessage, CpuSampleMessage,
  error, hello, capability_set, telemetry_start, cpu_sample, ping, pong, protocol_version,
}
use rdp_ext.Protocol.Factory.{
  make_hello, make_telemetry_start, make_ping, make_wrong_protocol_version_error,
  make_unsupported_message_type_error,
}
use rdp_ext.Logic.Base.{
  ConnectionState, disconnected, awaiting_handshake, Ambient, generate_random_value, PercentText,
  Outcome,
}
use rdp_ext.Logic.Handshake.{HandshakeState}
use rdp_ext.Logic.Handshake

pub record ClientState : Type 0 where
  pub connection_state : ConnectionState
  pub handshake_state : HandshakeState
  pub instance_id : InstanceId
  pub telemetry_requested : Bool

pub data ClientEvent : Type 0 where
  transport_connected : ClientEvent
  transport_disconnected : ClientEvent
  message_received : Message → ClientEvent
  ping_request : ClientEvent

pub data ClientEffect : Type 0 where
  send_message : Message → ClientEffect
  start_ping stop_ping close_transport : ClientEffect

abbrev pub ClientOutcome : Type 0
ClientOutcome = Outcome ClientState ClientEffect

-- The constructor: `state_{}`.
abbrev pub initial : ClientState
initial = record {
  connection_state = disconnected;
  handshake_state = Handshake.initial;
  instance_id = record { timestamp = 0; id = 0 };
  telemetry_requested = false;
}

unfoldable pub logger : Logger
logger = make_logger (text "server-state-machine")

unfoldable pub generate_random_instance_id : Ambient → InstanceId
generate_random_instance_id ambient = record {
  timestamp = ambient.now % 2 ^ 64;
  id = generate_random_value ambient;
}

abbrev pub make_single_message_effect : Message → List ClientEffect
make_single_message_effect message = send_message message ∷ []

unfoldable pub on_transport_connected : ClientState → Ambient → ClientOutcome
unfolding Handshake.reset Handshake.local_hello_sent
on_transport_connected s ambient =
    let instance_id = generate_random_instance_id ambient in
    record {
      state = record {
        connection_state = awaiting_handshake;
        telemetry_requested = false;
        instance_id = instance_id;
        handshake_state = Handshake.local_hello_sent (Handshake.reset s.handshake_state);
      };
      effects = stop_ping ∷ send_message (make_hello instance_id) ∷ [];
      logs = log_info logger (text "Transport connected. Sending Hello message") ∷ [];
    }

unfoldable pub on_transport_disconnected : ClientState → ClientOutcome
unfolding Handshake.reset
on_transport_disconnected s = record {
  state = record s {
    connection_state = disconnected;
    telemetry_requested = false;
    handshake_state = Handshake.reset s.handshake_state;
  };
  effects = stop_ping ∷ [];
  logs = log_info logger (text "Transport disconnected") ∷ [];
}

unfoldable pub on_ping_request : ClientState → Ambient → ClientOutcome
on_ping_request s ambient = record {
  state = s;
  effects =
      if not (Handshake.is_completed s.handshake_state)
      then []
      else make_single_message_effect (make_ping (generate_random_value ambient));
  logs = [];
}

unfoldable pub handle_error : ClientState → ErrorMessage → ClientOutcome
handle_error s message = record {
  state = s;
  effects = [];
  logs =
      log_error logger (
        text "error message received. Code: "
        ++ decimal message.code
        ++ text ", message: "
        ++ message.message)
      ∷ [];
}

-- `if (isLocalHelloNeeded()) { localHelloSent(); … send Hello }`.
unfoldable pub answer_hello : ClientState → ClientOutcome
unfolding Handshake.local_hello_sent
answer_hello s =
    if Handshake.is_local_hello_needed s.handshake_state
    then record {
      state = record s { handshake_state = Handshake.local_hello_sent s.handshake_state };
      effects = send_message (make_hello s.instance_id) ∷ [];
      logs = log_info logger (text "Sending Hello message") ∷ [];
    }
    else record { state = s; effects = []; logs = [] }

-- `if (isCompleted()) { … request telemetry once } else { telemetry_requested = false }`.
unfoldable pub request_telemetry : ClientState → ClientOutcome
request_telemetry s =
    if Handshake.is_completed s.handshake_state
    then (if not s.telemetry_requested
        then record {
          state = record s { telemetry_requested = true };
          effects = send_message make_telemetry_start ∷ [];
          logs =
              log_info logger (text "Handshake completed")
              ∷ log_info logger (text "Requesting CPU load messages")
              ∷ [];
        }
        else record {
          state = s;
          effects = [];
          logs = log_info logger (text "Handshake completed") ∷ [];
        })
    else record { state = record s { telemetry_requested = false }; effects = []; logs = [] }

-- The part of the handler behind the test of the version.
unfoldable pub accept_hello : ClientState → HelloMessage → ClientOutcome
unfolding answer_hello request_telemetry Handshake.remote_hello_received
accept_hello s message =
    let received = record s {
      handshake_state = Handshake.remote_hello_received s.handshake_state message.instance_id;
    } in
    let answered = answer_hello received in
    let requested = request_telemetry answered.state in
    record {
      state = requested.state;
      effects = answered.effects ++ requested.effects;
      logs = answered.logs ++ requested.logs;
    }

unfoldable pub refuse_hello : ClientState → ClientOutcome
unfolding Handshake.reset
refuse_hello s = record {
  state = record s { handshake_state = Handshake.reset s.handshake_state };
  effects = make_single_message_effect (make_wrong_protocol_version_error protocol_version);
  logs =
      log_error logger (
        text
          "Handshake failed: unsupported protocol version. Client protocol version 0x{:04X}, required version 0x{:04X} ")
      ∷ [];
}

unfoldable pub handle_hello : ClientState → HelloMessage → ClientOutcome
unfolding accept_hello refuse_hello
handle_hello s message =
    let outcome : ClientOutcome =
      if not (message.protocol_version == protocol_version)
      then refuse_hello s
      else accept_hello s message in
    record outcome { logs = log_info logger (text "Hello message arrived") ∷ outcome.logs }

-- The handlers of the messages that a server does not send.
unfoldable pub handle_unsupported : ClientState → Text → ClientOutcome
handle_unsupported s message_type = record {
  state = s;
  effects = make_single_message_effect (make_unsupported_message_type_error message_type);
  logs = [];
}

unfoldable pub handle_cpu_sample : PercentText → ClientState → CpuSampleMessage → ClientOutcome
handle_cpu_sample percent s message = record {
  state = s;
  effects = [];
  logs = log_info logger (text "Server CPU load " ++ percent message.cpu_load ++ text "%") ∷ [];
}

abbrev handle_ping : ClientState → PingMessage → ClientOutcome
handle_ping s message = handle_unsupported s (text "PingMessage")

abbrev handle_pong : ClientState → PongMessage → ClientOutcome
handle_pong s message = record { state = s; effects = []; logs = [] }

unfoldable pub handle_message : PercentText → ClientState → Message → ClientOutcome
unfolding handle_hello handle_error handle_unsupported handle_cpu_sample
handle_message percent s (error message) = handle_error s message
handle_message percent s (hello message) = handle_hello s message
handle_message percent s (capability_set message) =
    handle_unsupported s (text "CapabilitySetMessage")
handle_message percent s telemetry_start = handle_unsupported s (text "TelemetryStartMessage")
handle_message percent s (cpu_sample message) = handle_cpu_sample percent s message
handle_message percent s (ping message) = handle_ping s message
handle_message percent s (pong message) = handle_pong s message

unfoldable pub do_step : PercentText → Ambient → ClientState → ClientEvent → ClientOutcome
unfolding on_transport_connected on_transport_disconnected on_ping_request handle_message
do_step percent ambient s transport_connected = on_transport_connected s ambient
do_step percent ambient s transport_disconnected = on_transport_disconnected s
do_step percent ambient s (message_received message) = handle_message percent s message
do_step percent ambient s ping_request = on_ping_request s ambient
