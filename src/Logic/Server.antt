-- ===== src/Logic/Server.antt =====
-- src/logic/server/state_machine.cpp. Each handler returns the machine's state, the effects and the log.
pub mod Invariant
pub mod Wire
pub mod Controller
pub mod Samples
pub mod Sampled
pub mod History
pub mod Reporting
use rdp_ext.Common.{
  ◌%◌, ◌^◌, ◌==◌, Bool, true, false, not, ◌||◌, List, [], ◌∷◌, ◌++◌, if◌then◌else◌,
}
use rdp_ext.Common.Text.{Text, text, decimal}
use rdp_ext.Logging.{Logger, make_logger, log_info, log_error}
use rdp_ext.Protocol.Message.{
  CapabilitySetMessage, PongMessage, InstanceId, Message, HelloMessage, ErrorMessage, PingMessage,
  error, hello, capability_set, telemetry_start, cpu_sample, ping, pong, protocol_version,
}
use rdp_ext.Protocol.Factory.{
  make_hello, make_cpu_sample, make_pong, make_wrong_protocol_version_error,
  make_unsupported_message_type_error,
}
use rdp_ext.Telemetry.Sample.{CpuSample}
use rdp_ext.Logic.Base.{
  ConnectionState, disconnected, awaiting_handshake, Ambient, generate_random_value, Outcome,
}
use rdp_ext.Logic.Handshake.{HandshakeState}
use rdp_ext.Logic.Handshake

pub record ServerState : Type 0 where
  pub connection_state : ConnectionState
  pub handshake_state : HandshakeState
  pub instance_id : InstanceId
  pub telemetry_enabled : Bool

pub data ServerEvent : Type 0 where
  transport_connected : ServerEvent
  transport_disconnected : ServerEvent
  message_received : Message → ServerEvent
  cpu_sample_ready : CpuSample → ServerEvent

pub data ServerEffect : Type 0 where
  send_message : Message → ServerEffect
  start_telemetry_timer stop_telemetry_timer close_transport : ServerEffect

abbrev pub ServerOutcome : Type 0
ServerOutcome = Outcome ServerState ServerEffect

-- The constructor: `state_{}`.
abbrev pub initial : ServerState
initial = record {
  connection_state = disconnected;
  handshake_state = Handshake.initial;
  instance_id = record { timestamp = 0; id = 0 };
  telemetry_enabled = false;
}

unfoldable pub logger : Logger
logger = make_logger (text "server-state-machine")

unfoldable pub generate_random_instance_id : Ambient → InstanceId
generate_random_instance_id ambient = record {
  timestamp = ambient.now % 2 ^ 64;
  id = generate_random_value ambient;
}

abbrev pub make_single_message_effect : Message → List ServerEffect
make_single_message_effect message = send_message message ∷ []

unfoldable pub on_transport_connected : ServerState → Ambient → ServerOutcome
unfolding Handshake.reset Handshake.local_hello_sent
on_transport_connected s ambient =
    let instance_id = generate_random_instance_id ambient in
    record {
      state = record {
        connection_state = awaiting_handshake;
        telemetry_enabled = false;
        instance_id = instance_id;
        handshake_state = Handshake.local_hello_sent (Handshake.reset s.handshake_state);
      };
      effects = stop_telemetry_timer ∷ send_message (make_hello instance_id) ∷ [];
      logs = log_info logger (text "Transport connected. Sending Hello message") ∷ [];
    }

unfoldable pub on_transport_disconnected : ServerState → ServerOutcome
unfolding Handshake.reset
on_transport_disconnected s = record {
  state = record s {
    connection_state = disconnected;
    telemetry_enabled = false;
    handshake_state = Handshake.reset s.handshake_state;
  };
  effects = stop_telemetry_timer ∷ [];
  logs = log_info logger (text "Transport disconnected") ∷ [];
}

unfoldable pub on_cpu_sample_ready : ServerState → CpuSample → ServerOutcome
on_cpu_sample_ready s sample = record {
  state = s;
  effects =
      if not s.telemetry_enabled || not (Handshake.is_completed s.handshake_state)
      then []
      else make_single_message_effect (make_cpu_sample sample.cpu_load);
  logs = [];
}

unfoldable pub handle_error : ServerState → ErrorMessage → ServerOutcome
handle_error s message = record {
  state = s;
  effects = [];
  logs =
      log_error logger (
        text "error message received. Code: "
        ++ decimal message.code
        ++ text ", message: "
        ++ message.message)
      ∷ [];
}

-- `if (isLocalHelloNeeded()) { localHelloSent(); … send Hello }`.
unfoldable pub answer_hello : ServerState → ServerOutcome
unfolding Handshake.local_hello_sent
answer_hello s =
    if Handshake.is_local_hello_needed s.handshake_state
    then record {
      state = record s { handshake_state = Handshake.local_hello_sent s.handshake_state };
      effects = send_message (make_hello s.instance_id) ∷ [];
      logs = log_info logger (text "Sending Hello message") ∷ [];
    }
    else record { state = s; effects = []; logs = [] }

-- `if (isCompleted()) … else { telemetry_enabled = false; … stop the timer }`.
unfoldable pub settle_telemetry : ServerState → ServerOutcome
settle_telemetry s =
    if Handshake.is_completed s.handshake_state
    then record {
      state = s;
      effects = [];
      logs = log_info logger (text "Handshake completed") ∷ [];
    }
    else record {
      state = record s { telemetry_enabled = false };
      effects = stop_telemetry_timer ∷ [];
      logs = [];
    }

-- The part of the handler behind the test of the version.
unfoldable pub accept_hello : ServerState → HelloMessage → ServerOutcome
unfolding answer_hello settle_telemetry Handshake.remote_hello_received
accept_hello s message =
    let received = record s {
      handshake_state = Handshake.remote_hello_received s.handshake_state message.instance_id;
    } in
    let answered = answer_hello received in
    let settled = settle_telemetry answered.state in
    record {
      state = settled.state;
      effects = answered.effects ++ settled.effects;
      logs = answered.logs ++ settled.logs;
    }

unfoldable pub refuse_hello : ServerState → ServerOutcome
unfolding Handshake.reset
refuse_hello s = record {
  state = record s { handshake_state = Handshake.reset s.handshake_state };
  effects = make_single_message_effect (make_wrong_protocol_version_error protocol_version);
  logs =
      log_error logger (
        text
          "Handshake failed: unsupported protocol version. Client protocol version 0x{:04X}, required version 0x{:04X} ")
      ∷ [];
}

unfoldable pub handle_hello : ServerState → HelloMessage → ServerOutcome
unfolding accept_hello refuse_hello
handle_hello s message =
    let outcome : ServerOutcome =
      if not (message.protocol_version == protocol_version)
      then refuse_hello s
      else accept_hello s message in
    record outcome { logs = log_info logger (text "Hello message arrived") ∷ outcome.logs }

unfoldable pub handle_telemetry_start : ServerState → ServerOutcome
handle_telemetry_start s = record {
  state = record s { telemetry_enabled = true };
  effects = start_telemetry_timer ∷ [];
  logs = log_info logger (text "Start sending CPU load") ∷ [];
}

-- The handlers of the messages that a client does not send.
unfoldable pub handle_unsupported : ServerState → Text → ServerOutcome
handle_unsupported s message_type = record {
  state = s;
  effects = make_single_message_effect (make_unsupported_message_type_error message_type);
  logs = [];
}

unfoldable pub handle_ping : ServerState → PingMessage → ServerOutcome
handle_ping s message = record {
  state = s;
  effects = make_single_message_effect (make_pong message.id);
  logs = [];
}

abbrev handle_capability_set : ServerState → CapabilitySetMessage → ServerOutcome
handle_capability_set s message = record { state = s; effects = []; logs = [] }

abbrev handle_pong : ServerState → PongMessage → ServerOutcome
handle_pong s message = handle_unsupported s (text "PongMessage")

unfoldable pub handle_message : ServerState → Message → ServerOutcome
unfolding handle_hello handle_error handle_telemetry_start handle_unsupported handle_ping
handle_message s (error message) = handle_error s message
handle_message s (hello message) = handle_hello s message
handle_message s (capability_set message) = handle_capability_set s message
handle_message s telemetry_start = handle_telemetry_start s
handle_message s (cpu_sample message) = handle_unsupported s (text "CpuSampleMessage")
handle_message s (ping message) = handle_ping s message
handle_message s (pong message) = handle_pong s message

unfoldable pub do_step : Ambient → ServerState → ServerEvent → ServerOutcome
unfolding on_transport_connected on_transport_disconnected on_cpu_sample_ready handle_message
do_step ambient s transport_connected = on_transport_connected s ambient
do_step ambient s transport_disconnected = on_transport_disconnected s
do_step ambient s (message_received message) = handle_message s message
do_step ambient s (cpu_sample_ready sample) = on_cpu_sample_ready s sample
