-- ===== src/Logic/Handshake.antt =====
-- src/logic/common/states.h, class HandshakeState.
pub mod Completion
use rdp_ext.Common.{Bool, true, false, not, Option, none, some, if◌then◌else◌}
use rdp_ext.Protocol.Message.{InstanceId, id_eq}

pub record HandshakeState : Type 0 where
  pub remote_instance_id : Option InstanceId
  pub local_hello_needed : Bool
  pub handshake_completed : Bool

abbrev pub initial : HandshakeState
initial = record {
  remote_instance_id = none;
  local_hello_needed = true;
  handshake_completed = false;
}

abbrev pub is_completed : HandshakeState → Bool
is_completed h = h.handshake_completed

abbrev pub is_local_hello_needed : HandshakeState → Bool
is_local_hello_needed h = h.local_hello_needed

unfoldable pub reset : HandshakeState → HandshakeState
reset h = record h {
  handshake_completed = false;
  local_hello_needed = true;
  remote_instance_id = none;
}

unfoldable pub local_hello_sent : HandshakeState → HandshakeState
local_hello_sent h = record h { local_hello_needed = false }

-- `remote_instance_id_ && remote_instance_id_ == remote_instance_id`.
unfoldable pub same_remote : Option InstanceId → InstanceId → Bool
same_remote none id = false
same_remote (some known) id = id_eq known id

unfoldable pub remote_hello_received : HandshakeState → InstanceId → HandshakeState
unfolding same_remote
remote_hello_received h id =
    if same_remote h.remote_instance_id id
    then record h {
      local_hello_needed = not h.handshake_completed;
      handshake_completed = true;
      remote_instance_id = some id;
    }
    else record h {
      local_hello_needed = true;
      handshake_completed = false;
      remote_instance_id = some id;
    }
