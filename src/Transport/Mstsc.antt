-- ===== src/Transport/Mstsc.antt =====
-- src/transport/mstsc_transport.cpp: the state, the registries of instances, and the handlers for the API of
-- mstsc. `Freerdp` has the handlers of the extended API. What the API answers is an argument.
pub mod Registry
pub mod Name
pub mod Freerdp
pub mod Dispatch
pub mod Chunks
use rdp_ext.Common.{
  ℕ, ◌/◌, ◌%◌, ◌==◌, ltb, Bool, true, false, not, List, [], ◌∷◌, ◌++◌, Option, none, some,
  if◌then◌else◌,
}
use rdp_ext.Common.Text.{Text}
use rdp_ext.Protocol.Serializer.{Buffer}
use Registry.{Instances, register_init, register_open}
use Name.{channel_def_name}

-- A pointer or a handle is its number, and 0 is `nullptr`; the flags say which handlers are set;
-- `pending_writes` holds the buffers by their addresses.
pub record MstscTransport : Type 0 where
  pub has_connected_handler : Bool
  pub has_disconnected_handler : Bool
  pub has_bytes_handler : Bool
  pub channel_name : Text
  pub init_handle : ℕ
  pub open_handle : ℕ
  pub pending_writes : List (ℕ × Buffer)

abbrev pub new : Text → MstscTransport
new channel_name = record {
  has_connected_handler = false;
  has_disconnected_handler = false;
  has_bytes_handler = false;
  channel_name = channel_name;
  init_handle = 0;
  open_handle = 0;
  pending_writes = [];
}

pub data Call : Type 0 where
  -- `pVirtualChannelWrite`: the open handle, the bytes, the user data
  channel_write : ℕ → Buffer → ℕ → Call
  -- `pVirtualChannelInit`: the name of the channel definition
  channel_init : List ℕ → Call
  call_connected call_disconnected : Call
  call_bytes : Buffer → Call
  -- a line of the log
  report : Call

abbrev pub channel_rc_ok : ℕ
channel_rc_ok = 0

unfoldable pub set_connected_handler : MstscTransport → MstscTransport
set_connected_handler t = record t { has_connected_handler = true }

unfoldable pub set_disconnected_handler : MstscTransport → MstscTransport
set_disconnected_handler t = record t { has_disconnected_handler = true }

unfoldable pub set_bytes_handler : MstscTransport → MstscTransport
set_bytes_handler t = record t { has_bytes_handler = true }

unfoldable pub close : MstscTransport → MstscTransport
close t = t

-- `send` of a Windows build; `rv` is the result of the write.
unfoldable pub send : MstscTransport → Buffer → ℕ → List Call
send t bytes rv =
    channel_write t.open_handle bytes 0 ∷ (if not (rv == channel_rc_ok) then report ∷ [] else [])

-- The answer of `pVirtualChannelInit`: the handle that it stores, and its result.
pub record InitAnswer : Type 0 where
  pub handle : ℕ
  pub rc : ℕ

-- `entry_points` is the `cbSize` behind the pointer, `none` for `nullptr`; `this` is the address of the
-- transport and `sizeof_entry_points` the size that the headers give.
unfoldable pub virtual_channel_entry :
    ℕ
    → ℕ
    → MstscTransport
    → Instances
    → Option ℕ
    → InitAnswer
    → MstscTransport × Instances × List Call × Bool
virtual_channel_entry sizeof_entry_points this t instances none answer = (t, instances, [], false)
virtual_channel_entry sizeof_entry_points this t instances (some cb_size) answer =
    if ltb cb_size sizeof_entry_points then (t, instances, [], false) else (
      record t { init_handle = answer.handle },
      register_init this answer.handle instances,
      channel_init (channel_def_name t.channel_name) ∷ [],
      answer.rc == channel_rc_ok,
    )

pub data InitEvent : Type 0 where
  event_connected event_disconnected event_terminated event_other : InitEvent

-- The answer of `pVirtualChannelOpen`.
pub record OpenAnswer : Type 0 where
  pub handle : ℕ
  pub rc : ℕ

unfoldable pub notify_connected : MstscTransport → List Call
notify_connected t = if t.has_connected_handler then call_connected ∷ [] else []

unfoldable pub on_init_event :
    ℕ → MstscTransport → Instances → InitEvent → OpenAnswer → MstscTransport × Instances × List Call
unfolding notify_connected
on_init_event this t instances event_connected answer =
    let opened = record t { open_handle = answer.handle } in
    if not (answer.rc == channel_rc_ok)
    then (opened, instances, report ∷ [])
    else (opened, register_open this opened.open_handle instances, notify_connected opened)
on_init_event this t instances event_disconnected answer =
    (t, instances, if t.has_disconnected_handler then call_disconnected ∷ [] else [])
on_init_event this t instances event_terminated answer = (t, instances, [])
on_init_event this t instances event_other answer = (t, instances, [])

pub data OpenEvent : Type 0 where
  -- the chunk and `data_flags`
  data_received : Buffer → ℕ → OpenEvent
  -- the user data
  write_complete write_cancelled : ℕ → OpenEvent
  open_other : OpenEvent

-- `data_flags & CHANNEL_FLAG_LAST`, which is 0x02.
abbrev pub is_last : ℕ → Bool
is_last data_flags = data_flags / 2 % 2 == 1

unfoldable pub receive : MstscTransport → Buffer → ℕ → List Call
receive t chunk data_flags =
    let buffer = [] ++ chunk in
    if is_last data_flags then (if t.has_bytes_handler then call_bytes buffer ∷ [] else []) else []

unfoldable pub on_open_event : MstscTransport → OpenEvent → List Call
unfolding receive
on_open_event t (data_received chunk data_flags) = receive t chunk data_flags
on_open_event t (write_complete user_data) = []
on_open_event t (write_cancelled user_data) = report ∷ []
on_open_event t open_other = []
