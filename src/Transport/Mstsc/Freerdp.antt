-- ===== src/Transport/Mstsc/Freerdp.antt =====
-- src/transport/mstsc_transport.cpp, the handlers for the extended API of FreeRDP, and the thunks of both.
pub mod Writes
use rdp_ext.Common.{
  ℕ, ◌==◌, ltb, Bool, false, not, List, [], ◌∷◌, Option, none, some, if◌then◌else◌,
}
use rdp_ext.Protocol.Serializer.{Buffer}
use rdp_ext.Transport.Mstsc.Registry.{
  Instances, register_init, register_open, find_by_init, find_by_open,
}
use rdp_ext.Transport.Mstsc.Name.{channel_def_name}
use rdp_ext.Transport.Mstsc.{
  MstscTransport, Call, channel_write, channel_init, call_disconnected, report, channel_rc_ok,
  InitEvent, event_connected, event_disconnected, event_terminated, event_other, OpenAnswer,
  OpenEvent, data_received, write_complete, write_cancelled, open_other, notify_connected, receive,
}

-- `pending_writes_.emplace`, which keeps an entry that is there, and `pending_writes_.erase`.
unfoldable pub emplace : ℕ → Buffer → List (ℕ × Buffer) → List (ℕ × Buffer)
emplace address bytes [] = (address, bytes) ∷ []
emplace address bytes ((a, b) ∷ m) =
    if a == address then (a, b) ∷ m else (a, b) ∷ emplace address bytes m

unfoldable pub erase : ℕ → List (ℕ × Buffer) → List (ℕ × Buffer)
erase address [] = []
erase address ((a, b) ∷ m) =
    let rest = erase address m in if a == address then rest else (a, b) ∷ rest

-- The user data that `send` passes with a write: `nullptr`.
abbrev pub write_user_data : ℕ
write_user_data = 0

-- `address` is that of the buffer that the call makes, `rv` the result of the write.
unfoldable pub send_ex : MstscTransport → ℕ → Buffer → ℕ → MstscTransport × List Call
unfolding emplace erase
send_ex t address bytes rv =
    let kept = record t { pending_writes = emplace address bytes t.pending_writes } in
    let write = channel_write t.open_handle bytes write_user_data in
    if not (rv == channel_rc_ok)
    then (record kept { pending_writes = erase address kept.pending_writes }, write ∷ report ∷ [])
    else (kept, write ∷ [])

-- What the code reads of the entry points.
pub record EntryPointsEx : Type 0 where
  pub cb_size : ℕ
  pub magic_number : ℕ

-- The sizes and the magic number that the headers give.
pub record Headers : Type 0 where
  pub sizeof_entry_points_ex : ℕ
  pub channel_magic_number : ℕ

-- `rc` is the result of `pVirtualChannelInitEx`.
unfoldable pub virtual_channel_entry_ex :
    Headers
    → ℕ
    → MstscTransport
    → Instances
    → Option EntryPointsEx
    → ℕ
    → ℕ
    → MstscTransport × Instances × List Call × Bool
virtual_channel_entry_ex headers this t instances none init_handle rc = (t, instances, [], false)
virtual_channel_entry_ex headers this t instances (some entry) init_handle rc =
    if ltb entry.cb_size headers.sizeof_entry_points_ex
    then (t, instances, [], false)
    else (if not (entry.magic_number == headers.channel_magic_number)
        then (t, instances, [], false)
        else (
          record t { init_handle = init_handle },
          register_init this init_handle instances,
          channel_init (channel_def_name t.channel_name) ∷ [],
          rc == channel_rc_ok,
        ))

unfoldable pub on_init_event_ex :
    ℕ → MstscTransport → Instances → InitEvent → OpenAnswer → MstscTransport × Instances × List Call
unfolding notify_connected
on_init_event_ex this t instances event_connected answer =
    let opened = record t { open_handle = answer.handle } in
    if not (answer.rc == channel_rc_ok)
    then (opened, instances, report ∷ [])
    else (opened, register_open this opened.open_handle instances, notify_connected opened)
on_init_event_ex this t instances event_disconnected answer =
    (t, instances, if t.has_disconnected_handler then call_disconnected ∷ [] else [])
on_init_event_ex this t instances event_terminated answer = (t, instances, [])
on_init_event_ex this t instances event_other answer = (t, instances, [])

unfoldable pub on_open_event_ex : MstscTransport → OpenEvent → MstscTransport × List Call
unfolding receive erase
on_open_event_ex t (data_received chunk data_flags) = (t, receive t chunk data_flags)
on_open_event_ex t (write_complete user_data) =
    (record t { pending_writes = erase user_data t.pending_writes }, [])
on_open_event_ex t (write_cancelled user_data) =
    (record t { pending_writes = erase user_data t.pending_writes }, [])
on_open_event_ex t open_other = (t, [])

-- The instance whose handler a thunk calls, if any: `InitEventThunk` and `InitEventThunkEx`, and
-- `OpenEventThunk` and `OpenEventThunkEx`.
unfoldable pub init_event_thunk : Instances → ℕ → Option ℕ
init_event_thunk instances init_handle =
    let self = find_by_init init_handle instances in if self == 0 then none else some self

unfoldable pub open_event_thunk : Instances → ℕ → Option ℕ
open_event_thunk instances open_handle =
    let self = find_by_open open_handle instances in if self == 0 then none else some self
